-- ===== src/Subscriptions/Notifications.antt =====
-- Adding notifications, and reading them.
use ntfy.Base.{
  String, ◌≡◌, refl, sym, ◌∙◌, ◌≢◌, false, not, ◌&&◌, Option, none, some, is_some, ◌==◌, eq_iff,
  eq_refl, if◌then◌else◌, arith,
}
use ntfy.Dexie.{map_option, change_if}
use ntfy.Dexie.Laws.{count_where_none}
use ntfy.Model.{Message, Notification}
use ntfy.Database.{Dexie, Db, subscription, notification}
use ntfy.Subscriptions.{
  unread, is_unread, with_last, with_new, update, add_notification, mark_notifications_read,
}
use ntfy.Subscriptions.Sync.{or_else}

module _ (d : Dexie) where
  open d use {subscriptions as S, notifications as N}

  -- Adding a message answers whether its id was not there yet. If it was, nothing changes; if not, the
  -- message is there, marked as new, and is the last one of its subscription. No other notification and
  -- no other subscription changes.
  pub add_notification_lem :
      (s : String) (m : Message) (db : Db d) (k : String)
      → let fresh = not (is_some (notification d db m.id)) in
        let (db', added) = add_notification d s m db in
        (added ≡ fresh)
        × (notification d db' k
            ≡ or_else (notification d db k) (if m.id == k then some (unread s m) else none))
        × (subscription d db' k ≡ (
            if fresh && s == k
            then map_option (with_last m.id) (subscription d db k)
            else subscription d db k))
  unfolding add_notification update
  add_notification_lem s m db k = ground (
    arith,
    N.add_lem db.notifications (unread s m),
    N.get-put db.notifications (unread s m) k,
    eq_iff m.id k,
    S.get-update db.subscriptions s k (with_last m.id) (λ x. refl),
  )

  -- The second time the same message changes nothing, and the answer is false.
  pub add_notification_twice :
      (s : String) (m : Message) (db : Db d)
      → add_notification d s m (add_notification d s m db).0
        ≡ ((add_notification d s m db).0, false)
  unfolding add_notification update
  add_notification_twice s m db = ground (
    arith,
    N.add_lem db.notifications (unread s m),
    N.get-put db.notifications (unread s m) m.id,
    eq_refl m.id,
  )

  -- After marking a subscription as read it has no unread notification, and every notification of
  -- another subscription is as it was.
  pub mark_notifications_read_lem :
      (s : String) (db : Db d)
      → (N.count_where (mark_notifications_read d s db).notifications (is_unread s) ≡ 0)
        × ((k : String) (n : Notification)
            → notification d db k ≡ some n
            → n.subscription_id ≢ s
            → notification d (mark_notifications_read d s db) k ≡ some n)
  unfolding mark_notifications_read
  mark_notifications_read_lem s db = (
    count_where_none N _ (is_unread s) (λ k r e.
        read_now (notification d db k) r
          (sym (N.get-modify_where db.notifications (is_unread s) (with_new 0) k (λ x. refl)) ∙ e)),
    λ k n e ne.
        N.get-modify_where db.notifications (is_unread s) (with_new 0) k (λ x. refl)
        ∙ (rw e (ground (arith, eq_iff n.subscription_id s))),
  )
    where
      read_now :
          (o : Option Notification) (r : Notification)
          → map_option (change_if (is_unread s) (with_new 0)) o ≡ some r
          → is_unread s r ≡ false
      read_now none r e = cc
      read_now (some n) r e = ground arith
