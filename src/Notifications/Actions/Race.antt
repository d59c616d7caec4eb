-- ===== src/Notifications/Actions/Race.antt =====
-- What happens between a click and its answer is lost.
use ntfy.Base.{
  String, ◌≡◌, refl, ◌∙◌, ap, true, ◌&&◌, Option, none, some, is_some, ◌==◌, eq_refl, if◌then◌else◌,
  arith,
}
use ntfy.Dexie.{map_option, change_if}
use ntfy.Model.{Action, Notification}
use ntfy.Database.{Dexie, Db, notification}
use ntfy.Subscriptions.{mark_notification_read, with_new}
use ntfy.Notifications.Actions.{
  Outcome, ongoing, with_status, with_actions, begin_http_action, end_http_action,
}
use ntfy.Notifications.Actions.Laws.{get-update_action_status, end_http_action_lem}

module _ (d : Dexie) where
  open d use {notifications as N}

  begin_http_action_lem :
      (n : Notification) (a : Action) (db : Db d) (k : String)
      → notification d (begin_http_action d n a db) k ≡ (
          if n.message.id == k && is_some (notification d db k)
          then some (with_actions (with_status a.id ongoing none) n)
          else notification d db k)
  unfolding begin_http_action
  begin_http_action_lem n a db k = get-update_action_status d n a ongoing none db k

  is_some-begin_http_action :
      (n : Notification) (a : Action) (db : Db d) (k : String)
      → is_some (notification d (begin_http_action d n a db) k) ≡ is_some (notification d db k)
  is_some-begin_http_action n a db k = ground (arith, begin_http_action_lem n a db k)

  is_some-end_http_action :
      (n : Notification) (a : Action) (outcome : Outcome) (db : Db d) (k : String)
      → is_some (notification d (end_http_action d n a outcome db) k)
        ≡ is_some (notification d db k)
  is_some-end_http_action n a outcome db k = ground (arith, end_http_action_lem d n a outcome db k)

  is_some-mark_notification_read :
      (id : String) (db : Db d) (k : String)
      → is_some (notification d (mark_notification_read d id db) k) ≡ is_some (notification d db k)
  unfolding mark_notification_read
  is_some-mark_notification_read id db k =
      ap is_some
        (N.get-modify_where db.notifications (λ n. n.message.id == id) (with_new 0) k (λ n. refl))
      ∙ kept (notification d db k)
    where
      kept :
          (o : Option Notification)
          → is_some (map_option (change_if (λ n. n.message.id == id) (with_new 0)) o) ≡ is_some o
      kept none = refl
      kept (some n) = refl

  -- A notification that is displayed as new, and is marked as read while an action of it is under way,
  -- is new again when the answer comes.
  pub new_again :
      (n : Notification) (a : Action) (outcome : Outcome) (db : Db d)
      → notification d db n.message.id ≡ some n
      → n.new ≡ some 1
      → let db' = mark_notification_read d n.message.id (begin_http_action d n a db) in
        map_option
          (λ (n : Notification). n.new)
          (notification d (end_http_action d n a outcome db') n.message.id)
        ≡ some (some 1)
  new_again n a outcome db there new =
      let db' = mark_notification_read d n.message.id (begin_http_action d n a db) in
      let still : is_some (notification d db' n.message.id) ≡ true =
        is_some-mark_notification_read n.message.id (begin_http_action d n a db) n.message.id
        ∙ is_some-begin_http_action n a db n.message.id
        ∙ ap is_some there in
      ground (arith, end_http_action_lem d n a outcome db' n.message.id, eq_refl n.message.id)

  -- An action `b` that is clicked while another one `a` of the same notification is under way, and is
  -- answered before it, leaves no trace: the database is as if `b` had not been clicked.
  pub other_action_lost :
      (n n' : Notification) (a b : Action) (outcome outcome' : Outcome) (db : Db d) (k : String)
      → n'.message.id ≡ n.message.id
      → let db' = begin_http_action d n a db in
        notification d
          (end_http_action d n a outcome
            (end_http_action d n' b outcome' (begin_http_action d n' b db')))
          k
        ≡ notification d (end_http_action d n a outcome db') k
  other_action_lost n n' a b outcome outcome' db k same =
      let db' = begin_http_action d n a db in
      let db'' = begin_http_action d n' b db' in
      ground (
        arith,
        end_http_action_lem d n a outcome (end_http_action d n' b outcome' db'') k,
        end_http_action_lem d n a outcome db' k,
        end_http_action_lem d n' b outcome' db'' k,
        begin_http_action_lem n' b db' k,
      )
