-- ===== src/Subscriptions/Owners.antt =====
-- Every notification belongs to a subscription that is there.
use ntfy.Base.{
  false, Bool-cases, String, ◌≡◌, refl, sym, ◌∙◌, ap, ◌⊎◌, subst, Bool, true, false, not, ◌&&◌,
  Option, none, some, List, [], ◌∷◌, map, is_some, ◌==◌, eq_iff, arith, Option-cases, inl, inr,
  get_last?,
}
use ntfy.Dexie.{unless, map_option, change_if, KeepsKey}
use ntfy.Dexie.Laws.{holds_of, latest, get-bulk_put}
use ntfy.Model.{Config, Subscription, Reservation, Message, Notification}
use ntfy.Database.{Dexie, Db, subscription, notification}
use ntfy.Subscriptions.{
  update_notification, Options, Remote, with_last, with_new, update, add, remove, sync_from_remote,
  add_notification, add_notifications,
}
use ntfy.Subscriptions.Sync.{
  get-add, notifications-add, is_remote, subscription-sync, notification-sync,
}
use ntfy.Subscriptions.Notifications.{add_notification_lem}

module _ (d : Dexie) where
  open d use {subscriptions as S, notifications as N}

  pub record HasOwners (db : Db d) : Type 0 where
    pub owner :
        (k : String) (n : Notification)
        → notification d db k ≡ some n
        → is_some (subscription d db n.subscription_id) ≡ true

  -- Subscriptions stay and notifications stay the same, go, or change without changing hands.
  module _ (db db' : Db d) where
    keeps_owners :
        ((k : String)
          → is_some (subscription d db k) ≡ true
          → is_some (subscription d db' k) ≡ true)
        → ((k : String) (n : Notification)
            → notification d db' k ≡ some n
            → (j : String) × (o : Notification) × (notification d db j ≡ some o)
              × (o.subscription_id ≡ n.subscription_id))
        → HasOwners db
        → HasOwners db'
    keeps_owners stay from h = record {
      owner = λ k n e.
          let (j, o, e', same) = from k n e in stay n.subscription_id (rw same at (h.owner j o e'));
    }

  pub add-HasOwners :
      (base_url topic : String) (opts : Options) (db : Db d)
      → HasOwners db
      → HasOwners (add d base_url topic opts db).0
  add-HasOwners base_url topic opts db =
      keeps_owners db (add d base_url topic opts db).0
        (λ k e. rw (get-add d base_url topic opts db k) (ground arith))
        (λ k n e. (
          k,
          n,
          ap (λ rows. N.get rows k) (sym (notifications-add d base_url topic opts db)) ∙ e,
          refl,
        ))

  pub remove-HasOwners : (s : Subscription) (db : Db d) → HasOwners db → HasOwners (remove d s db)
  unfolding remove
  remove-HasOwners s db h = record {
    owner = λ k n e.
        owner_left k n (notification d db k) refl
          (sym (N.get-delete_where db.notifications (λ x. x.subscription_id == s.id) k) ∙ e);
  }
    where
      owner_left :
          (k : String) (n : Notification) (o : Option Notification)
          → notification d db k ≡ o
          → unless (λ x. x.subscription_id == s.id) o ≡ some n
          → is_some (S.get (S.delete db.subscriptions s.id) n.subscription_id) ≡ true
      owner_left k n none e e' = cc
      owner_left k n (some o) e e' =
          let own = h.owner k o e in
          rw (S.get-delete db.subscriptions s.id n.subscription_id)
            (ground (arith, eq_iff s.id n.subscription_id, eq_iff o.subscription_id s.id))

  pub sync-HasOwners :
      (config : Config) (remotes : List Remote) (reservations : Option (List Reservation))
      (db : Db d)
      → HasOwners db
      → HasOwners (sync_from_remote d config remotes reservations db)
  sync-HasOwners config remotes reservations db h = record {
    owner = λ k n e.
        owner_left k n (notification d db k) refl
          (sym (notification-sync d config reservations remotes db k) ∙ e);
  }
    where
      owner_left :
          (k : String) (n : Notification) (o : Option Notification)
          → notification d db k ≡ o
          → unless
              (λ x.
                not (is_remote d remotes x.subscription_id)
                && holds_of (λ s. not s.internal) (subscription d db x.subscription_id))
              o
            ≡ some n
          → is_some
              (subscription d (sync_from_remote d config remotes reservations db) n.subscription_id)
            ≡ true
      owner_left k n none e e' = cc
      owner_left k n (some o) e e' =
          let own = h.owner k o e in
          rw (subscription-sync d config reservations remotes db n.subscription_id) (ground arith)

  -- A change of notifications alone that leaves each with its subscription.
  notifications-HasOwners :
      (db : Db d) (rows : N.Rows)
      → ((k : String) (n : Notification)
          → N.get rows k ≡ some n
          → (o : Notification) × (notification d db k ≡ some o)
            × (o.subscription_id ≡ n.subscription_id))
      → HasOwners db
      → HasOwners (record db { notifications = rows })
  notifications-HasOwners db rows from =
      keeps_owners db (record db { notifications = rows }) (λ k e. e)
        λ k n e. let (o, e', same) = from k n e in (k, o, e', same)

  left_of_unless :
      (p : Notification → Bool) (o : Option Notification) (n : Notification)
      → unless p o ≡ some n
      → (m : Notification) × (o ≡ some m) × (m.subscription_id ≡ n.subscription_id)
  left_of_unless p none n e = cc
  left_of_unless p (some m) n e = (m, refl, ground arith)

  left_of_change :
      (p : Notification → Bool) (o : Option Notification) (n : Notification)
      → map_option (change_if p (with_new 0)) o ≡ some n
      → (m : Notification) × (o ≡ some m) × (m.subscription_id ≡ n.subscription_id)
  left_of_change p none n e = cc
  left_of_change p (some m) n e = (m, refl, ground arith)

  pub delete_where-HasOwners :
      (p : Notification → Bool) (db : Db d)
      → HasOwners db
      → HasOwners (record db { notifications = N.delete_where db.notifications p })
  delete_where-HasOwners p db = notifications-HasOwners db _ λ k n e.
      left_of_unless p (notification d db k) n (sym (N.get-delete_where db.notifications p k) ∙ e)

  pub modify_where-HasOwners :
      (p : Notification → Bool) (db : Db d)
      → HasOwners db
      → HasOwners (record db { notifications = N.modify_where db.notifications p (with_new 0) })
  modify_where-HasOwners p db = notifications-HasOwners db _ λ k n e.
      left_of_change p (notification d db k) n
        (sym (N.get-modify_where db.notifications p (with_new 0) k (λ x. refl)) ∙ e)

  pub delete-HasOwners :
      (id : String) (db : Db d)
      → HasOwners db
      → HasOwners (record db { notifications = N.delete db.notifications id })
  delete-HasOwners id db =
      notifications-HasOwners db _
        λ k n e. (n, ground (arith, N.get-delete db.notifications id k), refl)

  -- A change of one subscription's fields.
  pub update-HasOwners :
      (id : String) (change : Subscription → Subscription) (db : Db d)
      → KeepsKey (λ (s : Subscription). s.id) change
      → HasOwners db
      → HasOwners (update d id change db)
  unfolding update
  update-HasOwners id change db keeps =
      keeps_owners db (record db { subscriptions = S.update db.subscriptions id change })
        (λ k e. rw (S.get-update db.subscriptions id k change keeps) (ground arith))
        (λ k n e. (k, n, e, refl))

  pub add_notification-HasOwners :
      (s : String) (m : Message) (db : Db d)
      → is_some (subscription d db s) ≡ true
      → HasOwners db
      → HasOwners (add_notification d s m db).0
  add_notification-HasOwners s m db there h = record {
    owner = λ k n e.
        let was = h.owner k in
        ground (
          arith,
          add_notification_lem d s m db k,
          add_notification_lem d s m db n.subscription_id,
          h.owner k n,
        );
  }

  owned_by_latest :
      (s k : String) (ms : List Message) (o : Option Notification) (n : Notification)
      → latest N k (map (λ m. record { message = m; subscription_id = s; new = none }) ms) o
        ≡ some n
      → (n.subscription_id ≡ s) ⊎ (o ≡ some n)
  owned_by_latest s k [] o n e = inr e
  owned_by_latest s k (m ∷ ms) o n e = elim (owned_by_latest s k ms _ n e) [
    | inl own ↦ inl own
    | inr was ↦ ground arith
  ]

  pub add_notifications-HasOwners :
      (s : String) (ms : List Message) (db : Db d) {db' : Db d}
      → add_notifications d s ms db ≡ some db'
      → is_some (subscription d db s) ≡ true
      → HasOwners db
      → HasOwners db'
  unfolding add_notifications
  add_notifications-HasOwners s ms db {db'} e there h = elim (Option-cases (get_last? ms)) [
    | inl none_last ↦ absurd (nothing none_last)
    | inr (last, some_last) ↦
        subst HasOwners (stored last some_last)
          (update-HasOwners s (with_last last.id) filled (λ x. refl) (filled-HasOwners))
  ]
    where
      rows : List Notification
      rows = map (λ m. record { message = m; subscription_id = s; new = none }) ms

      filled : Db d
      filled = record db { notifications = N.bulk_put db.notifications rows }

      nothing : get_last? ms ≡ none → ⊥
      nothing x = ground arith

      stored :
          (last : Message) → get_last? ms ≡ some last → update d s (with_last last.id) filled ≡ db'
      stored last x = ground arith

      filled-HasOwners : HasOwners filled
      filled-HasOwners = record {
        owner = λ k n e'.
            elim (owned_by_latest s k ms (notification d db k) n
              (sym (get-bulk_put N rows db.notifications k) ∙ e')) [
                | inl own ↦ rw own there
                | inr was ↦ h.owner k n was
              ];
      }

  pub update_notification-HasOwners :
      (n : Notification) (db : Db d)
      → ((o : Notification)
          → notification d db n.message.id ≡ some o
          → o.subscription_id ≡ n.subscription_id)
      → HasOwners db
      → HasOwners (update_notification d n db).0
  unfolding update_notification
  update_notification-HasOwners n db same h = go (notification d db n.message.id) refl
    where
      written : Option Notification → Db d × Bool
      written none = (db, false)
      written (some _) = (record db { notifications = N.put db.notifications n }, true)

      rewritten :
          (o : Notification)
          → notification d db n.message.id ≡ some o
          → HasOwners (record db { notifications = N.put db.notifications n })
      rewritten o e =
          notifications-HasOwners db (N.put db.notifications n)
            (λ k x e'. elim (Bool-cases (n.message.id == k)) [
              | inl here ↦
                  let this : n.message.id ≡ k = ground (arith, here, eq_iff n.message.id k) in
                  let put : some n ≡ some x =
                    ground (arith, here, e', N.get-put db.notifications n k) in
                  let own : n.subscription_id ≡ x.subscription_id = cc in
                  (o, ap (λ i. notification d db i) (sym this) ∙ e, same o e ∙ own)
              | inr other ↦ (x, ground (arith, other, e', N.get-put db.notifications n k), refl)
            ])
            h

      go : (o : Option Notification) → notification d db n.message.id ≡ o → HasOwners (written o).0
      go none e = h
      go (some o) e = rewritten o e
