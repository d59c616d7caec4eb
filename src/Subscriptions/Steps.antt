-- ===== src/Subscriptions/Steps.antt =====
-- The operations of the subscription manager as steps of the database, in any order.
use ntfy.Base.{ℕ, String, ◌≡◌, true, Option, some, List, is_some}
use ntfy.Dexie.{KeepsKey}
use ntfy.Model.{Config, Subscription, Reservation, Message, Notification}
use ntfy.Database.{Dexie, Db, subscription, notification}
use ntfy.Subscriptions.{
  Options, Remote, update, add, remove, sync_from_remote, add_notification, add_notifications,
  update_notification, delete_notification, delete_notifications, mark_notification_read,
  mark_notifications_read, prune_notifications,
}
use ntfy.Subscriptions.Owners.{
  HasOwners, add-HasOwners, remove-HasOwners, sync-HasOwners, update-HasOwners,
  add_notification-HasOwners, add_notifications-HasOwners, delete-HasOwners, delete_where-HasOwners,
  modify_where-HasOwners, update_notification-HasOwners,
}

module _ (d : Dexie) where
  -- `updated` stands for `update` and the four setters. Notifications arrive for a subscription that
  -- is there, and the row that `updateNotification` writes is of the same subscription as the row that
  -- it replaces, if there is one.
  pub data Step (db : Db d) : Db d → Type 0 where
    added : (base_url topic : String) (opts : Options) → Step db (add d base_url topic opts db).0
    removed : (s : Subscription) → Step db (remove d s db)
    synced :
        (config : Config) (remotes : List Remote) (reservations : Option (List Reservation))
        → Step db (sync_from_remote d config remotes reservations db)
    updated :
        (id : String) (change : Subscription → Subscription)
        → KeepsKey (λ (s : Subscription). s.id) change
        → Step db (update d id change db)
    received :
        (s : String) (m : Message)
        → is_some (subscription d db s) ≡ true
        → Step db (add_notification d s m db).0
    polled :
        (s : String) (ms : List Message) {db' : Db d}
        → is_some (subscription d db s) ≡ true
        → add_notifications d s ms db ≡ some db'
        → Step db db'
    rewritten :
        (n : Notification)
        → ((o : Notification)
            → notification d db n.message.id ≡ some o
            → o.subscription_id ≡ n.subscription_id)
        → Step db (update_notification d n db).0
    deleted : (id : String) → Step db (delete_notification d id db)
    cleared : (s : String) → Step db (delete_notifications d s db)
    read : (id : String) → Step db (mark_notification_read d id db)
    read_all : (s : String) → Step db (mark_notifications_read d s db)
    pruned : (threshold : ℕ) → Step db (prune_notifications d threshold db)

  pub data Reach (db : Db d) : Db d → Type 0 where
    here : Reach db db
    next : {u v : Db d} → Reach db u → Step u v → Reach db v

  Step-HasOwners : {db db' : Db d} → Step db db' → HasOwners d db → HasOwners d db'
  unfolding delete_notification delete_notifications mark_notification_read mark_notifications_read
      prune_notifications
  Step-HasOwners {db} (added base_url topic opts) h = add-HasOwners d base_url topic opts db h
  Step-HasOwners {db} (removed s) h = remove-HasOwners d s db h
  Step-HasOwners {db} (synced config remotes reservations) h =
      sync-HasOwners d config remotes reservations db h
  Step-HasOwners {db} (updated id change keeps) h = update-HasOwners d id change db keeps h
  Step-HasOwners {db} (received s m there) h = add_notification-HasOwners d s m db there h
  Step-HasOwners {db} (polled s ms there e) h = add_notifications-HasOwners d s ms db e there h
  Step-HasOwners {db} (rewritten n same) h = update_notification-HasOwners d n db same h
  Step-HasOwners {db} (deleted id) h = delete-HasOwners d id db h
  Step-HasOwners {db} (cleared s) h = delete_where-HasOwners d _ db h
  Step-HasOwners {db} (read id) h = modify_where-HasOwners d _ db h
  Step-HasOwners {db} (read_all s) h = modify_where-HasOwners d _ db h
  Step-HasOwners {db} (pruned threshold) h = delete_where-HasOwners d _ db h

  -- After any operations of the manager that change the database, in any order, every stored
  -- notification still belongs to a stored subscription; where notifications are added only to a
  -- subscription that is there, and one is rewritten only as one of the same subscription.
  pub Reach-HasOwners : {db db' : Db d} → HasOwners d db → Reach db db' → HasOwners d db'
  Reach-HasOwners h here = h
  Reach-HasOwners h (next r s) = Step-HasOwners s (Reach-HasOwners h r)
