-- ===== src/Subscriptions.antt =====
-- web/src/app/SubscriptionManager.js without `notify` and `updateWebPushSubscriptions`, which hand on
-- to the notifier and the API.
pub mod Sync
pub mod Untouched
pub mod Notifications
pub mod Owners
pub mod Steps
mod Tests
use mathlib.Core.List.{reverse, foldl}
use ntfy.Base.{
  ℕ, String, Bool, true, false, not, ◌&&◌, Option, none, some, List, [], ◌∷◌, map, filter, find?,
  contains, get_last?, head?, ltb, eqb, ◌==◌, if◌then◌else◌,
}
use ntfy.Model.{Config, Subscription, Reservation, ConnectionState, Message, Notification}
use ntfy.Util.Url.{topic_url}
use ntfy.Database.{Dexie, Db, subscription, notification}

-- The argument `opts` of `add`.
pub record Options : Type 0 where
  pub internal : Bool
  pub display_name : Option String
  pub reservation : Option Reservation

-- A subscription of the account, as the server sends it.
pub record Remote : Type 0 where
  pub base_url : String
  pub topic : String
  pub display_name : Option String

abbrev pub is_new : Option ℕ → Bool
is_new none = false
is_new (some n) = eqb n 1

abbrev pub is_unread : String → Notification → Bool
is_unread subscription_id n = n.subscription_id == subscription_id && is_new n.new

unfoldable pub new_subscription : String → String → Options → Subscription
new_subscription base_url topic opts = record {
  id = topic_url base_url topic;
  base_url = base_url;
  topic = topic;
  muted_until = 0;
  last = none;
  display_name = opts.display_name;
  reservation = opts.reservation;
  internal = opts.internal;
  state = none;
}

abbrev pub unread : String → Message → Notification
unread subscription_id m = record { message = m; subscription_id = subscription_id; new = some 1 }

-- The changes that `update` and `modify` make.
abbrev pub with_last : String → Subscription → Subscription
with_last id s = record s { last = some id }

abbrev pub with_new : ℕ → Notification → Notification
with_new n x = record x { new = some n }

abbrev pub reservation_for : Config → Option (List Reservation) → Remote → Option Reservation
reservation_for config none remote = none
reservation_for config (some reservations) remote =
    find? (λ (r : Reservation). remote.base_url == config.base_url && remote.topic == r.topic)
      reservations

abbrev pub remote_options : Config → Option (List Reservation) → Remote → Options
remote_options config reservations remote = record {
  internal = false;
  display_name = remote.display_name;
  reservation = reservation_for config reservations remote;
}

module _ (d : Dexie) where
  open d use {subscriptions as S, notifications as N}

  -- Each subscription with the count of its unread notifications.
  unfoldable pub all : Db d → List (Subscription × ℕ)
  all db =
      map (λ s. (s, N.count_where db.notifications (is_unread s.id))) (S.to_array db.subscriptions)

  unfoldable pub web_push_topics : Config → Bool → Bool → Db d → List String
  web_push_topics config push_possible web_push_enabled db =
      if not push_possible
      then []
      else if not web_push_enabled
      then []
      else map (λ s. s.topic)
          (filter (λ s. not s.internal)
            (S.where_array db.subscriptions
              (λ s. s.base_url == config.base_url && eqb s.muted_until 0)))

  unfoldable pub add : String → String → Options → Db d → Db d × Subscription
  unfolding new_subscription
  add base_url topic opts db = elim (subscription d db (topic_url base_url topic)) [
    | some existing ↦ (db, existing)
    | none ↦
        let s = new_subscription base_url topic opts in
        (record db { subscriptions = S.put db.subscriptions s }, s)
  ]

  unfoldable pub remove : Subscription → Db d → Db d
  remove s db = record db {
    subscriptions = S.delete db.subscriptions s.id;
    notifications = N.delete_where db.notifications (λ n. n.subscription_id == s.id);
  }

  -- The first loop of `syncFromRemote`, with the ids that it returns.
  unfoldable pub add_remotes :
      Config → Option (List Reservation) → List Remote → Db d → Db d × List String
  add_remotes config reservations [] db = (db, [])
  add_remotes config reservations (remote ∷ remotes) db =
      let (db', local) =
        add remote.base_url remote.topic (remote_options config reservations remote) db in
      let (db'', ids) = add_remotes config reservations remotes db' in (db'', local.id ∷ ids)

  abbrev pub is_stale : List String → Subscription → Bool
  is_stale remote_ids local = not local.internal && not (contains remote_ids local.id)

  unfoldable pub remove_if_stale : List String → Db d → Subscription → Db d
  remove_if_stale remote_ids db local = if is_stale remote_ids local then remove local db else db

  unfoldable pub sync_from_remote : Config → List Remote → Option (List Reservation) → Db d → Db d
  sync_from_remote config remotes reservations db =
      let (db', remote_ids) = add_remotes config reservations remotes db in
      foldl (remove_if_stale remote_ids) db' (S.to_array db'.subscriptions)

  unfoldable pub update : String → (Subscription → Subscription) → Db d → Db d
  update subscription_id change db = record db {
    subscriptions = S.update db.subscriptions subscription_id change;
  }

  unfoldable pub update_state : String → ConnectionState → Db d → Db d
  unfolding update
  update_state subscription_id state db =
      update subscription_id (λ s. record s { state = some state }) db

  unfoldable pub set_muted_until : String → ℕ → Db d → Db d
  unfolding update
  set_muted_until subscription_id time db =
      update subscription_id (λ s. record s { muted_until = time }) db

  unfoldable pub set_display_name : String → Option String → Db d → Db d
  unfolding update
  set_display_name subscription_id name db =
      update subscription_id (λ s. record s { display_name = name }) db

  unfoldable pub set_reservation : String → Option Reservation → Db d → Db d
  unfolding update
  set_reservation subscription_id reservation db =
      update subscription_id (λ s. record s { reservation = reservation }) db

  unfoldable pub first : Db d → Option Subscription
  first db = head? (S.to_array db.subscriptions)

  unfoldable pub get_notifications : String → Db d → List Notification
  get_notifications subscription_id db = reverse (
      filter (λ n. n.subscription_id == subscription_id)
        (N.order_by (λ n. n.message.time) db.notifications))

  unfoldable pub get_all_notifications : Db d → List Notification
  get_all_notifications db = reverse (N.order_by (λ n. n.message.time) db.notifications)

  -- A rejected `add` is caught; the answer is true then too.
  unfoldable pub add_notification : String → Message → Db d → Db d × Bool
  unfolding update
  add_notification subscription_id m db = elim (notification d db m.id) [
    | some _ ↦ (db, false)
    | none ↦ elim (N.add db.notifications (unread subscription_id m)) [
      | none ↦ (db, true)
      | some rows ↦
          (update subscription_id (with_last m.id) (record db { notifications = rows }), true)
    ]
  ]

  -- `none`: there is no last notification, and reading its id throws before anything is stored.
  unfoldable pub add_notifications : String → List Message → Db d → Option (Db d)
  unfolding update
  add_notifications subscription_id ms db = elim (get_last? ms) [
    | none ↦ none
    | some last ↦
        let rows : List Notification =
          map (λ m. record { message = m; subscription_id = subscription_id; new = none }) ms in
        some (
          update subscription_id (with_last last.id)
            (record db { notifications = N.bulk_put db.notifications rows }))
  ]

  unfoldable pub update_notification : Notification → Db d → Db d × Bool
  update_notification n db = elim (notification d db n.message.id) [
    | none ↦ (db, false)
    | some _ ↦ (record db { notifications = N.put db.notifications n }, true)
  ]

  unfoldable pub delete_notification : String → Db d → Db d
  delete_notification id db = record db { notifications = N.delete db.notifications id }

  unfoldable pub delete_notifications : String → Db d → Db d
  delete_notifications subscription_id db = record db {
    notifications = N.delete_where db.notifications (λ n. n.subscription_id == subscription_id);
  }

  unfoldable pub mark_notification_read : String → Db d → Db d
  mark_notification_read id db = record db {
    notifications = N.modify_where db.notifications (λ n. n.message.id == id) (with_new 0);
  }

  unfoldable pub mark_notifications_read : String → Db d → Db d
  mark_notifications_read subscription_id db = record db {
    notifications = N.modify_where db.notifications (is_unread subscription_id) (with_new 0);
  }

  unfoldable pub prune_notifications : ℕ → Db d → Db d
  prune_notifications threshold db = record db {
    notifications = N.delete_where db.notifications (λ n. ltb n.message.time threshold);
  }
