-- ===== src/Subscriptions/Sync.antt =====
-- What `syncFromRemote` leaves in the database.
use mathlib.Core.List.{foldl}
use ntfy.Base.{
  String, ◌≡◌, refl, ◌∙◌, ap, fun_ext, Bool, false, not, ◌&&◌, ◌||◌, Option, none, some, List, [],
  ◌∷◌, map, any, find?, contains, is_some, ◌==◌, eq_iff, eq_comm, if◌then◌else◌, arith,
  Option-cases, inl, inr,
}
use ntfy.Dexie.{unless}
use ntfy.Dexie.Laws.{holds_of, any_row}
use ntfy.Model.{Config, Subscription, Reservation, Notification}
use ntfy.Util.Url.{topic_url}
use ntfy.Database.{Dexie, Db, subscription, notification}
use ntfy.Subscriptions.{
  Options, Remote, remote_options, new_subscription, add, remove, add_remotes, is_stale,
  remove_if_stale, sync_from_remote,
}

abbrev pub or_else {ℓ} : {A : Type ℓ} → Option A → Option A → Option A
or_else none b = b
or_else (some a) b = some a

abbrev pub remote_id : Remote → String
remote_id r = topic_url r.base_url r.topic

abbrev pub new_from : Config → Option (List Reservation) → Option Remote → Option Subscription
new_from config reservations none = none
new_from config reservations (some r) =
    some (new_subscription r.base_url r.topic (remote_options config reservations r))

abbrev pub first_remote : String → List Remote → Option Remote
first_remote k remotes = find? (λ r. remote_id r == k) remotes

module _ (d : Dexie) where
  open d use {subscriptions as S, notifications as N}

  pub get-add :
      (base_url topic : String) (opts : Options) (db : Db d) (k : String)
      → subscription d (add d base_url topic opts db).0 k
        ≡ or_else (subscription d db k) (
            if topic_url base_url topic == k
            then some (new_subscription base_url topic opts)
            else none)
  unfolding add
  get-add base_url topic opts db k = ground (
    arith,
    S.get-put db.subscriptions (new_subscription base_url topic opts) k,
    eq_iff (topic_url base_url topic) k,
  )

  pub id-add :
      (base_url topic : String) (opts : Options) (db : Db d)
      → (add d base_url topic opts db).1.id ≡ topic_url base_url topic
  unfolding add
  id-add base_url topic opts db =
      elim (Option-cases (subscription d db (topic_url base_url topic))) [
        | inl e ↦ rw (e, add)
        | inr (s, e) ↦ rw (e, add) (S.key_of_get db.subscriptions _ s e)
      ]

  pub notifications-add :
      (base_url topic : String) (opts : Options) (db : Db d)
      → (add d base_url topic opts db).0.notifications ≡ db.notifications
  unfolding add
  notifications-add base_url topic opts db = ground arith

  module _ (config : Config) (reservations : Option (List Reservation)) where
    get-add_remotes :
        (remotes : List Remote) (db : Db d) (k : String)
        → subscription d (add_remotes d config reservations remotes db).0 k
          ≡ or_else (subscription d db k) (new_from config reservations (first_remote k remotes))
    unfolding add_remotes
    get-add_remotes [] db k = ground arith
    get-add_remotes (r ∷ rs) db k = ground (
      arith,
      get-add_remotes rs (add d r.base_url r.topic (remote_options config reservations r) db).0 k,
      get-add r.base_url r.topic (remote_options config reservations r) db k,
    )

    ids-add_remotes :
        (remotes : List Remote) (db : Db d)
        → (add_remotes d config reservations remotes db).1 ≡ map remote_id remotes
    unfolding add_remotes
    ids-add_remotes [] db = refl
    ids-add_remotes (r ∷ rs) db = ground (
      arith,
      ids-add_remotes rs (add d r.base_url r.topic (remote_options config reservations r) db).0,
      id-add r.base_url r.topic (remote_options config reservations r) db,
    )

    notifications-add_remotes :
        (remotes : List Remote) (db : Db d)
        → (add_remotes d config reservations remotes db).0.notifications ≡ db.notifications
    unfolding add_remotes
    notifications-add_remotes [] db = refl
    notifications-add_remotes (r ∷ rs) db =
        notifications-add_remotes rs
          (add d r.base_url r.topic (remote_options config reservations r) db).0
        ∙ notifications-add r.base_url r.topic (remote_options config reservations r) db

  abbrev stale_at : List String → String → Subscription → Bool
  stale_at ids k local = is_stale d ids local && local.id == k

  get-removals :
      (ids : List String) (locals : List Subscription) (db : Db d) (k : String)
      → subscription d (foldl (remove_if_stale d ids) db locals) k
        ≡ (if any (stale_at ids k) locals then none else subscription d db k)
  unfolding remove_if_stale remove
  get-removals ids [] db k = refl
  get-removals ids (l ∷ ls) db k = ground (
    arith,
    get-removals ids ls (remove_if_stale d ids db l) k,
    S.get-delete db.subscriptions l.id k,
  )

  unless_same :
      (j : String) (stale : Bool) (o : Option Notification)
      → unless (λ n. stale && j == n.subscription_id) o
        ≡ (if stale then unless (λ n. n.subscription_id == j) o else o)
  unless_same j stale none = ground arith
  unless_same j stale (some n) = rw (eq_comm j n.subscription_id) (ground arith)

  unless-unless :
      (p q : Notification → Bool) (o : Option Notification)
      → unless p (unless q o) ≡ unless (λ n. q n || p n) o
  unless-unless p q none = refl
  unless-unless p q (some n) = ground arith

  notification-remove_if_stale :
      (ids : List String) (l : Subscription) (db : Db d) (k : String)
      → notification d (remove_if_stale d ids db l) k
        ≡ unless (λ n. stale_at ids n.subscription_id l) (notification d db k)
  unfolding remove_if_stale remove
  notification-remove_if_stale ids l db k = ground (
    arith,
    unless_same l.id (is_stale d ids l) (notification d db k),
    N.get-delete_where db.notifications (λ n. n.subscription_id == l.id) k,
  )

  notification-removals :
      (ids : List String) (locals : List Subscription) (db : Db d) (k : String)
      → notification d (foldl (remove_if_stale d ids) db locals) k
        ≡ unless (λ n. any (stale_at ids n.subscription_id) locals) (notification d db k)
  notification-removals ids [] db k = unless_never (notification d db k)
    where
      unless_never : (o : Option Notification) → o ≡ unless (λ n. false) o
      unless_never none = refl
      unless_never (some n) = refl
  notification-removals ids (l ∷ ls) db k =
      notification-removals ids ls (remove_if_stale d ids db l) k
      ∙ ap (unless (λ n. any (stale_at ids n.subscription_id) ls))
          (notification-remove_if_stale ids l db k)
      ∙ unless-unless _ _ (notification d db k)

  -- A subscription that the account does not have stays only if it is internal.
  abbrev pub kept : Option Subscription → Option Subscription
  kept o = unless (λ s. not s.internal) o

  abbrev pub is_remote : List Remote → String → Bool
  is_remote remotes k = contains (map remote_id remotes) k

  is_remote_iff_first :
      (remotes : List Remote) (k : String) → is_remote remotes k ≡ is_some (first_remote k remotes)
  is_remote_iff_first [] k = refl
  is_remote_iff_first (r ∷ rs) k = ground (arith, is_remote_iff_first rs k)

  without_stale :
      (ids : List String) (k : String) (o : Option Subscription)
      → ((s : Subscription) → o ≡ some s → s.id ≡ k)
      → (if holds_of (is_stale d ids) o then none else o) ≡ (if contains ids k then o else kept o)
  without_stale ids k none own = ground arith
  without_stale ids k (some s) own = rw (own s refl) (ground arith)

  module _ (config : Config) (reservations : Option (List Reservation)) (remotes : List Remote)
      (db : Db d) where
    added : Db d
    added = (add_remotes d config reservations remotes db).0

    sync_shut :
        sync_from_remote d config remotes reservations db
        ≡ foldl (remove_if_stale d (map remote_id remotes)) added (S.to_array added.subscriptions)
    unfolding sync_from_remote added
    sync_shut = rw (ids-add_remotes config reservations remotes db) refl

    -- After the sync, under every id: if the account has that subscription, the local one, which keeps
    -- all that it holds, or a new one where there was none; and if the account does not have it,
    -- nothing, unless the local one is internal.
    pub subscription-sync :
        (k : String)
        → subscription d (sync_from_remote d config remotes reservations db) k ≡ (
            if is_remote remotes k
            then or_else
                (subscription d db k)
                (new_from config reservations (first_remote k remotes))
            else kept (subscription d db k))
    unfolding added
    subscription-sync k =
        rw
          (
            sync_shut,
            get-removals (map remote_id remotes) (S.to_array added.subscriptions) added k,
            any_row S added.subscriptions (is_stale d (map remote_id remotes)) k,
            without_stale (map remote_id remotes) k (subscription d added k)
                (S.key_of_get added.subscriptions k),
            get-add_remotes config reservations remotes db k,
          )
          (ground (arith, is_remote_iff_first remotes k))

    holds_stale :
        (ids : List String) (k : String) (o : Option Subscription)
        → ((s : Subscription) → o ≡ some s → s.id ≡ k)
        → holds_of (is_stale d ids) o ≡ not (contains ids k) && holds_of (λ s. not s.internal) o
    holds_stale ids k none own = ground arith
    holds_stale ids k (some s) own = rw (own s refl) (ground arith)

    stale-added :
        (k : String)
        → any (stale_at (map remote_id remotes) k) (S.to_array added.subscriptions)
          ≡ not (is_remote remotes k) && holds_of (λ s. not s.internal) (subscription d db k)
    unfolding added
    stale-added k =
        rw
          (
            any_row S added.subscriptions (is_stale d (map remote_id remotes)) k,
            holds_stale (map remote_id remotes) k (subscription d added k)
                (S.key_of_get added.subscriptions k),
            get-add_remotes config reservations remotes db k,
          )
          (ground (arith, is_remote_iff_first remotes k))

    -- After the sync the notifications of the local subscriptions that it removed are gone, and all
    -- others are as before.
    pub notification-sync :
        (k : String)
        → notification d (sync_from_remote d config remotes reservations db) k
          ≡ unless
              (λ n.
                not (is_remote remotes n.subscription_id)
                && holds_of (λ s. not s.internal) (subscription d db n.subscription_id))
              (notification d db k)
    notification-sync k = rw sync_shut (
        notification-removals (map remote_id remotes) (S.to_array added.subscriptions) added k
        ∙ ap (λ p. unless p (notification d added k)) (fun_ext (λ n. stale-added n.subscription_id))
        ∙ (rw kept_rows))
      where
        kept_rows : added.notifications ≡ db.notifications
        kept_rows = unfold added in notifications-add_remotes config reservations remotes db
