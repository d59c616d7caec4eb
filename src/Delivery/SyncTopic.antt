-- ===== src/Delivery/SyncTopic.antt =====
-- The effect of `useConnectionListeners` that subscribes to the topic on which the server says that the
-- account has changed, and what becomes of the messages on it.
use ntfy.Base.{
  eq_iff, arith, Bool-cases, ◌≢◌, List, [], ◌∷◌, String, ◌≡◌, refl, ◌∙◌, ap, true, Option, none,
  some, truthy, ◌==◌, eq_refl, if◌then◌else◌, Option-cases, inl, inr,
}
use ntfy.Model.{Config, Subscription, Message}
use ntfy.Database.{Dexie, Db, subscription}
use ntfy.Util.Url.{topic_url}
use ntfy.Subscriptions.{Options, new_subscription}
use ntfy.Subscriptions
use ntfy.Subscriptions.Sync.{or_else, get-add, notifications-add}
use ntfy.Profile.{Profile}
use ntfy.Delivery.{
  Effect, sync_account, Parser, handle_event, handle_internal_message, handle_found, handle_message,
}

abbrev pub internally : Options
internally = record { internal = true; display_name = none; reservation = none }

abbrev sync_topic_of : Option Profile → Option String
sync_topic_of none = none
sync_topic_of (some account) = truthy account.sync_topic

module _ (d : Dexie) (config : Config) where
  unfoldable pub subscribe_to : Option String → Db d → Db d
  unfolding Subscriptions.add
  subscribe_to none db = db
  subscribe_to (some topic) db = (Subscriptions.add d config.base_url topic internally db).0

  unfoldable pub listen_to_sync_topic : Option Profile → Db d → Db d
  unfolding subscribe_to
  listen_to_sync_topic account db = subscribe_to (sync_topic_of account) db

  -- Whatever has the key is internal.
  abbrev pub IsFree : String → Db d → Type 0
  IsFree id db = (s : Subscription) → subscription d db id ≡ some s → s.internal ≡ true

  found-internal :
      (s : Subscription) (parse : Parser) (id : String) (m : Message) (db : Db d)
      → s.internal ≡ true
      → subscription d db id ≡ some s
      → handle_message d parse id m db ≡ (db, handle_event (parse m.message))
  unfolding handle_message handle_found handle_internal_message
  found-internal s parse id m db i e = ap (λ o. handle_found d o parse id m db) e ∙ rw i refl

  -- What a message on the sync topic does.
  abbrev pub SyncsAccount : Parser → Message → Db d × List Effect → Db d → Type 0
  SyncsAccount parse m result db =
      (parse m.message ≡ some (some "sync") → result ≡ (db, sync_account ∷ []))
      × (parse m.message ≢ some (some "sync") → result ≡ (db, []))

  handle_event-sync :
      (e : Option (Option String))
      → (e ≡ some (some "sync") → handle_event e ≡ sync_account ∷ [])
        × (e ≢ some (some "sync") → handle_event e ≡ [])
  handle_event-sync none = (λ h. cc, λ h. refl)
  handle_event-sync (some none) = (λ h. cc, λ h. refl)
  handle_event-sync (some (some event)) = elim (Bool-cases (event == "sync")) [
    | inl e ↦
        let same : event ≡ "sync" = ground (arith, e, eq_iff event "sync") in
        (λ h. rw e refl, λ h. absurd (h (ap (λ x. some (some x)) same)))
    | inr e ↦ (
      λ h. let same : event ≡ "sync" = cc in absurd (ground (arith, e, same, eq_iff event "sync")),
      λ h. rw e refl,
    )
  ]

  syncs_lem :
      (parse : Parser) (m : Message) (r : Db d × List Effect) (db : Db d)
      → r ≡ (db, handle_event (parse m.message))
      → SyncsAccount parse m r db
  syncs_lem parse m r db e =
      let (syncs, else_nothing) = handle_event-sync (parse m.message) in
      (λ h. e ∙ ap (λ x. (db, x)) (syncs h), λ h. e ∙ ap (λ x. (db, x)) (else_nothing h))

  -- With an account that has such a topic, where the user has not subscribed to it: a message on it is
  -- stored nowhere and not displayed; it has the account synced, once, if its event is "sync", and
  -- else does nothing. No notification changes with the subscription.
  pub handle_message-listen_to_sync_topic :
      (account : Profile) (topic : String) (parse : Parser) (m : Message) (db : Db d)
      → truthy account.sync_topic ≡ some topic
      → IsFree (topic_url config.base_url topic) db
      → let db' : Db d = listen_to_sync_topic (some account) db in
        SyncsAccount parse m (handle_message d parse (topic_url config.base_url topic) m db') db'
        × (db'.notifications ≡ db.notifications)
  unfolding listen_to_sync_topic subscribe_to
  handle_message-listen_to_sync_topic account topic parse m db e free = rw e (
    syncs_lem parse m _ _ (elim (Option-cases (subscription d db id)) [
      | inl k ↦
          found-internal (new_subscription config.base_url topic internally) parse id m db'
            (unfold new_subscription in refl) (known ∙ rw (k, eq_refl id) refl)
      | inr (s, k) ↦ found-internal s parse id m db' (free s k) (known ∙ rw k refl)
    ]),
    notifications-add d config.base_url topic internally db,
  )
    where
      id : String
      id = topic_url config.base_url topic

      db' : Db d
      db' = (Subscriptions.add d config.base_url topic internally db).0

      known :
          subscription d db' id
          ≡ or_else
              (subscription d db id)
              (if id == id then some (new_subscription config.base_url topic internally) else none)
      known = get-add d config.base_url topic internally db id
