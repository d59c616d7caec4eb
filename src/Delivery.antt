-- ===== src/Delivery.antt =====
-- web/src/components/hooks.js and `SubscriptionManager.notify`: what becomes of a message, and which
-- subscriptions have a WebSocket. How the text of a message on the sync topic parses is a parameter.
pub mod Messages
pub mod Coverage
pub mod WebPush
pub mod SyncTopic
mod Tests
use ntfy.Base.{
  ℕ, String, Bool, true, false, not, ◌&&◌, Option, none, some, List, [], ◌∷◌, filter, contains, ltb,
  get_or, truthy, ◌==◌, if◌then◌else◌,
}
use ntfy.Model.{Config, Subscription, Message}
use ntfy.Database.{Dexie, Db, subscription}
use ntfy.Subscriptions.{add_notification}
use ntfy.Settings.{min_priority}
use ntfy.Util.Url.{expand_secure_url}
use ntfy.Util.Topic.{disallowed_topic}

-- What a message brings about besides the change of the database: `notifier.notify` and
-- `accountApi.sync`.
pub data Effect : Type 0 where
  notify_user : Subscription → Message → Effect
  sync_account : Effect

-- `none`: a comparison with NaN fails.
abbrev pub is_below : ℕ → Option ℕ → Bool
is_below priority none = false
is_below priority (some minimum) = ltb priority minimum

-- `none`: the text is no JSON, or it has no properties; `some none`: there is no `event`.
abbrev pub Parser : Type 0
Parser = String → Option (Option String)

abbrev pub handle_event : Option (Option String) → List Effect
handle_event none = []
handle_event (some none) = []
handle_event (some (some event)) = if event == "sync" then sync_account ∷ [] else []

unfoldable pub handle_internal_message : Parser → Message → List Effect
handle_internal_message parse m = handle_event (parse m.message)

abbrev pub notify_if : Option ℕ → Subscription → Message → List Effect
notify_if minimum s m =
    if ltb 0 s.muted_until
    then []
    else if is_below (get_or m.priority 3) minimum
    then []
    else notify_user s m ∷ []

abbrev pub notify_found : Option ℕ → Option Subscription → Message → Option (List Effect)
notify_found minimum none m = none
notify_found minimum (some s) m = some (notify_if minimum s m)

module _ (d : Dexie) where
  -- `SubscriptionManager.notify`; `none`: there is no subscription, and reading a field of it throws.
  unfoldable pub notify : String → Message → Db d → Option (List Effect)
  unfolding min_priority
  notify subscription_id m db =
      notify_found (min_priority d db) (subscription d db subscription_id) m

  unfoldable pub notify_added : String → Message → Db d × Bool → Db d × List Effect
  unfolding notify
  notify_added subscription_id m (db, true) = (db, get_or (notify subscription_id m db) [])
  notify_added subscription_id m (db, false) = (db, [])

  unfoldable pub handle_notification : String → Message → Db d → Db d × List Effect
  unfolding add_notification notify_added
  handle_notification subscription_id m db =
      notify_added subscription_id m (add_notification d subscription_id m db)

  unfoldable pub handle_found :
      Option Subscription → Parser → String → Message → Db d → Db d × List Effect
  unfolding handle_internal_message handle_notification
  handle_found none parse subscription_id m db = (db, [])
  handle_found (some s) parse subscription_id m db =
      if s.internal
      then (db, handle_internal_message parse m)
      else handle_notification subscription_id m db

  unfoldable pub handle_message : Parser → String → Message → Db d → Db d × List Effect
  unfolding handle_found
  handle_message parse subscription_id m db =
      handle_found (subscription d db subscription_id) parse subscription_id m db

-- The subscriptions that `connectionManager.refresh` is given.
unfoldable pub ws_subscriptions :
    Option (List Subscription) → Option (List String) → List Subscription
ws_subscriptions none topics = []
ws_subscriptions (some subscriptions) none = []
ws_subscriptions (some subscriptions) (some topics) =
    filter (λ (s : Subscription). not (contains topics s.topic)) subscriptions

-- `useAutoSubscribe`: the subscription that is added, its server and its topic; `selected` tells if
-- one is selected. `has_run` is set whenever the subscriptions are loaded.
abbrev pub base_url_of : Config → Option String → String
base_url_of config none = config.base_url
base_url_of config (some url) = expand_secure_url url

abbrev pub eligible : Config → Option String → Option String → Bool → Option (String × String)
eligible config none base_url selected = none
eligible config (some topic) base_url selected =
    if not selected && not (disallowed_topic config topic)
    then some (base_url_of config base_url, topic)
    else none

unfoldable pub auto_subscribe :
    Config
    → Option (List Subscription)
    → Option String
    → Option String
    → Bool
    → Bool
    → Bool × Option (String × String)
unfolding expand_secure_url disallowed_topic
auto_subscribe config none topic base_url selected has_run = (has_run, none)
auto_subscribe config (some _) topic base_url selected has_run =
    if has_run
    then (true, none)
    else (true, eligible config (truthy topic) (truthy base_url) selected)
