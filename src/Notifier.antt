-- ===== src/Notifier.antt =====
-- web/src/app/Notifier.js: what the browser supports and permits. The browser's features are values.
pub mod Notify
mod Tests
use ntfy.Base.{
  String, Bool, true, false, not, ◌&&◌, ◌||◌, Option, none, some, ltb, ◌==◌, if◌then◌else◌,
}
use ntfy.Base.Text.{size, starts_with}
use ntfy.Model.{Config}

-- `standalone` is `window.navigator.standalone`, which only Safari has.
pub record Browser : Type 0 where
  pub has_notification : Bool
  pub permission : String
  pub has_service_worker : Bool
  pub has_push_manager : Bool
  pub protocol : String
  pub hostname : String
  pub standalone : Option Bool

-- hostname.match("^127."), where the dot stands for any character
abbrev is_loopback : String → Bool
is_loopback hostname = starts_with hostname "127" && ltb 3 (size hostname)

unfoldable pub browser_supported : Browser → Bool
browser_supported b = b.has_notification

unfoldable pub context_supported : Browser → Bool
context_supported b = b.protocol == "https:" || is_loopback b.hostname || b.hostname == "localhost"

unfoldable pub supported : Browser → Bool
unfolding browser_supported context_supported
supported b = browser_supported b && context_supported b

unfoldable pub not_requested : Browser → Bool
unfolding supported
not_requested b = supported b && b.permission == "default"

unfoldable pub granted : Browser → Bool
unfolding supported
granted b = supported b && b.permission == "granted"

unfoldable pub denied : Browser → Bool
unfolding supported
denied b = supported b && b.permission == "denied"

-- `answer` is what the user answers to the browser's question.
unfoldable pub maybe_request_permission : String → Browser → Bool
unfolding supported
maybe_request_permission answer b = if supported b then answer == "granted" else false

unfoldable pub push_supported : Config → Browser → Bool
push_supported config b = config.enable_web_push && b.has_service_worker && b.has_push_manager

abbrev is_false : Option Bool → Bool
is_false none = false
is_false (some b) = not b

unfoldable pub ios_supported_but_install_required : Config → Browser → Bool
ios_supported_but_install_required config b =
    config.enable_web_push
    && b.has_service_worker
    && not b.has_push_manager
    && is_false b.standalone

unfoldable pub push_possible : Config → Browser → Bool
unfolding push_supported context_supported granted ios_supported_but_install_required
push_possible config b =
    push_supported config b
    && context_supported b
    && granted b
    && not (ios_supported_but_install_required config b)

-- `webPushSubscription`: the subscription that is there, or whether one is asked for with the key of
-- the server, or none.
pub data PushSubscription (S : Type 0) : Type 0 where
  existing : S → PushSubscription S
  subscribe : String → PushSubscription S
  undefined : PushSubscription S

unfoldable pub web_push_subscription : {S : Type 0} → Config → Option S → Bool → PushSubscription S
web_push_subscription config (some s) has_topics = existing s
web_push_subscription config none has_topics =
    if has_topics then subscribe config.web_push_public_key else undefined

-- The sound that `playSound` plays; errors of the player are only logged.
unfoldable pub sound_to_play : String → Option String
sound_to_play sound = if not (sound == "") && not (sound == "none") then some sound else none
