-- ===== src/Layout.antt =====
-- web/src/components/App.jsx, Navigation.jsx and ActionBar.jsx: which subscription a route shows, and what
-- is shown around it. How a route is matched with the patterns `/:topic` and `/:baseUrl/:topic` is up to
-- React Router; its parameters are an argument.
pub mod Laws
pub mod Routes
pub mod Navigation
mod Tests
use Prim.Native.String.{◌++◌}
use mathlib.Core.List.{foldl}
use ntfy.Base.{
  ℕ, ◌+◌, String, Bool, true, false, not, ◌&&◌, ◌||◌, Option, none, some, List, [], ◌∷◌, filter,
  head?, contains, is_some, ltb, leb, eqb, truthy, ◌==◌, if◌then◌else◌, length,
}
use ntfy.Base.Decimal.{to_string}
use ntfy.Model.{Config, Subscription}
use ntfy.Database.{Dexie}
use ntfy.Session.{session_of}
use ntfy.Util.Url.{short_url, expand_url}
use ntfy.Util.Topic.{topic_display_name}
use ntfy.Subscriptions
use ntfy.Profile.{Profile}
use ntfy.Errors.{Result, ok, err}
use ntfy.Util.Auth.{Base64}
use ntfy.Account.Calls
use ntfy.Dialogs.Account.{deleted}
use ntfy.Page.{Handler, ◌>>=◌, ◌>>◌, catch, on_db, navigate, reset_and_redirect, call}
use ntfy.Dialogs.Popup.{Features, for_subscription}

-- The parameters of the route.
pub record Params : Type 0 where
  pub base_url : Option String
  pub topic : Option String

-- Each subscription with its count, as `subscriptionManager.all` gives it.
unfoldable pub without_internal : List (Subscription × ℕ) → List (Subscription × ℕ)
without_internal subscriptions = filter (λ s. not s.0.internal) subscriptions

unfoldable pub new_notifications_count : List (Subscription × ℕ) → ℕ
new_notifications_count subscriptions = foldl (λ n s. n + s.1) 0 subscriptions

abbrev pub is_topic : Option String → String → Bool
is_topic none topic = false
is_topic (some t) topic = t == topic

abbrev pub is_server : Option String → String → Bool
unfolding expand_url
is_server none base_url = false
is_server (some url) base_url = contains (expand_url url) base_url

unfoldable pub is_selected : Config → Params → Subscription → Bool
unfolding is_server
is_selected config params s =
    is_server (truthy params.base_url) s.base_url && is_topic params.topic s.topic
    || config.base_url == s.base_url && is_topic params.topic s.topic

unfoldable pub selected : Config → Params → List (Subscription × ℕ) → Option (Subscription × ℕ)
unfolding is_selected
selected config params subscriptions =
    head? (filter (λ s. is_selected config params s.0) subscriptions)

-- The title of the browser's window.
unfoldable pub update_title : ℕ → String
unfolding to_string
update_title n = if ltb 0 n then "(" ++ (to_string n ++ ") ntfy") else "ntfy"

-- The title in the action bar, whose translations are arguments.
unfoldable pub title : Config → String → String → Option Subscription → String → String
unfolding topic_display_name
title config settings account (some s) path = topic_display_name config s
title config settings account none path =
    if path == "/settings" then settings else if path == "/account" then account else "ntfy"

abbrev pub paid : Option String → Bool
paid subscription = is_some (truthy subscription)

abbrev is_admin : Option Profile → Bool
is_admin none = false
is_admin (some account) = account.role == "admin"

-- `billing_subscription` is `account?.billing?.subscription`.
unfoldable pub show_upgrade_banner : Features → Option Profile → Option String → Bool
show_upgrade_banner features account billing_subscription =
    features.enable_payments && not (is_admin account) && not (paid billing_subscription)

unfoldable pub icon_badge : ℕ → String
unfolding to_string
icon_badge n = if leb n 99 then to_string n else "99+"

module _ (d : Dexie) (config : Config) where
  -- `handleClick` of a subscription in the navigation
  unfoldable pub handle_click : Subscription → Handler d (Unit {0})
  unfolding for_subscription Subscriptions.mark_notifications_read
  handle_click s = do
    navigate (for_subscription config s)
    on_db (Subscriptions.mark_notifications_read d s.id)

  -- `handleToggleMute`
  unfoldable pub handle_toggle_mute : Subscription → Handler d (Unit {0})
  unfolding Subscriptions.set_muted_until
  handle_toggle_mute s =
      on_db (Subscriptions.set_muted_until d s.id (if not (eqb s.muted_until 0) then 0 else 1))

-- `theme_preference` is a text while it has been read.
unfoldable pub dark_mode_enabled : Bool → Option String → Bool
dark_mode_enabled prefers_dark_mode none = prefers_dark_mode
dark_mode_enabled prefers_dark_mode (some theme) =
    if theme == "dark" then true else if theme == "light" then false else prefers_dark_mode

-- `handleLogout`: the error of the server goes on after the session has ended.
module _ {d : Dexie} (config : Config) (base64 : Base64) where
  abbrev finally : Result (Unit {0}) → Handler d (Unit {0})
  finally r = do reset_and_redirect config.app_root; λ p. (r, p)

  unfoldable pub handle_logout : Result (Unit {0}) → Handler d (Unit {0})
  unfolding reset_and_redirect Calls.logout
  handle_logout answer =
      catch (do call config base64 Calls.logout answer; on_db deleted; finally (ok tt))
        (λ e. finally (err e))
