-- ===== src/Dialogs/Popup.antt =====
-- web/src/components/SubscriptionPopup.jsx and routes.js: what the menu of a subscription does to it.
pub mod Laws
pub mod TestMessage
mod Tests
use Prim.Native.String.{◌++◌}
use ntfy.Base.{
  ℕ, String, Bool, true, false, not, ◌&&◌, ◌||◌, Option, none, some, List, [], ◌∷◌, is_some, ltb,
  eqb, truthy, ◌==◌, if◌then◌else◌,
}
use ntfy.Model.{Config, Subscription, Reservation}
use ntfy.Database.{Dexie, Db}
use ntfy.Session.{session_of}
use ntfy.Errors.{Result, ok, err}
use ntfy.Util.Auth.{Base64}
use ntfy.Util.Url.{short_url}
use ntfy.Subscriptions
use ntfy.Account.{Json, text}
use ntfy.Account.Calls
use ntfy.Page.{
  Handler, pure, ◌>>=◌, ◌>>◌, catch, gets, on_db, set_error, navigate, unless_unauthorized, call,
}
use ntfy.Dialogs.{attempt, submit_and_close}

-- `routes.forSubscription`
unfoldable pub for_subscription : Config → Subscription → String
unfolding short_url
for_subscription config s =
    if not (s.base_url == config.base_url)
    then "/" ++ (short_url s.base_url ++ ("/" ++ s.topic))
    else "/" ++ s.topic

-- The flags of web/public/config.js on which the menu depends.
pub record Features : Type 0 where
  pub enable_reservations : Bool
  pub enable_payments : Bool

-- What the menu offers to do with the reservation of a subscription. `remaining` is `none` without an
-- account, and is what the account has left otherwise.
module _ (features : Features) (s : Subscription) (remaining : Option ℕ) where
  abbrev some_left : Option ℕ → Bool
  some_left none = false
  some_left (some n) = ltb 0 n

  abbrev none_left : Option ℕ → Bool
  none_left none = false
  none_left (some n) = eqb n 0

  unfoldable pub show_reservation_add : Bool
  show_reservation_add =
      features.enable_reservations && not (is_some s.reservation) && some_left remaining

  unfoldable pub show_reservation_add_disabled : Bool
  unfolding show_reservation_add
  show_reservation_add_disabled =
      not show_reservation_add
      && features.enable_reservations
      && not (is_some s.reservation)
      && (features.enable_payments || none_left remaining)

  unfoldable pub show_reservation_edit : Bool
  show_reservation_edit = features.enable_reservations && is_some s.reservation

  unfoldable pub show_reservation_delete : Bool
  show_reservation_delete = features.enable_reservations && is_some s.reservation

module _ (d : Dexie) where
  unfoldable pub handle_clear_all : Subscription → Handler d (Unit {0})
  unfolding Subscriptions.delete_notifications
  handle_clear_all s = on_db (Subscriptions.delete_notifications d s.id)

  unfoldable pub handle_set_muted_until : Subscription → ℕ → Handler d (Unit {0})
  unfolding Subscriptions.set_muted_until
  handle_set_muted_until s muted_until = on_db (Subscriptions.set_muted_until d s.id muted_until)

-- Where the page goes once a subscription is gone.
abbrev pub route_after : Config → Option Subscription → String
unfolding for_subscription
route_after config none = config.app_root
route_after config (some s) = if not s.internal then for_subscription config s else config.app_root

module _ {d : Dexie} (config : Config) (base64 : Base64) where
  abbrev pub remove_remotely : Bool → Subscription → Result (Unit {0}) → Handler d (Unit {0})
  unfolding attempt Calls.delete_subscription
  remove_remotely known s answer =
      if known
      then attempt config base64 (λ c. Calls.delete_subscription c s.base_url s.topic) answer
      else pure tt

  unfoldable pub handle_unsubscribe : Subscription → Result (Unit {0}) → Handler d (Unit {0})
  unfolding Subscriptions.remove Subscriptions.first session_of remove_remotely route_after
  handle_unsubscribe s answer = do
    on_db (Subscriptions.remove d s)
    known ← gets (λ p. is_some (session_of p.session) && not s.internal)
    remove_remotely known s answer
    selected ← gets (λ p. Subscriptions.first d p.db)
    navigate (route_after config selected)

  abbrev pub save_remotely : Bool → Subscription → String → Result (Unit {0}) → Handler d Bool
  unfolding submit_and_close Calls.update_subscription
  save_remotely known s display_name answer =
      if known
      then submit_and_close config base64
          (λ c.
            Calls.update_subscription c s.base_url s.topic
              (("display_name", text display_name) ∷ []))
          answer
      else pure true

  -- `handleSave` of the dialog for the display name
  unfoldable pub handle_save : Subscription → String → Result (Unit {0}) → Handler d Bool
  unfolding Subscriptions.set_display_name session_of save_remotely
  handle_save s display_name answer = do
    on_db (Subscriptions.set_display_name d s.id (some display_name))
    known ← gets (λ p. is_some (session_of p.session) && not s.internal)
    save_remotely known s display_name answer
