-- ===== src/Layout/Navigation.antt =====
-- web/src/components/Navigation.jsx: the alerts on notifications, the entries of the navigation, among
-- them one for each subscription, and the dialog that is opened from it.
pub mod Laws
mod Tests
use Prim.Native.String.{◌++◌}
use ntfy.Base.{
  ℕ, ◌+◌, String, Bool, true, false, not, ◌&&◌, ◌||◌, Option, none, some, List, [], ◌∷◌, map,
  filter, length, ltb, eqb, ◌==◌, if◌then◌else◌,
}
use ntfy.Base.Sort.{sort}
use ntfy.Base.Order.{text_lt}
use ntfy.Model.{Config, Permission, Reservation, ConnectionState, Subscription}
use ntfy.Database.{Dexie}
use ntfy.Notifier.{
  Browser, browser_supported, context_supported, not_requested, denied,
  ios_supported_but_install_required,
}
use ntfy.Profile.{Profile}
use ntfy.Page.{Handler, ◌>>◌, pure, navigate}
use ntfy.Util.Url.{topic_url}
use ntfy.Util.Topic.{topic_display_name}
use ntfy.Dialogs.Popup.{Features, for_subscription}
use ntfy.Layout.{icon_badge, show_upgrade_banner}

pub data Alert : Type 0 where
  permission_required permission_denied browser_not_supported : Alert
  context_not_supported ios_install_required : Alert

module _ (config : Config) (b : Browser) where
  unfoldable pub browser_not_supported_box : Bool
  unfolding ios_supported_but_install_required browser_supported
  browser_not_supported_box =
      not (ios_supported_but_install_required config b) && not (browser_supported b)

  abbrev also_if : Bool → Alert → List Alert → List Alert
  also_if show alert rest = if show then alert ∷ rest else rest

  -- The alerts, in their order; the divider below them is there where `alertVisible`.
  unfoldable pub alerts : List Alert
  unfolding not_requested denied browser_supported context_supported browser_not_supported_box
      ios_supported_but_install_required
  alerts = also_if (not_requested b) Alert.permission_required (
      also_if (denied b) Alert.permission_denied (
        also_if browser_not_supported_box Alert.browser_not_supported (
          also_if (browser_supported b && not (context_supported b)) Alert.context_not_supported
            (also_if (ios_supported_but_install_required config b) Alert.ios_install_required []))))

  unfoldable pub alert_visible : Bool
  unfolding not_requested denied browser_supported context_supported browser_not_supported_box
      ios_supported_but_install_required
  alert_visible =
      not_requested b
      || denied b
      || ios_supported_but_install_required config b
      || browser_not_supported_box
      || browser_supported b && not (context_supported b)

-- What stands before the name of a subscription: that it is connecting, or a badge with a text, which is
-- invisible where there is nothing new.
pub data Icon : Type 0 where
  progress : Icon
  badge : String → Bool → Icon

pub record Item : Type 0 where
  pub id : String
  pub selected : Bool
  pub display_name : String
  pub aria_label : String
  pub icon : Icon
  pub everyone : Option Permission
  pub muted : Bool

abbrev is_connecting : Option ConnectionState → Bool
is_connecting none = false
is_connecting (some ConnectionState.connected) = false
is_connecting (some ConnectionState.connecting) = true

abbrev is_same : Option String → String → Bool
is_same none id = false
is_same (some selected) id = selected == id

abbrev everyone_of : Option Reservation → Option Permission
everyone_of none = none
everyone_of (some r) = some r.everyone

abbrev pub by_topic_url : Subscription × ℕ → Subscription × ℕ → Bool
by_topic_url a b = text_lt (topic_url a.0.base_url a.0.topic) (topic_url b.0.base_url b.0.topic)

unfoldable pub sorted_subscriptions : List (Subscription × ℕ) → List (Subscription × ℕ)
unfolding sort
sorted_subscriptions subscriptions =
    sort by_topic_url (filter (λ s. not s.0.internal) subscriptions)

-- `connecting` is the translation of `nav_button_connecting`; `selected` is the id of the subscription
-- that is selected, if one is.
module _ (config : Config) (connecting : String) (selected : Option String) where
  unfoldable pub subscription_item : Subscription × ℕ → Item
  unfolding icon_badge topic_display_name
  subscription_item (s, new) =
      let name = topic_display_name config s in
      record {
        id = s.id;
        selected = is_same selected s.id;
        display_name = name;
        aria_label = if is_connecting s.state then name ++ (" (" ++ (connecting ++ ")")) else name;
        icon =
            if is_connecting s.state
            then Icon.progress
            else Icon.badge (icon_badge new) (eqb new 0);
        everyone = everyone_of s.reservation;
        muted = ltb 0 s.muted_until;
      }

  unfoldable pub subscription_list : List (Subscription × ℕ) → List Item
  unfolding sorted_subscriptions subscription_item
  subscription_list subscriptions = map subscription_item (sorted_subscriptions subscriptions)

-- The dialog in which a topic is subscribed to, which a new key resets.
pub record NavList : Type 0 where
  pub subscribe_dialog_key : ℕ
  pub subscribe_dialog_open : Bool

unfoldable pub handle_subscribe_reset : NavList → NavList
handle_subscribe_reset nav = record {
  subscribe_dialog_key = nav.subscribe_dialog_key + 1;
  subscribe_dialog_open = false;
}

module _ {d : Dexie} (config : Config) where
  unfoldable pub handle_subscribe_submit : NavList → Subscription → Handler d NavList
  unfolding handle_subscribe_reset for_subscription
  handle_subscribe_submit nav s = do
    navigate (for_subscription config s)
    pure (handle_subscribe_reset nav)
