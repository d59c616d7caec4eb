-- ===== src/Notifications/Display.antt =====
-- What an item of the list of notifications displays, and which list is displayed.
pub mod Laws
mod Tests
use Prim.Native.String.{◌++◌}
use mathlib.Core.List
use ntfy.Base.{
  ℕ, ◌+◌, ◌*◌, String, Bool, true, false, not, ◌&&◌, ◌||◌, Option, none, some, is_some, List, [],
  ◌∷◌, map, filter, ltb, eqb, get_or, truthy, truthy_number, ◌==◌, if◌then◌else◌,
}
use ntfy.Base.Dict.{Object}
use ntfy.Base.Text.{join}
use ntfy.Model.{Message, Attachment, Action, Notification, Subscription}
use ntfy.Util.Topic.{unmatched_tags}
use ntfy.Formatting.{is_image}

-- `expires && expires < Date.now() / 1000`, and the opposite test.
abbrev pub is_past : ℕ → Option ℕ → Bool
is_past now_millis none = false
is_past now_millis (some expires) = ltb (expires * 1000) now_millis

abbrev pub is_future : ℕ → Option ℕ → Bool
is_future now_millis none = false
is_future now_millis (some expires) = ltb now_millis (expires * 1000)

unfoldable pub expired : ℕ → Attachment → Bool
expired now_millis a = is_past now_millis (truthy_number a.expires)

abbrev pub expires : ℕ → Attachment → Bool
expires now_millis a = is_future now_millis (truthy_number a.expires)

-- A line of infos: texts of the translations are left out.
pub data Info : Type 0 where
  size_of : ℕ → Info
  link_expires : Option ℕ → Info
  link_expired : Info

-- How an attachment is displayed: as an image, as a box, or as a box that is a link.
pub data Shown : Type 0 where
  as_image : Option String → Shown
  as_box : List Info → Shown
  as_link : Option String → List Info → Shown

abbrev size_infos : Option ℕ → List Info
size_infos none = []
size_infos (some size) = size_of size ∷ []

abbrev pub infos : ℕ → Attachment → List Info
infos now_millis a = List.◌++◌ (size_infos (truthy_number a.size)) (
    List.◌++◌ (if expires now_millis a then link_expires a.expires ∷ [] else [])
      (if expired now_millis a then link_expired ∷ [] else []))

unfoldable pub attachment : ℕ → Attachment → Shown
unfolding expired is_image
attachment now_millis a =
    if not (expired now_millis a) && is_image (some a)
    then as_image a.url
    else if expired now_millis a
    then as_box (infos now_millis a)
    else as_link a.url (infos now_millis a)

abbrev pub has_attachment_actions : ℕ → Option Attachment → Bool
unfolding expired
has_attachment_actions now_millis none = false
has_attachment_actions now_millis (some a) = not (expired now_millis a)

abbrev pub is_non_empty {ℓ} : {A : Type ℓ} → Option (List A) → Bool
is_non_empty none = false
is_non_empty (some []) = false
is_non_empty (some (_ ∷ _)) = true

-- The buttons of an item: to copy or open the attachment's URL, the same for the click URL, and one
-- for each action.
pub record Item : Type 0 where
  pub has_new_marker : Bool
  pub priority_icon : Option ℕ
  pub tags : Option String
  pub attachment_actions : Bool
  pub click_actions : Bool
  pub user_actions : Bool
  pub show_actions : Bool

abbrev pub is_new : Option ℕ → Bool
is_new none = false
is_new (some n) = eqb n 1

abbrev pub icon_of : Option ℕ → Option ℕ
icon_of none = none
icon_of (some p) = if eqb p 1 || eqb p 2 || eqb p 4 || eqb p 5 then some p else none

abbrev pub joined : List String → Option String
unfolding join
joined [] = none
joined (tag ∷ tags) = some (join ", " (tag ∷ tags))

unfoldable pub notification_item : Object String → ℕ → Notification → Item
unfolding has_attachment_actions joined unmatched_tags
notification_item emojis now_millis n =
    let m = n.message in
    let attachment_actions = has_attachment_actions now_millis m.attachment in
    let click_actions = is_some (truthy m.click) in
    let user_actions = is_non_empty m.actions in
    record {
      has_new_marker = is_new n.new;
      priority_icon = icon_of m.priority;
      tags = joined (unmatched_tags emojis m.tags);
      attachment_actions = attachment_actions;
      click_actions = click_actions;
      user_actions = user_actions;
      show_actions = attachment_actions || click_actions || user_actions;
    }

-- The button of an action: disabled, one that opens a URL, or one that sends a request, with its label.
pub data UserAction : Type 0 where
  unsupported : String → UserAction
  opens : String → String → UserAction
  sends : String → String → String → UserAction
  no_button : UserAction

abbrev pub label_suffix : Option ℕ → String
label_suffix none = ""
label_suffix (some progress) =
    if eqb progress 1
    then " …"
    else if eqb progress 2
    then " ✔"
    else if eqb progress 3
    then " ❌"
    else ""

unfoldable pub user_action : Action → UserAction
user_action a =
    if a.action == "broadcast"
    then unsupported a.label
    else if a.action == "view"
    then opens a.label a.url
    else if a.action == "http"
    then sends (a.label ++ label_suffix a.progress) (get_or a.method "POST") a.url
    else no_button

abbrev pub add_error : Option String → List String → List String
add_error none errors = errors
add_error (some e) errors = e ∷ errors

abbrev pub errors_of : List Action → List String
errors_of [] = []
errors_of (a ∷ actions) = add_error (truthy a.error) (errors_of actions)

abbrev pub lines : List String → Option String
unfolding join
lines [] = none
lines (e ∷ es) = some (join "\n" (e ∷ es))

-- `maybeActionErrors` of web/src/app/utils.js
unfoldable pub maybe_action_errors : Notification → Option String
unfolding lines
maybe_action_errors n = lines (errors_of (get_or n.message.actions []))

-- Which list is displayed; `none`: it is not loaded yet.
pub data Listing : Type 0 where
  loading no_subscriptions no_notifications_at_all : Listing
  no_notifications : Subscription → Listing
  listing : List Notification → Listing

abbrev pub all_notifications : List Subscription → Option (List Notification) → Listing
all_notifications subscriptions none = loading
all_notifications [] (some ns) = no_subscriptions
all_notifications (s ∷ subscriptions) (some []) = no_notifications_at_all
all_notifications (s ∷ subscriptions) (some (n ∷ ns)) = listing (n ∷ ns)

abbrev pub single_subscription : Subscription → Option (List Notification) → Listing
single_subscription s none = loading
single_subscription s (some []) = no_notifications s
single_subscription s (some (n ∷ ns)) = listing (n ∷ ns)
