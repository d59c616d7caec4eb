-- ===== src/ServiceWorker.antt =====
-- `handleClick` of web/public/sw.js: what a click on a displayed notification does to the windows of
-- the app. The windows are in the order in which `matchAll` lists them; what the requests of an action
-- answer is an argument.
pub mod Clicks
pub mod Push
mod Tests
use Prim.Native.String.{◌++◌}
use ntfy.Base.{
  ℕ, ◌+◌, String, Bool, true, false, Option, none, some, List, [], ◌∷◌, map, find?, head?, get_or,
  truthy, eqb, ◌==◌, if◌then◌else◌,
}
use ntfy.Model.{Message, Action}

pub record Window : Type 0 where
  pub id : ℕ
  pub url : String

-- `opened` lists the URLs for which a window was opened, which then has the focus; `focused` is the
-- window of the app that got the focus last.
pub record Desktop : Type 0 where
  pub windows : List Window
  pub focused : Option ℕ
  pub opened : List String
  pub closed : Bool
  pub requests : List (String × String)
  pub failures : List String

-- A displayed notification: the message and the route in its `data`, if it is about a message, and
-- the action that was clicked.
pub record Click : Type 0 where
  pub payload : Option (Message × String)
  pub action : Option String

abbrev pub focus : ℕ → Desktop → Desktop
focus i k = record k { focused = some i }

abbrev pub moved : ℕ → String → Window → Window
moved i url w = if eqb w.id i then record w { url = url } else w

abbrev pub navigate : ℕ → String → Desktop → Desktop
navigate i url k = record k { windows = map (moved i url) k.windows }

abbrev pub open_window : String → Desktop → Desktop
open_window url k = record k { opened = url ∷ k.opened }

abbrev pub close_notification : Desktop → Desktop
close_notification k = record k { closed = true }

abbrev pub client_at : String → Desktop → Option Window
client_at url k = find? (λ (w : Window). w.url == url) k.windows

abbrev pub focus_and_navigate : Window → String → Desktop → Desktop
focus_and_navigate w url k = navigate w.id url (focus w.id k)

abbrev pub show_fallback : Option Window → String → Desktop → Desktop
show_fallback none url k = open_window url k
show_fallback (some w) url k = focus_and_navigate w url k

-- `rootClient`, then the window that is to show the root.
abbrev pub show_root : Option Window → Option Window → String → Desktop → Desktop
show_root (some root) fallback root_url k = focus root.id k
show_root none fallback root_url k = show_fallback fallback root_url k

abbrev pub show_topic_from : Option Window → Option Window → String → Desktop → Desktop
show_topic_from (some root) fallback url k = focus_and_navigate root url k
show_topic_from none fallback url k = show_fallback fallback url k

abbrev pub show_topic : Option Window → Option Window → Option Window → String → Desktop → Desktop
show_topic (some w) root fallback url k = focus w.id k
show_topic none root fallback url k = show_topic_from root fallback url k

unfoldable pub click_other : String → Desktop → Desktop
click_other root_url k =
    close_notification (show_root (client_at root_url k) (head? k.windows) root_url k)

unfoldable pub click_message : String → String → Desktop → Desktop
click_message root_url topic_route k =
    close_notification
      (show_topic (client_at topic_route k) (client_at root_url k) (head? k.windows) topic_route k)

-- `response` tells if the request was answered with a status of success.
abbrev pub http_done : Bool → Action → Desktop → Desktop
http_done true a k = k
http_done false a k = record k { failures = a.label ∷ k.failures }

abbrev pub run_action : Bool → Action → Desktop → Desktop
run_action response a k =
    if a.action == "view"
    then open_window a.url k
    else if a.action == "http"
    then http_done response a (record k { requests = (get_or a.method "POST", a.url) ∷ k.requests })
    else k

unfoldable pub click_action : Bool → Action → Desktop → Desktop
click_action response a k =
    let k' = run_action response a k in if a.clear then close_notification k' else k'

abbrev pub action_of : Option (List Action) → String → Option Action
action_of none label = none
action_of (some actions) label = find? (λ (a : Action). label == a.label) actions

-- `none`: there is no such action, and reading a field of it throws.
unfoldable pub click_found : Bool → Option Action → Desktop → Option Desktop
unfolding click_action
click_found response none k = none
click_found response (some a) k = some (click_action response a k)

unfoldable pub click_target : String → Option String → String → Desktop → Desktop
unfolding click_message
click_target root_url none topic_route k = click_message root_url topic_route k
click_target root_url (some url) topic_route k = close_notification (open_window url k)

unfoldable pub click_on :
    String → Bool → Message → String → Option String → Desktop → Option Desktop
unfolding click_found click_target
click_on root_url response m topic_route none k =
    some (click_target root_url (truthy m.click) topic_route k)
click_on root_url response m topic_route (some label) k =
    click_found response (action_of m.actions label) k

-- The action comes as `truthy` gives it.
unfoldable pub handle_data :
    String → Bool → Option (Message × String) → Option String → Desktop → Option Desktop
unfolding click_other click_on
handle_data root_url response none action k = some (click_other root_url k)
handle_data root_url response (some (m, topic_route)) action k =
    click_on root_url response m topic_route action k

unfoldable pub handle_click : String → Bool → Click → Desktop → Option Desktop
unfolding handle_data
handle_click root_url response c k = handle_data root_url response c.payload (truthy c.action) k
