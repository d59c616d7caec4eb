-- ===== src/Notifications/Actions.antt =====
-- The HTTP actions of a notification. A click keeps the notification and the action as they are
-- displayed then, and the answer is written over that copy.
pub mod Laws
pub mod Race
mod Tests
use Prim.Native.String.{◌++◌}
use ntfy.Base.{
  ℕ, String, Bool, true, false, ◌&&◌, Option, none, some, List, map, leb, eqb, ◌==◌, if◌then◌else◌,
}
use ntfy.Base.Decimal.{to_string}
use ntfy.Dexie.{map_option}
use ntfy.Model.{Message, Action, Notification}
use ntfy.Database.{Dexie, Db}
use ntfy.Subscriptions.{update_notification}

abbrev pub ongoing : ℕ
ongoing = 1

abbrev pub success : ℕ
success = 2

abbrev pub failed : ℕ
failed = 3

-- How a request ends: with the status of a response, or with an error, as a text.
pub data Outcome : Type 0 where
  answered : ℕ → Outcome
  threw : String → Outcome

abbrev pub with_status : String → ℕ → Option String → Action → Action
with_status id progress error a =
    if a.id == id then record a { progress = some progress; error = error } else a

abbrev pub with_actions : (Action → Action) → Notification → Notification
with_actions f n = record n {
  message = record n.message { actions = map_option (map f) n.message.actions };
}

abbrev pub is_success : ℕ → Bool
is_success status = leb 200 status && leb status 299

abbrev pub progress_of : Outcome → ℕ
progress_of (answered status) = if is_success status then success else failed
progress_of (threw e) = failed

abbrev pub error_of : Action → Outcome → Option String
error_of a (answered status) =
    if is_success status
    then none
    else some (a.label ++ (": Unexpected response HTTP " ++ to_string status))
error_of a (threw e) = some (a.label ++ (": " ++ (e ++ " Check developer console for details.")))

module _ (d : Dexie) where
  unfoldable pub update_action_status : Notification → Action → ℕ → Option String → Db d → Db d
  unfolding update_notification
  update_action_status n a progress error db =
      (update_notification d (with_actions (with_status a.id progress error) n) db).0

  -- `performHttpAction` up to the request, and after it.
  unfoldable pub begin_http_action : Notification → Action → Db d → Db d
  unfolding update_action_status
  begin_http_action n a db = update_action_status n a ongoing none db

  unfoldable pub end_http_action : Notification → Action → Outcome → Db d → Db d
  unfolding update_action_status to_string
  end_http_action n a outcome db =
      update_action_status n a (progress_of outcome) (error_of a outcome) db

  -- With nothing in between.
  unfoldable pub perform_http_action : Notification → Action → Outcome → Db d → Db d
  unfolding begin_http_action end_http_action
  perform_http_action n a outcome db = end_http_action n a outcome (begin_http_action n a db)

-- What is sent: the method and the URL.
unfoldable pub request_of : Action → String × String
request_of a = (elim a.method [ none ↦ "POST" | some method ↦ method ], a.url)
