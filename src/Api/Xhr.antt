-- ===== src/Api/Xhr.antt =====
-- `publishXHR` of web/src/app/Api.js: the request, and the promise that is made of its events. Which
-- events a call of `xhr.abort` brings about is the browser's, and a parameter; the call in the listener,
-- which finds the request done, brings about none.
pub mod Laws
mod Tests
use ntfy.Base.{ℕ, ◌+◌, String, Bool, true, false, Option, none, some, List, [], ◌∷◌, truthy}
use ntfy.Errors.{ErrorBody}
use ntfy.Util.Auth.{Headers}
use ntfy.Api.{Outcome, pending, resolved, rejected, on_ready_state_change}
use ntfy.Dialogs.Publish.Percentage.{Status, progress}

pub data Call : Type 0 where
  open_put override_mime_type : String → Call
  set_request_header : String → String → Call
  listen_progress listen_ready_state_change send abort : Call

abbrev set_headers : Headers → List Call → List Call
set_headers [] calls = calls
set_headers ((key, value) ∷ headers) calls =
    Call.set_request_header key value ∷ set_headers headers calls

abbrev override_type : Option String → List Call → List Call
override_type none calls = calls
override_type (some type) calls = Call.override_mime_type type ∷ calls

-- What is called before the first event; a text has no type, and the type of a file may be empty.
unfoldable pub sending : String → Option String → Headers → List Call
sending url body_type headers =
    Call.open_put url
    ∷ override_type (truthy body_type) (
        set_headers headers
          (Call.listen_progress ∷ Call.listen_ready_state_change ∷ Call.send ∷ []))

-- A "progress", with what was sent of how much, or a "readystatechange", with the state, the status and
-- the JSON of the response.
pub data Event : Type 0 where
  uploaded : ℕ → ℕ → Event
  ready_state_change : ℕ → ℕ → Option ErrorBody → Event

pub record Xhr : Type 0 where
  pub ready_state : ℕ
  pub status : Option Status
  pub outcome : Outcome
  pub aborts : ℕ

abbrev pub sent : Xhr
sent = record { ready_state = 1; status = none; outcome = pending; aborts = 0 }

-- A promise is settled once.
abbrev pub settle : Outcome → Outcome → Outcome
settle pending later = later
settle resolved later = resolved
settle (rejected e) later = rejected e

abbrev aborts_of : Outcome → ℕ
aborts_of pending = 0
aborts_of resolved = 0
aborts_of (rejected e) = 1

unfoldable pub on_event : Event → Xhr → Xhr
unfolding on_ready_state_change
on_event (Event.uploaded loaded total) x = record x { status = some (progress loaded total) }
on_event (Event.ready_state_change state status body) x = record x {
  ready_state = state;
  outcome = settle x.outcome (on_ready_state_change state status body);
  aborts = x.aborts + aborts_of (on_ready_state_change state status body);
}

unfoldable pub on_events : List Event → Xhr → Xhr
unfolding on_event
on_events [] x = x
on_events (e ∷ es) x = on_events es (on_event e x)

-- The events that the browser gives the listeners when a request in this state is aborted.
abbrev pub Aborts : Type 0
Aborts = ℕ → List Event

pub data Action : Type 0 where
  event : Event → Action
  abort : Action

module _ (aborts : Aborts) where
  -- `send.abort`
  unfoldable pub abort_request : Xhr → Xhr
  unfolding on_events
  abort_request x = on_events (aborts x.ready_state) (record x { aborts = x.aborts + 1 })

  unfoldable pub run : List Action → Xhr → Xhr
  unfolding abort_request
  run [] x = x
  run (Action.event e ∷ rest) x = run rest (on_event e x)
  run (Action.abort ∷ rest) x = run rest (abort_request x)
