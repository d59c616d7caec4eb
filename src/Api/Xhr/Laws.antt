-- ===== src/Api/Xhr/Laws.antt =====
-- Cancelling a message that is being sent.
use ntfy.Base.{arith, ℕ, ◌<◌, String, ◌≡◌, refl, false, Option, none, List, [], ◌∷◌, ◌++◌}
use ntfy.Api.{pending, rejected, on_ready_state_change}
use ntfy.Errors.{ErrorBody}
use ntfy.Api.Xhr.{Event, Xhr, sent, on_event, on_events, Aborts, Action, abort_request, run}
use ntfy.Dialogs.Publish.{Draft, Progress, finish}

on_event-rejected :
    (event : Event) (x : Xhr) (e : String)
    → x.outcome ≡ rejected e
    → (on_event event x).outcome ≡ rejected e
unfolding on_event
on_event-rejected (Event.uploaded loaded total) x e h = h
on_event-rejected (Event.ready_state_change state status body) x e h = rw h refl

on_events-rejected :
    (events : List Event) (x : Xhr) (e : String)
    → x.outcome ≡ rejected e
    → (on_events events x).outcome ≡ rejected e
unfolding on_events
on_events-rejected [] x e h = h
on_events-rejected (event ∷ events) x e h =
    on_events-rejected events (on_event event x) e (on_event-rejected event x e h)

run-rejected :
    (aborts : Aborts) (actions : List Action) (x : Xhr) (e : String)
    → x.outcome ≡ rejected e
    → (run aborts actions x).outcome ≡ rejected e
unfolding run abort_request
run-rejected aborts [] x e h = h
run-rejected aborts (Action.event event ∷ rest) x e h =
    run-rejected aborts rest (on_event event x) e (on_event-rejected event x e h)
run-rejected aborts (Action.abort ∷ rest) x e h =
    run-rejected aborts rest (abort_request aborts x) e
      (on_events-rejected (aborts x.ready_state) _ e h)

-- Nothing has ended the request: no state is 4, and it has not been aborted.
abbrev pub IsUnanswered : List Action → Type 0
IsUnanswered [] = Unit
IsUnanswered (Action.event (Event.uploaded loaded total) ∷ rest) = IsUnanswered rest
IsUnanswered (Action.event (Event.ready_state_change state status body) ∷ rest) =
    (state < 4) × IsUnanswered rest
IsUnanswered (Action.abort ∷ rest) = ⊥

-- What the standard says of `abort`: a request that is not done becomes so, with the status 0.
abbrev pub GivesDone : Aborts → Type 0
GivesDone aborts = (state : ℕ) → state < 4 → aborts state ≡ Event.ready_state_change 4 0 none ∷ []

not_done :
    (state status : ℕ) (body : Option ErrorBody)
    → state < 4
    → on_ready_state_change state status body ≡ pending
unfolding on_ready_state_change
not_done state status body h = ground arith

abort-rejected :
    (aborts : Aborts) (x : Xhr)
    → GivesDone aborts
    → x.ready_state < 4
    → x.outcome ≡ pending
    → (abort_request aborts x).outcome ≡ rejected "An error occurred"
unfolding abort_request on_events on_event on_ready_state_change
abort-rejected aborts x done low h = rw (done x.ready_state low) (rw h refl)

run-abort :
    (aborts : Aborts) (before after : List Action) (x : Xhr)
    → GivesDone aborts
    → IsUnanswered before
    → x.ready_state < 4
    → x.outcome ≡ pending
    → (run aborts (before ++ Action.abort ∷ after) x).outcome ≡ rejected "An error occurred"
unfolding run on_event
run-abort aborts [] after x done u low h =
    run-rejected aborts after (abort_request aborts x) "An error occurred"
      (abort-rejected aborts x done low h)
run-abort aborts (Action.event (Event.uploaded loaded total) ∷ rest) after x done u low h =
    run-abort aborts rest after (on_event (Event.uploaded loaded total) x) done u low h
run-abort aborts (Action.event (Event.ready_state_change state status body) ∷ rest) after x done
      (below, u) low h =
    run-abort aborts rest after (on_event (Event.ready_state_change state status body) x) done u
      below (rw (not_done state status body below) (rw h refl))
run-abort aborts (Action.abort ∷ rest) after x done u low h = elim u [ ]

-- A message whose sending is cancelled before its request has an answer leaves the dialog open and
-- usable, with "An error occurred", whatever the browser reports and whoever cancels afterwards. The
-- browser is one in which aborting a request that is not done makes it done, with the status 0.
pub finish-run :
    (aborts : Aborts) (before after : List Action) (published : String) (m : Draft) (s : Progress)
    → GivesDone aborts
    → IsUnanswered before
    → finish published m s (run aborts (before ++ Action.abort ∷ after) sent).outcome
      ≡ (record { active = false; status = "An error occurred" }, false)
unfolding finish
finish-run aborts before after published m s done u =
    rw (run-abort aborts before after sent done u (omega arith) refl) refl
