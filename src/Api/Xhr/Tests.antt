-- ===== src/Api/Xhr/Tests.antt =====
-- A request that is sent to the end, and one that is cancelled.
use ntfy.Base.{◌++◌, arith, ◌≡◌, refl, false, none, some, List, [], ◌∷◌, ltb, if◌then◌else◌}
use ntfy.Api.{true, on_ready_state_change, resolved}
use ntfy.Api.Xhr.{
  Call, sending, Event, sent, on_event, on_events, Aborts, Action, abort_request, run,
}
use ntfy.Api.Xhr.Laws.{IsUnanswered, GivesDone, finish-run}
use ntfy.Dialogs.Publish.{Draft, Progress, finish}

abbrev browser : Aborts
browser n = if ltb n 4 then Event.ready_state_change 4 0 none ∷ [] else []

browser-GivesDone : GivesDone browser
browser-GivesDone state h = ground arith

-- The server has begun to answer.
abbrev before : List Action
before =
    Action.event (Event.uploaded 3 10) ∷ Action.event (Event.ready_state_change 2 200 none) ∷ []

before-IsUnanswered : IsUnanswered before
before-IsUnanswered = (omega arith, tt)

abbrev after : List Action
after = Action.event (Event.ready_state_change 4 200 none) ∷ Action.abort ∷ []

abbrev hello : Draft
hello = record {
  base_url = "https://ntfy.sh";
  topic = "mytopic";
  message = "Hello";
  title = "";
  tags = "";
  priority = 3;
  click_url = "";
  attach_url = "";
  filename = "";
  email = "";
  call = "";
  delay = "";
  attach_file = none;
  markdown_enabled = false;
  publish_another = false;
}

abbrev under_way : Progress
under_way = record { active = true; status = "Uploading 3 bytes/10 bytes (30%) ..." }

finish-run_example :
    finish "Published" hello under_way (run browser (before ++ Action.abort ∷ after) sent).outcome
    ≡ (record { active = false; status = "An error occurred" }, false)
finish-run_example =
    finish-run browser before after "Published" hello under_way browser-GivesDone
      before-IsUnanswered

answered : (run browser (before ++ after) sent).outcome ≡ resolved
unfolding run abort_request on_events on_event on_ready_state_change
answered = refl

sending_file :
    sending "https://ntfy.sh/mytopic" (some "text/plain") (("Authorization", "Bearer tk_1") ∷ [])
    ≡ Call.open_put "https://ntfy.sh/mytopic"
      ∷ Call.override_mime_type "text/plain"
      ∷ Call.set_request_header "Authorization" "Bearer tk_1"
      ∷ Call.listen_progress
      ∷ Call.listen_ready_state_change
      ∷ Call.send
      ∷ []
unfolding sending
sending_file = refl
