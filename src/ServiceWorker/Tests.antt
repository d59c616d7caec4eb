-- ===== src/ServiceWorker/Tests.antt =====
-- Clicks and pushes.
use ntfy.Base.{◌≡◌, refl, true, false, some, none, [], ◌∷◌}
use ntfy.Model.{Message}
use ntfy.Database.{Db}
use ntfy.Database.Listed.{listed, empty}
use ntfy.Util.Url.{topic_url}
use ntfy.Subscriptions
use ntfy.Subscriptions.{Options, new_subscription}
use ntfy.Delivery.{Parser, handle_message}
use ntfy.ServiceWorker.{Desktop, Click, handle_click}
use ntfy.ServiceWorker.Clicks.{IsLed, handle_click_leads}
use ntfy.ServiceWorker.Push.{Payload, handle_push, show_unknown}
use ntfy.ServiceWorker.Push.Laws.{handle_message-handle_push}

abbrev hello : Message
hello = record {
  id = "m1";
  time = 7;
  topic = "a";
  title = none;
  message = "hello";
  tags = none;
  priority = none;
  click = none;
  attachment = none;
  actions = none;
}

abbrev desktop : Desktop
desktop = record {
  windows =
      record { id = 4; url = "https://ntfy.sh/b" }
      ∷ record { id = 5; url = "https://ntfy.sh/" }
      ∷ [];
  focused = none;
  opened = [];
  closed = false;
  requests = [];
  failures = [];
}

abbrev click : Click
click = record { payload = some (hello, "https://ntfy.sh/a"); action = none }

root_navigates :
    handle_click "https://ntfy.sh/" true click desktop
    ≡ some (record desktop {
      windows =
          record { id = 4; url = "https://ntfy.sh/b" }
          ∷ record { id = 5; url = "https://ntfy.sh/a" }
          ∷ [];
      focused = some 5;
      closed = true;
    })
unfolding handle_click
root_navigates = refl

handle_click_leads_example :
    (k' : Desktop) × (handle_click "https://ntfy.sh/" true click desktop ≡ some k')
    × (k'.closed ≡ true)
    × IsLed "https://ntfy.sh/" (some (hello, "https://ntfy.sh/a")) desktop k'
handle_click_leads_example = handle_click_leads "https://ntfy.sh/" true click desktop refl

abbrev opts : Options
opts = record { internal = false; display_name = none; reservation = none }

abbrev with_a : Db listed
with_a = (Subscriptions.add listed "https://ntfy.sh" "a" opts empty).0

abbrev payload : Payload
payload = record { event = "message"; subscription_id = "https://ntfy.sh/a"; message = hello }

unknown : (handle_push listed (record payload { event = "x" }) with_a).1 ≡ show_unknown ∷ []
unfolding handle_push
unknown = refl

abbrev parse : Parser
parse text = none

handle_message-handle_push_example :
    let db' = (handle_push listed payload with_a).0 in
    handle_message listed parse "https://ntfy.sh/a" hello db' ≡ (db', [])
unfolding Subscriptions.add topic_url
handle_message-handle_push_example =
    handle_message-handle_push listed parse payload with_a
      (new_subscription "https://ntfy.sh" "a" opts) refl refl refl
