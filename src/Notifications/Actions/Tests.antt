-- ===== src/Notifications/Actions/Tests.antt =====
-- A notification with two actions.
use ntfy.Base.{◌≡◌, refl, false, none, some, [], ◌∷◌}
use ntfy.Dexie.{map_option}
use ntfy.Model.{Message, Action, Notification}
use ntfy.Database.{Db, notification}
use ntfy.Database.Listed.{listed, empty}
use ntfy.Subscriptions.{unread, add_notification}
use ntfy.Notifications.Actions.{answered, success, perform_http_action}

abbrev open_door : Action
open_door = record {
  id = "a1";
  action = "http";
  label = "Open";
  url = "https://example.com/open";
  method = none;
  headers = none;
  body = none;
  clear = false;
  progress = none;
  error = none;
}

abbrev close_door : Action
close_door = record open_door { id = "a2"; label = "Close"; url = "https://example.com/close" }

abbrev bell : Message
bell = record {
  id = "m1";
  time = 7;
  topic = "door";
  title = none;
  message = "Someone is there";
  tags = none;
  priority = none;
  click = none;
  attachment = none;
  actions = some (open_door ∷ close_door ∷ []);
}

abbrev displayed : Notification
displayed = unread "https://ntfy.sh/door" bell

abbrev rung : Db listed
rung = (add_notification listed "https://ntfy.sh/door" bell empty).0

opened :
    map_option
      (λ (n : Notification). n.message.actions)
      (notification listed
        (perform_http_action listed displayed open_door (answered 200) rung)
        "m1")
    ≡ some (some (record open_door { progress = some success } ∷ close_door ∷ []))
unfolding perform_http_action add_notification
opened = refl
