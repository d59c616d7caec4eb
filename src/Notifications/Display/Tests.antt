-- ===== src/Notifications/Display/Tests.antt =====
-- One notification with an attachment and an action.
use ntfy.Base.{◌≡◌, refl, false, none, some, [], ◌∷◌}
use ntfy.Model.{Message, Action, Attachment, Notification}
use ntfy.Database.{Db}
use ntfy.Database.Listed.{listed, empty}
use ntfy.Subscriptions.{unread, add_notification}
use ntfy.Notifications.Display.{attachment, as_box, as_image, link_expired, user_action, sends}

abbrev picture : Attachment
picture = record {
  name = some "a.png";
  type = none;
  url = some "https://ntfy.sh/file/a.png";
  size = none;
  expires = some 100;
}

abbrev open_door : Action
open_door = record {
  id = "a1";
  action = "http";
  label = "Open";
  url = "https://example.com/open";
  method = none;
  headers = none;
  body = none;
  clear = false;
  progress = some 1;
  error = none;
}

abbrev bell : Message
bell = record {
  id = "m1";
  time = 7;
  topic = "door";
  title = none;
  message = "Someone is there";
  tags = none;
  priority = none;
  click = none;
  attachment = some picture;
  actions = some (open_door ∷ []);
}

abbrev displayed : Notification
displayed = unread "https://ntfy.sh/door" bell

abbrev rung : Db listed
rung = (add_notification listed "https://ntfy.sh/door" bell empty).0

image_in_time : attachment 100000 picture ≡ as_image (some "https://ntfy.sh/file/a.png")
unfolding attachment
image_in_time = refl

box_afterwards : attachment 100001 picture ≡ as_box (link_expired ∷ [])
unfolding attachment
box_afterwards = refl

ongoing_label : user_action open_door ≡ sends "Open …" "POST" "https://example.com/open"
unfolding user_action
ongoing_label = refl
