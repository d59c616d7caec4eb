-- ===== src/Notifications/Paging/Tests.antt =====
-- A list that fits into one page.
use ntfy.Base.{◌≡◌, false, none, List, [], ◌∷◌, arith}
use ntfy.Model.{Message, Notification}
use ntfy.Subscriptions.{unread}
use ntfy.Notifications.Paging.{displayed, has_more, displayed_all}

abbrev hello : Message
hello = record {
  id = "m1";
  time = 7;
  topic = "a";
  title = none;
  message = "hello";
  tags = none;
  priority = none;
  click = none;
  attachment = none;
  actions = none;
}

abbrev few : List Notification
few =
    unread "https://ntfy.sh/a" hello ∷ unread "https://ntfy.sh/a" (record hello { id = "m2" }) ∷ []

displayed_all_example : (displayed few 0 ≡ few) × (has_more few 0 ≡ false)
displayed_all_example = displayed_all few 0 (omega arith)
