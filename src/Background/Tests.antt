-- ===== src/Background/Tests.antt =====
-- A poll and a pruning of one subscription.
use ntfy.Base.{◌≡◌, refl, some, none, [], ◌∷◌, map, ◌==◌, if◌then◌else◌, Bool}
use ntfy.Dexie.{map_option}
use ntfy.Dexie.Laws.{latest}
use ntfy.Model.{Message, Subscription}
use ntfy.Database.{Db, subscription, notification}
use ntfy.Database.Listed.{listed, empty}
use ntfy.Subscriptions.{add, new_subscription, with_last}
use ntfy.Settings.{set_delete_after}
use ntfy.Background.{poll}
use ntfy.Background.Laws.{polled, poll_lem}

abbrev message : Message
message = record {
  id = "m1";
  time = 7;
  topic = "a";
  title = none;
  message = "hello";
  tags = none;
  priority = none;
  click = none;
  attachment = none;
  actions = none;
}

abbrev alerts : Subscription
alerts =
    new_subscription "https://ntfy.sh" "a"
      (record { internal = Bool.false; display_name = none; reservation = none })

abbrev filled : Db listed
filled =
    (add listed "https://ntfy.sh" "a"
      (record { internal = Bool.false; display_name = none; reservation = none }) empty).0

abbrev after_poll : Db listed
after_poll = poll listed alerts (some (message ∷ [])) filled

abbrev ten_minutes : Db listed
ten_minutes = set_delete_after listed 600 after_poll

poll_lem_example :
    (notification listed after_poll "x"
      ≡ latest listed.notifications "x"
          (map (polled alerts.id) (message ∷ []))
          (notification listed filled "x"))
    × (subscription listed after_poll "x" ≡ (
        if alerts.id == "x"
        then map_option (with_last message.id) (subscription listed filled "x")
        else subscription listed filled "x"))
poll_lem_example = poll_lem listed alerts (message ∷ []) message filled "x" refl
