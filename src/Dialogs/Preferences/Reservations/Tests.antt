-- ===== src/Dialogs/Preferences/Reservations/Tests.antt =====
-- A topic that is reserved and has no subscription, and one whose name every object has.
use ntfy.Subscriptions.{new_subscription}
use ntfy.Dialogs.Subscribe.{no_options}
use ntfy.Base.{not, any, contains, ◌==◌, ◌&&◌, ◌||◌, String, ◌≡◌, refl, true, false, [], ◌∷◌}
use ntfy.Model.{Subscription, Config, Reservation, Permission}
use ntfy.Base.Dict.{property, assign}
use ntfy.Dialogs.Preferences.Reservations.{local_subscriptions, not_subscribed, not_subscribed_lem}

abbrev config : Config
config = record {
  base_url = "https://ntfy.sh";
  app_root = "/";
  enable_web_push = false;
  web_push_public_key = "";
  disallowed_topics = [];
}

abbrev reserved : String → Reservation
reserved topic = record { topic = topic; everyone = Permission.deny_all }

offered : not_subscribed ("constructor" ∷ []) config [] (reserved "mytopic") ≡ true
unfolding not_subscribed local_subscriptions property assign
offered = refl

not_offered : not_subscribed ("constructor" ∷ []) config [] (reserved "constructor") ≡ false
unfolding not_subscribed local_subscriptions property assign
not_offered = refl

abbrev home : Subscription
home = new_subscription "https://ntfy.sh" "mytopic" no_options

not_subscribed_lem_example :
    not_subscribed ("constructor" ∷ []) config (home ∷ []) (reserved "mytopic")
    ≡ not (
        any
          (λ (s : Subscription). s.base_url == "https://ntfy.sh" && s.topic == "mytopic")
          (home ∷ [])
        || contains ("constructor" ∷ []) "mytopic")
not_subscribed_lem_example =
    not_subscribed_lem ("constructor" ∷ []) config (home ∷ []) (reserved "mytopic")
