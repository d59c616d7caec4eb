-- ===== src/Util/Topic/Tests.antt =====
-- Topics of one server.
use ntfy.Base.{◌≡◌, refl, String, false, [], ◌∷◌}
use ntfy.Model.{Config}
use ntfy.Util.Topic.{valid_topic}
use ntfy.Util.Topic.Laws.{topic_url_injective}

abbrev config : Config
config = record {
  base_url = "https://ntfy.sh";
  app_root = "/";
  enable_web_push = false;
  web_push_public_key = "";
  disallowed_topics = "docs" ∷ "static" ∷ [];
}

abbrev server : String
server = "https://ntfy.sh"

abbrev alerts : String
alerts = "alerts"

disallowed : valid_topic config "docs" ≡ false
unfolding valid_topic
disallowed = refl

with_slash : valid_topic config "a/b" ≡ false
unfolding valid_topic
with_slash = refl

topic_url_injective_example : (server ≡ server) × (alerts ≡ alerts)
unfolding valid_topic
topic_url_injective_example = topic_url_injective config server server alerts alerts refl refl refl
