-- ===== src/Layout/Tests.antt =====
-- A subscription on another server, and one on the app's own server with a topic of the same name.
use ntfy.Base.{◌≡◌, refl, false, String, some, none, [], ◌∷◌}
use ntfy.Model.{Subscription}
use ntfy.Layout.{Params, without_internal, new_notifications_count, update_title, icon_badge}

abbrev subscription : String → String → Subscription
subscription base_url topic = record {
  id = topic;
  base_url = base_url;
  topic = topic;
  muted_until = 0;
  last = none;
  display_name = none;
  reservation = none;
  internal = false;
  state = none;
}

abbrev pub external : Subscription
external = subscription "https://ntfy.example.com" "alerts"

abbrev pub own : Subscription
own = subscription "https://ntfy.sh" "alerts"

abbrev pub other : Subscription
other = subscription "https://ntfy.sh" "backups"

counted : new_notifications_count (without_internal ((own, 2) ∷ (external, 3) ∷ [])) ≡ 5
unfolding new_notifications_count without_internal
counted = refl

titled : update_title 5 ≡ "(5) ntfy"
unfolding update_title
titled = refl

many : icon_badge 100 ≡ "99+"
unfolding icon_badge
many = refl

abbrev params : Params
params = record { base_url = some "ntfy.example.com"; topic = some "alerts" }
