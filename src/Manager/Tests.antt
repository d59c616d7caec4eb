-- ===== src/Manager/Tests.antt =====
-- Refreshing the connections of two subscriptions.
use ntfy.Base.{◌≡◌, refl, String, false, none, some, List, [], ◌∷◌, length}
use ntfy.Model.{Subscription}
use ntfy.Util.Hash.{hash_code}
use ntfy.Manager.{
  Manager, get, targets, refresh, reconcile, open_target, close_id, make_connection_id,
}
use ntfy.Manager.Refresh.{wanted, get-refresh}
use ntfy.Manager.Again.{refresh_idempotent}

abbrev subscribed : String → Subscription
subscribed topic = record {
  id = topic;
  base_url = "https://ntfy.sh";
  topic = topic;
  muted_until = 0;
  last = none;
  display_name = none;
  reservation = none;
  internal = false;
  state = none;
}

abbrev none_yet : Manager
none_yet = record { connections = []; started = []; closed = [] }

abbrev both : List Subscription
both = subscribed "a" ∷ subscribed "b" ∷ []

abbrev refreshed : Manager
refreshed = refresh (some both) (some []) none_yet

two_started : length refreshed.started ≡ 2
unfolding refresh reconcile targets open_target close_id make_connection_id hash_code
two_started = refl

one_closed : length (refresh (some (subscribed "a" ∷ [])) (some []) refreshed).closed ≡ 1
unfolding refresh reconcile targets open_target close_id make_connection_id hash_code
one_closed = refl

get-refresh_example :
    get (hash_code "a") refreshed.connections
    ≡ wanted (hash_code "a") (targets [] both) (get (hash_code "a") [])
get-refresh_example = get-refresh [] both none_yet (hash_code "a")

refresh_idempotent_example : refresh (some both) (some []) refreshed ≡ refreshed
refresh_idempotent_example = refresh_idempotent [] both none_yet
