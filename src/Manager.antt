-- ===== src/Manager.antt =====
-- web/src/app/ConnectionManager.js. `connections` is a JavaScript Map, here in insertion order. What
-- is done to the connections themselves is two lists, of those that were started and of those that
-- were closed; a connection stands for the object, by the values that it was made with.
pub mod Refresh
pub mod Again
pub mod Listeners
mod Tests
use Prim.Native.String.{◌++◌}
use mathlib.Core.List
use mathlib.Core.List.{foldl}
use ntfy.Base.{
  String, Bool, not, ◌||◌, Option, none, some, List, [], ◌∷◌, map, filter, find?, head?, get_or,
  is_some, ◌==◌, if◌then◌else◌,
}
use ntfy.Base.Int.{ℤ, eqb_ℤ}
use ntfy.Model.{Subscription, User, ConnectionState, Message}
use ntfy.Connection
use ntfy.Connection.{Connection}
use ntfy.Util.Hash.{hash_code}

unfoldable pub make_connection_id : Subscription → Option User → ℤ
make_connection_id s none = hash_code s.id
make_connection_id s (some user) = hash_code (
    s.id
    ++ ("|"
        ++ (user.username ++ ("|" ++ (get_or user.password "" ++ ("|" ++ get_or user.token ""))))))

-- A JavaScript Map from connection ids.
abbrev pub Connections : Type 0
Connections = List (ℤ × Connection)

abbrev pub get : ℤ → Connections → Option Connection
get i [] = none
get i ((j, c) ∷ m) = if eqb_ℤ j i then some c else get i m

abbrev pub put : ℤ → Connection → Connections → Connections
put i c [] = (i, c) ∷ []
put i c ((j, d) ∷ m) = if eqb_ℤ j i then (j, c) ∷ m else (j, d) ∷ put i c m

abbrev pub remove : ℤ → Connections → Connections
remove i [] = []
remove i ((j, d) ∷ m) = let rest = remove i m in if eqb_ℤ j i then rest else (j, d) ∷ rest

abbrev pub keys : Connections → List ℤ
keys m = map (λ e. e.0) m

abbrev pub includes : List ℤ → ℤ → Bool
includes [] i = Bool.false
includes (j ∷ js) i = eqb_ℤ j i || includes js i

pub record Manager : Type 0 where
  pub connections : Connections
  pub started : List Connection
  pub closed : List Connection

-- A subscription with its user and its connection id.
pub record Target : Type 0 where
  pub subscription : Subscription
  pub user : Option User
  pub connection_id : ℤ

abbrev pub user_of : List User → Subscription → Option User
user_of users s = head? (filter (λ (u : User). u.base_url == s.base_url) users)

unfoldable pub targets : List User → List Subscription → List Target
targets users subscriptions =
    map
      (λ (s : Subscription). record {
        subscription = s;
        user = user_of users s;
        connection_id = make_connection_id s (user_of users s);
      })
      subscriptions

abbrev pub connection_of : Target → Connection
connection_of t =
    let s = t.subscription in Connection.new t.connection_id s.id s.base_url s.topic t.user s.last

unfoldable pub open_target : Manager → Target → Manager
open_target m t = if is_some (get t.connection_id m.connections) then m else record m {
  connections = put t.connection_id (connection_of t) m.connections;
  started = connection_of t ∷ m.started;
}

unfoldable pub close_id : Manager → ℤ → Manager
close_id m i = record m {
  connections = remove i m.connections;
  closed = elim (get i m.connections) [ none ↦ m.closed | some c ↦ c ∷ m.closed ];
}

abbrev pub target_ids : List Target → List ℤ
target_ids ts = map (λ (t : Target). t.connection_id) ts

abbrev pub deleted_ids : Manager → List Target → List ℤ
deleted_ids m ts = filter (λ i. not (includes (target_ids ts) i)) (keys m.connections)

unfoldable pub reconcile : List Target → Manager → Manager
reconcile ts m = foldl close_id (foldl open_target m ts) (deleted_ids m ts)

-- Nothing happens until both lists are loaded.
unfoldable pub refresh : Option (List Subscription) → Option (List User) → Manager → Manager
refresh none _ m = m
refresh (some _) none m = m
refresh (some subscriptions) (some users) m = reconcile (targets users subscriptions) m
