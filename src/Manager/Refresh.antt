-- ===== src/Manager/Refresh.antt =====
-- After a refresh the connections are those of the targets, and the ones that were there are kept.
use mathlib.Core.List.{foldl}
use ntfy.Base.{
  ◌≡◌, refl, Bool, false, not, Option, none, some, List, [], ◌∷◌, find?, filter, is_some, arith,
  if◌then◌else◌,
}
use ntfy.Base.Int.{ℤ, eqb_ℤ, eqb_ℤ_iff}
use ntfy.Connection.{Connection}
use ntfy.Model.{User, Subscription}
use ntfy.Manager.{
  Connections, get, put, remove, keys, includes, Manager, Target, connection_of, open_target,
  close_id, target_ids, deleted_ids, reconcile, targets, refresh,
}

get-put :
    (i j : ℤ) (c : Connection) (m : Connections)
    → get j (put i c m) ≡ (if eqb_ℤ i j then some c else get j m)
get-put i j c [] = refl
get-put i j c ((k, d) ∷ m) =
    ground (arith, get-put i j c m, eqb_ℤ_iff i j, eqb_ℤ_iff k i, eqb_ℤ_iff k j)

get-remove :
    (i j : ℤ) (m : Connections) → get j (remove i m) ≡ (if eqb_ℤ i j then none else get j m)
get-remove i j [] = ground arith
get-remove i j ((k, d) ∷ m) =
    ground (arith, get-remove i j m, eqb_ℤ_iff i j, eqb_ℤ_iff k i, eqb_ℤ_iff k j)

abbrev pub or_else : Option Connection → Option Connection → Option Connection
or_else none b = b
or_else (some a) b = some a

abbrev pub first_target : ℤ → List Target → Option Target
first_target i ts = find? (λ (t : Target). eqb_ℤ t.connection_id i) ts

abbrev pub made : Option Target → Option Connection
made none = none
made (some t) = some (connection_of t)

get-open_target :
    (i : ℤ) (m : Manager) (t : Target)
    → get i (open_target m t).connections
      ≡ or_else
          (get i m.connections)
          (if eqb_ℤ t.connection_id i then some (connection_of t) else none)
unfolding open_target
get-open_target i m t =
    ground (
      arith,
      get-put t.connection_id i (connection_of t) m.connections,
      eqb_ℤ_iff t.connection_id i,
    )

get-foldl-open_target :
    (i : ℤ) (m : Manager) (ts : List Target)
    → get i (foldl open_target m ts).connections
      ≡ or_else (get i m.connections) (made (first_target i ts))
get-foldl-open_target i m [] = ground arith
get-foldl-open_target i m (t ∷ ts) =
    ground (arith, get-foldl-open_target i (open_target m t) ts, get-open_target i m t)

get-foldl-close_id :
    (i : ℤ) (m : Manager) (is : List ℤ)
    → get i (foldl close_id m is).connections
      ≡ (if includes is i then none else get i m.connections)
unfolding close_id
get-foldl-close_id i m [] = refl
get-foldl-close_id i m (j ∷ js) =
    ground (arith, get-foldl-close_id i (close_id m j) js, get-remove j i m.connections)

includes-filter :
    (p : ℤ → Bool) (i : ℤ) (is : List ℤ)
    → includes (filter p is) i ≡ (if p i then includes is i else false)
includes-filter p i [] = ground arith
includes-filter p i (j ∷ js) = ground (arith, includes-filter p i js, eqb_ℤ_iff j i)

pub includes-keys : (i : ℤ) (m : Connections) → includes (keys m) i ≡ is_some (get i m)
includes-keys i [] = refl
includes-keys i ((j, c) ∷ m) = ground (arith, includes-keys i m)

pub includes-target_ids :
    (i : ℤ) (ts : List Target) → includes (target_ids ts) i ≡ is_some (first_target i ts)
includes-target_ids i [] = refl
includes-target_ids i (t ∷ ts) = ground (arith, includes-target_ids i ts)

-- What should be connected under an id: nothing that no target has; the connection that is there; and
-- else a new one for the first target with that id.
abbrev pub wanted : ℤ → List Target → Option Connection → Option Connection
wanted i ts before = elim (first_target i ts) [
  | none ↦ none
  | some t ↦ or_else before (some (connection_of t))
]

pub get-reconcile :
    (ts : List Target) (m : Manager) (i : ℤ)
    → get i (reconcile ts m).connections ≡ wanted i ts (get i m.connections)
unfolding reconcile
get-reconcile ts m i = ground (
  arith,
  get-foldl-close_id i (foldl open_target m ts) (deleted_ids m ts),
  get-foldl-open_target i m ts,
  includes-filter (λ j. not (includes (target_ids ts) j)) i (keys m.connections),
  includes-keys i m.connections,
  includes-target_ids i ts,
)

-- After a refresh there is, under every id, what should be connected there: the connections of ids
-- that no target has are gone, those of the targets' ids that were there are the same objects, and
-- each other id of a target has a new connection, made for the first target with that id.
pub get-refresh :
    (users : List User) (subscriptions : List Subscription) (m : Manager) (i : ℤ)
    → get i (refresh (some subscriptions) (some users) m).connections
      ≡ wanted i (targets users subscriptions) (get i m.connections)
unfolding refresh
get-refresh users subscriptions m i = get-reconcile (targets users subscriptions) m i
