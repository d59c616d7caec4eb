-- ===== src/Manager/Again.antt =====
-- A second refresh with the same lists opens and closes nothing.
use mathlib.Core.List.{foldl}
use ntfy.Base.{
  ◌≡◌, refl, ◌∙◌, ap, Bool, true, false, some, List, [], ◌∷◌, filter, is_some, arith, All,
}
use ntfy.Base.Int.{ℤ, eqb_ℤ_iff}
use ntfy.Model.{User, Subscription}
use ntfy.Manager.{
  get, keys, includes, Manager, Target, open_target, close_id, deleted_ids, reconcile, targets,
  refresh,
}
use ntfy.Manager.Refresh.{get-reconcile, includes-keys, includes-target_ids, first_target}

foldl-open_target_present :
    (m : Manager) (ts : List Target)
    → All (λ t. is_some (get t.connection_id m.connections) ≡ true) ts
    → foldl open_target m ts ≡ m
foldl-open_target_present m [] _ = refl
foldl-open_target_present m (t ∷ ts) (p, h) =
    ap (λ n. foldl open_target n ts) (present p) ∙ foldl-open_target_present m ts h
  where
    present : is_some (get t.connection_id m.connections) ≡ true → open_target m t ≡ m
    present e = unfold open_target in rw e refl

filter_none : (p : ℤ → Bool) (is : List ℤ) → All (λ i. p i ≡ false) is → filter p is ≡ []
filter_none p [] _ = refl
filter_none p (i ∷ is) (e, h) = rw (e, filter_none p is h)

All-of_includes : (P : ℤ → Type 0) (is : List ℤ) → ((i : ℤ) → includes is i ≡ true → P i) → All P is
All-of_includes P [] h = tt
All-of_includes P (i ∷ is) h =
    (h i (rw ((eqb_ℤ_iff i i).1 refl) refl), All-of_includes P is (λ j e. h j (ground arith)))

All-of_targets :
    (P : Target → Type 0) (ts all : List Target)
    → ((t : Target) → is_some (first_target t.connection_id all) ≡ true → P t)
    → All (λ t. is_some (first_target t.connection_id all) ≡ true) ts
    → All P ts
All-of_targets P [] all h _ = tt
All-of_targets P (t ∷ ts) all h (e, es) = (h t e, All-of_targets P ts all h es)

wider :
    (t : Target) (ts all : List Target)
    → All (λ u. is_some (first_target u.connection_id all) ≡ true) ts
    → All (λ u. is_some (first_target u.connection_id (t ∷ all)) ≡ true) ts
wider t [] all _ = tt
wider t (u ∷ ts) all (e, h) = (ground arith, wider t ts all h)

has_first : (ts : List Target) → All (λ t. is_some (first_target t.connection_id ts) ≡ true) ts
has_first [] = tt
has_first (t ∷ ts) =
    (rw ((eqb_ℤ_iff t.connection_id t.connection_id).1 refl) refl, wider t ts ts (has_first ts))

module _ (ts : List Target) (m : Manager) where
  present-reconcile :
      All (λ t. is_some (get t.connection_id (reconcile ts m).connections) ≡ true) ts
  present-reconcile =
      All-of_targets _ ts ts (λ t e. rw (get-reconcile ts m t.connection_id) (ground arith))
        (has_first ts)

  deleted_ids-reconcile : deleted_ids (reconcile ts m) ts ≡ []
  deleted_ids-reconcile = filter_none _ _ (
      All-of_includes _ (keys (reconcile ts m).connections) λ i e. ground (
        arith,
        includes-keys i (reconcile ts m).connections,
        get-reconcile ts m i,
        includes-target_ids i ts,
      ))

  reconcile_shut :
      (n : Manager) → reconcile ts n ≡ foldl close_id (foldl open_target n ts) (deleted_ids n ts)
  unfolding reconcile
  reconcile_shut n = refl

  reconcile_again : reconcile ts (reconcile ts m) ≡ reconcile ts m
  reconcile_again =
      reconcile_shut (reconcile ts m)
      ∙ ap (λ is. foldl close_id (foldl open_target (reconcile ts m) ts) is) deleted_ids-reconcile
      ∙ foldl-open_target_present (reconcile ts m) ts present-reconcile

-- Refreshing again with the same subscriptions and users changes nothing: no connection is started,
-- none is closed.
pub refresh_idempotent :
    (users : List User) (subscriptions : List Subscription) (m : Manager)
    → refresh (some subscriptions) (some users) (refresh (some subscriptions) (some users) m)
      ≡ refresh (some subscriptions) (some users) m
unfolding refresh
refresh_idempotent users subscriptions m = reconcile_again (targets users subscriptions) m
