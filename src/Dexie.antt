-- ===== src/Dexie.antt =====
-- Dexie.js, the IndexedDB wrapper that web/src/app/db.js opens: a parameter of the model. A table is
-- known by the operations that the app calls and by what their documentation says of them.
pub mod Rows
pub mod Laws
use mathlib.Core.List.{Perm}
use ntfy.Base.{
  ℕ, ◌≤◌, String, ◌≡◌, Bool, Option, none, some, List, [], ◌∷◌, length, filter, All, is_some, ◌==◌,
  if◌then◌else◌,
}

-- A change of a row that leaves its primary key as it is.
abbrev pub KeepsKey : {Row : Type 0} → (Row → String) → (Row → Row) → Type 0
KeepsKey {Row} key f = (r : Row) → key (f r) ≡ key r

-- `when o p`: the row, unless it is one that `p` selects.
abbrev pub unless {ℓ} : {A : Type ℓ} → (A → Bool) → Option A → Option A
unless p none = none
unless p (some a) = if p a then none else some a

abbrev pub change_if {ℓ} : {A : Type ℓ} → (A → Bool) → (A → A) → A → A
change_if p f a = if p a then f a else a

abbrev pub map_option {ℓ κ} : {A : Type ℓ} {B : Type κ} → (A → B) → Option A → Option B
map_option f none = none
map_option f (some a) = some (f a)

abbrev pub SortedBy {ℓ} : {A : Type ℓ} → (A → ℕ) → List A → Type 0
SortedBy f [] = Unit {0}
SortedBy f (x ∷ xs) = All (λ y. f x ≤ f y) xs × SortedBy f xs

pub record Table {Row : Type 0} (key : Row → String) : Type 1 where
  -- The contents of the table.
  pub Rows : Type 0
  pub empty : Rows
  pub to_array : Rows → List Row
  pub get : Rows → String → Option Row
  pub put : Rows → Row → Rows
  -- `none`: the promise is rejected with a ConstraintError.
  pub add : Rows → Row → Option Rows
  pub bulk_put : Rows → List Row → Rows
  pub delete : Rows → String → Rows
  pub update : Rows → String → (Row → Row) → Rows
  -- `where(…)` followed by `count()`, `toArray()`, `delete()` and `modify(…)`.
  pub count_where : Rows → (Row → Bool) → ℕ
  pub where_array : Rows → (Row → Bool) → List Row
  pub delete_where : Rows → (Row → Bool) → Rows
  pub modify_where : Rows → (Row → Bool) → (Row → Row) → Rows
  -- `orderBy(…).toArray()`
  pub order_by : (Row → ℕ) → Rows → List Row
  pub get-empty : (k : String) → get empty k ≡ none
  pub get_of_row : (t : Rows) → All (λ r. get t (key r) ≡ some r) (to_array t)
  pub row_of_get :
      (t : Rows) (P : Row → Type 0) (k : String) (r : Row)
      → All P (to_array t)
      → get t k ≡ some r
      → P r
  pub key_of_get : (t : Rows) (k : String) (r : Row) → get t k ≡ some r → key r ≡ k
  pub get-put :
      (t : Rows) (r : Row) (k : String) → get (put t r) k ≡ (if key r == k then some r else get t k)
  pub add_lem :
      (t : Rows) (r : Row) → add t r ≡ (if is_some (get t (key r)) then none else some (put t r))
  pub bulk_put-nil : (t : Rows) → bulk_put t [] ≡ t
  pub bulk_put-cons :
      (t : Rows) (r : Row) (rs : List Row) → bulk_put t (r ∷ rs) ≡ bulk_put (put t r) rs
  pub get-delete :
      (t : Rows) (j k : String) → get (delete t j) k ≡ (if j == k then none else get t k)
  pub get-update :
      (t : Rows) (j k : String) (f : Row → Row)
      → KeepsKey key f
      → get (update t j f) k ≡ (if j == k then map_option f (get t k) else get t k)
  pub count_where_lem :
      (t : Rows) (p : Row → Bool) → count_where t p ≡ length (filter p (to_array t))
  pub where_array-perm :
      (t : Rows) (p : Row → Bool) → Perm (where_array t p) (filter p (to_array t))
  pub get-delete_where :
      (t : Rows) (p : Row → Bool) (k : String) → get (delete_where t p) k ≡ unless p (get t k)
  pub get-modify_where :
      (t : Rows) (p : Row → Bool) (f : Row → Row) (k : String)
      → KeepsKey key f
      → get (modify_where t p f) k ≡ map_option (change_if p f) (get t k)
  pub to_array-order_by : (f : Row → ℕ) (t : Rows) → Perm (order_by f t) (to_array t)
  pub SortedBy-order_by : (f : Row → ℕ) (t : Rows) → SortedBy f (order_by f t)
