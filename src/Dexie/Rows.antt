-- ===== src/Dexie/Rows.antt =====
-- A table as a list of rows with distinct keys: the laws of `Table` can hold.
use mathlib.Core.List.{Perm}
use mathlib.Core.List.Perm
use ntfy.Base.{
  ℕ, ◌≤◌, String, ◌≡◌, refl, ◌∙◌, Bool, not, Option, none, some, List, [], ◌∷◌, map, length, filter,
  find?, All, is_some, leb, ◌==◌, eq_iff, eq_refl, eq_comm, if◌then◌else◌, arith, Bool-cases, inl,
  inr,
}
use ntfy.Dexie.{KeepsKey, unless, change_if, map_option, SortedBy, Table}

module _ {Row : Type 0} (f : Row → ℕ) where
  insert : Row → List Row → List Row
  insert x [] = x ∷ []
  insert x (y ∷ ys) = let rest = insert x ys in if leb (f x) (f y) then x ∷ y ∷ ys else y ∷ rest

  unfoldable pub sort : List Row → List Row
  unfolding insert
  sort [] = []
  sort (x ∷ xs) = insert x (sort xs)

  insert-perm : (x : Row) (xs : List Row) → Perm (insert x xs) (x ∷ xs)
  unfolding insert
  insert-perm x [] = Perm.refl _
  insert-perm x (y ∷ ys) = elim (Bool-cases (leb (f x) (f y))) [
    | inl e ↦ rw e (Perm.refl _)
    | inr e ↦ rw e (Perm.trans (Perm.cons y (insert-perm x ys)) (Perm.swap _ _ _))
  ]

  pub sort-perm : (xs : List Row) → Perm (sort xs) xs
  unfolding sort
  sort-perm [] = Perm.refl _
  sort-perm (x ∷ xs) = Perm.trans (insert-perm x (sort xs)) (Perm.cons x (sort-perm xs))

  All-insert :
      (n : ℕ) (x : Row) (xs : List Row)
      → n ≤ f x
      → All (λ y. n ≤ f y) xs
      → All (λ y. n ≤ f y) (insert x xs)
  unfolding insert
  All-insert n x [] h _ = (h, tt)
  All-insert n x (y ∷ ys) h (k, hs) = ground (arith, All-insert n x ys h hs)

  All-le_trans : (m n : ℕ) (xs : List Row) → m ≤ n → All (λ y. n ≤ f y) xs → All (λ y. m ≤ f y) xs
  All-le_trans m n [] h _ = tt
  All-le_trans m n (x ∷ xs) h (k, hs) = (omega arith, All-le_trans m n xs h hs)

  SortedBy-insert : (x : Row) (xs : List Row) → SortedBy f xs → SortedBy f (insert x xs)
  unfolding insert
  SortedBy-insert x [] _ = (tt, tt)
  SortedBy-insert x (y ∷ ys) (a, s) = elim (Bool-cases (leb (f x) (f y))) [
    | inl e ↦
        let h : f x ≤ f y = ground arith in rw e ((h, All-le_trans (f x) (f y) ys h a), (a, s))
    | inr e ↦
        let h : f y ≤ f x = ground arith in rw e (All-insert (f y) x ys h a, SortedBy-insert x ys s)
  ]

  pub sort-SortedBy : (xs : List Row) → SortedBy f (sort xs)
  unfolding sort
  sort-SortedBy [] = tt
  sort-SortedBy (x ∷ xs) = SortedBy-insert x (sort xs) (sort-SortedBy xs)

module _ {Row : Type 0} (key : Row → String) where
  abbrev pub lookup : String → List Row → Option Row
  lookup k xs = find? (λ r. key r == k) xs

  abbrev pub HasDistinctKeys : List Row → Type 0
  HasDistinctKeys [] = Unit
  HasDistinctKeys (x ∷ xs) = (lookup (key x) xs ≡ none) × HasDistinctKeys xs

  pub lookup-filter :
      (p : Row → Bool) (k : String) (xs : List Row)
      → HasDistinctKeys xs
      → lookup k (filter (λ r. not (p r)) xs) ≡ unless p (lookup k xs)
  lookup-filter p k [] _ = refl
  lookup-filter p k (x ∷ xs) (d, h) = ground (arith, lookup-filter p k xs h, eq_iff (key x) k)

  pub HasDistinctKeys-filter :
      (p : Row → Bool) (xs : List Row)
      → HasDistinctKeys xs
      → HasDistinctKeys (filter (λ r. not (p r)) xs)
  HasDistinctKeys-filter p [] _ = tt
  HasDistinctKeys-filter p (x ∷ xs) (d, h) =
      ground (arith, lookup-filter p (key x) xs h, HasDistinctKeys-filter p xs h)

  -- The key cannot be changed: the change of such a row is not made.
  abbrev pub safe : (Row → Row) → Row → Row
  safe f r = if key (f r) == key r then f r else r

  safe-key : (f : Row → Row) (r : Row) → key (safe f r) ≡ key r
  safe-key f r = ground (arith, eq_iff (key (f r)) (key r))

  abbrev pub change : (Row → Bool) → (Row → Row) → Row → Row
  change p f r = change_if p (safe f) r

  pub change-key : (p : Row → Bool) (f : Row → Row) (r : Row) → key (change p f r) ≡ key r
  change-key p f r = ground (arith, safe-key f r)

  pub lookup-map :
      (g : Row → Row) (k : String) (xs : List Row)
      → KeepsKey key g
      → lookup k (map g xs) ≡ map_option g (lookup k xs)
  lookup-map g k [] h = refl
  lookup-map g k (x ∷ xs) h = rw (h x) (ground (arith, lookup-map g k xs h))

  pub HasDistinctKeys-map :
      (g : Row → Row) (xs : List Row)
      → KeepsKey key g
      → HasDistinctKeys xs
      → HasDistinctKeys (map g xs)
  HasDistinctKeys-map g [] h _ = tt
  HasDistinctKeys-map g (x ∷ xs) h (d, hs) =
      (rw (h x, lookup-map g (key x) xs h, d), HasDistinctKeys-map g xs h hs)

  pub lookup-key : (k : String) (r : Row) (xs : List Row) → lookup k xs ≡ some r → key r ≡ k
  lookup-key k r [] e = cc
  lookup-key k r (x ∷ xs) e = ground (arith, eq_iff (key x) k, lookup-key k r xs)

  pub All_lookup :
      (P : Row → Type 0) (k : String) (r : Row) (xs : List Row)
      → All P xs
      → lookup k xs ≡ some r
      → P r
  All_lookup P k r [] _ e = cc
  All_lookup P k r (x ∷ xs) (p, h) e = elim (Bool-cases (key x == k)) [
    | inl m ↦ let same : x ≡ r = ground arith in rw (← same) p
    | inr m ↦ All_lookup P k r xs h (ground arith)
  ]

  pub get_of_row_from :
      (ys xs : List Row)
      → HasDistinctKeys xs
      → ((k : String) (r : Row) → lookup k xs ≡ some r → lookup k ys ≡ some r)
      → All (λ r. lookup (key r) ys ≡ some r) xs
  get_of_row_from ys [] _ h = tt
  get_of_row_from ys (x ∷ xs) (d, hs) h = (
    h (key x) x (rw eq_refl refl),
    get_of_row_from ys xs hs (λ k r e. h k r (ground (arith, eq_iff (key x) k))),
  )

  -- Removing the rows with the key `k` leaves none.
  pub lookup-remove_self :
      (k : String) (xs : List Row)
      → HasDistinctKeys xs
      → lookup k (filter (λ x. not (key x == k)) xs) ≡ none
  lookup-remove_self k xs h =
      rw (lookup-filter (λ x. key x == k) k xs h)
        (absent (lookup k xs) (λ r e. lookup-key k r xs e))
    where
      absent :
          (o : Option Row)
          → ((r : Row) → o ≡ some r → key r ≡ k)
          → unless (λ x. key x == k) o ≡ none
      absent none own = refl
      absent (some r) own = rw (own r refl, eq_refl) refl

  pub record Contents : Type 0 where
    pub items : List Row
    pub distinct : HasDistinctKeys items

  abbrev pub no_rows : Contents
  no_rows = record { items = []; distinct = tt }

  abbrev pub put_row : Contents → Row → Contents
  put_row t r = record {
    items = r ∷ filter (λ x. not (key x == key r)) t.items;
    distinct = (
      lookup-remove_self (key r) t.items t.distinct,
      HasDistinctKeys-filter (λ x. key x == key r) t.items t.distinct,
    );
  }

  abbrev pub remove_rows : (Row → Bool) → Contents → Contents
  remove_rows p t = record {
    items = filter (λ x. not (p x)) t.items;
    distinct = HasDistinctKeys-filter p t.items t.distinct;
  }

  abbrev pub change_rows : (Row → Bool) → (Row → Row) → Contents → Contents
  change_rows p f t = record {
    items = map (change p f) t.items;
    distinct = HasDistinctKeys-map (change p f) t.items (change-key p f) t.distinct;
  }

  abbrev pub put_rows : Contents → List Row → Contents
  put_rows t [] = t
  put_rows t (r ∷ rs) = put_rows (put_row t r) rs

  -- A filter by the key is the key's absence or the row that was there.
  pub unless_key :
      (j k : String) (o : Option Row)
      → ((r : Row) → o ≡ some r → key r ≡ k)
      → unless (λ x. key x == j) o ≡ (if j == k then none else o)
  unless_key j k none own = ground arith
  unless_key j k (some r) own = rw (own r refl, eq_comm k j) refl

  pub change_key :
      (j k : String) (f : Row → Row) (o : Option Row)
      → KeepsKey key f
      → ((r : Row) → o ≡ some r → key r ≡ k)
      → map_option (change (λ x. key x == j) f) o ≡ (if j == k then map_option f o else o)
  change_key j k f none keeps own = ground arith
  change_key j k f (some r) keeps own =
      rw (keeps r, eq_refl (key r), own r refl, eq_comm k j) (ground arith)

  pub change_safe :
      (p : Row → Bool) (f : Row → Row) (o : Option Row)
      → KeepsKey key f
      → map_option (change p f) o ≡ map_option (change_if p f) o
  change_safe p f none keeps = refl
  change_safe p f (some r) keeps = rw (keeps r, eq_refl (key r)) refl

  pub find-put_row :
      (t : Contents) (r : Row) (k : String)
      → lookup k (put_row t r).items ≡ (if key r == k then some r else lookup k t.items)
  find-put_row t r k =
      rw
        (
          lookup-filter (λ x. key x == key r) k t.items t.distinct,
          unless_key (key r) k (lookup k t.items) (λ x e. lookup-key k x t.items e),
        )
        (ground arith)

  -- The rows of a table as an implementation of the interface.
  abbrev pub table : Table key
  table = record {
    Rows = Contents;
    empty = no_rows;
    get-empty = λ k. refl;
    to_array = λ t. t.items;
    get = λ t k. lookup k t.items;
    put = put_row;
    add = λ t r. if is_some (lookup (key r) t.items) then none else some (put_row t r);
    bulk_put = put_rows;
    delete = λ t k. remove_rows (λ x. key x == k) t;
    update = λ t k f. change_rows (λ x. key x == k) f t;
    count_where = λ t p. length (filter p t.items);
    where_array = λ t p. filter p t.items;
    delete_where = λ t p. remove_rows p t;
    modify_where = λ t p f. change_rows p f t;
    order_by = λ f t. sort f t.items;
    get_of_row = λ t. get_of_row_from t.items t.items t.distinct (λ k r e. e);
    row_of_get = λ t P k r h e. All_lookup P k r t.items h e;
    key_of_get = λ t k r e. lookup-key k r t.items e;
    get-put = find-put_row;
    add_lem = λ t r. refl;
    bulk_put-nil = λ t. refl;
    bulk_put-cons = λ t r rs. refl;
    get-delete = λ t j k.
        lookup-filter (λ x. key x == j) k t.items t.distinct
        ∙ unless_key j k (lookup k t.items) (λ x e. lookup-key k x t.items e);
    get-update = λ t j k f keeps.
        lookup-map (change (λ x. key x == j) f) k t.items (change-key (λ x. key x == j) f)
        ∙ change_key j k f (lookup k t.items) keeps (λ x e. lookup-key k x t.items e);
    count_where_lem = λ t p. refl;
    where_array-perm = λ t p. Perm.refl _;
    get-delete_where = λ t p k. lookup-filter p k t.items t.distinct;
    get-modify_where = λ t p f k keeps.
        lookup-map (change p f) k t.items (change-key p f)
        ∙ change_safe p f (lookup k t.items) keeps;
    to_array-order_by = λ f t. sort-perm f t.items;
    SortedBy-order_by = λ f t. sort-SortedBy f t.items;
  }
