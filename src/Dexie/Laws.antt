-- ===== src/Dexie/Laws.antt =====
-- What follows from the laws of a table.
use ntfy.Base.{
  String, ◌≡◌, refl, ◌∙◌, ap, Bool, true, false, ◌&&◌, Option, none, some, List, [], ◌∷◌, length,
  filter, any, All, ◌==◌, eq_iff, if◌then◌else◌, arith, Bool-cases, Option-cases, inl, inr,
}
use ntfy.Dexie.{Table}

abbrev pub holds_of {ℓ} : {A : Type ℓ} → (A → Bool) → Option A → Bool
holds_of p none = false
holds_of p (some a) = p a

any-false {ℓ} :
    {A : Type ℓ} (p : A → Bool) (xs : List A) → any p xs ≡ false → All (λ x. p x ≡ false) xs
any-false p [] _ = tt
any-false p (x ∷ xs) h = (ground arith, any-false p xs (ground arith))

pub filter_none {ℓ} :
    {A : Type ℓ} (p : A → Bool) (xs : List A) → All (λ x. p x ≡ false) xs → filter p xs ≡ []
filter_none p [] _ = refl
filter_none p (x ∷ xs) (e, h) = rw (e, filter_none p xs h)

module _ {Row : Type 0} {key : Row → String} (T : Table key) (t : T.Rows) where
  any-true :
      (p : Row → Bool) (k : String) (xs : List Row)
      → All (λ r. T.get t (key r) ≡ some r) xs
      → any (λ r. p r && key r == k) xs ≡ true
      → holds_of p (T.get t k) ≡ true
  any-true p k [] _ e = cc
  any-true p k (x ∷ xs) (g, h) e = elim (Bool-cases (p x && key x == k)) [
    | inl e' ↦
        let same : key x ≡ k = ground (arith, eq_iff (key x) k) in rw (← same, g) (ground arith)
    | inr e' ↦ any-true p k xs h (ground arith)
  ]

  -- Some row with the key `k` satisfies `p` exactly if the row under `k` does.
  pub any_row :
      (p : Row → Bool) (k : String)
      → any (λ r. p r && key r == k) (T.to_array t) ≡ holds_of p (T.get t k)
  any_row p k = elim (Bool-cases (any (λ r. p r && key r == k) (T.to_array t))) [
    | inl e ↦ rw (e, any-true p k (T.to_array t) (T.get_of_row t) e)
    | inr e ↦ elim (Option-cases (T.get t k)) [
      | inl e' ↦ rw (e, e')
      | inr (r, e') ↦
          let own = T.key_of_get t k r e' in
          let fails =
            T.row_of_get t (λ r. (p r && key r == k) ≡ false) k r (any-false _ (T.to_array t) e)
              e' in
          rw (e, e') (ground (arith, eq_iff (key r) k))
    ]
  ]

  none_of_rows_from :
      (p : Row → Bool) (xs : List Row)
      → ((k : String) (r : Row) → T.get t k ≡ some r → p r ≡ false)
      → All (λ r. T.get t (key r) ≡ some r) xs
      → All (λ r. p r ≡ false) xs
  none_of_rows_from p [] h _ = tt
  none_of_rows_from p (x ∷ xs) h (g, gs) = (h (key x) x g, none_of_rows_from p xs h gs)

  -- Where no row that can be read satisfies `p`, none is counted.
  pub count_where_none :
      (p : Row → Bool)
      → ((k : String) (r : Row) → T.get t k ≡ some r → p r ≡ false)
      → T.count_where t p ≡ 0
  count_where_none p h =
      T.count_where_lem t p
      ∙ ap length
          (filter_none p (T.to_array t) (none_of_rows_from p (T.to_array t) h (T.get_of_row t)))

module _ {Row : Type 0} {key : Row → String} (T : Table key) where
  -- The last of the rows with the key `k`, and else what was there.
  abbrev pub latest : String → List Row → Option Row → Option Row
  latest k [] o = o
  latest k (r ∷ rs) o = latest k rs (if key r == k then some r else o)

  pub get-bulk_put :
      (rs : List Row) (t : T.Rows) (k : String)
      → T.get (T.bulk_put t rs) k ≡ latest k rs (T.get t k)
  get-bulk_put [] t k = rw (T.bulk_put-nil t) refl
  get-bulk_put (r ∷ rs) t k =
      rw (T.bulk_put-cons t r rs)
        (get-bulk_put rs (T.put t r) k ∙ ap (latest k rs) (T.get-put t r k))
