-- ===== src/Base/Sort.antt =====
-- xs.sort(compare), a stable sort: `before a b` says that `compare(a, b)` is negative.
use mathlib.Core.List.{Perm}
use mathlib.Core.List.Perm
use ntfy.Base.{
  ◌≡◌, Bool, true, false, List, [], ◌∷◌, if◌then◌else◌, All, All-map_of, Bool-cases, inl, inr,
}

module _ {ℓ} {A : Type ℓ} (before : A → A → Bool) where
  abbrev pub insert : A → List A → List A
  insert x [] = x ∷ []
  insert x (y ∷ ys) = let rest = insert x ys in if before y x then y ∷ rest else x ∷ y ∷ ys

  unfoldable pub sort : List A → List A
  sort [] = []
  sort (x ∷ xs) = insert x (sort xs)

  insert-perm : (x : A) (ys : List A) → Perm (insert x ys) (x ∷ ys)
  insert-perm x [] = Perm.refl (x ∷ [])
  insert-perm x (y ∷ ys) = elim (Bool-cases (before y x)) [
    | inl e ↦ rw e (Perm.trans (Perm.cons y (insert-perm x ys)) (Perm.swap x y ys))
    | inr e ↦ rw e (Perm.refl (x ∷ y ∷ ys))
  ]

  pub sort-perm : (xs : List A) → Perm (sort xs) xs
  unfolding sort
  sort-perm [] = Perm.refl []
  sort-perm (x ∷ xs) = Perm.trans (insert-perm x (sort xs)) (Perm.cons x (sort-perm xs))

  All-insert {κ} : (P : A → Type κ) (x : A) (ys : List A) → P x → All P ys → All P (insert x ys)
  All-insert P x [] p _ = (p, tt)
  All-insert P x (y ∷ ys) p (q, h) = elim (Bool-cases (before y x)) [
    | inl e ↦ rw e (q, All-insert P x ys p h)
    | inr e ↦ rw e (p, (q, h))
  ]

  All-sort {κ} : (P : A → Type κ) (xs : List A) → All P xs → All P (sort xs)
  unfolding sort
  All-sort P [] _ = tt
  All-sort P (x ∷ xs) (p, h) = All-insert P x (sort xs) p (All-sort P xs h)

  -- What comes later does not belong before what comes earlier.
  abbrev pub IsSorted : List A → Type 0
  IsSorted [] = Unit
  IsSorted (x ∷ xs) = All (λ y. before y x ≡ false) xs × IsSorted xs

  -- No two members belong before each other.
  abbrev pub IsAntisymmetric : List A → Type 0
  IsAntisymmetric [] = Unit
  IsAntisymmetric (x ∷ xs) =
      All (λ y. before y x ≡ true → before x y ≡ false) xs × IsAntisymmetric xs

  abbrev pub IsTransitive : Type ℓ
  IsTransitive = (x y z : A) → before y x ≡ false → before z y ≡ false → before z x ≡ false

  insert-IsSorted :
      (x : A) (ys : List A)
      → IsTransitive
      → All (λ y. before y x ≡ true → before x y ≡ false) ys
      → IsSorted ys
      → IsSorted (insert x ys)
  insert-IsSorted x [] t _ _ = (tt, tt)
  insert-IsSorted x (y ∷ ys) t (a, rest) (h, hs) = elim (Bool-cases (before y x)) [
    | inl e ↦
        rw e (All-insert (λ z. before z y ≡ false) x ys (a e) h, insert-IsSorted x ys t rest hs)
    | inr e ↦ rw e (
      (e, All-map_of (λ z. before z y ≡ false) (λ z. before z x ≡ false) (λ z. t x y z e) ys h),
      (h, hs),
    )
  ]

  pub sort-IsSorted : (xs : List A) → IsTransitive → IsAntisymmetric xs → IsSorted (sort xs)
  unfolding sort
  sort-IsSorted [] t _ = tt
  sort-IsSorted (x ∷ xs) t (a, rest) =
      insert-IsSorted x (sort xs) t (All-sort (λ y. before y x ≡ true → before x y ≡ false) xs a)
        (sort-IsSorted xs t rest)
