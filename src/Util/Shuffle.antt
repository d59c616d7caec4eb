-- ===== src/Util/Shuffle.antt =====
-- `shuffle` of web/src/app/utils.js. `pick index` is `Math.floor(Math.random() * (index + 1))`.
use mathlib.Core.List.{Perm}
use mathlib.Core.List.Perm
use ntfy.Base.{
  ℕ, zero, suc, ◌-◌, ◌≡◌, refl, subst, Option, none, some, List, [], ◌∷◌, length, get_elem?,
}

module _ {ℓ} {A : Type ℓ} where
  abbrev replace : List A → ℕ → A → List A
  replace [] i a = []
  replace (x ∷ xs) zero a = a ∷ xs
  replace (x ∷ xs) (suc i) a = x ∷ replace xs i a

  abbrev exchange : List A → ℕ → ℕ → Option A → Option A → List A
  exchange xs i j (some a) (some b) = replace (replace xs i b) j a
  exchange xs i j _ _ = xs

  -- [xs[i], xs[j]] = [xs[j], xs[i]], for indices of the array
  abbrev swap : List A → ℕ → ℕ → List A
  swap xs i j = exchange xs i j (get_elem? xs i) (get_elem? xs j)

  unfoldable pub shuffle_from : (ℕ → ℕ) → ℕ → List A → List A
  shuffle_from pick zero xs = xs
  shuffle_from pick (suc n) xs = shuffle_from pick n (swap xs (suc n) (pick (suc n)))

  unfoldable pub shuffle : (ℕ → ℕ) → List A → List A
  unfolding shuffle_from
  shuffle pick xs = shuffle_from pick (length xs - 1) xs

  replace-perm :
      (xs : List A) (i : ℕ) (a b : A) → get_elem? xs i ≡ some a → Perm (b ∷ xs) (a ∷ replace xs i b)
  replace-perm [] i a b e = absurd cc
  replace-perm (x ∷ xs) zero a b e =
      let same : x ≡ a = cc in subst (λ y. Perm (b ∷ x ∷ xs) (y ∷ b ∷ xs)) same (Perm.swap x b xs)
  replace-perm (x ∷ xs) (suc i) a b e =
      Perm.trans (Perm.swap x b xs)
        (Perm.trans (Perm.cons x (replace-perm xs i a b e)) (Perm.swap a x (replace xs i b)))

  get_elem?-replace :
      (xs : List A) (i j : ℕ) (b : A)
      → get_elem? xs j ≡ some b
      → get_elem? (replace xs i b) j ≡ some b
  get_elem?-replace [] i j b e = e
  get_elem?-replace (x ∷ xs) zero zero b e = refl
  get_elem?-replace (x ∷ xs) zero (suc j) b e = e
  get_elem?-replace (x ∷ xs) (suc i) zero b e = e
  get_elem?-replace (x ∷ xs) (suc i) (suc j) b e = get_elem?-replace xs i j b e

  exchange-perm :
      (xs : List A) (i j : ℕ) (o o' : Option A)
      → get_elem? xs i ≡ o
      → get_elem? xs j ≡ o'
      → Perm (exchange xs i j o o') xs
  exchange-perm xs i j (some a) (some b) e e' = Perm.symm (
      Perm.cons_inv {a = b} (
        Perm.trans (replace-perm xs i a b e)
          (replace-perm (replace xs i b) j b a (get_elem?-replace xs i j b e'))))
  exchange-perm xs i j none o' e e' = Perm.refl xs
  exchange-perm xs i j (some a) none e e' = Perm.refl xs

  shuffle_from-perm : (pick : ℕ → ℕ) (n : ℕ) (xs : List A) → Perm (shuffle_from pick n xs) xs
  unfolding shuffle_from
  shuffle_from-perm pick zero xs = Perm.refl xs
  shuffle_from-perm pick (suc n) xs =
      Perm.trans (shuffle_from-perm pick n (swap xs (suc n) (pick (suc n))))
        (exchange-perm xs (suc n) (pick (suc n)) _ _ refl refl)

  -- Shuffling only changes the order.
  pub shuffle-perm : (pick : ℕ → ℕ) (xs : List A) → Perm (shuffle pick xs) xs
  unfolding shuffle
  shuffle-perm pick xs = shuffle_from-perm pick (length xs - 1) xs
