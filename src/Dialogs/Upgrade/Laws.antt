-- ===== src/Dialogs/Upgrade/Laws.antt =====
-- What discount is shown.
use mathlib.Core.List.{foldl}
use ntfy.Base.{
  ℕ, ◌+◌, ◌≤◌, ◌<◌, String, ◌≡◌, refl, sym, ◌∙◌, ap, subst, false, Option, none, some, List, [],
  ◌∷◌, All, ltb, ◌⊎◌, inl, inr, arith, Bool-cases,
}
use ntfy.Dialogs.Upgrade.{Tier, tier_of, count_tier, highest, prices_of, discount, discount_for}

module _ (saving : ℕ × ℕ → ℕ) where
  abbrev pub saved : Option (ℕ × ℕ) → ℕ
  saved none = 0
  saved (some prices) = saving prices

  abbrev found_from : ℕ × ℕ → List Tier → ℕ × ℕ
  found_from found tiers = foldl (λ found (t : Tier). count_tier saving found t.prices) found tiers

  count_tier-cases :
      (high n : ℕ) (o : Option (ℕ × ℕ))
      → ((high < saved o) × (count_tier saving (high, n) o ≡ (saved o, n + 1)))
        ⊎ ((saved o ≤ high) × (count_tier saving (high, n) o ≡ (high, n)))
  count_tier-cases high n none = inr (omega arith, refl)
  count_tier-cases high n (some prices) = elim (Bool-cases (ltb high (saving prices))) [
    | inl e ↦ inl (ground arith, rw e refl)
    | inr e ↦ inr (ground arith, rw e refl)
  ]

  found_least : (high n : ℕ) (tiers : List Tier) → high ≤ (found_from (high, n) tiers).0
  found_least high n [] = omega arith
  found_least high n (t ∷ tiers) = elim (count_tier-cases high n t.prices) [
    | inl (l, e) ↦
        let least = found_least (saved t.prices) (n + 1) tiers in
        subst (λ x. high ≤ (found_from x tiers).0) (sym e) (omega arith)
    | inr (l, e) ↦ subst (λ x. high ≤ (found_from x tiers).0) (sym e) (found_least high n tiers)
  ]

  abbrev Above : Tier → List Tier → ℕ × ℕ → Type 0
  Above t tiers found =
      (saved t.prices ≤ (found_from found tiers).0)
      × All (λ u. saved u.prices ≤ (found_from found tiers).0) tiers

  found_above :
      (high n : ℕ) (tiers : List Tier)
      → All (λ t. saved t.prices ≤ (found_from (high, n) tiers).0) tiers
  found_above high n [] = tt
  found_above high n (t ∷ tiers) = elim (count_tier-cases high n t.prices) [
    | inl (l, e) ↦
        subst (Above t tiers) (sym e)
          (found_least (saved t.prices) (n + 1) tiers, found_above (saved t.prices) (n + 1) tiers)
    | inr (l, e) ↦
        let least = found_least high n tiers in
        subst (Above t tiers) (sym e) (omega arith, found_above high n tiers)
  ]

  found_below :
      (m high n : ℕ) (tiers : List Tier)
      → high ≤ m
      → All (λ t. saved t.prices ≤ m) tiers
      → (found_from (high, n) tiers).0 ≤ m
  found_below m high n [] l _ = l
  found_below m high n (t ∷ tiers) l (h, hs) = elim (count_tier-cases high n t.prices) [
    | inl (_, e) ↦
        subst (λ x. (found_from x tiers).0 ≤ m) (sym e)
          (found_below m (saved t.prices) (n + 1) tiers h hs)
    | inr (_, e) ↦ subst (λ x. (found_from x tiers).0 ≤ m) (sym e) (found_below m high n tiers l hs)
  ]

  found_same :
      (high n : ℕ) (tiers : List Tier)
      → All (λ t. saved t.prices ≤ high) tiers
      → found_from (high, n) tiers ≡ (high, n)
  found_same high n [] _ = refl
  found_same high n (t ∷ tiers) (h, hs) = elim (count_tier-cases high n t.prices) [
    | inl (l, e) ↦ absurd (omega arith)
    | inr (_, e) ↦ ap (λ x. found_from x tiers) e ∙ found_same high n tiers hs
  ]

  -- The discount that is shown while a tier without prices is chosen is the highest of all tiers: none
  -- saves more, and no lower number has that property.
  pub highest_lem :
      (tiers : List Tier)
      → All (λ t. saved t.prices ≤ (highest saving tiers).0) tiers
        × ((m : ℕ) → All (λ t. saved t.prices ≤ m) tiers → (highest saving tiers).0 ≤ m)
  highest_lem tiers = (found_above 0 0 tiers, λ m h. found_below m 0 0 tiers (omega arith) h)

  -- Where the first tier saves the most, the discount is not shown as the highest of several, however
  -- many of the other tiers have a lower discount.
  pub discount-first :
      (t : Tier) (tiers : List Tier) (new : Option String)
      → prices_of (tier_of (t ∷ tiers) new) ≡ none
      → All (λ u. saved u.prices ≤ saved t.prices) tiers
      → discount saving (t ∷ tiers) new ≡ (saved t.prices, false)
  unfolding discount
  discount-first t tiers new e h =
      ap (discount_for saving (t ∷ tiers)) e ∙ elim (count_tier-cases 0 0 t.prices) [
        | inl (l, e') ↦
            let found = ap (λ x. found_from x tiers) e' ∙ found_same (saved t.prices) 1 tiers h in
            ap (λ (x : ℕ × ℕ). (x.0, ltb 1 x.1)) found
        | inr (l, e') ↦
            let zero_saved : saved t.prices ≡ 0 = omega arith in
            let h' : All (λ u. saved u.prices ≤ 0) tiers =
              subst (λ n. All (λ u. saved u.prices ≤ n) tiers) zero_saved h in
            let found = ap (λ x. found_from x tiers) e' ∙ found_same 0 0 tiers h' in
            ap (λ (x : ℕ × ℕ). (x.0, ltb 1 x.1)) found ∙ ap (λ n. (n, false)) (sym zero_saved)
      ]
