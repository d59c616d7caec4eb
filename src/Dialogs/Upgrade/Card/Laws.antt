-- ===== src/Dialogs/Upgrade/Card/Laws.antt =====
-- What the cards of a tier say by the month and by the year, compared.
use ntfy.Base.{
  String, inl, inr, Bool-cases, Bool-cases, ℕ, ◌+◌, ◌*◌, ◌≡◌, refl, Bool, true, false, not, some,
  any, leb, arith,
}
use ntfy.Base.Int.{ℤ, pos, negsuc}
use ntfy.Dialogs.Upgrade.Card.{
  Limits, Tier, monthly_price, Feature, features, difference, Billed, billed,
}

-- The sum of a number and a difference is this number.
abbrev pub IsSum : ℕ → ℤ → ℕ → Type 0
IsSum a (pos n) b = a + n ≡ b
IsSum a (negsuc n) b = a ≡ b + n + 1

difference-IsSum : (a b : ℕ) → IsSum b (difference a b) a
difference-IsSum a b = elim (Bool-cases (leb b a)) [
  | inl e ↦ rw e (ground arith)
  | inr e ↦ rw e (ground arith)
]

-- With prices, a year costs twelve times the price by the month that the card shows, whichever interval
-- is chosen, and what is paid by the year and what is saved add up to what is paid by the month.
pub billed_lem :
    (name : String) (limits : Limits) (month year : ℕ)
    → let tier : Tier = record { name = name; prices = some (month, year); limits = limits } in
      (monthly_price tier "month" ≡ some (record { over = month; under = 1 }))
      × (billed tier "month" ≡ some (Billed.monthly (month * 12)))
      × (monthly_price tier "year" ≡ some (record { over = year; under = 12 }))
      × ((saved : ℤ) × (billed tier "year" ≡ some (Billed.yearly year saved))
          × IsSum year saved (month * 12))
unfolding monthly_price billed
billed_lem name limits month year =
    (refl, refl, refl, (difference (month * 12) year, refl, difference-IsSum (month * 12) year))

abbrev pub says_none : Feature → Bool
says_none Feature.no_reservations = true
says_none _ = false

abbrev pub is_reservations : Feature → Bool
is_reservations (Feature.reservations _) = true
is_reservations _ = false

-- A card says either how many reservations the tier has or that it has none.
pub features_lem :
    (l : Limits) → any is_reservations (features l) ≡ not (any says_none (features l))
unfolding features
features_lem l = ground arith
