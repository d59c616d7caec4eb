-- ===== src/Dialogs/Upgrade/Card.antt =====
-- `TierCard` of web/src/components/UpgradeDialog.jsx: what the card of a tier says of its price and of its
-- limits. Prices are in cents; the price by the month of a tier that is paid by the year is a fraction.
pub mod Laws
mod Tests
use ntfy.Base.{
  ℕ, ◌-◌, ◌*◌, String, Bool, true, false, ◌&&◌, Option, none, some, List, [], ◌∷◌, ltb, leb, eqb,
  ◌==◌, if◌then◌else◌,
}
use ntfy.Base.Int.{ℤ, pos, negsuc}

pub record Limits : Type 0 where
  pub reservations : ℕ
  pub messages : ℕ
  pub emails : ℕ
  pub calls : ℕ
  pub attachment_file_size : ℕ

-- `prices.month` and `prices.year`; `name` is "" for the tier without a price.
pub record Tier : Type 0 where
  pub name : String
  pub prices : Option (ℕ × ℕ)
  pub limits : Limits

pub data Label : Type 0 where
  selected current : Label

unfoldable pub label : Bool → Bool → Option Label
label is_selected is_current =
    if is_selected then some Label.selected else if is_current then some Label.current else none

pub record Price : Type 0 where
  pub over : ℕ
  pub under : ℕ

abbrev price_for : ℕ × ℕ → String → Option Price
price_for (month, year) interval =
    if interval == "year"
    then some (record { over = year; under = 12 })
    else if interval == "month"
    then some (record { over = month; under = 1 })
    else none

-- `none`: the price is undefined.
unfoldable pub monthly_price : Tier → String → Option Price
monthly_price tier interval = elim tier.prices [
  | none ↦ some (record { over = 0; under = 1 })
  | some prices ↦ price_for prices interval
]

pub data Feature : Type 0 where
  reservations messages emails calls attachment_file_size : ℕ → Feature
  no_reservations no_calls : Feature

abbrev pub feature_if : Bool → Feature → List Feature → List Feature
feature_if show feature rest = if show then feature ∷ rest else rest

unfoldable pub features : Limits → List Feature
features l = feature_if (ltb 0 l.reservations) (Feature.reservations l.reservations) (
    Feature.messages l.messages
    ∷ Feature.emails l.emails
    ∷ feature_if (ltb 0 l.calls) (Feature.calls l.calls) (
        Feature.attachment_file_size l.attachment_file_size
        ∷ feature_if (eqb l.reservations 0) Feature.no_reservations
            (feature_if (eqb l.calls 0) Feature.no_calls [])))

-- a - b
abbrev pub difference : ℕ → ℕ → ℤ
difference a b = if leb b a then pos (a - b) else negsuc (b - a - 1)

-- What is billed: so much for a year that is paid by the month, or so much for a year, by which so much
-- is saved.
pub data Billed : Type 0 where
  monthly : ℕ → Billed
  yearly : ℕ → ℤ → Billed

abbrev billed_for : ℕ × ℕ → String → Option Billed
billed_for (month, year) interval =
    if interval == "month"
    then some (Billed.monthly (month * 12))
    else if interval == "year"
    then some (Billed.yearly year (difference (month * 12) year))
    else none

unfoldable pub billed : Tier → String → Option Billed
billed tier interval = elim tier.prices [ none ↦ none | some prices ↦ billed_for prices interval ]
