-- ===== src/Dialogs/Upgrade/Card/Tests.antt =====
-- A tier that is cheaper by the year, and one that is dearer.
use ntfy.Base.{◌≡◌, refl, some, none, true, ℕ}
use ntfy.Base.Int.{pos, negsuc}
use ntfy.Dialogs.Upgrade.Card.{Tier, Limits, Label, Billed, label, monthly_price, billed}

abbrev limits : Limits
limits = record { reservations = 3; messages = 5; emails = 5; calls = 0; attachment_file_size = 9 }

abbrev tier : ℕ → ℕ → Tier
tier month year = record { name = "Pro"; prices = some (month, year); limits = limits }

cheaper : billed (tier 500 5000) "year" ≡ some (Billed.yearly 5000 (pos 1000))
unfolding billed
cheaper = refl

dearer : billed (tier 500 6001) "year" ≡ some (Billed.yearly 6001 (negsuc 0))
unfolding billed
dearer = refl

not_known : monthly_price (tier 500 5000) "week" ≡ none
unfolding monthly_price
not_known = refl

chosen : label true true ≡ some Label.selected
unfolding label
chosen = refl
