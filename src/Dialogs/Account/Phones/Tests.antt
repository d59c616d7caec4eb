-- ===== src/Dialogs/Account/Phones/Tests.antt =====
-- Phone numbers as they are shown and typed.
use ntfy.Base.{◌≡◌, refl, true, false, some, [], ◌∷◌}
use ntfy.Dialogs.Account.Phones.{Shown, phone_numbers, is_phone_number}

international : is_phone_number "+1555" ≡ true
unfolding is_phone_number
international = refl

only_plus : is_phone_number "+" ≡ false
unfolding is_phone_number
only_plus = refl

no_calls : phone_numbers true (some (0, some ("+1555" ∷ []))) ≡ Shown.calls_none
unfolding phone_numbers
no_calls = refl
