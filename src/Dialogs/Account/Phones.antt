-- ===== src/Dialogs/Account/Phones.antt =====
-- `PhoneNumbers` of web/src/components/Account.jsx, and the button of the dialog that adds a number.
mod Tests
use Prim.Native.Char.{Char, code}
use Prim.Native.String.{[], ◌∷◌}
use ntfy.Base.{
  ℕ, String, Bool, true, false, not, ◌&&◌, ◌||◌, Option, none, some, List, leb, eqb, ◌==◌,
  if◌then◌else◌,
}
use ntfy.Dialogs.Account.{PhoneDialog}

-- Nothing, that the account can make no calls, or its numbers, `none` where it has no list of them.
pub data Shown : Type 0 where
  nothing calls_none : Shown
  numbers : Option (List String) → Shown

-- What is read of the account: the calls that it can make, and its numbers.
abbrev shown_of : Option (ℕ × Option (List String)) → Shown
shown_of none = Shown.numbers none
shown_of (some (calls, phone_numbers)) =
    if eqb calls 0 then Shown.calls_none else Shown.numbers phone_numbers

unfoldable pub phone_numbers : Bool → Option (ℕ × Option (List String)) → Shown
phone_numbers enable_calls account = if not enable_calls then Shown.nothing else shown_of account

abbrev all_digits : String → Bool
all_digits [] = true
all_digits (c ∷ s) = leb b'0' (code c) && leb (code c) b'9' && all_digits s

abbrev has_digits : String → Bool
has_digits [] = false
has_digits (c ∷ s) = all_digits (c ∷ s)

-- /^\+\d+$/.test(phoneNumber)
unfoldable pub is_phone_number : String → Bool
is_phone_number [] = false
is_phone_number (c ∷ s) = eqb (code c) b'+' && has_digits s

unfoldable pub submit_disabled : PhoneDialog → Bool
unfolding is_phone_number
submit_disabled s = s.sending || not (is_phone_number s.phone_number)

-- The text of the button; there is none for a channel that is neither.
pub data Text : Type 0 where
  verify_sms verify_call check_verification : Text

unfoldable pub submit_text : PhoneDialog → Option Text
submit_text s =
    if s.verification_code_sent
    then some Text.check_verification
    else if s.channel == "sms"
    then some Text.verify_sms
    else if s.channel == "call"
    then some Text.verify_call
    else none
