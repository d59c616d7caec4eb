-- ===== src/Util/Format.antt =====
-- Texts of web/src/app/utils.js.
mod Tests
use Prim.Native.Char.{Char, code}
use Prim.Native.String.{[], ◌∷◌, ◌++◌}
use ntfy.Base.{
  ℕ, zero, suc, ◌+◌, ◌-◌, ◌/◌, ◌%◌, String, Bool, true, false, not, Option, none, some, eqb, ◌==◌,
  if◌then◌else◌,
}
use ntfy.Base.Decimal.{to_string}
use ntfy.Base.Text.{size, replace_all}

-- language.replace(/_/g, "-")
unfoldable pub get_kebab_case_lang_str : String → String
unfolding replace_all
get_kebab_case_lang_str language = replace_all "_" "-" language

-- `locale` is `toLocaleString` of the browser.
unfoldable pub format_number : (ℕ → String) → ℕ → String
unfolding to_string
format_number locale n =
    if eqb n 0 then "0" else if eqb (n % 1000) 0 then to_string (n / 1000) ++ "k" else locale n

-- `precision` is `toPrecision(2)` of a hundredth of the number.
unfoldable pub format_price : (ℕ → String) → ℕ → String
unfolding to_string
format_price precision n = "$" ++ (if eqb (n % 100) 0 then to_string (n / 100) else precision n)

abbrev repeat : ℕ → String
repeat zero = ""
repeat (suc n) = "=" ++ repeat n

-- The text that `urlB64ToUint8Array` gives to `window.atob`.
unfoldable pub padded_base64 : String → String
unfolding replace_all
padded_base64 s = replace_all "_" "/" (replace_all "-" "+" (s ++ repeat ((4 - size s % 4) % 4)))

abbrev alphabet : String
alphabet = "abcdefghijklmnopqrstuvwxyzABCDEFGHIJKLMNOPQRSTUVWXYZ0123456789"

abbrev char_at : String → ℕ → String
char_at [] i = ""
char_at (c ∷ s) zero = c ∷ ""
char_at (c ∷ s) (suc i) = char_at s i

-- `pick i` is the index of the alphabet that is drawn for the character `i`.
unfoldable pub random_alphanumeric_string : (ℕ → ℕ) → ℕ → String
random_alphanumeric_string pick zero = ""
random_alphanumeric_string pick (suc n) =
    random_alphanumeric_string pick n ++ char_at alphabet (pick n)
