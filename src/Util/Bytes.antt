-- ===== src/Util/Bytes.antt =====
-- `formatBytes` of web/src/app/utils.js. The exponent, which is computed with logarithms, is a parameter;
-- dividing by a power of 1024 is exact, and `toFixed` rounds to the nearest, half up.
mod Tests
use Prim.Native.String.{◌++◌}
use ntfy.Base.{
  ◌↔◌, ℕ, zero, suc, ◌+◌, ◌*◌, ◌/◌, ◌%◌, ◌^◌, String, ◌≡◌, refl, Bool, true, false, ◌&&◌, List, [],
  ◌∷◌, get_elem_or, eqb, ◌==◌, if◌then◌else◌, ◌↔◌,
}
use ntfy.Base.Decimal.{to_string}

abbrev sizes : List String
sizes = "bytes" ∷ "KB" ∷ "MB" ∷ "GB" ∷ "TB" ∷ "PB" ∷ "EB" ∷ "ZB" ∷ "YB" ∷ []

-- bytes / k ** i, of `decimals` digits after the point, without the point.
unfoldable pub to_fixed : ℕ → ℕ → ℕ → ℕ
to_fixed decimals i bytes = (bytes * 10 ^ decimals * 2 + 1024 ^ i) / (2 * 1024 ^ i)

-- The last `decimals` digits of a number, less the zeros at their end.
abbrev fraction : ℕ → ℕ → String
fraction zero n = ""
fraction (suc decimals) n =
    let rest = fraction decimals (n % 10 ^ decimals) in
    let digit = n / 10 ^ decimals in
    if eqb digit 0 && rest == "" then "" else to_string digit ++ rest

abbrev with_point : String → String → String
with_point whole digits = if digits == "" then whole else whole ++ ("." ++ digits)

-- `parseFloat` of it, as JavaScript prints it
unfoldable pub parsed : ℕ → ℕ → String
unfolding to_string
parsed decimals n =
    with_point (to_string (n / 10 ^ decimals)) (fraction decimals (n % 10 ^ decimals))

unfoldable pub format_bytes : (ℕ → ℕ) → ℕ → ℕ → String
unfolding to_fixed parsed
format_bytes exponent bytes decimals =
    if eqb bytes 0
    then "0 bytes"
    else parsed decimals (to_fixed decimals (exponent bytes) bytes)
      ++ (" " ++ get_elem_or sizes (exponent bytes) "undefined")
