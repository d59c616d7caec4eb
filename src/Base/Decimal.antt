-- ===== src/Base/Decimal.antt =====
-- Numbers as decimal texts: `n.toString()` and `Number(s)`. A text that is no sequence of digits
-- gives NaN, here `none`.
use Prim.Native.Char.{Char, code}
use Prim.Native.String.{[], ◌∷◌}
use ntfy.Base.{
  ℕ, zero, suc, ◌+◌, ◌-◌, ◌*◌, ◌/◌, ◌%◌, ◌<◌, String, ◌≡◌, refl, ◌∙◌, ap, ◌&&◌, Option, none, some,
  arith, ltb, leb, if◌then◌else◌, Bool-cases, inl, inr,
}

abbrev digit : ℕ → Char
digit zero = "0"
digit (suc zero) = "1"
digit (suc (suc zero)) = "2"
digit (suc (suc (suc zero))) = "3"
digit (suc (suc (suc (suc zero)))) = "4"
digit (suc (suc (suc (suc (suc zero))))) = "5"
digit (suc (suc (suc (suc (suc (suc zero)))))) = "6"
digit (suc (suc (suc (suc (suc (suc (suc zero))))))) = "7"
digit (suc (suc (suc (suc (suc (suc (suc (suc zero)))))))) = "8"
digit _ = "9"

-- The digits of `n` before `rest`; the fuel is above `n`.
print_from : ℕ → ℕ → String → String
print_from zero n rest = rest
print_from (suc fuel) n rest =
    let more = print_from fuel (n / 10) (digit (n % 10) ∷ rest) in
    if ltb n 10 then digit n ∷ rest else more

unfoldable pub to_string : ℕ → String
unfolding print_from
to_string n = print_from (suc n) n ""

value_from : ℕ → String → Option ℕ
value_from n [] = some n
value_from n (c ∷ s) =
    let rest = value_from (n * 10 + (code c - 48)) s in
    if leb 48 (code c) && leb (code c) 57 then rest else none

-- `Number("")` is 0.
unfoldable pub number : String → Option ℕ
unfolding value_from
number s = value_from 0 s

code-digit : (n : ℕ) → n < 10 → code (digit n) ≡ n + 48
code-digit zero h = refl
code-digit (suc zero) h = refl
code-digit (suc (suc zero)) h = refl
code-digit (suc (suc (suc zero))) h = refl
code-digit (suc (suc (suc (suc zero)))) h = refl
code-digit (suc (suc (suc (suc (suc zero))))) h = refl
code-digit (suc (suc (suc (suc (suc (suc zero)))))) h = refl
code-digit (suc (suc (suc (suc (suc (suc (suc zero))))))) h = refl
code-digit (suc (suc (suc (suc (suc (suc (suc (suc zero)))))))) h = refl
code-digit (suc (suc (suc (suc (suc (suc (suc (suc (suc zero))))))))) h = refl
code-digit (suc (suc (suc (suc (suc (suc (suc (suc (suc (suc n)))))))))) h = absurd (omega arith)

value_from-digit :
    (a n : ℕ) (rest : String)
    → n < 10
    → value_from a (digit n ∷ rest) ≡ value_from (a * 10 + n) rest
unfolding value_from
value_from-digit a n rest h = ground (arith, code-digit n h)

value_from-print_from :
    (fuel n : ℕ) (rest : String)
    → n < fuel
    → value_from 0 (print_from fuel n rest) ≡ value_from n rest
unfolding print_from
value_from-print_from zero n rest h = elim h [ ]
value_from-print_from (suc fuel) n rest h = elim (Bool-cases (ltb n 10)) [
  | inl e ↦
      rw e (value_from-digit 0 n rest (ground arith) ∙ ap (λ k. value_from k rest) (omega arith))
  | inr e ↦ rw e (
      value_from-print_from fuel (n / 10) (digit (n % 10) ∷ rest) (ground arith)
      ∙ value_from-digit (n / 10) (n % 10) rest (omega arith)
      ∙ ap (λ k. value_from k rest) (omega arith))
]

-- A number is read back from its text.
pub number-to_string : (n : ℕ) → number (to_string n) ≡ some n
unfolding number to_string
number-to_string n = value_from-print_from (suc n) n "" (omega arith)
