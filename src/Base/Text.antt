-- ===== src/Base/Text.antt =====
-- Texts character by character, as JavaScript's methods on strings walk them. (JavaScript counts
-- UTF-16 units; `utf16` gives these where a length or a unit is looked at.)
use Prim.Native.Nat.{ℕ, zero, suc, ◌+◌, ◌-◌, ◌/◌, ◌%◌, pred}
use Prim.Native.Char.{Char, code}
use Prim.Native.String.{String, [], ◌∷◌, ◌++◌}
use mathlib.Core.Path.{◌≡◌, refl}
use mathlib.Core.Bool.{Bool, true, false, ◌&&◌}
use mathlib.Core.List.{List, [], ◌∷◌}
use native.Mathlib.Omega.{arith}
use text.Mathlib.TextLemmas.{nil-append, cons-append}
use ntfy.Base.Tests.{ltb, eqb, if◌then◌else◌}

abbrev pub size : String → ℕ
size [] = 0
size (_ ∷ s) = suc (size s)

abbrev pub char_eq : Char → Char → Bool
char_eq c d = eqb (code c) (code d)

-- s.startsWith(t)
abbrev pub starts_with : String → String → Bool
starts_with s [] = true
starts_with [] (_ ∷ _) = false
starts_with (c ∷ s) (d ∷ t) = char_eq c d && starts_with s t

abbrev pub units : ℕ → List ℕ → List ℕ
units n rest =
    if ltb n 65536
    then n ∷ rest
    else (55296 + (n - 65536) / 1024) ∷ (56320 + (n - 65536) % 1024) ∷ rest

-- The UTF-16 units of a text, which `length` and `charCodeAt` count.
abbrev pub utf16 : String → List ℕ
utf16 [] = []
utf16 (c ∷ s) = units (code c) (utf16 s)

-- s.replaceAll(pattern, by), where `pattern` is not empty: `skip` characters of the last match are
-- still to be left out.
unfoldable pub replace_from : String → String → ℕ → String → String
replace_from pattern by skip [] = []
replace_from pattern by (suc skip) (c ∷ s) = replace_from pattern by skip s
replace_from pattern by zero (c ∷ s) =
    let hit = starts_with (c ∷ s) pattern in
    let rest = replace_from pattern by (if hit then pred (size pattern) else zero) s in
    if hit then by ++ rest else c ∷ rest

unfoldable pub replace_all : String → String → String → String
unfolding replace_from
replace_all pattern by s = replace_from pattern by zero s

-- xs.join(separator)
unfoldable pub join : String → List String → String
join separator [] = ""
join separator (x ∷ []) = x
join separator (x ∷ y ∷ xs) = x ++ (separator ++ join separator (y ∷ xs))

pub starts_with-append : (p s : String) → starts_with (p ++ s) p ≡ true
starts_with-append [] s = refl
starts_with-append (c ∷ p) s = rw (cons-append, eqb_refl (code c)) (starts_with-append p s)
  where
    eqb_refl : (n : ℕ) → eqb n n ≡ true
    eqb_refl n = ground arith

-- Appending to a literal, in a form that computes.
abbrev pub prepend : String → String → String
prepend [] s = s
prepend (c ∷ p) s = c ∷ prepend p s

pub append-eq-prepend : (p s : String) → p ++ s ≡ prepend p s
append-eq-prepend [] s = nil-append s
append-eq-prepend (c ∷ p) s = rw (cons-append, append-eq-prepend p s) refl

-- No part of the text is `pattern`.
abbrev pub Lacks : String → String → Type 0
Lacks pattern [] = Unit
Lacks pattern (c ∷ s) = (starts_with (c ∷ s) pattern ≡ false) × Lacks pattern s

pub replace_from_of_Lacks :
    (pattern by s : String) → Lacks pattern s → replace_from pattern by 0 s ≡ s
unfolding replace_from
replace_from_of_Lacks pattern by [] _ = refl
replace_from_of_Lacks pattern by (c ∷ s) (e, h) = rw (e, replace_from_of_Lacks pattern by s h) refl
