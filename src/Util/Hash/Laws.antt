-- ===== src/Util/Hash/Laws.antt =====
-- What `hashCode` computes.
use ntfy.Base.{ℕ, ◌+◌, ◌*◌, ◌%◌, ◌<◌, ◌≡◌, ◌∙◌, ap, String, List, [], ◌∷◌, arith}
use ntfy.Base.Text.{utf16}
use ntfy.Util.Hash.{word, hash_step, hash_from, hash_code, signed}

-- The polynomial in 31 whose coefficients are the text's units, the first the highest.
abbrev pub polynomial : ℕ → List ℕ → ℕ
polynomial acc [] = acc
polynomial acc (c ∷ cs) = polynomial (acc * 31 + c) cs

hash_step-eq : (h c : ℕ) → h < word → hash_step h c ≡ (h * 31 + c) % word
unfolding hash_step
hash_step-eq h c l = omega arith

hash_step-lt : (h c : ℕ) → hash_step h c < word
unfolding hash_step
hash_step-lt h c = omega arith

polynomial-mod :
    (a b : ℕ) (cs : List ℕ) → a % word ≡ b % word → polynomial a cs % word ≡ polynomial b cs % word
polynomial-mod a b [] e = e
polynomial-mod a b (c ∷ cs) e = polynomial-mod (a * 31 + c) (b * 31 + c) cs (omega arith)

hash_from-eq : (h : ℕ) (cs : List ℕ) → h < word → hash_from h cs ≡ polynomial h cs % word
unfolding hash_from
hash_from-eq h [] l = omega arith
hash_from-eq h (c ∷ cs) l =
    hash_from-eq (hash_step h c) cs (hash_step-lt h c)
    ∙ polynomial-mod (hash_step h c) (h * 31 + c) cs (omega (arith, hash_step-eq h c l))

-- The hash of a text is the int32 of that polynomial, for any length of the text.
pub hash_code-eq-polynomial : (s : String) → hash_code s ≡ signed (polynomial 0 (utf16 s) % word)
unfolding hash_code
hash_code-eq-polynomial s = ap signed (hash_from-eq 0 (utf16 s) (omega arith))
