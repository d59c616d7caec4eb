-- ===== src/Base/Order.antt =====
-- `a < b` on texts: their UTF-16 units are compared one after the other.
use ntfy.Base.{ℕ, String, ◌≡◌, refl, Bool, true, false, List, [], ◌∷◌, ltb, if◌then◌else◌, arith}
use ntfy.Base.Text.{utf16}

abbrev pub lex : List ℕ → List ℕ → Bool
lex [] [] = false
lex [] (_ ∷ _) = true
lex (_ ∷ _) [] = false
lex (x ∷ xs) (y ∷ ys) =
    let rest = lex xs ys in if ltb x y then true else if ltb y x then false else rest

unfoldable pub text_lt : String → String → Bool
text_lt s t = lex (utf16 s) (utf16 t)

lex_asym : (xs ys : List ℕ) → lex xs ys ≡ true → lex ys xs ≡ false
lex_asym [] [] e = refl
lex_asym [] (y ∷ ys) e = refl
lex_asym (x ∷ xs) [] e = cc
lex_asym (x ∷ xs) (y ∷ ys) e = ground (arith, lex_asym xs ys)

lex_trans : (xs ys zs : List ℕ) → lex ys xs ≡ false → lex zs ys ≡ false → lex zs xs ≡ false
lex_trans [] [] zs e e' = e'
lex_trans [] (y ∷ ys) [] e e' = refl
lex_trans [] (y ∷ ys) (z ∷ zs) e e' = refl
lex_trans (x ∷ xs) [] zs e e' = cc
lex_trans (x ∷ xs) (y ∷ ys) [] e e' = cc
lex_trans (x ∷ xs) (y ∷ ys) (z ∷ zs) e e' = ground (arith, lex_trans xs ys zs)

pub text_lt_asym : (s t : String) → text_lt s t ≡ true → text_lt t s ≡ false
unfolding text_lt
text_lt_asym s t e = lex_asym (utf16 s) (utf16 t) e

pub text_lt_trans :
    (s t u : String) → text_lt t s ≡ false → text_lt u t ≡ false → text_lt u s ≡ false
unfolding text_lt
text_lt_trans s t u e e' = lex_trans (utf16 s) (utf16 t) (utf16 u) e e'
