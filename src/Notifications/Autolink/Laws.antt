-- ===== src/Notifications/Autolink/Laws.antt =====
-- Cutting a text at its URLs loses nothing, and every link is a URL with the scheme http or https.
use Prim.Native.Nat.{pred}
use Prim.Native.Char.{Char}
use Prim.Native.String.{[], ◌∷◌, ◌++◌}
use mathlib.Core.List.{List, [], ◌∷◌}
use text.Mathlib.TextLemmas.{nil-append, cons-append}
use ntfy.Base.Text.{size}
use ntfy.Base.{
  All, ltb→lt, ◌⊎◌, ℕ, zero, suc, ◌≤◌, ◌<◌, String, ◌≡◌, refl, ◌∙◌, ap, Bool, true, false, not,
  ◌||◌, ltb, ltb→lt, arith, if◌then◌else◌, Bool-cases, inl, inr, All,
}
use ntfy.Notifications.Autolink.{
  autolink, with_scheme, longest, is_boundary, first_is_word, Part, plain, link, before_parts,
  match_length, parts_from, autolink, starts_with_any_case, take_chars, drop_chars, is_word,
  longest, with_scheme, is_boundary, first_is_word,
}

abbrev pub part_text : Part → String
part_text (plain t) = t
part_text (link url) = url

abbrev pub joined : List Part → String
joined [] = ""
joined (p ∷ parts) = part_text p ++ joined parts

joined-before_parts :
    (c : Char) (parts : List Part) → joined (before_parts c parts) ≡ c ∷ joined parts
joined-before_parts c [] = rw (cons-append, nil-append) refl
joined-before_parts c (plain t ∷ parts) = rw cons-append refl
joined-before_parts c (link url ∷ parts) = rw (cons-append, nil-append) refl

take_drop : (n : ℕ) (s : String) → take_chars n s ++ drop_chars n s ≡ s
take_drop zero s = nil-append s
take_drop (suc n) [] = nil-append ""
take_drop (suc n) (c ∷ s) = rw cons-append (ap (c ∷◌) (take_drop n s))

abbrev cut : Char → String → ℕ → List Part → List Part
cut c s n rest =
    if ltb 0 n then plain "" ∷ link (take_chars n (c ∷ s)) ∷ rest else before_parts c rest

joined-cut :
    (c : Char) (s : String) (n : ℕ) (parts : ℕ → List Part)
    → ((skip : ℕ) → joined (parts skip) ≡ drop_chars skip s)
    → joined (cut c s n (parts (pred n))) ≡ c ∷ s
joined-cut c s zero parts ih = joined-before_parts c (parts 0) ∙ ap (c ∷◌) (ih 0)
joined-cut c s (suc n) parts ih =
    let positive : ltb 0 (suc n) ≡ true = ground arith in
    rw positive (
      nil-append (c ∷ take_chars n s ++ joined (parts n))
      ∙ cons-append c (take_chars n s) (joined (parts n))
      ∙ ap (c ∷◌) (ap (take_chars n s ++◌) (ih n) ∙ take_drop n s))

joined-parts_from :
    (after_word : Bool) (skip : ℕ) (s : String)
    → joined (parts_from after_word skip s) ≡ drop_chars skip s
unfolding parts_from
joined-parts_from after_word zero [] = nil-append ""
joined-parts_from after_word (suc skip) [] = nil-append ""
joined-parts_from after_word (suc skip) (c ∷ s) = joined-parts_from (is_word c) skip s
joined-parts_from after_word zero (c ∷ s) =
    joined-cut c s (match_length after_word (c ∷ s)) (λ skip. parts_from (is_word c) skip s)
      (λ skip. joined-parts_from (is_word c) skip s)

starts_with_any_case-take_chars :
    (pattern s : String) (n : ℕ)
    → starts_with_any_case s pattern ≡ true
    → size pattern ≤ n
    → starts_with_any_case (take_chars n s) pattern ≡ true
unfolding starts_with_any_case
starts_with_any_case-take_chars [] s n e h = all_start (take_chars n s)
  where
    all_start : (t : String) → starts_with_any_case t [] ≡ true
    all_start [] = refl
    all_start (_ ∷ _) = refl
starts_with_any_case-take_chars (d ∷ pattern) [] n e h = cc
starts_with_any_case-take_chars (d ∷ pattern) (c ∷ s) zero e h = absurd (omega arith)
starts_with_any_case-take_chars (d ∷ pattern) (c ∷ s) (suc n) e h =
    let rest = starts_with_any_case-take_chars pattern s n in
    let smaller : size pattern ≤ n = omega arith in ground (arith, rest, smaller)

-- The text starts with the scheme http or https.
abbrev pub HasScheme : String → Type 0
HasScheme url = (starts_with_any_case url "http://" || starts_with_any_case url "https://") ≡ true

scheme_cases : (scheme n : ℕ) → (with_scheme scheme n ≡ 0) ⊎ (scheme ≤ with_scheme scheme n)
scheme_cases scheme n = elim (Bool-cases (ltb 0 n)) [
  | inl e ↦ inr (rw e (omega arith))
  | inr e ↦ inl (rw e refl)
]

IsLength : Bool → Bool → ℕ → Type 0
IsLength http https n = (n ≡ 0) ⊎ (((7 ≤ n) × (http ≡ true)) ⊎ ((8 ≤ n) × (https ≡ true)))

with_scheme-IsLength :
    (boundary http https : Bool) (n n' : ℕ)
    → IsLength http https (
        if not boundary
        then 0
        else if http
        then with_scheme 7 n
        else if https
        then with_scheme 8 n'
        else 0)
unfolding IsLength
with_scheme-IsLength false http https n n' = inl refl
with_scheme-IsLength true true https n n' = elim (scheme_cases 7 n) [
  | inl e ↦ inl e
  | inr h ↦ inr (inl (h, refl))
]
with_scheme-IsLength true false true n n' = elim (scheme_cases 8 n') [
  | inl e ↦ inl e
  | inr h ↦ inr (inr (h, refl))
]
with_scheme-IsLength true false false n n' = inl refl

-- Where something is matched, the text starts with one of the two schemes, and the match is longer.
match_cases :
    (after_word : Bool) (s : String)
    → IsLength
        (starts_with_any_case s "http://")
        (starts_with_any_case s "https://")
        (match_length after_word s)
unfolding match_length
match_cases after_word s =
    with_scheme-IsLength (is_boundary after_word (first_is_word s))
      (starts_with_any_case s "http://") (starts_with_any_case s "https://")
      (longest (drop_chars 7 s)) (longest (drop_chars 8 s))

match-HasScheme :
    (after_word : Bool) (s : String)
    → 0 < match_length after_word s
    → HasScheme (take_chars (match_length after_word s) s)
unfolding IsLength
match-HasScheme after_word s h = elim (match_cases after_word s) [
  | inl e ↦ absurd (omega (arith, e))
  | inr (inl (longer, e)) ↦
      let kept = starts_with_any_case-take_chars "http://" s (match_length after_word s) e longer in
      ground (arith, kept)
  | inr (inr (longer, e)) ↦
      let kept =
        starts_with_any_case-take_chars "https://" s (match_length after_word s) e longer in
      ground (arith, kept)
]

abbrev pub IsSafe : Part → Type 0
IsSafe (plain t) = Unit
IsSafe (link url) = HasScheme url

before_parts-IsSafe :
    (c : Char) (parts : List Part) → All IsSafe parts → All IsSafe (before_parts c parts)
before_parts-IsSafe c [] h = (tt, tt)
before_parts-IsSafe c (plain t ∷ parts) (_, h) = (tt, h)
before_parts-IsSafe c (link url ∷ parts) h = (tt, h)

cut-IsSafe :
    (c : Char) (s : String) (n : ℕ) (rest : List Part)
    → (0 < n → HasScheme (take_chars n (c ∷ s)))
    → All IsSafe rest
    → All IsSafe (cut c s n rest)
cut-IsSafe c s n rest scheme h = elim (Bool-cases (ltb 0 n)) [
  | inl e ↦ rw e (tt, (scheme (ltb→lt 0 n e), h))
  | inr e ↦ rw e (before_parts-IsSafe c rest h)
]

parts_from-IsSafe :
    (after_word : Bool) (skip : ℕ) (s : String) → All IsSafe (parts_from after_word skip s)
unfolding parts_from
parts_from-IsSafe after_word zero [] = (tt, tt)
parts_from-IsSafe after_word (suc skip) [] = (tt, tt)
parts_from-IsSafe after_word (suc skip) (c ∷ s) = parts_from-IsSafe (is_word c) skip s
parts_from-IsSafe after_word zero (c ∷ s) =
    let n = match_length after_word (c ∷ s) in
    cut-IsSafe c s n (parts_from (is_word c) (pred n) s) (match-HasScheme after_word (c ∷ s))
      (parts_from-IsSafe (is_word c) (pred n) s)

-- The parts of a text, joined, are the text, and every link among them starts with http:// or https://,
-- in whatever case.
pub autolink_lem : (s : String) → (joined (autolink s) ≡ s) × All IsSafe (autolink s)
unfolding autolink
autolink_lem s = (joined-parts_from false 0 s, parts_from-IsSafe false 0 s)
