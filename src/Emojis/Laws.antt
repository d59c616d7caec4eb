-- ===== src/Emojis/Laws.antt =====
-- What the picker has in each category, and that an emoji is found by its aliases and tags.
use Prim.Native.String.{[], ◌∷◌, ◌++◌}
use mathlib.Core.List.{List, [], ◌∷◌}
use text.Mathlib.TextLemmas.{nil-append, cons-append}
use ntfy.Base.{
  subst, arith, String, ◌≡◌, refl, Bool, true, ◌||◌, inl, inr, any, contains, ◌==◌, eq_iff, arith,
  Bool-cases,
}
use ntfy.Base.Text.{starts_with, join}
use ntfy.Base.Search.{includes}
use ntfy.Emojis.{Emoji, Browser, with_search_base, search_fields, emoji_matches}

starts_with-longer : (s t q : String) → starts_with s t ≡ true → starts_with (s ++ q) t ≡ true
starts_with-longer s [] q e = all_start (s ++ q)
  where
    all_start : (u : String) → starts_with u [] ≡ true
    all_start [] = refl
    all_start (_ ∷ _) = refl
starts_with-longer [] (d ∷ t) q e = cc
starts_with-longer (c ∷ s) (d ∷ t) q e = rw cons-append (ground (arith, starts_with-longer s t q))

starts_with-includes : (s t : String) → starts_with s t ≡ true → includes s t ≡ true
unfolding includes
starts_with-includes [] t e = e
starts_with-includes (c ∷ s) t e = ground (arith, e)

includes-longer : (s t q : String) → includes s t ≡ true → includes (s ++ q) t ≡ true
unfolding includes
includes-longer [] t q e = starts_with-includes ([] ++ q) t (starts_with-longer [] t q e)
includes-longer (c ∷ s) t q e =
    let longer = starts_with-longer (c ∷ s) t q in
    let rest = includes-longer s t q in
    rw cons-append (elim (Bool-cases (starts_with (c ∷ s) t)) [
      | inl h ↦
          let k : starts_with (c ∷ (s ++ q)) t ≡ true = subst_cons (longer h) in ground (arith, k)
      | inr h ↦ ground (arith, rest)
    ])
  where
    subst_cons : starts_with ((c ∷ s) ++ q) t ≡ true → starts_with (c ∷ (s ++ q)) t ≡ true
    subst_cons h = subst (λ u. starts_with u t ≡ true) (cons-append c s q) h

includes-later : (p s t : String) → includes s t ≡ true → includes (p ++ s) t ≡ true
unfolding includes
includes-later [] s t e = rw nil-append e
includes-later (c ∷ p) s t e = rw cons-append (ground (arith, includes-later p s t e))

includes_self : (t : String) → includes t t ≡ true
includes_self t = starts_with-includes t t (starts_self t)
  where
    starts_self : (u : String) → starts_with u u ≡ true
    starts_self [] = refl
    starts_self (c ∷ u) = ground (arith, starts_self u)

-- A text that is joined is part of the joined text.
includes-join :
    (xs : List String) (x : String) → contains xs x ≡ true → includes (join " " xs) x ≡ true
unfolding join
includes-join [] x e = cc
includes-join (y ∷ []) x e =
    let same : y ≡ x = ground (arith, eq_iff y x) in rw same (includes_self x)
includes-join (y ∷ z ∷ xs) x e = elim (Bool-cases (y == x)) [
  | inl h ↦
      let same : y ≡ x = ground (arith, eq_iff y x) in
      rw same (includes-longer x x (" " ++ join " " (z ∷ xs)) (includes_self x))
  | inr h ↦
      includes-later y (" " ++ join " " (z ∷ xs)) x
        (includes-later " " (join " " (z ∷ xs)) x (includes-join (z ∷ xs) x (ground arith)))
]

includes-search_base :
    (b : Browser) (e : Emoji) (word : String)
    → (contains e.aliases word || contains e.tags word) ≡ true
    → includes (with_search_base b e).search_base word ≡ true
unfolding with_search_base join
includes-search_base b e word h = includes-later (b.to_lower_case e.description) _ word (
    includes-later " " _ word (elim (Bool-cases (contains e.aliases word)) [
      | inl k ↦
          includes-longer (join " " e.aliases) word (" " ++ join " " e.tags)
            (includes-join e.aliases word k)
      | inr k ↦
          includes-later (join " " e.aliases) (" " ++ join " " e.tags) word
            (includes-later " " (join " " e.tags) word (includes-join e.tags word (ground arith)))
    ]))

any_of_contains :
    (p : String → Bool) (words : List String) (word : String)
    → contains words word ≡ true
    → p word ≡ true
    → any p words ≡ true
any_of_contains p [] word e h = cc
any_of_contains p (w ∷ words) word e h = elim (Bool-cases (w == word)) [
  | inl k ↦ let same : w ≡ word = ground (arith, eq_iff w word) in rw (same, h) refl
  | inr k ↦ let rest = any_of_contains p words word (ground arith) h in ground arith
]

-- A search one of whose words is an alias or a tag of an emoji finds this emoji.
pub emoji_matches-search_fields :
    (b : Browser) (e : Emoji) (search word : String)
    → contains (search_fields b search) word ≡ true
    → (contains e.aliases word || contains e.tags word) ≡ true
    → emoji_matches (with_search_base b e) (search_fields b search) ≡ true
emoji_matches-search_fields b e search word h k = found (search_fields b search) h
  where
    found :
        (words : List String)
        → contains words word ≡ true
        → emoji_matches (with_search_base b e) words ≡ true
    found [] e' = cc
    found (w ∷ words) e' =
        unfold emoji_matches in
        any_of_contains (λ w'. includes (with_search_base b e).search_base w') (w ∷ words) word e'
          (includes-search_base b e word k)
