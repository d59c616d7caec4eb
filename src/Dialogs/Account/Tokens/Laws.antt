-- ===== src/Dialogs/Account/Tokens/Laws.antt =====
-- The order of the tokens, and which of them the dialogs of the table can be about.
use mathlib.Core.List.{Perm}
use ntfy.Base.{
  String, ◌≡◌, refl, Bool, true, false, ◌⊎◌, inl, inr, Option, some, List, [], ◌∷◌, All, All-map_of,
  arith, Bool-cases, ◌||◌,
}
use ntfy.Base.Sort.{IsSorted, IsAntisymmetric, IsTransitive, sort-perm, sort-IsSorted}
use ntfy.Dialogs.Account.Tokens.{
  Token, is_current, comes_before, sorted_tokens, row, Table, handle_edit_click,
  handle_delete_click, handle_dialog_close, Step, Reach,
}

-- The order of a locale is an order: whatever two texts are given, only one comes before the other, and
-- a text that none of two others precedes is not preceded by what they do not precede.
pub record IsCollation (locale_less : String → String → Bool) : Type 0 where
  pub asym : (s t : String) → locale_less s t ≡ true → locale_less t s ≡ false
  pub trans :
      (s t u : String) → locale_less t s ≡ false → locale_less u t ≡ false → locale_less u s ≡ false

module _ (session : Option String) where
  abbrev pub NotCurrent : List Token → Type 0
  NotCurrent tokens = All (λ t. is_current session t ≡ false) tokens

  -- The token of the session is there at most once.
  abbrev pub IsOnce : List Token → Type 0
  IsOnce [] = Unit
  IsOnce (t ∷ tokens) = (is_current session t ≡ true → NotCurrent tokens) × IsOnce tokens

module _ (locale_less : String → String → Bool) (session : Option String) where
  abbrev by_token : Token → Token → Bool
  by_token a b = locale_less a.token b.token

  -- After the first one there is no token of the session; these are in the order of the locale, and so
  -- is the first one unless it is the token of the session.
  abbrev pub IsInOrder : List Token → Type 0
  IsInOrder [] = Unit
  IsInOrder (t ∷ tokens) =
      NotCurrent session tokens
      × ((is_current session t ≡ true) ⊎ All (λ u. by_token u t ≡ false) tokens)
      × IsSorted by_token tokens

  not_both :
      (t : Token) (tokens : List Token)
      → IsCollation locale_less
      → (is_current session t ≡ true → NotCurrent session tokens)
      → All
          (λ u.
            comes_before locale_less session u t ≡ true
            → comes_before locale_less session t u ≡ false)
          tokens
  not_both t [] l h = tt
  not_both t (u ∷ tokens) l h = (
    λ e. elim (Bool-cases (is_current session t)) [
      | inl c ↦ ground (arith, (h c).0)
      | inr c ↦ ground (arith, l.asym u.token t.token)
    ],
    not_both t tokens l (λ c. (h c).1),
  )

  never_both :
      (tokens : List Token)
      → IsCollation locale_less
      → IsOnce session tokens
      → IsAntisymmetric (comes_before locale_less session) tokens
  never_both [] l _ = tt
  never_both (t ∷ tokens) l (h, hs) = (not_both t tokens l h, never_both tokens l hs)

  comes_before_trans : IsCollation locale_less → IsTransitive (comes_before locale_less session)
  comes_before_trans l a b c e e' = ground (arith, l.trans a.token b.token c.token)

  after-NotCurrent :
      (t : Token) (tokens : List Token)
      → All (λ u. comes_before locale_less session u t ≡ false) tokens
      → NotCurrent session tokens
  after-NotCurrent t tokens h =
      All-map_of (λ u. comes_before locale_less session u t ≡ false)
        (λ u. is_current session u ≡ false) (λ u e. ground arith) tokens h

  by_token_after :
      (t : Token) (tokens : List Token)
      → is_current session t ≡ false
      → All (λ u. comes_before locale_less session u t ≡ false) tokens
      → All (λ u. by_token u t ≡ false) tokens
  by_token_after t tokens c h =
      All-map_of (λ u. comes_before locale_less session u t ≡ false) (λ u. by_token u t ≡ false)
        (λ u e. ground arith) tokens h

  by_token-IsSorted :
      (tokens : List Token)
      → NotCurrent session tokens
      → IsSorted (comes_before locale_less session) tokens
      → IsSorted by_token tokens
  by_token-IsSorted [] _ _ = tt
  by_token-IsSorted (t ∷ tokens) (c, cs) (h, hs) =
      (by_token_after t tokens c h, by_token-IsSorted tokens cs hs)

  in_order :
      (tokens : List Token) → IsSorted (comes_before locale_less session) tokens → IsInOrder tokens
  in_order [] _ = tt
  in_order (t ∷ tokens) (h, hs) =
      let others = after-NotCurrent t tokens h in
      (others, first, by_token-IsSorted tokens others hs)
    where
      first : (is_current session t ≡ true) ⊎ All (λ u. by_token u t ≡ false) tokens
      first = elim (Bool-cases (is_current session t)) [
        | inl c ↦ inl c
        | inr c ↦ inr (by_token_after t tokens c h)
      ]

  -- Every token of the account is listed, the token of the session first if it is among them, which it
  -- is at most once, and the others in the order of the locale.
  pub sorted_tokens_lem :
      (tokens : List Token)
      → IsCollation locale_less
      → IsOnce session tokens
      → Perm (sorted_tokens locale_less session tokens) tokens
        × IsInOrder (sorted_tokens locale_less session tokens)
  unfolding sorted_tokens
  sorted_tokens_lem tokens l once = (
    sort-perm (comes_before locale_less session) tokens,
    in_order (sorted_tokens locale_less session tokens) (
        sort-IsSorted (comes_before locale_less session) tokens (comes_before_trans l)
          (never_both tokens l once)),
  )

-- A dialog that is open is about a token, which is not that of the session.
abbrev pub IsAboutAnother : Option String → Table → Type 0
IsAboutAnother session s =
    (s.upsert_dialog_open || s.delete_dialog_open) ≡ true
    → (t : Token) × (s.selected_token ≡ some t) × (is_current session t ≡ false)

after_step :
    {session : Option String} {s s' : Table} → Step session s s' → IsAboutAnother session s'
unfolding handle_edit_click handle_delete_click handle_dialog_close row
after_step (Step.edit t s h) = λ _. (t, refl, ground arith)
after_step (Step.delete t s h) = λ _. (t, refl, ground arith)
after_step (Step.close s) = λ e. cc

-- However the buttons of the table are pressed, a dialog that is open is about a token, which is not
-- that of the session: this one cannot be edited or deleted here.
pub Reach-IsAboutAnother :
    {session : Option String} {s : Table} → Reach session s → IsAboutAnother session s
Reach-IsAboutAnother Reach.start = λ e. cc
Reach-IsAboutAnother (Reach.step r h) = after_step h
