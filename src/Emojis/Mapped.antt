-- ===== src/Emojis/Mapped.antt =====
-- Which emoji a tag becomes.
use mathlib.Core.List.{List, [], ◌∷◌, foldl}
use ntfy.Base.{
  String, ◌≡◌, refl, ◌∙◌, Bool, true, ◌||◌, inl, inr, some, ◌++◌, map, any, contains, All,
  All-append, ◌==◌, if◌then◌else◌, arith, Bool-cases,
}
use ntfy.Base.Dict.{Object, property, assign, property-assign}
use ntfy.Formatting.{to_emojis, emojis_of}
use ntfy.Emojis.{Emoji, aliased, all_aliased, emojis_mapped}

module _ (alias emoji : String) where
  -- Whatever has this alias is this emoji.
  abbrev pub IsOnlyOne : List Emoji → Type 0
  IsOnlyOne raw_emojis =
      All (λ (e : Emoji). contains e.aliases alias ≡ true → e.emoji ≡ emoji) raw_emojis

  abbrev Means : List (String × String) → Type 0
  Means entries =
      All (λ (entry : String × String). (entry.0 == alias) ≡ true → entry.1 ≡ emoji) entries

  abbrev is_alias : String × String → Bool
  is_alias entry = entry.0 == alias

  fold_lem :
      (entries : List (String × String)) (object : Object String)
      → Means entries
      → property
          (foldl (λ object (entry : String × String). assign object entry.0 entry.1) object entries)
          alias
        ≡ (if any is_alias entries then some emoji else property object alias)
  fold_lem [] object _ = refl
  fold_lem (entry ∷ entries) object (h, hs) =
      fold_lem entries (assign object entry.0 entry.1) hs ∙ elim (Bool-cases (entry.0 == alias)) [
        | inl k ↦ rw (k, property-assign object entry.0 alias entry.1, k, h k) same_either_way
        | inr k ↦ rw (k, property-assign object entry.0 alias entry.1, k) refl
      ]
    where
      same_either_way : (if any is_alias entries then some emoji else some emoji) ≡ some emoji
      same_either_way = ground arith

  aliased-Means :
      (e : Emoji) → (contains e.aliases alias ≡ true → e.emoji ≡ emoji) → Means (aliased e)
  aliased-Means e h = go e.aliases h
    where
      go :
          (aliases : List String)
          → (contains aliases alias ≡ true → e.emoji ≡ emoji)
          → Means (map (λ a. (a, e.emoji)) aliases)
      go [] _ = tt
      go (a ∷ aliases) k = (λ e'. k (ground arith), go aliases (λ e'. k (ground arith)))

  all_aliased-Means :
      (raw_emojis : List Emoji) → IsOnlyOne raw_emojis → Means (all_aliased raw_emojis)
  all_aliased-Means [] _ = tt
  all_aliased-Means (e ∷ raw_emojis) (h, hs) =
      All-append (λ (entry : String × String). (entry.0 == alias) ≡ true → entry.1 ≡ emoji)
        (aliased e) (all_aliased raw_emojis) (aliased-Means e h) (all_aliased-Means raw_emojis hs)

  any-append :
      (xs ys : List (String × String))
      → any is_alias (xs ++ ys) ≡ (any is_alias xs || any is_alias ys)
  any-append [] ys = refl
  any-append (x ∷ xs) ys = rw (any-append xs ys) (ground arith)

  any-aliased : (e : Emoji) → any is_alias (aliased e) ≡ contains e.aliases alias
  any-aliased e = go e.aliases
    where
      go :
          (aliases : List String)
          → any is_alias (map (λ a. (a, e.emoji)) aliases) ≡ contains aliases alias
      go [] = refl
      go (a ∷ aliases) = rw (go aliases) refl

  any-all_aliased :
      (raw_emojis : List Emoji)
      → any is_alias (all_aliased raw_emojis)
        ≡ any (λ (e : Emoji). contains e.aliases alias) raw_emojis
  any-all_aliased [] = refl
  any-all_aliased (e ∷ raw_emojis) =
      any-append (aliased e) (all_aliased raw_emojis)
      ∙ rw (any-aliased e, any-all_aliased raw_emojis) refl

  -- Where no other emoji has the alias, a message with this alias as its tag is shown with the emoji if
  -- the list has one with it. If not, it is shown with what every object inherits under this name, if
  -- there is something, and else without any emoji.
  pub to_emojis-emojis_mapped :
      (inherited : Object String) (raw_emojis : List Emoji)
      → IsOnlyOne raw_emojis
      → to_emojis (emojis_mapped inherited raw_emojis) (some (alias ∷ [])) ≡ (
          if any (λ (e : Emoji). contains e.aliases alias) raw_emojis
          then emoji ∷ []
          else to_emojis inherited (some (alias ∷ [])))
  unfolding emojis_mapped to_emojis emojis_of
  to_emojis-emojis_mapped inherited raw_emojis h =
      rw
        (
          fold_lem (all_aliased raw_emojis) inherited (all_aliased-Means raw_emojis h),
          any-all_aliased raw_emojis,
        )
        (ground arith)
