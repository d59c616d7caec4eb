-- ===== src/Emojis/Categories.antt =====
-- What the picker has in each category.
use mathlib.Core.List.{List, [], ◌∷◌, foldl, append_assoc, append-nil}
use ntfy.Base.{
  String, ◌≡◌, refl, sym, ◌∙◌, ap, true, ◌&&◌, ◌||◌, inl, inr, Option, none, some, ◌++◌, map,
  filter, any, is_some, get_or, ◌==◌, if◌then◌else◌, eq_refl, eq_iff, arith, Bool-cases,
  Option-cases,
}
use ntfy.Base.Dict.{Object, property, property-assign}
use ntfy.Emojis.{
  Emoji, Entry, Browser, supported_emoji, with_search_base, made, pushed, append_to, add,
  emojis_by_category,
}

module _ (b : Browser) where
  -- The emojis of a category that the browser supports, as `rawEmojis` has them.
  abbrev pub entries_of : String → List Emoji → List Entry
  entries_of category raw_emojis =
      map (with_search_base b)
        (filter (λ e. e.category == category && supported_emoji b e) raw_emojis)

  abbrev new_entries : Emoji → List Entry
  new_entries e = if supported_emoji b e then with_search_base b e ∷ [] else []

  property-made :
      (object : Object (List Entry)) (category other : String)
      → property (made b object category) other ≡ (
          if category == other
          then some (get_or (property object other) [])
          else property object other)
  unfolding made
  property-made object category other = elim (Option-cases (property object category)) [
    | inl e ↦ rw e (property-assign object category other [] ∙ nothing e)
    | inr (entries, e) ↦ rw e (there entries e)
  ]
    where
      nothing :
          property object category ≡ none
          → (if category == other then some [] else property object other) ≡ (
              if category == other
              then some (get_or (property object other) [])
              else property object other)
      nothing e = elim (Bool-cases (category == other)) [
        | inl k ↦
            let same : category ≡ other = ground (arith, eq_iff category other) in
            rw (k, sym (ap (property object) same), e) refl
        | inr k ↦ rw k refl
      ]

      there :
          (entries : List Entry)
          → property object category ≡ some entries
          → property object other ≡ (
              if category == other
              then some (get_or (property object other) [])
              else property object other)
      there entries e = elim (Bool-cases (category == other)) [
        | inl k ↦
            let same : category ≡ other = ground (arith, eq_iff category other) in
            rw (k, sym (ap (property object) same), e) refl
        | inr k ↦ rw k refl
      ]

  property-pushed :
      (object : Object (List Entry)) (category other : String) (entries : List Entry)
      (entry : Entry)
      → property object category ≡ some entries
      → property (pushed b object category entry) other
        ≡ (if category == other then some (entries ++ entry ∷ []) else property object other)
  unfolding pushed append_to
  property-pushed object category other entries entry e =
      ap (λ o. property (append_to o object category entry) other) e
      ∙ property-assign object category other (entries ++ entry ∷ [])

  property-add :
      (object : Object (List Entry)) (e : Emoji) (category : String)
      → property (add b object e) category ≡ (
          if e.category == category
          then some (get_or (property object category) [] ++ new_entries e)
          else property object category)
  unfolding add
  property-add object e category = elim (Bool-cases (supported_emoji b e)) [
    | inr k ↦
        rw (k, append-nil (get_or (property object category) []))
          (property-made object e.category category)
    | inl k ↦ rw k (
        property-pushed (made b object e.category) e.category category
          (get_or (property object e.category) []) (with_search_base b e)
          (property-made object e.category e.category ∙ rw (eq_refl e.category) refl)
        ∙ both)
  ]
    where
      both :
          (if e.category == category
            then some (get_or (property object e.category) [] ++ with_search_base b e ∷ [])
            else property (made b object e.category) category)
          ≡ (if e.category == category
              then some (get_or (property object category) [] ++ with_search_base b e ∷ [])
              else property object category)
      both = elim (Bool-cases (e.category == category)) [
        | inl k ↦
            let same : e.category ≡ category = ground (arith, eq_iff e.category category) in
            rw k (ap (λ c. some (get_or (property object c) [] ++ with_search_base b e ∷ [])) same)
        | inr k ↦ rw k (property-made object e.category category ∙ rw k refl)
      ]

  extended :
      (object : Object (List Entry)) (e : Emoji) (category : String) (raw_emojis : List Emoji)
      → (e.category == category) ≡ true
      → get_or
            (if e.category == category
              then some (get_or (property object category) [] ++ new_entries e)
              else property object category)
            []
          ++ entries_of category raw_emojis
        ≡ get_or (property object category) [] ++ entries_of category (e ∷ raw_emojis)
  extended object e category raw_emojis k = elim (Bool-cases (supported_emoji b e)) [
    | inl h ↦
        rw (k, h)
          (append_assoc (get_or (property object category) []) (with_search_base b e ∷ [])
            (entries_of category raw_emojis))
    | inr h ↦ rw (k, h, append-nil (get_or (property object category) [])) refl
  ]

  fold_lem :
      (raw_emojis : List Emoji) (object : Object (List Entry)) (category : String)
      → let after : Option (List Entry) = property (foldl (add b) object raw_emojis) category in
        (is_some after
          ≡ (is_some (property object category) || any (λ e. e.category == category) raw_emojis))
        × (get_or after [] ≡ get_or (property object category) [] ++ entries_of category raw_emojis)
  fold_lem [] object category =
      (ground arith, sym (append-nil (get_or (property object category) [])))
  fold_lem (e ∷ raw_emojis) object category =
      let (there, held) = fold_lem raw_emojis (add b object e) category in
      elim (Bool-cases (e.category == category)) [
        | inl k ↦ (
          there ∙ rw (property-add object e category, k) (ground arith),
          held
              ∙ ap (λ o. get_or o [] ++ entries_of category raw_emojis)
                  (property-add object e category)
              ∙ extended object e category raw_emojis k,
        )
        | inr k ↦ (
          there ∙ rw (property-add object e category, k) refl,
          held ∙ rw (property-add object e category, k) refl,
        )
      ]

  -- The picker has a category exactly if an emoji has it, and there those of its emojis that the browser
  -- supports, each with the text in which is searched, in the order of the list.
  pub property-emojis_by_category :
      (raw_emojis : List Emoji) (category : String)
      → let found : Option (List Entry) = property (emojis_by_category b raw_emojis) category in
        (is_some found ≡ any (λ e. e.category == category) raw_emojis)
        × (get_or found [] ≡ entries_of category raw_emojis)
  unfolding emojis_by_category
  property-emojis_by_category raw_emojis category = fold_lem raw_emojis [] category
