-- ===== src/Emojis.antt =====
-- web/src/components/EmojiPicker.jsx, `splitNoEmpty` of web/src/app/utils.js and web/src/app/
-- emojisMapped.js: which emojis the picker shows for a search, and the object by which tags become
-- emojis. The emojis of emojis.js are an argument; how a text is made lower-case, and whether
-- `parseFloat` of a version is at most a number, are parameters. No category is taken to have the name of
-- something that every object inherits.
pub mod Laws
pub mod Mapped
pub mod Categories
mod Tests
use Prim.Native.Nat.{pred}
use Prim.Native.Char.{Char}
use Prim.Native.String.{[], ◌∷◌}
use mathlib.Core.List.{List, [], ◌∷◌, foldl}
use ntfy.Base.{
  ℕ, zero, suc, String, Bool, true, false, not, ◌&&◌, ◌||◌, Option, none, some, ◌++◌, map, filter,
  any, leb, is_some, ◌==◌, if◌then◌else◌,
}
use ntfy.Base.Text.{starts_with, size, join}
use ntfy.Base.Trim.{trim}
use ntfy.Base.Search.{includes, split_from}
use ntfy.Base.Dict.{Object, property, assign}

unfoldable pub split_no_empty : String → String → List String
unfolding split_from trim
split_no_empty s delimiter = filter (λ x. not (x == "")) (map trim (split_from delimiter zero s))

-- An entry of `rawEmojis`.
pub record Emoji : Type 0 where
  pub emoji : String
  pub description : String
  pub aliases : List String
  pub tags : List String
  pub category : String
  pub unicode_version : String

-- `emojiWithSearchBase`
pub record Entry : Type 0 where
  pub emoji : Emoji
  pub search_base : String

pub record Browser : Type 0 where
  pub to_lower_case : String → String
  pub at_most : String → ℕ → Bool
  pub is_desktop_chrome : Bool

abbrev pub max_supported_version_for_desktop_chrome : ℕ
max_supported_version_for_desktop_chrome = 11

unfoldable pub append_to :
    Option (List Entry) → Object (List Entry) → String → Entry → Object (List Entry)
unfolding assign
append_to none object category entry = object
append_to (some entries) object category entry = assign object category (entries ++ entry ∷ [])

module _ (b : Browser) where
  unfoldable pub supported_emoji : Emoji → Bool
  supported_emoji e =
      b.at_most e.unicode_version max_supported_version_for_desktop_chrome
      || not b.is_desktop_chrome

  unfoldable pub with_search_base : Emoji → Entry
  unfolding join
  with_search_base e = record {
    emoji = e;
    search_base =
        join " " (b.to_lower_case e.description ∷ join " " e.aliases ∷ join " " e.tags ∷ []);
  }

  unfoldable pub made : Object (List Entry) → String → Object (List Entry)
  unfolding property assign
  made object category =
      if is_some (property object category) then object else assign object category []

  unfoldable pub pushed : Object (List Entry) → String → Entry → Object (List Entry)
  unfolding property append_to
  pushed object category entry = append_to (property object category) object category entry

  unfoldable pub add : Object (List Entry) → Emoji → Object (List Entry)
  unfolding supported_emoji with_search_base made pushed
  add object e =
      if supported_emoji e
      then pushed (made object e.category) e.category (with_search_base e)
      else made object e.category

  unfoldable pub emojis_by_category : List Emoji → Object (List Entry)
  unfolding add
  emojis_by_category raw_emojis = foldl add [] raw_emojis

  unfoldable pub search_fields : String → List String
  unfolding split_no_empty
  search_fields search = split_no_empty (b.to_lower_case search) " "

unfoldable pub emoji_matches : Entry → List String → Bool
unfolding includes
emoji_matches entry [] = true
emoji_matches entry (word ∷ words) = any (λ w. includes entry.search_base w) (word ∷ words)

-- What is shown of a category: its title, unless something is searched, and the emojis that match.
unfoldable pub show_title : List String → Bool
show_title [] = true
show_title (_ ∷ _) = false

unfoldable pub displayed : List String → List Entry → List Entry
unfolding emoji_matches
displayed search entries = filter (λ e. emoji_matches e search) entries

-- `Object.fromEntries` of the aliases and their emojis.
abbrev pub aliased : Emoji → List (String × String)
aliased e = map (λ alias. (alias, e.emoji)) e.aliases

abbrev pub all_aliased : List Emoji → List (String × String)
all_aliased [] = []
all_aliased (e ∷ raw_emojis) = aliased e ++ all_aliased raw_emojis

-- `tag in emojisMapped` also holds of what every object inherits, such as `constructor`; what that is
-- where it is written is up to JavaScript, and an argument.
unfoldable pub emojis_mapped : Object String → List Emoji → Object String
unfolding assign
emojis_mapped inherited raw_emojis =
    foldl (λ object entry. assign object entry.0 entry.1) inherited (all_aliased raw_emojis)
