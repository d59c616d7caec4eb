-- ===== src/Emojis/Tests.antt =====
-- Two emojis of one category, and one that is too new for the browser.
use mathlib.Core.List.{List, [], ◌∷◌}
use ntfy.Base.{
  String, ◌≡◌, refl, true, false, some, any, contains, is_some, get_or, ◌==◌, if◌then◌else◌,
}
use ntfy.Base.Text.{join}
use ntfy.Base.Trim.{trim, trim_start, trim_end}
use ntfy.Base.Dict.{Object, property, assign}
use ntfy.Formatting.{to_emojis, emojis_of}
use ntfy.Base.Search.{includes, split_from}
use ntfy.Emojis.{
  Emoji, Browser, emojis_by_category, emojis_mapped, split_no_empty, emoji_matches,
  with_search_base,
}
use ntfy.Emojis.Categories.{entries_of, property-emojis_by_category}
use ntfy.Emojis.Mapped.{to_emojis-emojis_mapped}

abbrev tada : Emoji
tada = record {
  emoji = "T";
  description = "party popper";
  aliases = "tada" ∷ "hooray" ∷ [];
  tags = "party" ∷ [];
  category = "Activities";
  unicode_version = "6.0";
}

abbrev melting : Emoji
melting = record {
  emoji = "M";
  description = "melting face";
  aliases = "melting_face" ∷ [];
  tags = [];
  category = "Smileys";
  unicode_version = "14.0";
}

abbrev chrome : Browser
chrome = record {
  to_lower_case = λ s. s;
  at_most = λ version n. version == "6.0";
  is_desktop_chrome = true;
}

abbrev emojis : List Emoji
emojis = tada ∷ melting ∷ []

fields : split_no_empty " party  time" " " ≡ "party" ∷ "time" ∷ []
unfolding split_no_empty split_from trim trim_start trim_end
fields = refl

not_found : emoji_matches (with_search_base chrome tada) ("face" ∷ []) ≡ false
unfolding emoji_matches with_search_base includes join
not_found = refl

property-emojis_by_category_example :
    (is_some (property (emojis_by_category chrome emojis) "Smileys")
      ≡ any (λ (e : Emoji). e.category == "Smileys") emojis)
    × (get_or (property (emojis_by_category chrome emojis) "Smileys") []
        ≡ entries_of chrome "Smileys" emojis)
property-emojis_by_category_example = property-emojis_by_category chrome emojis "Smileys"

-- What a name that every object has is written as
abbrev inherited : Object String
inherited = ("constructor", "function Object() { [native code] }") ∷ []

to_emojis-emojis_mapped_example :
    to_emojis (emojis_mapped inherited emojis) (some ("hooray" ∷ [])) ≡ (
      if any (λ (e : Emoji). contains e.aliases "hooray") emojis
      then "T" ∷ []
      else to_emojis inherited (some ("hooray" ∷ [])))
to_emojis-emojis_mapped_example =
    to_emojis-emojis_mapped "hooray" "T" inherited emojis (λ e. refl, (λ e. absurd cc, tt))

constructor_shown :
    to_emojis (emojis_mapped inherited emojis) (some ("constructor" ∷ []))
    ≡ "function Object() { [native code] }" ∷ []
unfolding to_emojis emojis_mapped emojis_of property assign
constructor_shown = refl
