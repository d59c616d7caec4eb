-- ===== src/Util/Topic.antt =====
-- Topics and their names in web/src/app/utils.js.
pub mod Laws
mod Tests
use Prim.Native.Char.{Char, code}
use Prim.Native.String.{[], ◌∷◌}
use ntfy.Base.{
  ℕ, String, Bool, true, false, not, ◌&&◌, ◌||◌, Option, none, some, List, filter, contains,
  is_some, leb, eqb, truthy, ◌==◌, if◌then◌else◌, arith,
}
use ntfy.Base.Dict.{Object, property}
use ntfy.Base.Text.{size}
use ntfy.Model.{Config, Subscription}
use ntfy.Util.Url.{topic_short_url}

unfoldable pub disallowed_topic : Config → String → Bool
disallowed_topic config topic = contains config.disallowed_topics topic

-- The class [-_a-zA-Z0-9].
abbrev pub is_topic_char : Char → Bool
is_topic_char c =
    let n = code c in
    eqb n b'-'
    || eqb n b'_'
    || leb b'a' n && leb n b'z'
    || leb b'A' n && leb n b'Z'
    || leb b'0' n && leb n b'9'

abbrev pub all_topic_chars : String → Bool
all_topic_chars [] = true
all_topic_chars (c ∷ s) = is_topic_char c && all_topic_chars s

-- topic.match(/^([-_a-zA-Z0-9]{1,64})$/), of which only the truth is used.
unfoldable pub matches_topic : String → Bool
matches_topic topic = leb 1 (size topic) && leb (size topic) 64 && all_topic_chars topic

unfoldable pub valid_topic : Config → String → Bool
unfolding disallowed_topic matches_topic
valid_topic config topic = if disallowed_topic config topic then false else matches_topic topic

unfoldable pub topic_display_name : Config → Subscription → String
topic_display_name config s = elim (truthy s.display_name) [
  | some name ↦ name
  | none ↦ if s.base_url == config.base_url then s.topic else topic_short_url s.base_url s.topic
]

-- `emojis` is the object that emojisMapped.js builds, with what it inherits.
unfoldable pub unmatched_tags : Object String → Option (List String) → List String
unmatched_tags emojis none = List.[]
unmatched_tags emojis (some tags) = filter (λ tag. not (is_some (property emojis tag))) tags
