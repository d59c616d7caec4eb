-- ===== src/Util/Url.antt =====
-- The URLs of web/src/app/utils.js.
pub mod Laws
use Prim.Native.Nat.{pred}
use Prim.Native.String.{[], ◌∷◌, ◌++◌}
use mathlib.Core.List.{List, [], ◌∷◌}
use Prim.Native.Char.{code}
use ntfy.Base.{ℕ, zero, suc, String, Bool, false, not, ◌||◌, eqb, if◌then◌else◌}
use ntfy.Base.Text.{starts_with, replace_all}

-- url.replaceAll(/https?:\/\//g, "")
scheme_length : String → ℕ
scheme_length s = if starts_with s "https://" then 8 else if starts_with s "http://" then 7 else 0

strip_from : ℕ → String → String
strip_from skip [] = []
strip_from (suc skip) (c ∷ s) = strip_from skip s
strip_from zero (c ∷ s) =
    let skip = scheme_length (c ∷ s) in
    let rest = strip_from (pred skip) s in elim skip [ zero ↦ c ∷ rest | suc _ ↦ rest ]

unfoldable pub short_url : String → String
unfolding strip_from scheme_length
short_url url = strip_from zero url

-- What `.` stands for in a regular expression.
abbrev is_line_terminator : ℕ → Bool
is_line_terminator n = eqb n 10 || eqb n 13 || eqb n 8232 || eqb n 8233

abbrev is_in_line : String → Bool
is_in_line [] = false
is_in_line (c ∷ s) = not (is_line_terminator (code c))

abbrev drop_chars : ℕ → String → String
drop_chars zero s = s
drop_chars (suc n) [] = ""
drop_chars (suc n) (c ∷ s) = drop_chars n s

-- url.match(/^https?:\/\/.+/)
unfoldable pub valid_url : String → Bool
unfolding scheme_length
valid_url url = elim (scheme_length url) [
  | zero ↦ false
  | suc n ↦ is_in_line (drop_chars (suc n) url)
]

unfoldable pub expand_url : String → List String
expand_url url = ("https://" ++ url) ∷ ("http://" ++ url) ∷ []

unfoldable pub expand_secure_url : String → String
expand_secure_url url = "https://" ++ url

unfoldable pub topic_url : String → String → String
topic_url base_url topic = base_url ++ ("/" ++ topic)

unfoldable pub topic_url_ws : String → String → String
unfolding topic_url
topic_url_ws base_url topic =
    replace_all "http://" "ws://"
      (replace_all "https://" "wss://" (topic_url base_url topic ++ "/ws"))

unfoldable pub topic_url_json : String → String → String
unfolding topic_url
topic_url_json base_url topic = topic_url base_url topic ++ "/json"

unfoldable pub topic_url_json_poll : String → String → String
unfolding topic_url_json
topic_url_json_poll base_url topic = topic_url_json base_url topic ++ "?poll=1"

unfoldable pub topic_url_json_poll_with_since : String → String → String → String
unfolding topic_url_json
topic_url_json_poll_with_since base_url topic since =
    topic_url_json base_url topic ++ ("?poll=1&since=" ++ since)

unfoldable pub topic_url_auth : String → String → String
unfolding topic_url
topic_url_auth base_url topic = topic_url base_url topic ++ "/auth"

unfoldable pub topic_short_url : String → String → String
unfolding topic_url short_url
topic_short_url base_url topic = short_url (topic_url base_url topic)

unfoldable pub web_push_url : String → String
web_push_url base_url = base_url ++ "/v1/webpush"
