-- ===== src/Notifications/Autolink.antt =====
-- `autolink` of web/src/components/Notifications.jsx: the text of a message is cut at its URLs, which
-- become links. The regular expression there is
--   /(\bhttps?:\/\/[-A-Z0-9+\u0026\u2019@#/%?=()~_|!:,.;]*[-A-Z0-9+\u0026@#/%=~()_|]\b)/gi
-- whose two classes and whose word boundary are tests on characters here.
pub mod Laws
mod Tests
use Prim.Native.Nat.{pred}
use Prim.Native.Char.{Char, code}
use Prim.Native.String.{[], ◌∷◌}
use mathlib.Core.List.{List, [], ◌∷◌}
use ntfy.Base.{
  ℕ, zero, suc, ◌+◌, String, Bool, true, false, not, ◌&&◌, ◌||◌, ltb, leb, eqb, ◌==◌, if◌then◌else◌,
}
use ntfy.Util.Url.{short_url}

abbrev is_between : ℕ → ℕ → ℕ → Bool
is_between low high n = leb low n && leb n high

abbrev is_alphanumeric : ℕ → Bool
is_alphanumeric n = is_between b'a' b'z' n || is_between b'A' b'Z' n || is_between b'0' b'9' n

-- \w
unfoldable pub is_word : Char → Bool
is_word c = is_alphanumeric (code c) || eqb (code c) b'_'

-- The class of the last character of a URL.
unfoldable pub is_last : Char → Bool
is_last c =
    let n = code c in
    is_alphanumeric n
    || eqb n b'-'
    || eqb n b'+'
    || eqb n b'&'
    || eqb n b'@'
    || eqb n b'#'
    || eqb n b'/'
    || eqb n b'%'
    || eqb n b'='
    || eqb n b'~'
    || eqb n b'('
    || eqb n b')'
    || eqb n b'_'
    || eqb n b'|'

-- The class of the characters before it.
unfoldable pub is_inner : Char → Bool
unfolding is_last
is_inner c =
    let n = code c in
    is_last c
    || eqb n 8217
    || eqb n b'?'
    || eqb n b'!'
    || eqb n b':'
    || eqb n b','
    || eqb n b'.'
    || eqb n b';'

unfoldable pub first_is_word : String → Bool
unfolding is_word
first_is_word [] = false
first_is_word (c ∷ _) = is_word c

-- \b
abbrev is_boundary : Bool → Bool → Bool
is_boundary before after = if before then not after else after

-- The length of the longest text that the expression matches after `://`; 0 if there is none.
unfoldable pub longest : String → ℕ
unfolding is_inner is_last is_word first_is_word
longest [] = 0
longest (c ∷ s) =
    let rest = longest s in
    if not (is_inner c)
    then 0
    else if ltb 0 rest
    then suc rest
    else if is_last c && is_boundary (is_word c) (first_is_word s)
    then 1
    else 0

abbrev lower : ℕ → ℕ
lower n = if is_between b'A' b'Z' n then n + 32 else n

-- The text starts with the pattern, which is in small letters, whatever its own letters are.
unfoldable pub starts_with_any_case : String → String → Bool
starts_with_any_case s [] = true
starts_with_any_case [] (_ ∷ _) = false
starts_with_any_case (c ∷ s) (d ∷ pattern) =
    eqb (lower (code c)) (code d) && starts_with_any_case s pattern

abbrev drop_chars : ℕ → String → String
drop_chars zero s = s
drop_chars (suc n) [] = ""
drop_chars (suc n) (c ∷ s) = drop_chars n s

abbrev take_chars : ℕ → String → String
take_chars zero s = ""
take_chars (suc n) [] = ""
take_chars (suc n) (c ∷ s) = c ∷ take_chars n s

-- The length of the match after a scheme of this length.
abbrev with_scheme : ℕ → ℕ → ℕ
with_scheme scheme n = if ltb 0 n then scheme + n else 0

-- The length of the match at the start of a text, before which there is a word character or not.
unfoldable pub match_length : Bool → String → ℕ
unfolding starts_with_any_case longest is_word first_is_word
match_length after_word s =
    if not (is_boundary after_word (first_is_word s))
    then 0
    else if starts_with_any_case s "http://"
    then with_scheme 7 (longest (drop_chars 7 s))
    else if starts_with_any_case s "https://"
    then with_scheme 8 (longest (drop_chars 8 s))
    else 0

pub data Part : Type 0 where
  plain : String → Part
  link : String → Part

-- The first part is a text.
abbrev pub before_parts : Char → List Part → List Part
before_parts c (plain t ∷ parts) = plain (c ∷ t) ∷ parts
before_parts c parts = plain (c ∷ "") ∷ parts

-- `skip` characters of the last match are still to be left out.
unfoldable pub parts_from : Bool → ℕ → String → List Part
unfolding match_length is_word
parts_from after_word skip [] = plain "" ∷ []
parts_from after_word (suc skip) (c ∷ s) = parts_from (is_word c) skip s
parts_from after_word zero (c ∷ s) =
    let n = match_length after_word (c ∷ s) in
    let rest = parts_from (is_word c) (pred n) s in
    if ltb 0 n then plain "" ∷ link (take_chars n (c ∷ s)) ∷ rest else before_parts c rest

unfoldable pub autolink : String → List Part
unfolding parts_from
autolink s = parts_from false 0 s

-- What is shown of a link.
unfoldable pub label : String → String
unfolding short_url
label url = short_url url
