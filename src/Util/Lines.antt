-- ===== src/Util/Lines.antt =====
-- `fetchLinesIterator` of web/src/app/utils.js. A response's body is the list of the values that its
-- reader gives before it is done, and the decoder is a parameter; each value is decoded by itself.
-- A text is the list of its characters, and the part of `chunk` from `startIndex` on is kept.
pub mod Laws
mod Tests
use Prim.Native.Char.{Char, code}
use mathlib.Core.List.{◌++◌}
use ntfy.Base.{ℕ, Bool, ◌||◌, List, [], ◌∷◌, map, eqb, if◌then◌else◌}

abbrev pub Text : Type 0
Text = List Char

-- What the expression /\n|\r|\r\n/ finds first: its third alternative never gets a turn.
abbrev pub is_break : Char → Bool
is_break c = eqb (code c) 10 || eqb (code c) 13

-- The lines that are yielded before `re.exec` finds nothing more, and the rest from `startIndex`;
-- `line` is what lies between `startIndex` and the place that is looked at.
unfoldable pub scan : Text → Text → List Text × Text
scan line [] = ([], line)
scan line (c ∷ rest) =
    let (lines, remainder) = scan (if is_break c then [] else line ++ c ∷ []) rest in
    if is_break c then (line ∷ lines, remainder) else (lines, remainder)

-- The last line, if it did not end in a line break.
abbrev pub last_line : Text → List Text
last_line [] = []
last_line (c ∷ s) = (c ∷ s) ∷ []

unfoldable pub lines_from : Text → List Text → List Text
unfolding scan
lines_from remainder [] = let (lines, rest) = scan [] remainder in lines ++ last_line rest
lines_from remainder (chunk ∷ chunks) =
    let (lines, rest) = scan [] (remainder ++ chunk) in lines ++ lines_from rest chunks

module _ {Value : Type 0} (decode : Value → Text) where
  unfoldable pub fetch_lines : List Value → List Text
  unfolding lines_from
  fetch_lines values = lines_from [] (map decode values)
