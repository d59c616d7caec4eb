-- ===== src/Util/Lines/Tests.antt =====
-- Bodies that come in chunks.
use ntfy.Base.{◌≡◌, refl, List, [], ◌∷◌, map}
use ntfy.Util.Lines.{Text, fetch_lines}
use ntfy.Util.Lines.Laws.{fetch_lines-eq-lines_of, lines_of, joined}

abbrev same : Text → Text
same s = s

-- "a\nb" in two chunks.
abbrev chunks : List Text
chunks = ("a" ∷ []) ∷ ("\n" ∷ "b" ∷ []) ∷ []

two_lines : fetch_lines same chunks ≡ ("a" ∷ []) ∷ ("b" ∷ []) ∷ []
unfolding fetch_lines
two_lines = refl

fetch_lines-eq-lines_of_example : fetch_lines same chunks ≡ lines_of (joined (map same chunks))
fetch_lines-eq-lines_of_example = fetch_lines-eq-lines_of same chunks
