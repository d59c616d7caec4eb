-- ===== src/Base/Trim.antt =====
-- s.trim()
use Prim.Native.Char.{Char, code}
use Prim.Native.String.{[], ◌∷◌}
use ntfy.Base.{String, Bool, ◌&&◌, ◌||◌, leb, eqb, ◌==◌, if◌then◌else◌}

abbrev is_space : Char → Bool
is_space c =
    let n = code c in
    leb 9 n && leb n 13
    || leb 8192 n && leb n 8202
    || eqb n 32
    || eqb n 160
    || eqb n 5760
    || eqb n 8232
    || eqb n 8233
    || eqb n 8239
    || eqb n 8287
    || eqb n 12288
    || eqb n 65279

unfoldable pub trim_start : String → String
trim_start [] = ""
trim_start (c ∷ s) = let rest = trim_start s in if is_space c then rest else c ∷ s

unfoldable pub trim_end : String → String
trim_end [] = ""
trim_end (c ∷ s) = let rest = trim_end s in if is_space c && rest == "" then "" else c ∷ rest

unfoldable pub trim : String → String
unfolding trim_start trim_end
trim s = trim_start (trim_end s)
