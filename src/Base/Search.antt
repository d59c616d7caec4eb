-- ===== src/Base/Search.antt =====
-- Parts of a text.
use Prim.Native.Nat.{pred}
use Prim.Native.Char.{Char}
use Prim.Native.String.{[], ◌∷◌}
use mathlib.Core.List.{List, [], ◌∷◌}
use ntfy.Base.{ℕ, zero, suc, String, Bool, ◌||◌, if◌then◌else◌}
use ntfy.Base.Text.{starts_with, size}

-- s.includes(t)
unfoldable pub includes : String → String → Bool
includes [] t = starts_with [] t
includes (c ∷ s) t = starts_with (c ∷ s) t || includes s t

-- s.split(delimiter), where `delimiter` is not empty: `skip` characters of the last match are still to
-- be left out.
abbrev before_first : Char → List String → List String
before_first c [] = []
before_first c (field ∷ fields) = (c ∷ field) ∷ fields

unfoldable pub split_from : String → ℕ → String → List String
split_from delimiter skip [] = "" ∷ []
split_from delimiter (suc skip) (c ∷ s) = split_from delimiter skip s
split_from delimiter zero (c ∷ s) =
    let hit = starts_with (c ∷ s) delimiter in
    let rest = split_from delimiter (if hit then pred (size delimiter) else zero) s in
    if hit then "" ∷ rest else before_first c rest
