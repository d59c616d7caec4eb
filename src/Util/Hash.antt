-- ===== src/Util/Hash.antt =====
-- `hashCode` of web/src/app/utils.js. The variable `hash` is an int32; it is kept as its 32 bits, a
-- number below 2^32, and every operation is written out modulo 2^32.
pub mod Laws
use ntfy.Base.{ℕ, ◌+◌, ◌-◌, ◌*◌, ◌%◌, ◌^◌, String, List, [], ◌∷◌, ltb, if◌then◌else◌}
use ntfy.Base.Int.{ℤ, pos, negsuc}
use ntfy.Base.Text.{utf16}

abbrev pub word : ℕ
word = 4294967296

-- `hash << 5`
abbrev shifted : ℕ → ℕ
shifted hash = hash * 32 % word

-- `hash = (hash << 5) - hash + char; hash &= hash`
unfoldable pub hash_step : ℕ → ℕ → ℕ
hash_step hash char = (shifted hash + (word - hash) + char) % word

unfoldable pub hash_from : ℕ → List ℕ → ℕ
hash_from hash [] = hash
hash_from hash (char ∷ chars) = hash_from (hash_step hash char) chars

-- The int32 that 32 bits stand for.
abbrev pub signed : ℕ → ℤ
signed n = if ltb n 2147483648 then pos n else negsuc (word - 1 - n)

unfoldable pub hash_code : String → ℤ
unfolding hash_from hash_step
hash_code s = signed (hash_from 0 (utf16 s))
