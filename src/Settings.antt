-- ===== src/Settings.antt =====
-- web/src/app/Prefs.js: the table `prefs`.
pub mod Laws
pub mod Standalone
mod Tests
use ntfy.Base.{ℕ, String, Bool, true, false, Option, none, some, ◌==◌, if◌then◌else◌, get_or, not}
use ntfy.Base.Decimal.{to_string, number}
use ntfy.Dexie.{map_option}
use ntfy.Model.{Value, text, flag, Setting}
use ntfy.Database.{Dexie, Db}

abbrev pub setting : String → Value → Setting
setting key value = record { key = key; value = value }

-- The text of a value, as `Number(…)` and a template would take it.
abbrev text_of : Value → String
text_of (text s) = s
text_of (flag true) = "true"
text_of (flag false) = "false"

abbrev pub is_truthy : Value → Bool
is_truthy (text s) = not (s == "")
is_truthy (flag b) = b

-- `setting ? Number(setting.value) : n`; NaN is `none`.
abbrev pub number_or : ℕ → Option Value → Option ℕ
number_or n none = some n
number_or n (some v) = number (text_of v)

module _ (d : Dexie) where
  open d use {prefs as P}

  abbrev pub read : String → Db d → Option Value
  read key db = map_option (λ (s : Setting). s.value) (P.get db.prefs key)

  abbrev pub write : String → Value → Db d → Db d
  write key value db = record db { prefs = P.put db.prefs (setting key value) }

  unfoldable pub set_sound : String → Db d → Db d
  set_sound sound db = write "sound" (text sound) db

  unfoldable pub sound : Db d → Value
  sound db = get_or (read "sound" db) (text "ding")

  unfoldable pub set_min_priority : ℕ → Db d → Db d
  unfolding to_string
  set_min_priority n db = write "minPriority" (text (to_string n)) db

  unfoldable pub min_priority : Db d → Option ℕ
  unfolding number
  min_priority db = number_or 1 (read "minPriority" db)

  unfoldable pub set_delete_after : ℕ → Db d → Db d
  unfolding to_string
  set_delete_after n db = write "deleteAfter" (text (to_string n)) db

  unfoldable pub delete_after : Db d → Option ℕ
  unfolding number
  delete_after db = number_or 604800 (read "deleteAfter" db)

  unfoldable pub web_push_enabled : Db d → Option Value
  web_push_enabled db = read "webPushEnabled" db

  unfoldable pub set_web_push_enabled : Bool → Db d → Db d
  set_web_push_enabled enabled db = write "webPushEnabled" (flag enabled) db

  unfoldable pub theme : Db d → Value
  theme db = get_or (read "theme" db) (text "system")

  unfoldable pub set_theme : String → Db d → Db d
  set_theme mode db = write "theme" (text mode) db
