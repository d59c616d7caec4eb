-- ===== src/Settings/Laws.antt =====
-- Settings are read back, and do not disturb one another.
use ntfy.Base.{ℕ, String, ◌≡◌, Bool, Option, some}
use ntfy.Base.Decimal.{number-to_string}
use ntfy.Model.{Value, text, flag}
use ntfy.Database.{Dexie, Db}
use ntfy.Settings.{
  set_sound, sound, set_min_priority, min_priority, set_delete_after, delete_after,
  web_push_enabled, set_web_push_enabled, theme, set_theme,
}

module _ (d : Dexie) where
  open d use {prefs as P}

  -- What the app reads of its settings.
  pub record Readings : Type 0 where
    pub sound : Value
    pub min_priority : Option ℕ
    pub delete_after : Option ℕ
    pub web_push_enabled : Option Value
    pub theme : Value

  abbrev pub readings : Db d → Readings
  readings db = record {
    sound = sound d db;
    min_priority = min_priority d db;
    delete_after = delete_after d db;
    web_push_enabled = web_push_enabled d db;
    theme = theme d db;
  }

  module _ (db : Db d) where
    -- Each setter changes the reading of its own setting to what was set, numbers included, which are
    -- stored as decimal texts; the readings of the four others stay as they were.
    pub readings_set :
        (s mode : String) (n : ℕ) (b : Bool)
        → (readings (set_sound d s db) ≡ record (readings db) { sound = text s })
          × (readings (set_min_priority d n db) ≡ record (readings db) { min_priority = some n })
          × (readings (set_delete_after d n db) ≡ record (readings db) { delete_after = some n })
          × (readings (set_web_push_enabled d b db)
              ≡ record (readings db) { web_push_enabled = some (flag b) })
          × (readings (set_theme d mode db) ≡ record (readings db) { theme = text mode })
    unfolding sound min_priority delete_after web_push_enabled theme set_sound set_min_priority
        set_delete_after set_web_push_enabled set_theme
    readings_set s mode n b = (
      simp P.get-put,
      simp (P.get-put, number-to_string),
      simp (P.get-put, number-to_string),
      simp P.get-put,
      simp P.get-put,
    )
