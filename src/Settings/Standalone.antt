-- ===== src/Settings/Standalone.antt =====
-- `useIsLaunchedPWA` and `useStandaloneWebPushAutoSubscribe` of web/src/components/hooks.js, and whether
-- web/src/components/Preferences.jsx offers web push. `matches` is what the browser says
-- of the display mode, at first and with each change; on iOS it is not listened to.
mod Tests
use ntfy.Base.{
  ℕ, String, ◌≡◌, refl, Bool, true, false, not, ◌&&◌, ◌||◌, Option, none, some, List, [], ◌∷◌, eqb,
  ◌==◌, if◌then◌else◌, arith,
}
use ntfy.Model.{Value, flag}
use ntfy.Database.{Dexie, Db}
use ntfy.Settings.{set_web_push_enabled, web_push_enabled}
use ntfy.Settings.Laws.{Readings, readings, readings_set}

-- What is known of the display mode after these changes.
abbrev after_changes : Bool → List Bool → Bool
after_changes standalone [] = standalone
after_changes standalone (matches ∷ changes) = after_changes matches changes

unfoldable pub is_launched_pwa : Bool → Bool → List Bool → Bool
is_launched_pwa is_ios_standalone matches changes =
    is_ios_standalone || (if is_ios_standalone then matches else after_changes matches changes)

-- Whether the page offers to turn web push on and off.
unfoldable pub shows_web_push : Bool → Bool → Bool
shows_web_push launched_pwa push_possible = not launched_pwa && push_possible

module _ (d : Dexie) where
  unfoldable pub standalone_auto_subscribe : Bool → Db d → Db d
  unfolding set_web_push_enabled
  standalone_auto_subscribe launched db = if launched then set_web_push_enabled d true db else db

  -- Once the app runs by itself, web push is enabled, and the page does not offer to disable it; no other
  -- setting changes. In the browser the settings stay as they were.
  pub readings-standalone_auto_subscribe :
      (launched push_possible : Bool) (db : Db d)
      → (readings d (standalone_auto_subscribe launched db) ≡ (
          if launched
          then record (readings d db) { web_push_enabled = some (flag true) }
          else readings d db))
        × ((launched && shows_web_push launched push_possible) ≡ false)
  unfolding standalone_auto_subscribe shows_web_push
  readings-standalone_auto_subscribe true push_possible db =
      let (_, _, _, enabled, _) = readings_set d db "" "" 0 true in (enabled, refl)
  readings-standalone_auto_subscribe false push_possible db = (refl, refl)
