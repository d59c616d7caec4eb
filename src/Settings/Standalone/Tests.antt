-- ===== src/Settings/Standalone/Tests.antt =====
-- The app that was installed.
use ntfy.Base.{◌≡◌, refl, true, false, [], ◌∷◌}
use ntfy.Settings.Standalone.{is_launched_pwa}

installed : is_launched_pwa false false (true ∷ []) ≡ true
unfolding is_launched_pwa
installed = refl
