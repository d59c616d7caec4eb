-- ===== src/Dialogs/Preferences/Tests.antt =====
-- Settings that are changed on a page with a session.
use ntfy.Base.{◌≡◌, refl, false, []}
use ntfy.Dialogs.Preferences.{add_button_enabled}

no_password : add_button_enabled false [] "https://ntfy.example.com" "phil" "" ≡ false
unfolding add_button_enabled
no_password = refl
