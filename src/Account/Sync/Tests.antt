-- ===== src/Account/Sync/Tests.antt =====
-- A session with an account that keeps its messages for ever.
use ntfy.Base.{◌≡◌, refl, some}
use ntfy.Database.Listed.{listed, empty}
use ntfy.Settings.{delete_after}
use ntfy.Profile.{NotificationSettings}
use ntfy.Account.Sync.{store_settings}
use ntfy.Account.Sync.After.{After}

abbrev for_ever : NotificationSettings
for_ever = record { sound = some "beep"; delete_after = some 0; min_priority = some 3 }

not_for_ever : delete_after listed (store_settings (some for_ever) empty) ≡ some 604800
unfolding delete_after store_settings
not_for_ever = refl
