-- ===== src/Settings/Tests.antt =====
-- The settings of an empty database.
use ntfy.Base.{◌≡◌, refl, some}
use ntfy.Database.Listed.{listed, empty}
use ntfy.Settings.{min_priority}

priority_by_default : min_priority listed empty ≡ some 1
unfolding min_priority
priority_by_default = refl
