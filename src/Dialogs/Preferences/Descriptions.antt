-- ===== src/Dialogs/Preferences/Descriptions.antt =====
-- The texts below the settings of web/src/components/Preferences.jsx, less their translations.
mod Tests
use ntfy.Base.{ℕ, String, Option, none, some, eqb, ◌==◌, if◌then◌else◌}

pub data SoundDescription : Type 0 where
  silent : SoundDescription
  some_sound : String → SoundDescription

-- `none` while the setting is loading.
unfoldable pub sound_description : String → Option SoundDescription
sound_description sound =
    if sound == ""
    then none
    else if sound == "none"
    then some SoundDescription.silent
    else some (SoundDescription.some_sound sound)

pub data PriorityDescription : Type 0 where
  any_priority max_only : PriorityDescription
  or_higher : ℕ → PriorityDescription

-- `none`: the setting is NaN or 0, which are false, and nothing is shown.
unfoldable pub min_priority_description : Option ℕ → Option PriorityDescription
min_priority_description none = none
min_priority_description (some n) =
    if eqb n 0
    then none
    else if eqb n 1
    then some PriorityDescription.any_priority
    else if eqb n 5
    then some PriorityDescription.max_only
    else some (PriorityDescription.or_higher n)

pub data RetentionDescription : Type 0 where
  never three_hours one_day one_week one_month no_text : RetentionDescription

-- `none`: the setting is NaN.
unfoldable pub delete_after_description : Option ℕ → RetentionDescription
delete_after_description none = RetentionDescription.no_text
delete_after_description (some n) =
    if eqb n 0
    then RetentionDescription.never
    else if eqb n 10800
    then RetentionDescription.three_hours
    else if eqb n 86400
    then RetentionDescription.one_day
    else if eqb n 604800
    then RetentionDescription.one_week
    else if eqb n 2592000
    then RetentionDescription.one_month
    else RetentionDescription.no_text
