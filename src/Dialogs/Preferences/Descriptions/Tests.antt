-- ===== src/Dialogs/Preferences/Descriptions/Tests.antt =====
-- Settings as they are described.
use ntfy.Base.{◌≡◌, refl, some}
use ntfy.Dialogs.Preferences.Descriptions.{
  PriorityDescription, min_priority_description, RetentionDescription, delete_after_description,
}

some_priority : min_priority_description (some 3) ≡ some (PriorityDescription.or_higher 3)
unfolding min_priority_description
some_priority = refl

an_hour : delete_after_description (some 3600) ≡ RetentionDescription.no_text
unfolding delete_after_description
an_hour = refl
