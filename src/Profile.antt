-- ===== src/Profile.antt =====
-- The account as the server answers it, less what only the pages print.
use ntfy.Base.{ℕ, String, Option, List}
use ntfy.Model.{Reservation}
use ntfy.Subscriptions.{Remote}

pub record NotificationSettings : Type 0 where
  pub sound : Option String
  pub delete_after : Option ℕ
  pub min_priority : Option ℕ

pub record Profile : Type 0 where
  pub username : String
  pub role : String
  pub language : Option String
  pub notification : Option NotificationSettings
  pub subscriptions : Option (List Remote)
  pub reservations : Option (List Reservation)
  pub sync_topic : Option String
  -- `tier.code` and `billing.interval`
  pub tier : Option String
  pub interval : Option String
  -- `limits` and `stats`
  pub attachment_file_size : Option ℕ
  pub attachment_total_size_remaining : ℕ
  pub reservations_remaining : ℕ
