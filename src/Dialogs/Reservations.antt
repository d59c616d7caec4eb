-- ===== src/Dialogs/Reservations.antt =====
-- web/src/components/ReserveDialogs.jsx: a topic is reserved, and a reservation is changed or deleted.
mod Tests
use ntfy.Base.{ℕ, String, Bool, not, ◌&&◌, List, filter, length, ltb, ◌==◌}
use ntfy.Model.{Config, Permission, Reservation}
use ntfy.Database.{Dexie}
use ntfy.Errors.{Result}
use ntfy.Util.Auth.{Base64}
use ntfy.Account.Calls
use ntfy.Page.{Handler}
use ntfy.Dialogs.{submit_and_close}

-- `Permission` of web/src/app/AccountApi.js
abbrev pub permission_text : Permission → String
permission_text Permission.read_write = "read-write"
permission_text Permission.read_only = "read-only"
permission_text Permission.write_only = "write-only"
permission_text Permission.deny_all = "deny-all"

abbrev pub already_reserved : List Reservation → String → Bool
already_reserved reservations topic =
    ltb 0 (length (filter (λ (r : Reservation). r.topic == topic) reservations))

module _ {d : Dexie} (config : Config) (base64 : Base64) where
  unfoldable pub add_submit : String → Permission → Result (Unit {0}) → Handler d Bool
  unfolding submit_and_close Calls.upsert_reservation
  add_submit topic everyone =
      submit_and_close config base64
        (λ c. Calls.upsert_reservation c topic (permission_text everyone))

  unfoldable pub edit_submit : Reservation → Permission → Result (Unit {0}) → Handler d Bool
  unfolding submit_and_close Calls.upsert_reservation
  edit_submit reservation everyone =
      submit_and_close config base64
        (λ c. Calls.upsert_reservation c reservation.topic (permission_text everyone))

  unfoldable pub delete_submit : String → Bool → Result (Unit {0}) → Handler d Bool
  unfolding submit_and_close Calls.delete_reservation
  delete_submit topic delete_messages =
      submit_and_close config base64 (λ c. Calls.delete_reservation c topic delete_messages)
