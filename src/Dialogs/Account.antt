-- ===== src/Dialogs/Account.antt =====
-- The dialogs of web/src/components/Account.jsx.
pub mod Laws
pub mod Tokens
pub mod Phones
pub mod Overview
mod Tests
use ntfy.Base.{
  ℕ, String, Bool, true, false, not, ◌||◌, Option, none, some, List, ltb, eqb, get_or, ◌==◌,
  if◌then◌else◌,
}
use ntfy.Model.{Config}
use ntfy.Database.{Dexie, Db}
use ntfy.Errors.{AppError, Result}
use ntfy.Util.Auth.{Base64}
use ntfy.Account.Calls
use ntfy.Page.{
  Handler, pure, ◌>>=◌, ◌>>◌, catch, on_db, set_error, reset_and_redirect, unless_unauthorized,
  call,
}
use ntfy.Dialogs.{show, submit, attempt}

-- Where the button that changes the password cannot be pressed.
unfoldable pub change_disabled : String → String → String → Bool
change_disabled current_password new_password confirm_password =
    new_password == "" || current_password == "" || not (new_password == confirm_password)

-- The state of `AddPhoneNumberDialog`.
pub record PhoneDialog : Type 0 where
  pub phone_number : String
  pub channel : String
  pub code : String
  pub sending : Bool
  pub verification_code_sent : Bool

-- With true, the dialog closes.
abbrev pub after_verify : PhoneDialog → Bool → PhoneDialog × Bool
after_verify s sent =
    (record s { sending = false; verification_code_sent = s.verification_code_sent || sent }, false)

abbrev pub after_check : PhoneDialog → Bool → PhoneDialog × Bool
after_check s closes = (record s { sending = false }, closes)

unfoldable pub cancel : PhoneDialog → PhoneDialog × Bool
cancel s =
    if s.verification_code_sent
    then (record s { verification_code_sent = false; code = "" }, false)
    else (s, true)

module _ {d : Dexie} where
  -- `db().delete()`
  abbrev pub deleted : Db d → Db d
  deleted db = record {
    subscriptions = d.subscriptions.empty;
    notifications = d.notifications.empty;
    users = d.users.empty;
    prefs = d.prefs.empty;
  }

module _ {d : Dexie} (config : Config) (base64 : Base64) where
  unfoldable pub change_password : String → String → Result (Unit {0}) → Handler d Bool
  unfolding submit Calls.change_password
  change_password current_password new_password =
      submit config base64 (λ c. Calls.change_password c current_password new_password)

  -- The page that is opened for the customer, and whether the error is shown.
  unfoldable pub manage_billing : Result String → Handler d (Option String × Bool)
  unfolding unless_unauthorized Calls.create_billing_portal_session
  manage_billing answer =
      catch
        (do
          redirect_url ← call config base64 Calls.create_billing_portal_session answer
          pure (some redirect_url, false))
        (unless_unauthorized (none, false) (λ e. pure (none, true)))

  unfoldable pub delete_phone : String → Result (Unit {0}) → Handler d (Unit {0})
  unfolding attempt Calls.delete_phone_number
  delete_phone phone_number = attempt config base64 (λ c. Calls.delete_phone_number c phone_number)

  unfoldable pub verify_phone : PhoneDialog → Result (Unit {0}) → Handler d (PhoneDialog × Bool)
  unfolding submit Calls.verify_phone_number
  verify_phone s answer = do
    sent ← submit config base64 (λ c. Calls.verify_phone_number c s.phone_number s.channel) answer
    pure (after_verify s sent)

  unfoldable pub check_verify_phone :
      PhoneDialog → Result (Unit {0}) → Handler d (PhoneDialog × Bool)
  unfolding submit Calls.add_phone_number
  check_verify_phone s answer = do
    closes ← submit config base64 (λ c. Calls.add_phone_number c s.phone_number s.code) answer
    pure (after_check s closes)

  unfoldable pub phone_submit : PhoneDialog → Result (Unit {0}) → Handler d (PhoneDialog × Bool)
  unfolding verify_phone check_verify_phone
  phone_submit s answer =
      if not s.verification_code_sent then verify_phone s answer else check_verify_phone s answer

  -- `handleSubmit` of `TokenDialog`: the token that is edited, if one is; an expiry of -1, which leaves
  -- the expiry of the token as it is, is `none`.
  unfoldable pub token_submit :
      ℕ → Option String → String → Option ℕ → Result (Unit {0}) → Handler d Bool
  unfolding submit Calls.update_token Calls.create_token
  token_submit now_millis none label expires =
      submit config base64 (λ c. Calls.create_token c now_millis label (get_or expires 0))
  token_submit now_millis (some token) label expires =
      submit config base64 (λ c. Calls.update_token c now_millis token label (get_or expires 0))

  unfoldable pub token_delete : String → Result (Unit {0}) → Handler d Bool
  unfolding submit Calls.delete_token
  token_delete token = submit config base64 (λ c. Calls.delete_token c token)

  unfoldable pub delete_account : String → Result (Unit {0}) → Handler d (Unit {0})
  unfolding reset_and_redirect unless_unauthorized Calls.delete_account
  delete_account password answer =
      catch
        (do
          call config base64 (λ c. Calls.delete_account c password) answer
          on_db deleted
          reset_and_redirect config.app_root)
        (unless_unauthorized tt (λ e. set_error (some e)))
