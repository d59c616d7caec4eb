-- ===== src/Dialogs/Account/Tests.antt =====
-- The dialogs of an account, on a page with a session.
use ntfy.Base.{◌≡◌, refl, true, false}
use ntfy.Errors.{Result, err, incorrect_password}
use ntfy.Dialogs.Account.{PhoneDialog, change_disabled, cancel}

abbrev dialog : PhoneDialog
dialog = record {
  phone_number = "+1555";
  channel = "sms";
  code = "";
  sending = true;
  verification_code_sent = false;
}

abbrev refused : Result (Unit {0})
refused = err incorrect_password

passwords_differ : change_disabled "old" "new" "now" ≡ true
unfolding change_disabled
passwords_differ = refl

cancel_closes : (cancel dialog).1 ≡ true
unfolding cancel
cancel_closes = refl
