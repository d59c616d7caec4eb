-- ===== src/Dialogs/Account/Overview/Tests.antt =====
-- A user without a tier, and an administrator.
use ntfy.Base.{◌≡◌, refl, ℕ, true, none, some, [], ◌∷◌, All}
use ntfy.Profile.{Profile}
use ntfy.Dialogs.Popup.{Features}
use ntfy.Dialogs.Account.Overview.{
  Amounts, Overview, AccountType, account_type, Button, buttons, bars, payment_overdue, canceled_at,
  paid_until, Interval,
}
use ntfy.Dialogs.Account.Overview.Laws.{IsShown, bars_lem}

abbrev amounts : ℕ → Amounts
amounts n = record {
  reservations = n;
  messages = 5;
  emails = n;
  calls = n;
  attachment_total_size = 10;
}

abbrev user : Overview
user = record {
  role = "user";
  tier = none;
  billing = none;
  basis = "ip";
  limits = amounts 0;
  stats = amounts 0;
}

abbrev canceled : Overview
canceled = record user {
  tier = some "Pro";
  billing = some (record {
    customer = true;
    subscription = true;
    status = some "past_due";
    interval = some "year";
    paid_until = 7;
    cancel_at = 9;
  });
}

abbrev paid_features : Features
paid_features = record { enable_reservations = true; enable_payments = true }

abbrev profile : Profile
profile = record {
  username = "phil";
  role = "user";
  language = none;
  notification = none;
  subscriptions = none;
  reservations = none;
  sync_topic = none;
  tier = none;
  interval = none;
  attachment_file_size = none;
  attachment_total_size_remaining = 0;
  reservations_remaining = 0;
}

named_yearly : account_type paid_features canceled ≡ AccountType.named "Pro" Interval.yearly
unfolding account_type
named_yearly = refl

changing : buttons paid_features canceled ≡ Button.change ∷ Button.manage_billing ∷ []
unfolding buttons
changing = refl

overdue : payment_overdue canceled ≡ true
unfolding payment_overdue
overdue = refl

ends : canceled_at canceled ≡ some 9
unfolding canceled_at
ends = refl

not_renewed : paid_until canceled ≡ none
unfolding paid_until
not_renewed = refl

bars_lem_example : All IsShown (bars user true true)
bars_lem_example = bars_lem user true true
