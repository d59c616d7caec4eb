-- ===== src/Dialogs/Upgrade/Tests.antt =====
-- An account with a tier, and two tiers that save different amounts.
use ntfy.Base.{◌↔◌, ℕ, ◌≡◌, refl, true, false, String, some, none, List, [], ◌∷◌}
use ntfy.Model.{Permission, Reservation}
use ntfy.Profile.{Profile}
use ntfy.Dialogs.Upgrade.{
  Tier, update_subscription, discount, tier_of, prices_of, submit_action, is_website,
}
use ntfy.Dialogs.Upgrade.Laws.{saved}
use ntfy.Dialogs.Upgrade.Submit.{Fits, HasRoom, IsChosen, submit_action_lem}

abbrev mine : Reservation
mine = record { topic = "mine"; everyone = Permission.deny_all }

abbrev account : Profile
account = record {
  username = "phil";
  role = "user";
  language = none;
  notification = none;
  subscriptions = none;
  reservations = some (mine ∷ []);
  sync_topic = none;
  tier = some "starter";
  interval = some "month";
  attachment_file_size = none;
  attachment_total_size_remaining = 0;
  reservations_remaining = 2;
}

abbrev tier : String → ℕ → Tier
tier code saved = record { code = some code; prices = some (saved, 0); reservations = 3 }

abbrev free : Tier
free = record { code = none; prices = none; reservations = 0 }

abbrev saving : ℕ × ℕ → ℕ
saving prices = prices.0

abbrev tiers : List Tier
tiers = tier "pro" 20 ∷ free ∷ tier "starter" 10 ∷ []

-- In the other order the same tiers are said to save up to 20 per cent.
other_order : discount saving (free ∷ tier "starter" 10 ∷ tier "pro" 20 ∷ []) none ≡ (20, true)
unfolding discount tier_of
other_order = refl

http_contact : is_website "http://ntfy.sh/contact" ≡ false
unfolding is_website
http_contact = refl

not_priced : prices_of (tier_of tiers none) ≡ none
unfolding tier_of
not_priced = refl

pro-IsChosen : IsChosen tiers (some "pro") (tier "pro" 20)
pro-IsChosen = record {
  before = [];
  after = free ∷ tier "starter" 10 ∷ [];
  listed = refl;
  found = refl;
  last = (refl, (refl, tt));
}

submit_action_lem_example :
    ((submit_action (some account) tiers (some "pro") "month" false).0 ≡ some update_subscription)
    ↔ ((false ≡ false)
        × HasRoom (some account) (tier "pro" 20)
        × Fits (some account) (some "pro") "month" update_subscription)
submit_action_lem_example =
    submit_action_lem (some account) tiers (some "pro") "month" false (tier "pro" 20)
      update_subscription pro-IsChosen
