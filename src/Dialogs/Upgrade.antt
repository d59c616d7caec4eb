-- ===== src/Dialogs/Upgrade.antt =====
-- web/src/components/UpgradeDialog.jsx: another tier or interval is chosen for the account. What a tier
-- saves by the year is computed with floating-point numbers and is a parameter, in per cent and not
-- below 0, where it is not looked at.
pub mod Laws
pub mod Submit
pub mod Card
mod Tests
use mathlib.Core.List.{foldl}
use ntfy.Base.{
  ℕ, ◌+◌, String, Bool, true, false, not, ◌&&◌, ◌||◌, Option, none, some, List, [], ◌∷◌, length,
  filter, get_last?, is_some, ltb, eqb, get_or, truthy, ◌==◌, if◌then◌else◌,
}
use ntfy.Base.Text.{starts_with}
use ntfy.Model.{Config, Reservation}
use ntfy.Database.{Dexie}
use ntfy.Errors.{Result, ok, err}
use ntfy.Util.Auth.{Base64}
use ntfy.Account.{post, put}
use ntfy.Account.Calls
use ntfy.Profile.{Profile}
use ntfy.Page.{Page, Handler, pure, ◌>>=◌, ◌>>◌, catch, modify, unless_unauthorized, call}
use ntfy.Dialogs.{show}

pub record Tier : Type 0 where
  pub code : Option String
  -- `prices.month` and `prices.year`
  pub prices : Option (ℕ × ℕ)
  -- `limits.reservations`
  pub reservations : ℕ

pub data Action : Type 0 where
  redirect_signup create_subscription update_subscription cancel_subscription : Action

pub data Banner : Type 0 where
  cancel_warning proration_info reservations_warning : Banner

-- a === b, where each may be undefined
abbrev pub same : Option String → Option String → Bool
same none none = true
same (some a) (some b) = a == b
same _ _ = false

abbrev pub matches_interval : Option String → String → Bool
matches_interval none interval = true
matches_interval (some i) interval = i == interval

-- `tiersMap[code]`: of tiers with one code the last, and a tier without a code under "undefined".
unfoldable pub tier_of : List Tier → Option String → Option Tier
tier_of tiers code =
    get_last? (filter (λ (t : Tier). get_or t.code "undefined" == get_or code "undefined") tiers)

-- What the button does, and the banner: without an account; and by the tier of the account and its
-- interval, and the tier and the interval that are chosen.
unfoldable pub choice_for :
    Option String → Option String → Option String → String → Option Action × Option Banner
choice_for current current_interval new interval =
    if same current new && matches_interval current_interval interval
    then (none, if is_some (truthy current) then some proration_info else none)
    else if not (is_some (truthy current))
    then (some create_subscription, none)
    else if not (is_some (truthy new))
    then (some cancel_subscription, some cancel_warning)
    else (some update_subscription, some proration_info)

unfoldable pub choice : Option Profile → Option String → String → Option Action × Option Banner
unfolding choice_for
choice none new interval = (some redirect_signup, none)
choice (some account) new interval = choice_for account.tier account.interval new interval

-- `account?.reservations?.length > newTier?.limits?.reservations`, false where one is undefined
abbrev pub exceeds : Option (List Reservation) → Option Tier → Bool
exceeds none tier = false
exceeds (some rs) none = false
exceeds (some rs) (some tier) = is_some (truthy tier.code) && ltb tier.reservations (length rs)

abbrev pub reservations_of : Option Profile → Option (List Reservation)
reservations_of none = none
reservations_of (some account) = account.reservations

-- With the exceptional conditions.
unfoldable pub submit_action :
    Option Profile → List Tier → Option String → String → Bool → Option Action × Option Banner
unfolding choice tier_of
submit_action account tiers new interval loading =
    if loading
    then (none, (choice account new interval).1)
    else if exceeds (reservations_of account) (tier_of tiers new)
    then (none, some reservations_warning)
    else choice account new interval

abbrev pub prices_of : Option Tier → Option (ℕ × ℕ)
prices_of none = none
prices_of (some t) = t.prices

-- The discount that is shown, and whether it is shown as the highest of several.
module _ (saving : ℕ × ℕ → ℕ) where
  abbrev pub count_tier : ℕ × ℕ → Option (ℕ × ℕ) → ℕ × ℕ
  count_tier (discount, n) none = (discount, n)
  count_tier (discount, n) (some prices) =
      if ltb discount (saving prices) then (saving prices, n + 1) else (discount, n)

  abbrev pub highest : List Tier → ℕ × ℕ
  highest tiers = foldl (λ found (t : Tier). count_tier found t.prices) (0, 0) tiers

  abbrev pub discount_for : List Tier → Option (ℕ × ℕ) → ℕ × Bool
  discount_for tiers (some prices) = (saving prices, false)
  discount_for tiers none = ((highest tiers).0, ltb 1 (highest tiers).1)

  unfoldable pub discount : List Tier → Option String → ℕ × Bool
  unfolding tier_of
  discount tiers new = discount_for tiers (prices_of (tier_of tiers new))

-- `config.billing_contact.match("^http?s://")`
unfoldable pub is_website : String → Bool
is_website contact = starts_with contact "https://" || starts_with contact "htts://"

module _ {d : Dexie} (config : Config) (base64 : Base64) where
  abbrev act : String → String → Result String → Option Action → Handler d (Unit {0})
  unfolding Calls.upsert_billing_subscription Calls.delete_billing_subscription
  act new interval answer (some create_subscription) = do
    redirect_url ←
        call config base64 (λ c. Calls.upsert_billing_subscription c post new interval) answer
    modify (λ p. record p { redirect = some redirect_url })
  act new interval answer (some update_subscription) = do
    call config base64 (λ c. Calls.upsert_billing_subscription c put new interval) answer
    pure tt
  act new interval answer (some cancel_subscription) = do
    call config base64 Calls.delete_billing_subscription answer
    pure tt
  act new interval answer _ = pure tt

  -- With true, the dialog closes. While the request is under way, `loading` is true; `new` is the code of
  -- the tier where there is one. `answer` has the `redirect_url` of the response, which only the first
  -- of the requests looks at.
  unfoldable pub handle_submit : Option Action → String → String → Result String → Handler d Bool
  unfolding act unless_unauthorized
  handle_submit (some redirect_signup) new interval answer = do
    modify (λ p. record p { redirect = some "/signup" })
    pure false
  handle_submit action new interval answer =
      catch (act new interval answer action >> pure true) (unless_unauthorized false show)
