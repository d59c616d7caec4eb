-- ===== src/Dialogs/Account/Overview.antt =====
-- `AccountType` and `Stats` of web/src/components/Account.jsx: what is said of the tier of the account,
-- which buttons and alerts are shown for it, and what it has used of its limits. The bars are drawn with
-- floating-point numbers, whose exact values are fractions here.
pub mod Laws
mod Tests
use ntfy.Base.{
  ℕ, ◌*◌, String, Bool, true, false, not, ◌&&◌, ◌||◌, Option, none, some, List, [], ◌∷◌, ltb, leb,
  eqb, is_some, truthy_number, ◌==◌, if◌then◌else◌,
}
use ntfy.Dialogs.Popup.{Features}

-- `account.billing`, whose flags and times are false and 0 where they are not there.
pub record Billing : Type 0 where
  pub customer : Bool
  pub subscription : Bool
  pub status : Option String
  pub interval : Option String
  pub paid_until : ℕ
  pub cancel_at : ℕ

-- The numbers of `account.limits`, or those of `account.stats`.
pub record Amounts : Type 0 where
  pub reservations : ℕ
  pub messages : ℕ
  pub emails : ℕ
  pub calls : ℕ
  pub attachment_total_size : ℕ

-- What the page reads of the account: `tier` is the name of the tier.
pub record Overview : Type 0 where
  pub role : String
  pub tier : Option String
  pub billing : Option Billing
  pub basis : String
  pub limits : Amounts
  pub stats : Amounts

pub data Interval : Type 0 where
  monthly yearly unknown : Interval

pub data AccountType : Type 0 where
  admin : Option String → AccountType
  free basic : AccountType
  named : String → Interval → AccountType

abbrev interval_of : Option Billing → Interval
interval_of none = Interval.unknown
interval_of (some b) =
    if is_interval b.interval "month"
    then Interval.monthly
    else if is_interval b.interval "year"
    then Interval.yearly
    else Interval.unknown
  where
    is_interval : Option String → String → Bool
    is_interval none expected = false
    is_interval (some interval) expected = interval == expected

abbrev type_of_tier : Features → Option Billing → Option String → AccountType
type_of_tier features billing none =
    if features.enable_payments then AccountType.free else AccountType.basic
type_of_tier features billing (some name) = AccountType.named name (interval_of billing)

unfoldable pub account_type : Features → Overview → AccountType
account_type features a =
    if a.role == "admin" then AccountType.admin a.tier else type_of_tier features a.billing a.tier

abbrev pub has_billing : (Billing → Bool) → Option Billing → Bool
has_billing p none = false
has_billing p (some b) = p b

pub data Button : Type 0 where
  upgrade change manage_billing : Button

abbrev pub button_if : Bool → Button → List Button → List Button
button_if show button rest = if show then button ∷ rest else rest

-- The buttons, in their order.
unfoldable pub buttons : Features → Overview → List Button
buttons features a =
    let payer = features.enable_payments && a.role == "user" in
    button_if (payer && not (has_billing (λ b. b.subscription) a.billing)) Button.upgrade (
      button_if (payer && has_billing (λ b. b.subscription) a.billing) Button.change
        (button_if (payer && has_billing (λ b. b.customer) a.billing) Button.manage_billing []))

abbrev is_past_due : Option String → Bool
is_past_due none = false
is_past_due (some status) = status == "past_due"

-- The alerts below the tier, and the time until which it is paid, where that is shown.
unfoldable pub payment_overdue : Overview → Bool
payment_overdue a = has_billing (λ b. is_past_due b.status) a.billing

unfoldable pub canceled_at : Overview → Option ℕ
canceled_at a = elim a.billing [ none ↦ none | some b ↦ truthy_number (some b.cancel_at) ]

unfoldable pub paid_until : Overview → Option ℕ
paid_until a = elim a.billing [
  | none ↦ none
  | some b ↦ if eqb b.cancel_at 0 then truthy_number (some b.paid_until) else none
]

-- The value of a bar, of 100: `none` is NaN, which 0 / 0 is.
pub record Fraction : Type 0 where
  pub over : ℕ
  pub under : ℕ

abbrev pub full : Fraction
full = record { over = 100; under = 1 }

unfoldable pub normalize : ℕ → ℕ → Option Fraction
normalize value max =
    if eqb value 0 && eqb max 0
    then none
    else if leb max value
    then some full
    else some (record { over = value * 100; under = max })

pub data Resource : Type 0 where
  reservations messages emails calls attachments : Resource

-- A bar: what was used, of which limit (`none` is unlimited), and how far it is drawn.
pub record Bar : Type 0 where
  pub resource : Resource
  pub used : ℕ
  pub limit : Option ℕ
  pub value : Option Fraction

abbrev pub bar_if : Bool → Bar → List Bar → List Bar
bar_if show b rest = if show then b ∷ rest else rest

module _ (a : Overview) where
  abbrev is_user : Bool
  is_user = a.role == "user"

  -- With `guarded`, a limit of 0 has a full bar.
  unfoldable pub bar : Resource → Bool → ℕ → ℕ → Bar
  unfolding normalize
  bar resource guarded used limit = record {
    resource = resource;
    used = used;
    limit = if is_user then some limit else none;
    value = if is_user && (not guarded || ltb 0 limit) then normalize used limit else some full;
  }

  unfoldable pub bars : Bool → Bool → List Bar
  unfolding bar
  bars enable_emails enable_calls =
      let l = a.limits in
      let s = a.stats in
      bar_if (a.role == "admin" || ltb 0 l.reservations)
        (bar Resource.reservations true s.reservations l.reservations)
        (bar Resource.messages false s.messages l.messages
          ∷ bar_if enable_emails (bar Resource.emails false s.emails l.emails) (
              bar_if (enable_calls && (a.role == "admin" || ltb 0 l.calls))
                (bar Resource.calls true s.calls l.calls)
                (bar Resource.attachments false s.attachment_total_size l.attachment_total_size
                  ∷ [])))

  -- Whether the page says that the account can have no reservations, or make no calls.
  unfoldable pub reservations_none : Features → Bool
  reservations_none features =
      features.enable_reservations && is_user && eqb a.limits.reservations 0

  unfoldable pub calls_none : Bool → Bool
  calls_none enable_calls = enable_calls && is_user && eqb a.limits.calls 0

  -- Whether it says that the limits are those of the IP address.
  unfoldable pub basis_ip : Bool
  basis_ip = is_user && a.basis == "ip"
