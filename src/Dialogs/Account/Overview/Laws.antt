-- ===== src/Dialogs/Account/Overview/Laws.antt =====
-- How far the bars are drawn, and what the page offers an account.
use ntfy.Layout.{show_upgrade_banner, paid}
use ntfy.Profile.{Profile}
use ntfy.Base.{
  ◌||◌, [], ◌∷◌, ◌==◌, any, not, ltb, All, List, String, ℕ, ◌*◌, ◌≤◌, ◌<◌, ◌≡◌, refl, Bool, true,
  false, ◌&&◌, ◌⊎◌, inl, inr, Option, none, some, leb, eqb, arith, Bool-cases,
}
use ntfy.Dialogs.Account.Overview.{
  has_billing, bar_if, Features, calls_none, Overview, bar, buttons, bars, Button,
  reservations_none, Fraction, full, normalize, Resource, Bar,
}

abbrev pub is_reached : Option ℕ → ℕ → Bool
is_reached none used = true
is_reached (some limit) used = leb limit used

-- A part of 100, which is all of it exactly if there is no limit or the limit is reached.
abbrev pub IsPart : Fraction → Bool → Type 0
IsPart f reached = (0 < f.under) × (f.over ≤ 100 * f.under) × (leb (100 * f.under) f.over ≡ reached)

abbrev pub is_guarded : Resource → Bool
is_guarded Resource.reservations = true
is_guarded Resource.calls = true
is_guarded _ = false

abbrev pub IsDrawn : Bar → Type 0
IsDrawn b = (f : Fraction) × (b.value ≡ some f) × IsPart f (is_reached b.limit b.used)

-- The value is no number.
abbrev pub IsUndefined : Bar → Type 0
IsUndefined b =
    (b.value ≡ none) × (b.used ≡ 0) × (b.limit ≡ some 0) × (is_guarded b.resource ≡ false)

fraction-IsPart :
    (value max : ℕ)
    → value < max
    → IsPart (record { over = value * 100; under = max }) (leb max value)
fraction-IsPart value max h = (omega arith, omega arith, ground arith)

full-IsPart : IsPart full true
full-IsPart = (omega arith, omega arith, refl)

-- The value of a bar with a limit.
normalize_lem :
    (value max : ℕ)
    → ((f : Fraction) × (normalize value max ≡ some f) × IsPart f (leb max value))
      ⊎ ((normalize value max ≡ none) × (value ≡ 0) × (max ≡ 0))
unfolding normalize
normalize_lem value max = elim (Bool-cases (eqb value 0 && eqb max 0)) [
  | inl e ↦ inr (rw e refl, ground arith, ground arith)
  | inr e ↦ elim (Bool-cases (leb max value)) [
    | inl e' ↦ inl (full, rw (e, e') refl, rw e' full-IsPart)
    | inr e' ↦ inl (
      record { over = value * 100; under = max },
      rw (e, e') refl,
      fraction-IsPart value max (ground arith),
    )
  ]
]

bar_lem :
    (a : Overview) (r : Resource) (used limit : ℕ)
    → IsDrawn (bar a r (is_guarded r) used limit) ⊎ IsUndefined (bar a r (is_guarded r) used limit)
unfolding bar
bar_lem a r used limit = elim (Bool-cases (a.role == "user")) [
  | inr e ↦ inl (rw e (full, refl, full-IsPart))
  | inl e ↦ elim (Bool-cases (not (is_guarded r) || ltb 0 limit)) [
    | inr guarded ↦ inl (rw (e, guarded) (full, refl, reached (ground arith)))
    | inl open_ ↦ elim (normalize_lem used limit) [
      | inl (f, given, part) ↦ inl (rw (e, open_) (f, given, part))
      | inr (undefined, unused, no_limit) ↦
          inr (rw (e, open_) undefined, unused, rw (e, no_limit) refl, ground arith)
    ]
  ]
]
  where
    reached : ltb 0 limit ≡ false → IsPart full (leb limit used)
    reached h = let zero_limit : leb limit used ≡ true = ground arith in rw zero_limit full-IsPart

abbrev pub IsShown : Bar → Type 0
IsShown b = IsDrawn b ⊎ IsUndefined b

All-bar_if :
    (show : Bool) (b : Bar) (rest : List Bar)
    → IsShown b
    → All IsShown rest
    → All IsShown (bar_if show b rest)
All-bar_if true b rest h hs = (h, hs)
All-bar_if false b rest h hs = hs

-- Every bar is drawn to a part of 100, to all of it exactly where the account has no limit or has
-- reached it; only the bar of the messages, the emails or the attachments is undefined where nothing is
-- used of a limit of 0.
pub bars_lem :
    (a : Overview) (enable_emails enable_calls : Bool)
    → All IsShown (bars a enable_emails enable_calls)
unfolding bars
bars_lem a enable_emails enable_calls =
    let l = a.limits in
    let s = a.stats in
    let shown = bar_lem a in
    let calls : List Bar =
      bar_if (enable_calls && (a.role == "admin" || ltb 0 l.calls))
        (bar a Resource.calls true s.calls l.calls)
        (bar a Resource.attachments false s.attachment_total_size l.attachment_total_size ∷ []) in
    let emails : List Bar =
      bar_if enable_emails (bar a Resource.emails false s.emails l.emails) calls in
    let calls_shown : All IsShown calls =
      All-bar_if (enable_calls && (a.role == "admin" || ltb 0 l.calls))
        (bar a Resource.calls true s.calls l.calls)
        (bar a Resource.attachments false s.attachment_total_size l.attachment_total_size ∷ [])
        (shown Resource.calls s.calls l.calls)
        (shown Resource.attachments s.attachment_total_size l.attachment_total_size, tt) in
    let emails_shown : All IsShown emails =
      All-bar_if enable_emails (bar a Resource.emails false s.emails l.emails) calls
        (shown Resource.emails s.emails l.emails) calls_shown in
    All-bar_if (a.role == "admin" || ltb 0 l.reservations)
      (bar a Resource.reservations true s.reservations l.reservations)
      (bar a Resource.messages false s.messages l.messages ∷ emails)
      (shown Resource.reservations s.reservations l.reservations)
      (shown Resource.messages s.messages l.messages, emails_shown)

abbrev pub is_upgrade : Button → Bool
is_upgrade Button.upgrade = true
is_upgrade _ = false

abbrev pub is_change : Button → Bool
is_change Button.change = true
is_change _ = false

-- The two roles that an account can have.
abbrev pub IsRole : String → Type 0
IsRole role = (role ≡ "user") ⊎ (role ≡ "admin")

-- For an account with a role, the page has the button that upgrades exactly where the navigation has
-- its banner, and with payments a user has exactly one of this button and the one that changes the tier.
pub buttons-show_upgrade_banner :
    (features : Features) (a : Overview) (profile : Profile) (subscription : Option String)
    → IsRole a.role
    → profile.role ≡ a.role
    → paid subscription ≡ has_billing (λ b. b.subscription) a.billing
    → (any is_upgrade (buttons features a)
        ≡ show_upgrade_banner features (some profile) subscription)
      × (any is_change (buttons features a) ≡ (
          features.enable_payments
          && a.role == "user"
          && not (any is_upgrade (buttons features a))))
unfolding buttons show_upgrade_banner
buttons-show_upgrade_banner features a profile subscription (inl e) same p =
    rw (same, e, p) (ground arith, ground arith)
buttons-show_upgrade_banner features a profile subscription (inr e) same p =
    rw (same, e, p) (ground arith, ground arith)

abbrev pub is_reservations : Bar → Bool
is_reservations b = elim b.resource [ Resource.reservations ↦ true | _ ↦ false ]

abbrev pub is_calls : Bar → Bool
is_calls b = elim b.resource [ Resource.calls ↦ true | _ ↦ false ]

-- For a user the page says that there are no reservations, or no calls, exactly where these are enabled
-- and have no bar.
pub reservations_none-bars :
    (features : Features) (a : Overview) (enable_emails enable_calls : Bool)
    → a.role ≡ "user"
    → (reservations_none a features ≡ (
        features.enable_reservations
        && not (any is_reservations (bars a enable_emails enable_calls))))
      × (calls_none a enable_calls
          ≡ (enable_calls && not (any is_calls (bars a enable_emails enable_calls))))
unfolding reservations_none calls_none bars bar
reservations_none-bars features a enable_emails enable_calls e = rw e (ground arith, ground arith)
