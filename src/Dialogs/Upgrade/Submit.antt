-- ===== src/Dialogs/Upgrade/Submit.antt =====
-- Which change of the tier can be submitted.
use ntfy.Base.{
  subst, get_last?, ◌≤◌, String, ◌≡◌, refl, ap, ◌↔◌, Bool, true, false, Option, none, some, List,
  [], ◌∷◌, ◌++◌, All, is_some, get_or, filter, length, truthy, ◌==◌, ◌&&◌, arith, Bool-cases, inl,
  inr, eq_iff, eq_refl,
}
use ntfy.Model.{Reservation}
use ntfy.Profile.{Profile}
use ntfy.Dialogs.Upgrade.{
  tier_of, exceeds, submit_action, Tier, Action, redirect_signup, create_subscription,
  update_subscription, cancel_subscription, same, matches_interval, choice_for, choice,
  reservations_of,
}

-- A code that is there and not empty
abbrev pub has : Option String → Bool
has o = is_some (truthy o)

abbrev pub IsInterval : Option String → String → Type 0
IsInterval none interval = Unit
IsInterval (some i) interval = i ≡ interval

-- Another tier than the account's is chosen, or another interval than the one that is billed.
abbrev pub Changes : Profile → Option String → String → Type 0
Changes account new interval = account.tier ≡ new → IsInterval account.interval interval → ⊥

-- What an action is there for.
abbrev pub Fits : Option Profile → Option String → String → Action → Type 0
Fits none new interval redirect_signup = Unit
Fits none new interval _ = ⊥
Fits (some account) new interval redirect_signup = ⊥
Fits (some account) new interval create_subscription =
    Changes account new interval × (has account.tier ≡ false)
Fits (some account) new interval update_subscription =
    Changes account new interval × (has account.tier ≡ true) × (has new ≡ true)
Fits (some account) new interval cancel_subscription =
    Changes account new interval × (has account.tier ≡ true) × (has new ≡ false)

same_iff : (a b : Option String) → (same a b ≡ true) ↔ (a ≡ b)
same_iff none none = (λ h. refl, λ h. refl)
same_iff none (some b) = (λ h. cc, λ h. cc)
same_iff (some a) none = (λ h. cc, λ h. cc)
same_iff (some a) (some b) =
    (λ h. ap some (ground (arith, h, eq_iff a b)), λ h. let e : a ≡ b = cc in rw e (eq_refl b))

matches_iff :
    (o : Option String) (interval : String)
    → (matches_interval o interval ≡ true) ↔ IsInterval o interval
matches_iff none interval = (λ h. tt, λ h. refl)
matches_iff (some i) interval =
    (λ h. ground (arith, h, eq_iff i interval), λ h. rw h (eq_refl interval))

unchanged : Profile → Option String → String → Bool
unchanged account new interval = same account.tier new && matches_interval account.interval interval

unchanged-Changes :
    (account : Profile) (new : Option String) (interval : String)
    → (unchanged account new interval ≡ false) ↔ Changes account new interval
unfolding unchanged
unchanged-Changes account new interval =
    let (_, same') = same_iff account.tier new in
    let (same'', _) = same_iff account.tier new in
    let (m'', m') = matches_iff account.interval interval in
    (
      λ h e e'. absurd (ground (arith, h, same' e, m' e')),
      λ h. elim (Bool-cases (same account.tier new && matches_interval account.interval interval)) [
        | inl e ↦ absurd (h (same'' (ground (arith, e))) (m'' (ground (arith, e))))
        | inr e ↦ e
      ],
    )

choice-Fits :
    (account : Option Profile) (new : Option String) (interval : String) (a : Action)
    → ((choice account new interval).0 ≡ some a) ↔ Fits account new interval a
unfolding choice choice_for unchanged
choice-Fits none new interval redirect_signup = (λ h. tt, λ h. refl)
choice-Fits none new interval create_subscription = (λ h. cc, λ h. absurd h)
choice-Fits none new interval update_subscription = (λ h. cc, λ h. absurd h)
choice-Fits none new interval cancel_subscription = (λ h. cc, λ h. absurd h)
choice-Fits (some account) new interval redirect_signup =
    (λ h. absurd (ground (arith, h)), λ h. absurd h)
choice-Fits (some account) new interval create_subscription =
    let (to, from) = unchanged-Changes account new interval in
    (
      λ h. (to (ground (arith, h)), ground (arith, h)),
      λ (c, e). let c' = from c in ground (arith, c', e),
    )
choice-Fits (some account) new interval update_subscription =
    let (to, from) = unchanged-Changes account new interval in
    (
      λ h. (to (ground (arith, h)), ground (arith, h), ground (arith, h)),
      λ (c, e, e'). let c' = from c in ground (arith, c', e, e'),
    )
choice-Fits (some account) new interval cancel_subscription =
    let (to, from) = unchanged-Changes account new interval in
    (
      λ h. (to (ground (arith, h)), ground (arith, h), ground (arith, h)),
      λ (c, e, e'). let c' = from c in ground (arith, c', e, e'),
    )

-- The name under which a tier is found; that of a tier without a code is "undefined".
abbrev pub key : Option String → String
key code = get_or code "undefined"

-- Of the tiers with the code that is chosen, this is the last.
pub record IsChosen (tiers : List Tier) (new : Option String) (t : Tier) : Type 0 where
  pub before : List Tier
  pub after : List Tier
  pub listed : tiers ≡ before ++ (t ∷ after)
  pub found : (key t.code == key new) ≡ true
  pub last : All (λ (u : Tier). (key u.code == key new) ≡ false) after

-- The tier has room for the reservations of the account, or is the one without a code.
abbrev pub HasRoom : Option Profile → Tier → Type 0
HasRoom account t =
    (rs : List Reservation)
    → reservations_of account ≡ some rs
    → has t.code ≡ true
    → length rs ≤ t.reservations

filter-none :
    {A : Type 0} (p : A → Bool) (xs : List A) → All (λ x. p x ≡ false) xs → filter p xs ≡ []
filter-none p [] _ = refl
filter-none p (x ∷ xs) (h, hs) = rw h (filter-none p xs hs)

last_after {ℓ} :
    {A : Type ℓ} (b t : A) (xs : List A) → get_last? xs ≡ some t → get_last? (b ∷ xs) ≡ some t
last_after b t [] e = cc
last_after b t (x ∷ xs) e = e

last_found :
    (p : Tier → Bool) (t : Tier) (before after : List Tier)
    → p t ≡ true
    → All (λ u. p u ≡ false) after
    → get_last? (filter p (before ++ (t ∷ after))) ≡ some t
last_found p t [] after e h = rw (e, filter-none p after h) refl
last_found p t (b ∷ before) after e h = elim (Bool-cases (p b)) [
  | inl e' ↦
      rw e' (last_after b t (filter p (before ++ (t ∷ after))) (last_found p t before after e h))
  | inr e' ↦ rw e' (last_found p t before after e h)
]

tier_of-chosen :
    (tiers : List Tier) (new : Option String) (t : Tier)
    → IsChosen tiers new t
    → tier_of tiers new ≡ some t
unfolding tier_of
tier_of-chosen tiers new t c =
    rw c.listed (last_found (λ (u : Tier). key u.code == key new) t c.before c.after c.found c.last)

room_iff :
    (o : Option (List Reservation)) (t : Tier)
    → (exceeds o (some t) ≡ false)
      ↔ ((rs : List Reservation) → o ≡ some rs → has t.code ≡ true → length rs ≤ t.reservations)
room_iff none t = (λ h rs e. cc, λ h. refl)
room_iff (some rs) t = (
  λ h rs' e c.
      let same : rs ≡ rs' = cc in subst (λ x. length x ≤ t.reservations) same (ground arith),
  λ h. elim (Bool-cases (has t.code)) [
    | inl c ↦ let fits = h rs refl c in ground arith
    | inr c ↦ ground arith
  ],
)

submit_action-cases :
    (account : Option Profile) (tiers : List Tier) (new : Option String) (interval : String)
    (loading : Bool) (a : Action)
    → ((submit_action account tiers new interval loading).0 ≡ some a) ↔ (
        (loading ≡ false)
        × (exceeds (reservations_of account) (tier_of tiers new) ≡ false)
        × ((choice account new interval).0 ≡ some a))
unfolding submit_action
submit_action-cases account tiers new interval true a = (λ h. cc, λ (h, _, _). cc)
submit_action-cases account tiers new interval false a =
    elim (Bool-cases (exceeds (reservations_of account) (tier_of tiers new))) [
      | inl e ↦ rw e (λ h. cc, λ (_, h, _). cc)
      | inr e ↦ rw e (λ h. (refl, refl, h), λ (_, _, h). h)
    ]

-- The button does exactly one of these, while no request is under way and the chosen tier has room for
-- the reservations of the account: without an account it leads to the signup; with one, where another
-- tier or interval is chosen than the account has, it creates a subscription if the account has no tier,
-- changes the subscription if it has one and a tier is chosen, and cancels it if none is chosen. In
-- every other case it does nothing.
pub submit_action_lem :
    (account : Option Profile) (tiers : List Tier) (new : Option String) (interval : String)
    (loading : Bool) (t : Tier) (a : Action)
    → IsChosen tiers new t
    → ((submit_action account tiers new interval loading).0 ≡ some a)
      ↔ ((loading ≡ false) × HasRoom account t × Fits account new interval a)
submit_action_lem account tiers new interval loading t a c =
    let (decides, decided) = submit_action-cases account tiers new interval loading a in
    let (fits, offers) = choice-Fits account new interval a in
    let (room, within) = room_iff (reservations_of account) t in
    let chosen = tier_of-chosen tiers new t c in
    (
      λ h. let (idle, e, e') = decides h in (idle, room (rw chosen at e), fits e'),
      λ (idle, r, f). decided (idle, rw chosen (within r), offers f),
    )
