-- ===== src/Dialogs/Popup/TestMessage/Laws.antt =====
-- Whatever is drawn, the test message is one that the server accepts.
use ntfy.Base.{
  ℕ, ◌≤◌, ◌≡◌, refl, ◌∙◌, Bool, true, false, not, ◌&&◌, List, [], ◌∷◌, any, contains, get_elem_or,
  take, leb, length, zero, suc, arith,
}
use ntfy.Base.Perm.{any-perm}
use ntfy.Util.Shuffle.{shuffle, shuffle-perm}
use ntfy.Model.{Subscription}
use ntfy.Dialogs.Popup.{Features, show_reservation_add, show_reservation_add_disabled}
use ntfy.Base.{Option, none, some, is_some}
use ntfy.Dialogs.Popup.TestMessage.{
  Allowance, reserve_limit_chip, Draws, tags, priorities, titles, first_of, test_tags,
}

-- The first of a list has what no member lacks.
first-holds {ℓ} :
    {A : Type ℓ} (p : A → Bool) (xs : List A) (default : A)
    → any (λ _. true) xs ≡ true
    → any (λ x. not (p x)) xs ≡ false
    → p (get_elem_or xs 0 default) ≡ true
first-holds p [] default e h = cc
first-holds p (x ∷ xs) default e h = ground arith

first_of-holds {ℓ} :
    {A : Type ℓ} (p : A → Bool) (pick : ℕ → ℕ) (xs : List A) (default : A)
    → any (λ _. true) xs ≡ true
    → any (λ x. not (p x)) xs ≡ false
    → p (first_of pick xs default) ≡ true
unfolding first_of
first_of-holds p pick xs default e h =
    first-holds p (shuffle pick xs) default (any-perm (λ _. true) (shuffle-perm pick xs) ∙ e)
      (any-perm (λ x. not (p x)) (shuffle-perm pick xs) ∙ h)

any-take {ℓ} :
    {A : Type ℓ} (p : A → Bool) (n : ℕ) (xs : List A) → any p xs ≡ false → any p (take n xs) ≡ false
any-take p zero xs h = refl
any-take p (suc n) [] h = refl
any-take p (suc n) (x ∷ xs) h = let rest = any-take p n xs in ground (arith, rest)

length-take : {A : Type 0} (n : ℕ) (xs : List A) → length (take n xs) ≤ n
length-take zero xs = omega arith
length-take (suc n) [] = omega arith
length-take (suc n) (x ∷ xs) = let rest = length-take n xs in omega (arith, rest)

-- Whatever is drawn: the priority of the test message is from 1 to 5, its title is one of the titles, and
-- it has at most as many tags as are drawn, all of them from the list.
pub test_options_lem :
    (draws : Draws)
    → (leb 1 (first_of draws.of_priorities priorities 3)
          && leb (first_of draws.of_priorities priorities 3) 5
        ≡ true)
      × (contains titles (first_of draws.of_titles titles "") ≡ true)
      × (length (test_tags draws) ≤ draws.tag_count)
      × (any (λ t. not (contains tags t)) (test_tags draws) ≡ false)
unfolding test_tags
test_options_lem draws = (
  first_of-holds (λ n. leb 1 n && leb n 5) draws.of_priorities priorities 3 refl refl,
  first_of-holds (λ t. contains titles t) draws.of_titles titles "" refl refl,
  length-take draws.tag_count (shuffle draws.of_tags tags),
  any-take (λ t. not (contains tags t)) draws.tag_count (shuffle draws.of_tags tags)
      (any-perm (λ t. not (contains tags t)) (shuffle-perm draws.of_tags tags) ∙ refl),
)

abbrev pub is_admin_of : Option Allowance → Bool
is_admin_of none = false
is_admin_of (some a) = a.is_admin

abbrev pub remaining_of : Option Allowance → Option ℕ
remaining_of none = none
remaining_of (some a) = some a.remaining

-- Where the menu has the entry for a reservation that cannot be chosen, it says why, unless the account
-- is an administrator's.
pub reserve_limit_chip-show_reservation_add_disabled :
    (features : Features) (s : Subscription) (account : Option Allowance)
    → is_admin_of account ≡ false
    → show_reservation_add_disabled features s (remaining_of account) ≡ true
    → is_some (reserve_limit_chip features account) ≡ true
unfolding show_reservation_add_disabled show_reservation_add reserve_limit_chip
reserve_limit_chip-show_reservation_add_disabled features s none e h = ground arith
reserve_limit_chip-show_reservation_add_disabled features s (some a) e h = ground arith
