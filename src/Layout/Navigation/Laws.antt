-- ===== src/Layout/Navigation/Laws.antt =====
-- The order of the subscriptions in the navigation, and when an alert is shown.
use mathlib.Core.List.{Perm}
use ntfy.Base.{
  ℕ, ◌≡◌, true, false, not, ◌⊎◌, inl, inr, List, [], ◌∷◌, filter, length, ltb, if◌then◌else◌, arith,
  All,
}
use ntfy.Base.Sort.{sort-perm, IsSorted, IsAntisymmetric, sort-IsSorted}
use ntfy.Base.Order.{text_lt_asym, text_lt_trans}
use ntfy.Model.{Config, Subscription}
use ntfy.Util.Url.{topic_url}
use ntfy.Notifier.{
  Browser, supported, granted, not_requested, denied, ios_supported_but_install_required,
}
use ntfy.Layout.Navigation.{
  alerts, alert_visible, browser_not_supported_box, by_topic_url, sorted_subscriptions,
}

never_both : (xs : List (Subscription × ℕ)) → IsAntisymmetric by_topic_url xs
never_both [] = tt
never_both (x ∷ xs) = (against xs, never_both xs)
  where
    against :
        (ys : List (Subscription × ℕ))
        → All (λ y. by_topic_url y x ≡ true → by_topic_url x y ≡ false) ys
    against [] = tt
    against (y ∷ ys) = (
      text_lt_asym (topic_url y.0.base_url y.0.topic) (topic_url x.0.base_url x.0.topic),
      against ys,
    )

-- The navigation has every subscription that is not internal, once for each time that it is given,
-- and these in the order of their topic URLs.
pub sorted_subscriptions_lem :
    (subscriptions : List (Subscription × ℕ))
    → Perm (sorted_subscriptions subscriptions) (filter (λ s. not s.0.internal) subscriptions)
      × IsSorted by_topic_url (sorted_subscriptions subscriptions)
unfolding sorted_subscriptions
sorted_subscriptions_lem subscriptions =
    let listed = filter (λ (s : Subscription × ℕ). not s.0.internal) subscriptions in
    (
      sort-perm by_topic_url listed,
      sort-IsSorted by_topic_url listed
          (λ x y z.
            text_lt_trans (topic_url x.0.base_url x.0.topic) (topic_url y.0.base_url y.0.topic)
              (topic_url z.0.base_url z.0.topic))
          (never_both listed),
    )

-- The permission has one of its three values.
abbrev pub IsPermission : Browser → Type 0
IsPermission b =
    (b.permission ≡ "default") ⊎ ((b.permission ≡ "denied") ⊎ (b.permission ≡ "granted"))

-- The divider below the alerts is there exactly if there is an alert.
pub alert_visible_lem :
    (config : Config) (b : Browser) → alert_visible config b ≡ ltb 0 (length (alerts config b))
unfolding alert_visible alerts browser_not_supported_box
alert_visible_lem config b = ground arith

-- Unless the app has to be installed first, no alert is shown where notifications are granted, and
-- exactly one where they are not.
pub alerts-granted :
    (config : Config) (b : Browser)
    → IsPermission b
    → ios_supported_but_install_required config b ≡ false
    → length (alerts config b) ≡ (if granted b then 0 else 1)
unfolding alerts browser_not_supported_box granted not_requested denied supported
alerts-granted config b (inl e) h = rw (e, h) (ground arith)
alerts-granted config b (inr (inl e)) h = rw (e, h) (ground arith)
alerts-granted config b (inr (inr e)) h = rw (e, h) (ground arith)
