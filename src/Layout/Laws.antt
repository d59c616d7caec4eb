-- ===== src/Layout/Laws.antt =====
-- A route leads back to the subscription that it was made for, and when it does not.
use ntfy.Base.{
  ℕ, String, ◌≡◌, refl, subst, true, false, some, List, ◌∷◌, ◌++◌, contains, ◌==◌, eq_iff, arith,
}
use ntfy.Model.{Config, Subscription}
use ntfy.Util.Url.{short_url, expand_url}
use ntfy.Dialogs.Popup.{for_subscription}
use ntfy.Util.Topic.{valid_topic}
use ntfy.Layout.Routes.{route_params, Matches, matched}
use ntfy.Layout.{Params, is_selected, selected}

-- The server is known by a host that is no URL itself, under https or http.
pub record HasHost (s : Subscription) (host : String) : Type 0 where
  pub host_given : (host == "") ≡ false
  pub short_host : short_url host ≡ host
  pub scheme_and_host : contains (expand_url host) s.base_url ≡ true

own_selected :
    (config : Config) (s t : Subscription)
    → t.base_url ≡ config.base_url
    → t.topic ≡ s.topic
    → is_selected config (route_params config s) t ≡ true
unfolding is_selected
own_selected config s t own same =
    ground (arith, eq_iff config.base_url t.base_url, eq_iff s.topic t.topic)

module _ (config : Config) (s : Subscription) (n : ℕ) (before after : List (Subscription × ℕ)) where
  -- A subscription of the app's own server whose topic has the same name is selected instead if it comes
  -- before, whatever server the route names.
  pub selected-own_server :
      (t : Subscription) (k : ℕ) (params : Params)
      → valid_topic config s.topic ≡ true
      → Matches (for_subscription config s) params
      → t.base_url ≡ config.base_url
      → t.topic ≡ s.topic
      → selected config params ((t, k) ∷ before ++ ((s, n) ∷ after)) ≡ some (t, k)
  unfolding selected
  selected-own_server t k params valid m own same =
      subst (λ q. selected config q ((t, k) ∷ before ++ ((s, n) ∷ after)) ≡ some (t, k))
        (matched config s params valid m) (rw (own_selected config s t own same) refl)
