-- ===== src/Layout/Routes.antt =====
-- The routes of web/src/components/routes.js and App.jsx for a subscription, and the parameters with
-- which React Router matches them. It is taken to match a path with a pattern only where the path is the
-- pattern with the parameters in it; whether it does so, or finds a fixed route, is left open.
use Prim.Native.String.{[], ◌∷◌, ◌++◌}
use text.Mathlib.TextLemmas.{tail-eq_of_cons-eq, cons-ne-nil}
use ntfy.Base.{
  String, ◌≡◌, refl, sym, ◌∙◌, ap, Bool, true, Option, none, some, ◌==◌, if◌then◌else◌, Bool-cases,
  inl, inr,
}
use ntfy.Base.Text.{prepend, append-eq-prepend}
use ntfy.Model.{Config, Subscription}
use ntfy.Util.Url.{short_url}
use ntfy.Util.Topic.{valid_topic}
use ntfy.Util.Topic.Laws.{slash_free, split_unique, valid_topic-slash_free}
use ntfy.Dialogs.Popup.{for_subscription}
use ntfy.Layout.{Params}

-- The path that the patterns `/:topic` and `/:baseUrl/:topic` give with these parameters
abbrev pub path_of : Option String → String → String
path_of none topic = "/" ++ topic
path_of (some base_url) topic = "/" ++ (base_url ++ ("/" ++ topic))

abbrev pub is_segment : Option String → Bool
is_segment none = true
is_segment (some s) = slash_free s

-- React Router has matched a path with one of the two patterns: the path is the pattern with the
-- parameters in place of its segments, none of which has a slash.
pub record Matches (path : String) (params : Params) : Type 0 where
  pub name : String
  pub with_topic : params.topic ≡ some name
  pub spelled : path_of params.base_url name ≡ path
  pub topic_segment : slash_free name ≡ true
  pub base_url_segment : is_segment params.base_url ≡ true

-- The parameters that turn out to be matched
abbrev pub route_params : Config → Subscription → Params
route_params config s = record {
  base_url = if s.base_url == config.base_url then none else some (short_url s.base_url);
  topic = some s.topic;
}

path-prepend : (b t : String) → "/" ++ (b ++ ("/" ++ t)) ≡ prepend ("/" ∷ b) ("/" ∷ t)
path-prepend b t =
    append-eq-prepend "/" (b ++ ("/" ++ t))
    ∙ ap (λ s. "/" ∷ s) (append-eq-prepend b ("/" ++ t) ∙ ap (prepend b) (append-eq-prepend "/" t))

short_path : (t : String) → "/" ++ t ≡ prepend [] ("/" ∷ t)
short_path t = append-eq-prepend "/" t

-- A path tells its server and its topic.
path_unique :
    (b b' : Option String) (t t' : String)
    → slash_free t ≡ true
    → slash_free t' ≡ true
    → path_of b t ≡ path_of b' t'
    → (b ≡ b') × (t ≡ t')
path_unique Option.none Option.none t t' h h' e =
    (refl, (split_unique [] [] t t' h h' (sym (short_path t) ∙ e ∙ short_path t')).1)
path_unique Option.none (some b') t t' h h' e =
    let same = split_unique [] ("/" ∷ b') t t' h h' (sym (short_path t) ∙ e ∙ path-prepend b' t') in
    absurd (cons-ne-nil "/" b' (sym same.0))
path_unique (some b) Option.none t t' h h' e =
    let same = split_unique ("/" ∷ b) [] t t' h h' (sym (path-prepend b t) ∙ e ∙ short_path t') in
    absurd (cons-ne-nil "/" b same.0)
path_unique (some b) (some b') t t' h h' e =
    let (same, topics) =
      split_unique ("/" ∷ b) ("/" ∷ b') t t' h h'
        (sym (path-prepend b t) ∙ e ∙ path-prepend b' t') in
    (ap some (tail-eq_of_cons-eq same), topics)

route_lem :
    (config : Config) (s : Subscription)
    → path_of (route_params config s).base_url s.topic ≡ for_subscription config s
unfolding for_subscription
route_lem config s = elim (Bool-cases (s.base_url == config.base_url)) [
  | inl e ↦ rw e refl
  | inr e ↦ rw e refl
]

pub matched :
    (config : Config) (s : Subscription) (params : Params)
    → valid_topic config s.topic ≡ true
    → Matches (for_subscription config s) params
    → route_params config s ≡ params
matched config s params valid m =
    let (base_urls, topics) =
      path_unique params.base_url (route_params config s).base_url m.name s.topic m.topic_segment
        (valid_topic-slash_free config s.topic valid) (m.spelled ∙ sym (route_lem config s)) in
    let named : some s.topic ≡ params.topic = ap some (sym topics) ∙ sym m.with_topic in
    let with_base_url : route_params config s
        ≡ record (route_params config s) { base_url = params.base_url } =
      ap (λ b. record (route_params config s) { base_url = b }) (sym base_urls) in
    with_base_url ∙ ap (λ t. record { base_url = params.base_url; topic = t }) named
