-- ===== src/Delivery/WebPush.antt =====
-- `useWebPushListener` of web/src/components/hooks.js with `updateWebPushSubscriptions` of
-- SubscriptionManager.js: the server is told the topics of web push whenever they change. The runs of the
-- effect follow one another; a request that is refused leaves the server as it was. The browser may
-- forget its subscription in between, as when the permission is taken back; the server is not told.
use ntfy.Base.{
  String, ◌≡◌, Bool, true, false, not, ◌&&◌, Option, none, some, List, [], ◌∷◌, ◌==◌, if◌then◌else◌,
}
use ntfy.Model.{Config}
use ntfy.Notifier.{PushSubscription, existing, subscribe, undefined, web_push_subscription}

abbrev list_eq : List String → List String → Bool
list_eq [] [] = true
list_eq (x ∷ xs) (y ∷ ys) = x == y && list_eq xs ys
list_eq _ _ = false

abbrev bool_eq : Bool → Bool → Bool
bool_eq true b = b
bool_eq false b = not b

abbrev pub Update : Type 0
Update = List String × Bool

abbrev is_same : Option Update → Update → Bool
is_same none next = false
is_same (some (topics, possible)) (topics', possible') =
    list_eq topics topics' && bool_eq possible possible'

abbrev pub has_topics : List String → Bool
has_topics [] = false
has_topics (_ ∷ _) = true

-- The subscription of the browser, the topics that the server has for each, the last that it was told
-- first, and `prevUpdate`.
pub record WebPush (S : Type 0) : Type 0 where
  pub subscription : Option S
  pub server : List (S × List String)
  pub prev_update : Option Update

-- What the outside answers: whether there is a service worker, without which an error is thrown before
-- the subscription is read, the new subscription, if the browser gives one, and whether the server
-- accepts the request.
pub record Answers (S : Type 0) : Type 0 where
  pub registered : Bool
  pub created : Option S
  pub accepted : Bool

abbrev topics_of : Option Update → Option (List String)
topics_of none = none
topics_of (some u) = some u.0

module _ {S : Type 0} (config : Config) where
  -- `subscription` is what `webPushSubscription` gave, and true that no error was thrown.
  abbrev send : Bool → List String → S → WebPush S → WebPush S × Bool
  send accepted topics s w =
      if accepted
      then (record w { subscription = some s; server = (s, topics) ∷ w.server }, true)
      else (record w { subscription = some s }, false)

  abbrev with_subscription :
      Answers S → List String → PushSubscription S → WebPush S → WebPush S × Bool
  with_subscription a topics undefined w = (w, true)
  with_subscription a topics (existing s) w = send a.accepted topics s w
  with_subscription a topics (subscribe key) w = elim a.created [
    | none ↦ (w, false)
    | some s ↦ send a.accepted topics s w
  ]

  unfoldable pub update_web_push_subscriptions :
      Answers S → List String → WebPush S → WebPush S × Bool
  unfolding web_push_subscription
  update_web_push_subscriptions a topics w =
      if a.registered
      then with_subscription a topics
          (web_push_subscription config w.subscription (has_topics topics)) w
      else (w, false)

  abbrev remembered : Update → WebPush S × Bool → WebPush S
  remembered next (w, ok) = if ok then record w { prev_update = some next } else w

  -- The effect; `none`: the topics have not been read yet.
  unfoldable pub listen : Answers S → Option (List String) → Bool → WebPush S → WebPush S
  unfolding update_web_push_subscriptions
  listen a none push_possible w = w
  listen a (some topics) push_possible w =
      if is_same w.prev_update (topics, push_possible)
      then w
      else remembered (topics, push_possible) (update_web_push_subscriptions a topics w)

  -- The browser forgets the subscription.
  unfoldable pub forget : WebPush S → WebPush S
  forget w = record w { subscription = none }

  -- What comes of a browser in which nothing has been subscribed to.
  pub data Reach : WebPush S → Type 0 where
    start : Reach (record { subscription = none; server = []; prev_update = none })
    next :
        {w : WebPush S} (a : Answers S) (topics : Option (List String)) (push_possible : Bool)
        → Reach w
        → Reach (listen a topics push_possible w)
    forgets : {w : WebPush S} → Reach w → Reach (forget w)

  -- The topics that the server was told last
  abbrev pub told_last : List (S × List String) → Option (List String)
  told_last [] = none
  told_last (told ∷ _) = some told.1

  abbrev pub IsInStep : WebPush S → Type 0
  IsInStep w =
      (u : Update) → w.prev_update ≡ some u → has_topics u.0 ≡ true → told_last w.server ≡ some u.0
