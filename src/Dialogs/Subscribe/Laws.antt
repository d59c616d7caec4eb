-- ===== src/Dialogs/Subscribe/Laws.antt =====
-- What subscribing leaves in the database, and when the dialog goes on.
use ntfy.Base.{
  ◌⊎◌, inl, inr, ◌≤◌, arith, eq_refl, ℕ, String, ◌≡◌, refl, ◌∙◌, ap, ◌≢◌, Bool, true, false, Option,
  none, some, ◌∷◌, is_some, ◌==◌, if◌then◌else◌,
}
use ntfy.Model.{Config, User, Permission, Subscription}
use ntfy.Database.{Dexie, Db, subscription}
use ntfy.Session.{session_of}
use ntfy.Errors.{topic_reserved, Result, ok, err}
use ntfy.Util.Auth.{Base64}
use ntfy.Util.Url.{topic_url}
use ntfy.Users
use ntfy.Subscriptions
use ntfy.Subscriptions.{Options, new_subscription}
use ntfy.Subscriptions.Sync.{or_else, get-add}
use ntfy.Api.{topic_auth, topic_auth_request}
use ntfy.Account.Calls
use ntfy.Page.{Page, Handler, ◌>>=◌, gets, unless_unauthorized, pure}
use ntfy.Page.Laws.{bind-ok}
use ntfy.Dialogs.Laws.{attempt_lem}
use ntfy.Dialogs.Subscribe.{
  Outcome, authorized, needs_login, not_authorized, reserved_by_other, authorization, authorized_or,
  wants_reservation, check_topic, refused, reserve, handle_subscribe, add_remotely, subscribe_topic,
}

module _ {d : Dexie} (config : Config) (base64 : Base64) where
  add_remotely_lem :
      (p : Page d) (exists : Bool) (base_url topic : String) (answer : Result (Unit {0}))
      → ((add_remotely config base64 exists base_url topic answer p).0 ≡ ok tt)
        × ((add_remotely config base64 exists base_url topic answer p).1.db ≡ p.db)
  unfolding add_remotely
  add_remotely_lem p true base_url topic answer =
      attempt_lem config base64 p (λ c. Calls.add_subscription c base_url topic) answer
  add_remotely_lem p false base_url topic answer = (refl, refl)

  module _ (p : Page d) (base_url topic : String) (opts : Options)
      (answer : Result (Unit {0})) where
    -- Whether there is a session or not, and whatever the server answers, the topic is subscribed to in
    -- the browser.
    pub subscribe_topic-add :
        ((subscribe_topic config base64 base_url topic opts answer p).0
          ≡ ok (Subscriptions.add d base_url topic opts p.db).1)
        × ((subscribe_topic config base64 base_url topic opts answer p).1.db
            ≡ (Subscriptions.add d base_url topic opts p.db).0)
    unfolding subscribe_topic
    subscribe_topic-add =
        let db' : Db d = (Subscriptions.add d base_url topic opts p.db).0 in
        let remotely : Handler d (Unit {0}) =
          add_remotely config base64 (is_some (session_of p.session)) base_url topic answer in
        let (e, e') =
          add_remotely_lem (record p { db = db' }) (is_some (session_of p.session)) base_url topic
            answer in
        let s : Subscription = (Subscriptions.add d base_url topic opts p.db).1 in
        rw (bind-ok remotely (λ _. pure s) (record p { db = db' }) tt e) (refl, e')

    -- Whether there is a session or not, and whatever the server answers: afterwards the topic is
    -- subscribed to in the browser, a subscription that was there has stayed as it was, and no other has
    -- come or gone.
    pub subscribe_topic-stored :
        (k : String)
        → subscription d (subscribe_topic config base64 base_url topic opts answer p).1.db k
          ≡ or_else (subscription d p.db k) (
              if topic_url base_url topic == k
              then some (new_subscription base_url topic opts)
              else none)
    subscribe_topic-stored k =
        ap (λ db. subscription d db k) subscribe_topic-add.1 ∙ get-add d base_url topic opts p.db k

  module _ (p : Page d) (base_url topic : String) (reserved : Bool) (everyone : Permission)
      (status : ℕ) (answer : Result (Unit {0})) where
    -- The rest of the handler, by what the status of the response says.
    abbrev decided : Option Bool → Result Outcome × Page d
    decided o =
        let user = Users.get d config p.session base_url p.db in
        let p' : Page d = record p {
          sent = topic_auth_request base64 base_url topic user ∷ p.sent;
        } in
        let check : Handler d Bool = λ q. (authorization status o, p') in
        (check >>= λ success. authorized_or config base64 user success (
            gets (wants_reservation config base64 base_url reserved) >>= λ wanted.
            reserve config base64 wanted topic everyone answer))
          p

    handle_subscribe-decided :
        {o : Option Bool}
        → topic_auth status ≡ o
        → handle_subscribe config base64 base_url topic reserved everyone status answer p
          ≡ decided o
    unfolding handle_subscribe check_topic
    handle_subscribe-decided e = ap decided e

    refused_differs : (u : Option User) → ok (refused u) ≢ ok authorized
    refused_differs none e = cc
    refused_differs (some u) e = cc

    goes_on : (o : Option Bool) → (decided o).0 ≡ ok authorized → o ≡ some true
    goes_on none h = cc
    goes_on (some false) h = absurd (refused_differs (Users.get d config p.session base_url p.db) h)
    goes_on (some true) h = refl

    -- The user of the server that is stored is not allowed to read the topic, or there is none.
    abbrev pub Refuses : Result Outcome → Type 0
    Refuses r =
        (Users.get d config p.session base_url p.db ≡ none → r ≡ ok needs_login)
        × ((u : User)
            → Users.get d config p.session base_url p.db ≡ some u
            → r ≡ ok (not_authorized u.username))

    refuses : Refuses (decided (some false)).0
    refuses = (λ e. rw e refl, λ u e. rw e refl)

    abbrev pub Wanted : Type 0
    Wanted =
        (is_some (session_of p.session) ≡ true) × (base_url ≡ config.base_url) × (reserved ≡ true)

    reserved_already :
        Wanted → answer ≡ err topic_reserved → (decided (some true)).0 ≡ ok reserved_by_other
    unfolding reserve unless_unauthorized
    reserved_already (session, own, wanted) e =
        let reserves : wants_reservation config base64 base_url reserved p ≡ true =
          ground (arith, session, own, wanted, eq_refl config.base_url) in
        rw (reserves, e) refl

    success : 200 ≤ status → status ≤ 299 → topic_auth status ≡ some true
    unfolding topic_auth
    success low high = ground arith

    success_only : topic_auth status ≡ some true → (200 ≤ status) × (status ≤ 299)
    unfolding topic_auth
    success_only h = (ground arith, ground arith)

    denied : (status ≡ 401) ⊎ (status ≡ 403) → topic_auth status ≡ some false
    unfolding topic_auth
    denied (inl e) = rw e refl
    denied (inr e) = rw e refl

    -- The dialog goes on to subscribe only if the server's answer has a status from 200 to 299. With 401
    -- or 403 it asks for a user where none is stored for the server, and else says which user is not
    -- authorized. With a status from 200 to 299 it does not go on either if there is a session, the
    -- topic of the own server is to be reserved, and it is reserved by another.
    pub handle_subscribe_lem :
        let r =
          (handle_subscribe config base64 base_url topic reserved everyone status answer p).0 in
        (r ≡ ok authorized → (200 ≤ status) × (status ≤ 299))
        × ((status ≡ 401) ⊎ (status ≡ 403) → Refuses r)
        × (200 ≤ status
            → status ≤ 299
            → Wanted
            → answer ≡ err topic_reserved
            → r ≡ ok reserved_by_other)
    handle_subscribe_lem = (
      λ h. success_only (goes_on (topic_auth status) (rw (handle_subscribe-decided refl) at h)),
      λ h. rw (handle_subscribe-decided (denied h)) refuses,
      λ low high w e. rw (handle_subscribe-decided (success low high)) (reserved_already w e),
    )
