-- ===== src/Dialogs/Subscribe.antt =====
-- web/src/components/SubscribeDialog.jsx: a topic is subscribed to, with a reservation or with a user of
-- its server where that is wanted.
pub mod Laws
mod Tests
use Prim.Native.String.{◌++◌}
use ntfy.Base.{
  ℕ, String, List, [], ◌∷◌, Bool, true, false, not, ◌&&◌, ◌||◌, Option, none, some, is_some,
  contains, filter, ltb, get_or, map, ◌==◌, truthy, if◌then◌else◌,
}
use ntfy.Base.Decimal.{to_string}
use ntfy.Model.{Config, User, Permission, Subscription}
use ntfy.Database.{Dexie, Db}
use ntfy.Session.{Session, session_of}
use ntfy.Errors.{AppError, unauthorized, topic_reserved, other, Result, ok, err}
use ntfy.Util.Auth.{Base64}
use ntfy.Util.Topic.{valid_topic}
use ntfy.Util.Url.{topic_url, valid_url}
use ntfy.Users
use ntfy.Subscriptions
use ntfy.Subscriptions.{Options}
use ntfy.Api.{topic_auth, topic_auth_request}
use ntfy.Account.Calls
use ntfy.Profile.{Profile}
use ntfy.Page.{
  Page, Handler, pure, ◌>>=◌, ◌>>◌, catch, modify, gets, on_db, set_error, unless_unauthorized,
  call,
}
use ntfy.Dialogs.{attempt}
use ntfy.Dialogs.Reservations.{permission_text}

abbrev pub no_options : Options
no_options = record { internal = false; display_name = none; reservation = none }

-- What the dialog goes on with: with the subscription, with the page for a user of the server, or with an
-- error that is shown.
pub data Outcome : Type 0 where
  authorized needs_login reserved_by_other : Outcome
  not_authorized : String → Outcome

abbrev pub refused : Option User → Outcome
refused none = needs_login
refused (some user) = not_authorized user.username

abbrev pub authorization : ℕ → Option Bool → Result Bool
authorization status none = err (other ("Unexpected server response " ++ to_string status))
authorization status (some b) = ok b

module _ {d : Dexie} (config : Config) (base64 : Base64) where
  -- `api.topicAuth`, with the status of the response
  abbrev pub check_topic : String → String → Option User → ℕ → Handler d Bool
  unfolding topic_auth topic_auth_request to_string
  check_topic base_url topic user status p = (
    authorization status (topic_auth status),
    record p { sent = topic_auth_request base64 base_url topic user ∷ p.sent },
  )

  abbrev pub wants_reservation : String → Bool → Page d → Bool
  wants_reservation base_url reserve p =
      is_some (session_of p.session) && base_url == config.base_url && reserve

  -- An error other than these two is not shown.
  abbrev pub reservation_error : AppError → Handler d Outcome
  reservation_error topic_reserved = pure reserved_by_other
  reservation_error _ = pure authorized

  unfoldable pub reserve : Bool → String → Permission → Result (Unit {0}) → Handler d Outcome
  unfolding unless_unauthorized Calls.upsert_reservation
  reserve false topic everyone answer = pure authorized
  reserve true topic everyone answer =
      catch
        (do
          call config base64 (λ c. Calls.upsert_reservation c topic (permission_text everyone))
              answer
          pure authorized)
        (unless_unauthorized authorized reservation_error)

  abbrev pub authorized_or : Option User → Bool → Handler d Outcome → Handler d Outcome
  authorized_or user success next = if success then next else pure (refused user)

  unfoldable pub handle_subscribe :
      String → String → Bool → Permission → ℕ → Result (Unit {0}) → Handler d Outcome
  unfolding Users.get session_of reserve
  handle_subscribe base_url topic reserved everyone status answer = do
    user ← gets (λ p. Users.get d config p.session base_url p.db)
    success ← check_topic base_url topic user status
    authorized_or user success (do
      wanted ← gets (wants_reservation base_url reserved)
      reserve wanted topic everyone answer)

  -- The page for a user of the server.
  unfoldable pub handle_login : String → String → User → ℕ → Handler d Outcome
  unfolding Users.save
  handle_login base_url topic user status = do
    success ← check_topic base_url topic (some user) status
    authorized_or (some user) success (do
      modify (λ p. record p { db = Users.save d config p.session user p.db })
      pure authorized)

  unfoldable pub add_remotely : Bool → String → String → Result (Unit {0}) → Handler d (Unit {0})
  unfolding attempt Calls.add_subscription
  add_remotely exists base_url topic answer =
      if exists
      then attempt config base64 (λ c. Calls.add_subscription c base_url topic) answer
      else pure tt

  unfoldable pub subscribe_topic :
      String → String → Options → Result (Unit {0}) → Handler d Subscription
  unfolding Subscriptions.add session_of add_remotely
  subscribe_topic base_url topic opts answer = do
    subscription ← λ p.
        let (db', s) = Subscriptions.add d base_url topic opts p.db in (ok s, record p { db = db' })
    exists ← gets (λ p. is_some (session_of p.session))
    add_remotely exists base_url topic answer
    pure subscription

  -- `handleSuccess`; the poll in the background and `onSuccess` get the subscription.
  unfoldable pub handle_success : String → String → Result (Unit {0}) → Handler d Subscription
  unfolding subscribe_topic
  handle_success base_url topic answer =
      subscribe_topic (get_or (truthy (some base_url)) config.base_url) topic no_options answer

-- What the page of the dialog offers. With another server chosen, its URL is that of the field.
unfoldable pub chosen_base_url : Config → Bool → String → String
chosen_base_url config another_server base_url =
    if another_server then base_url else config.base_url

abbrev pub existing_topic_urls : List Subscription → List String
unfolding topic_url
existing_topic_urls subscriptions =
    map (λ (s : Subscription). topic_url s.base_url s.topic) subscriptions

unfoldable pub subscribe_button_enabled : Config → List Subscription → Bool → String → String → Bool
unfolding valid_topic valid_url topic_url existing_topic_urls
subscribe_button_enabled config subscriptions another_server base_url topic =
    if another_server
    then valid_topic config topic
      && valid_url base_url
      && not (contains (existing_topic_urls subscriptions) (topic_url base_url topic))
    else valid_topic config topic
      && not (contains (existing_topic_urls subscriptions) (topic_url config.base_url topic))

-- new Set(…), as an array
unfoldable pub unique : List String → List String → List String
unique seen [] = []
unique seen (x ∷ xs) =
    let hit = contains seen x in
    let rest = unique (if hit then seen else x ∷ seen) xs in if hit then rest else x ∷ rest

unfoldable pub existing_base_urls : Config → List Subscription → List String
unfolding unique
existing_base_urls config subscriptions =
    filter (λ s. not (s == config.base_url))
      (unique [] ("https://ntfy.sh" ∷ map (λ (s : Subscription). s.base_url) subscriptions))

-- `handleUseAnotherChanged`: the URL is emptied.
unfoldable pub handle_use_another_changed : Bool → String × Bool
handle_use_another_changed checked = ("", checked)

abbrev may_reserve : Option Profile → Bool
may_reserve none = false
may_reserve (some account) =
    account.role == "admin" || account.role == "user" && ltb 0 account.reservations_remaining

unfoldable pub reserve_topic_enabled : Session → Option Profile → Bool
unfolding session_of
reserve_topic_enabled session account = is_some (session_of session) && may_reserve account

unfoldable pub show_reserve_topic_checkbox : Bool → Bool → Bool → Option Profile → Bool
show_reserve_topic_checkbox enable_reservations enable_payments another_server account =
    enable_reservations && not another_server && (enable_payments || is_some account)
