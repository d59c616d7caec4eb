-- ===== src/Account/Laws.antt =====
-- The authorization of the requests.
use ntfy.Base.{ℕ, String, ◌≡◌, Bool, some, get_or, if◌then◌else◌, [], ◌∷◌}
use ntfy.Base.Dict.{Object, property, property-assign}
use ntfy.Util.Auth.{Headers, bearer_auth, with_bearer_auth}
use ntfy.Account.{Json, Method, Request}
use ntfy.Account.Calls.{
  Context, with_session, send, logout, delete_account, change_password, create_token, update_token,
  extend_token, delete_token, update_settings, add_subscription, update_subscription,
  delete_subscription, upsert_reservation, delete_reservation, upsert_billing_subscription,
  delete_billing_subscription, create_billing_portal_session, verify_phone_number, add_phone_number,
  delete_phone_number,
}

-- The calls that are made for the account of the session.
pub data Call : Type 0 where
  log_out extending_token cancelling_billing opening_billing_portal : Call
  deleting_account : String → Call
  changing_password : String → String → Call
  creating_token : ℕ → String → ℕ → Call
  updating_token : ℕ → String → String → ℕ → Call
  deleting_token : String → Call
  updating_settings : Object Json → Call
  adding_subscription deleting_subscription : String → String → Call
  updating_subscription : String → String → Object Json → Call
  upserting_reservation : String → String → Call
  deleting_reservation : String → Bool → Call
  upserting_billing : Method → String → String → Call
  verifying_phone adding_phone : String → String → Call
  deleting_phone : String → Call

abbrev pub request_of : Context → Call → Request
request_of c log_out = logout c
request_of c extending_token = extend_token c
request_of c cancelling_billing = delete_billing_subscription c
request_of c opening_billing_portal = create_billing_portal_session c
request_of c (deleting_account password) = delete_account c password
request_of c (changing_password old new) = change_password c old new
request_of c (creating_token now label expires) = create_token c now label expires
request_of c (updating_token now token label expires) = update_token c now token label expires
request_of c (deleting_token token) = delete_token c token
request_of c (updating_settings payload) = update_settings c payload
request_of c (adding_subscription base_url topic) = add_subscription c base_url topic
request_of c (deleting_subscription base_url topic) = delete_subscription c base_url topic
request_of c (updating_subscription base_url topic payload) =
    update_subscription c base_url topic payload
request_of c (upserting_reservation topic everyone) = upsert_reservation c topic everyone
request_of c (deleting_reservation topic messages) = delete_reservation c topic messages
request_of c (upserting_billing method tier interval) =
    upsert_billing_subscription c method tier interval
request_of c (verifying_phone phone channel) = verify_phone_number c phone channel
request_of c (adding_phone phone code) = add_phone_number c phone code
request_of c (deleting_phone phone) = delete_phone_number c phone

property-with_session :
    (c : Context) (headers : Headers)
    → property (with_session c headers) "Authorization" ≡ some (bearer_auth (get_or c.token "null"))
unfolding with_session with_bearer_auth
property-with_session c headers =
    property-assign headers "Authorization" "Authorization" (bearer_auth (get_or c.token "null"))

-- Every request for the account of the session is authorized by the token of the session, whatever other
-- headers it has.
pub property-request_of :
    (c : Context) (call : Call)
    → property (request_of c call).headers "Authorization"
      ≡ some (bearer_auth (get_or c.token "null"))
unfolding send logout extend_token delete_billing_subscription create_billing_portal_session
    delete_account change_password create_token update_token delete_token update_settings
    add_subscription delete_subscription update_subscription upsert_reservation delete_reservation
    upsert_billing_subscription verify_phone_number add_phone_number delete_phone_number
property-request_of c log_out = property-with_session c []
property-request_of c extending_token = property-with_session c []
property-request_of c cancelling_billing = property-with_session c []
property-request_of c opening_billing_portal = property-with_session c []
property-request_of c (deleting_account _) = property-with_session c []
property-request_of c (changing_password _ _) = property-with_session c []
property-request_of c (creating_token _ _ _) = property-with_session c []
property-request_of c (updating_token _ _ _ _) = property-with_session c []
property-request_of c (deleting_token token) = property-with_session c (("X-Token", token) ∷ [])
property-request_of c (updating_settings _) = property-with_session c []
property-request_of c (adding_subscription _ _) = property-with_session c []
property-request_of c (deleting_subscription base_url topic) =
    property-with_session c (("X-BaseURL", base_url) ∷ ("X-Topic", topic) ∷ [])
property-request_of c (updating_subscription _ _ _) = property-with_session c []
property-request_of c (upserting_reservation _ _) = property-with_session c []
property-request_of c (deleting_reservation _ messages) =
    property-with_session c (("X-Delete-Messages", if messages then "true" else "false") ∷ [])
property-request_of c (upserting_billing _ _ _) = property-with_session c []
property-request_of c (verifying_phone _ _) = property-with_session c []
property-request_of c (adding_phone _ _) = property-with_session c []
property-request_of c (deleting_phone _) = property-with_session c []
