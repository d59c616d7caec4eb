-- ===== src/Account/Calls.antt =====
-- One function for each method of AccountApi that sends a request.
use ntfy.Base.{ℕ, String, Bool, Option, none, some, [], ◌∷◌, ltb, get_or, if◌then◌else◌}
use ntfy.Base.Dict.{Object}
use ntfy.Util.Auth.{Base64, Headers, with_bearer_auth, with_basic_auth, maybe_with_bearer_auth}
use ntfy.Account.{
  Json, text, number, Method, get, post, put, patch, delete, Request, account_url,
  account_password_url, account_token_url, account_settings_url, account_subscription_url,
  account_reservation_url, account_reservation_single_url, account_billing_subscription_url,
  account_billing_portal_url, account_phone_url, account_phone_verify_url, tiers_url, spread,
  expiry,
}

-- The server of the app, the token of the session, and the package js-base64.
pub record Context : Type 0 where
  pub base_url : String
  pub token : Option String
  pub base64 : Base64

unfoldable pub with_session : Context → Headers → Headers
unfolding with_bearer_auth
with_session c headers = with_bearer_auth headers (get_or c.token "null")

abbrev request : Method → String → Headers → Option (Object Json) → Request
request method url headers body = record {
  method = method;
  url = url;
  headers = headers;
  body = body;
}

module _ (c : Context) where
  -- A request with the token of the session and no other headers.
  unfoldable pub send : Method → String → Option (Object Json) → Request
  unfolding with_session
  send method url body = request method url (with_session c []) body

  unfoldable pub login : String → String → Request
  unfolding account_token_url with_basic_auth
  login username password =
      request post (account_token_url c.base_url) (with_basic_auth c.base64 [] username password)
        none

  unfoldable pub logout : Request
  unfolding account_token_url send
  logout = send delete (account_token_url c.base_url) none

  unfoldable pub create : String → String → Request
  unfolding account_url
  create username password =
      request post (account_url c.base_url) []
        (some (("username", text username) ∷ ("password", text password) ∷ []))

  unfoldable pub get_account : Request
  unfolding account_url maybe_with_bearer_auth
  get_account = request get (account_url c.base_url) (maybe_with_bearer_auth [] c.token) none

  unfoldable pub delete_account : String → Request
  unfolding account_url send
  delete_account password =
      send delete (account_url c.base_url) (some (("password", text password) ∷ []))

  unfoldable pub change_password : String → String → Request
  unfolding account_password_url send
  change_password current_password new_password =
      send post (account_password_url c.base_url)
        (some (("password", text current_password) ∷ ("new_password", text new_password) ∷ []))

  unfoldable pub create_token : ℕ → String → ℕ → Request
  unfolding account_token_url send
  create_token now_millis label expires = send post (account_token_url c.base_url) (
      some (
        ("label", text label)
        ∷ ("expires", number (if ltb 0 expires then expiry now_millis expires else 0))
        ∷ []))

  unfoldable pub update_token : ℕ → String → String → ℕ → Request
  unfolding account_token_url send
  update_token now_millis token label expires = send patch (account_token_url c.base_url) (
      some (
        ("token", text token)
        ∷ ("label", text label)
        ∷ (if ltb 0 expires then ("expires", number (expiry now_millis expires)) ∷ [] else [])))

  unfoldable pub extend_token : Request
  unfolding account_token_url send
  extend_token = send patch (account_token_url c.base_url) none

  unfoldable pub delete_token : String → Request
  unfolding account_token_url with_session
  delete_token token =
      request delete (account_token_url c.base_url) (with_session c (("X-Token", token) ∷ [])) none

  unfoldable pub update_settings : Object Json → Request
  unfolding account_settings_url send
  update_settings payload = send patch (account_settings_url c.base_url) (some payload)

  unfoldable pub add_subscription : String → String → Request
  unfolding account_subscription_url send
  add_subscription base_url topic =
      send post (account_subscription_url c.base_url)
        (some (("base_url", text base_url) ∷ ("topic", text topic) ∷ []))

  unfoldable pub update_subscription : String → String → Object Json → Request
  unfolding account_subscription_url send spread
  update_subscription base_url topic payload =
      send patch (account_subscription_url c.base_url)
        (some (spread (("base_url", text base_url) ∷ ("topic", text topic) ∷ []) payload))

  unfoldable pub delete_subscription : String → String → Request
  unfolding account_subscription_url with_session
  delete_subscription base_url topic =
      request delete (account_subscription_url c.base_url)
        (with_session c (("X-BaseURL", base_url) ∷ ("X-Topic", topic) ∷ [])) none

  unfoldable pub upsert_reservation : String → String → Request
  unfolding account_reservation_url send
  upsert_reservation topic everyone =
      send post (account_reservation_url c.base_url)
        (some (("topic", text topic) ∷ ("everyone", text everyone) ∷ []))

  unfoldable pub delete_reservation : String → Bool → Request
  unfolding account_reservation_single_url with_session
  delete_reservation topic delete_messages =
      request delete (account_reservation_single_url c.base_url topic)
        (with_session c (("X-Delete-Messages", if delete_messages then "true" else "false") ∷ []))
        none

  unfoldable pub billing_tiers : Request
  unfolding tiers_url
  billing_tiers = request get (tiers_url c.base_url) [] none

  unfoldable pub upsert_billing_subscription : Method → String → String → Request
  unfolding account_billing_subscription_url send
  upsert_billing_subscription method tier interval =
      send method (account_billing_subscription_url c.base_url)
        (some (("tier", text tier) ∷ ("interval", text interval) ∷ []))

  unfoldable pub delete_billing_subscription : Request
  unfolding account_billing_subscription_url send
  delete_billing_subscription = send delete (account_billing_subscription_url c.base_url) none

  unfoldable pub create_billing_portal_session : Request
  unfolding account_billing_portal_url send
  create_billing_portal_session = send post (account_billing_portal_url c.base_url) none

  unfoldable pub verify_phone_number : String → String → Request
  unfolding account_phone_verify_url send
  verify_phone_number phone_number channel =
      send put (account_phone_verify_url c.base_url)
        (some (("number", text phone_number) ∷ ("channel", text channel) ∷ []))

  unfoldable pub add_phone_number : String → String → Request
  unfolding account_phone_url send
  add_phone_number phone_number code =
      send put (account_phone_url c.base_url)
        (some (("number", text phone_number) ∷ ("code", text code) ∷ []))

  unfoldable pub delete_phone_number : String → Request
  unfolding account_phone_url send
  delete_phone_number phone_number =
      send delete (account_phone_url c.base_url) (some (("number", text phone_number) ∷ []))
