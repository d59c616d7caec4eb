-- ===== src/Account.antt =====
-- The requests of web/src/app/AccountApi.js, as values, and the URLs of utils.js that they go to. The
-- token is the session's; one that is not there is written as JavaScript writes null.
pub mod Calls
pub mod Sync
pub mod Laws
mod Tests
use Prim.Native.String.{◌++◌}
use ntfy.Base.{
  ℕ, ◌+◌, ◌/◌, String, Bool, Option, none, some, List, [], ◌∷◌, ltb, get_or, if◌then◌else◌,
}
use ntfy.Base.Dict.{Object, assign}
use ntfy.Util.Auth.{Base64, Headers, with_bearer_auth, with_basic_auth, maybe_with_bearer_auth}

mutual
  pub data Json : Type 0 where
    text : String → Json
    number : ℕ → Json
    flag : Bool → Json
    array : List String → Json
    object : Fields → Json

  pub data Fields : Type 0 where
    no_fields : Fields
    field : String → Json → Fields → Fields

pub data Method : Type 0 where
  get post put patch delete : Method

pub record Request : Type 0 where
  pub method : Method
  pub url : String
  pub headers : Headers
  pub body : Option (Object Json)

unfoldable pub account_url : String → String
account_url base_url = base_url ++ "/v1/account"

unfoldable pub account_password_url : String → String
account_password_url base_url = base_url ++ "/v1/account/password"

unfoldable pub account_token_url : String → String
account_token_url base_url = base_url ++ "/v1/account/token"

unfoldable pub account_settings_url : String → String
account_settings_url base_url = base_url ++ "/v1/account/settings"

unfoldable pub account_subscription_url : String → String
account_subscription_url base_url = base_url ++ "/v1/account/subscription"

unfoldable pub account_reservation_url : String → String
account_reservation_url base_url = base_url ++ "/v1/account/reservation"

unfoldable pub account_reservation_single_url : String → String → String
account_reservation_single_url base_url topic = base_url ++ ("/v1/account/reservation/" ++ topic)

unfoldable pub account_billing_subscription_url : String → String
account_billing_subscription_url base_url = base_url ++ "/v1/account/billing/subscription"

unfoldable pub account_billing_portal_url : String → String
account_billing_portal_url base_url = base_url ++ "/v1/account/billing/portal"

unfoldable pub account_phone_url : String → String
account_phone_url base_url = base_url ++ "/v1/account/phone"

unfoldable pub account_phone_verify_url : String → String
account_phone_verify_url base_url = base_url ++ "/v1/account/phone/verify"

unfoldable pub tiers_url : String → String
tiers_url base_url = base_url ++ "/v1/tiers"

-- { ...entries, ...changes }
unfoldable pub spread : Object Json → Object Json → Object Json
unfolding assign
spread entries [] = entries
spread entries ((name, value) ∷ changes) = spread (assign entries name value) changes

-- Math.floor(Date.now() / 1000) + expires
abbrev pub expiry : ℕ → ℕ → ℕ
expiry now_millis expires = now_millis / 1000 + expires
