-- ===== src/Util/Auth.antt =====
-- The authorization headers of web/src/app/utils.js. The package js-base64 is a parameter.
pub mod Laws
use Prim.Native.String.{◌++◌}
use ntfy.Base.{String, Option, none, some, truthy}
use ntfy.Base.Dict.{Object, assign}
use ntfy.Model.{User}

pub record Base64 : Type 0 where
  pub encode : String → String
  pub encode_uri : String → String

abbrev pub Headers : Type 0
Headers = Object String

unfoldable pub bearer_auth : String → String
bearer_auth token = "Bearer " ++ token

unfoldable pub with_bearer_auth : Headers → String → Headers
unfolding assign
with_bearer_auth headers token = assign headers "Authorization" (bearer_auth token)

unfoldable pub maybe_with_bearer_auth : Headers → Option String → Headers
maybe_with_bearer_auth headers token = elim (truthy token) [
  | some t ↦ with_bearer_auth headers t
  | none ↦ headers
]

module _ (base64 : Base64) where
  unfoldable pub encode_base64 : String → String
  encode_base64 s = base64.encode s

  unfoldable pub encode_base64_url : String → String
  encode_base64_url s = base64.encode_uri s

  unfoldable pub basic_auth : String → String → String
  basic_auth username password = "Basic " ++ encode_base64 (username ++ (":" ++ password))

  unfoldable pub with_basic_auth : Headers → String → String → Headers
  unfolding assign
  with_basic_auth headers username password =
      assign headers "Authorization" (basic_auth username password)

  -- `user?.password` and `user?.token`; `username` is read only where there is a user.
  unfoldable pub maybe_with_auth : Headers → Option User → Headers
  maybe_with_auth headers none = headers
  maybe_with_auth headers (some u) = elim (truthy u.password) [
    | some password ↦ with_basic_auth headers u.username password
    | none ↦ elim (truthy u.token) [ some token ↦ with_bearer_auth headers token | none ↦ headers ]
  ]
