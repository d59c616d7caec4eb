-- ===== src/Errors.antt =====
-- web/src/app/errors.js. A response is its status and the JSON of its body, if the body is JSON.
pub mod Laws
pub mod Boundary
mod Tests
use Prim.Native.String.{◌++◌}
use ntfy.Base.{ℕ, String, Bool, ◌||◌, Option, none, some, eqb, truthy, truthy_number, if◌then◌else◌}
use ntfy.Base.Decimal.{to_string}

pub record ErrorBody : Type 0 where
  pub code : Option ℕ
  pub error : Option String

pub record Response : Type 0 where
  pub status : ℕ
  pub error_body : Option ErrorBody

-- The errors that are thrown; `other` is a plain `Error` with its message.
pub data AppError : Type 0 where
  unauthorized user_exists topic_reserved account_create_limit_reached incorrect_password : AppError
  other : String → AppError

abbrev pub unexpected : Response → AppError
unexpected r = other ("Unexpected response " ++ to_string r.status)

abbrev pub described : Response → ℕ → Option String → AppError
described r code none = unexpected r
described r code (some message) = other ("Error " ++ (to_string code ++ (": " ++ message)))

abbrev pub app_error : Response → ℕ → Option String → AppError
app_error r code error =
    if eqb code 40901
    then user_exists
    else if eqb code 40902
    then topic_reserved
    else if eqb code 42906
    then account_create_limit_reached
    else if eqb code 40026
    then incorrect_password
    else described r code (truthy error)

-- `error?.code` is true only for a code that is there and not 0.
abbrev pub code_of : Option ErrorBody → Option (ℕ × Option String)
code_of none = none
code_of (some body) = elim (truthy_number body.code) [ none ↦ none | some c ↦ some (c, body.error) ]

abbrev pub error_of : Response → Option (ℕ × Option String) → AppError
error_of r none = unexpected r
error_of r (some (code, error)) = app_error r code error

-- The error that `throwAppError` throws.
unfoldable pub throw_app_error : Response → AppError
unfolding to_string
throw_app_error r =
    if eqb r.status 401 || eqb r.status 403 then unauthorized else error_of r (code_of r.error_body)

pub data Result {ℓ} (A : Type ℓ) : Type ℓ where
  ok : A → Result A
  err : AppError → Result A

-- `fetchOrThrow`, on the response that `fetch` gave.
unfoldable pub fetch_or_throw : Response → Result Response
unfolding throw_app_error
fetch_or_throw r = if eqb r.status 200 then ok r else err (throw_app_error r)
