-- ===== src/Dialogs/Entry.antt =====
-- The forms of web/src/components/Login.jsx and Signup.jsx, with `login` of AccountApi.
pub mod Laws
mod Tests
use ntfy.Base.{String, Option, none, some, truthy}
use ntfy.Model.{Config}
use ntfy.Database.{Dexie}
use ntfy.Session
use ntfy.Errors.{AppError, other, Result, ok, err}
use ntfy.Util.Auth.{Base64}
use ntfy.Account.Calls
use ntfy.Page.{Handler, pure, ◌>>=◌, ◌>>◌, catch, modify, set_error, call}

-- `json.token` of the answer, which is an error when it is missing or empty.
abbrev pub token_of : Option String → Result String
token_of none = err (other "Unexpected server response: Cannot find token")
token_of (some t) = ok t

module _ {d : Dexie} (config : Config) (base64 : Base64) (username password : String) where
  unfoldable pub login : Result (Option String) → Handler d String
  unfolding Calls.login
  login answer = do
    token ← call config base64 (λ c. Calls.login c username password) answer
    λ p. (token_of (truthy token), p)

  -- The session is stored and the app is opened.
  unfoldable pub enter : String → Handler d (Unit {0})
  unfolding Session.store
  enter token = modify (λ p. record p {
    session = Session.store username token p.session;
    redirect = some config.app_root;
  })

  unfoldable pub login_submit : Result (Option String) → Handler d (Unit {0})
  unfolding login enter
  login_submit answer = catch (do token ← login answer; enter token) (λ e. set_error (some e))

  unfoldable pub signup_submit : Result (Unit {0}) → Result (Option String) → Handler d (Unit {0})
  unfolding login enter Calls.create
  signup_submit created answer =
      catch
        (do
          call config base64 (λ c. Calls.create c username password) created
          token ← login answer
          enter token)
        (λ e. set_error (some e))
