-- ===== src/Dialogs/Entry/Laws.antt =====
-- When a login or a signup ends with a session.
use ntfy.Base.{String, ◌≡◌, refl, Option, some, List, ◌∷◌, truthy}
use ntfy.Model.{Config}
use ntfy.Database.{Dexie}
use ntfy.Session
use ntfy.Session.{session_of}
use ntfy.Errors.{Result, ok, err}
use ntfy.Util.Auth.{Base64}
use ntfy.Account.{Request}
use ntfy.Account.Calls
use ntfy.Page.{Page, context, ◌>>=◌, catch, set_error}
use ntfy.Dialogs.Entry.{token_of, login, enter, signup_submit}

-- The answers of the two requests of a signup, taken together.
abbrev pub token_after : Result (Unit {0}) → Result (Option String) → Result String
token_after (err e) answer = err e
token_after (ok _) (err e) = err e
token_after (ok _) (ok t) = token_of (truthy t)

module _ {d : Dexie} (config : Config) (base64 : Base64) (username password : String)
    (p : Page d) where
  abbrev pub requests : Result (Unit {0}) → List Request
  requests (err e) = Calls.create (context config base64 p) username password ∷ p.sent
  requests (ok _) =
      Calls.login (context config base64 p) username password
      ∷ Calls.create (context config base64 p) username password
      ∷ p.sent

  -- The page, when the form was answered with a token or with an error.
  abbrev pub entered : List Request → Result String → Page d
  entered sent (ok t) = record p {
    sent = sent;
    session = Session.store username t p.session;
    redirect = some config.app_root;
  }
  entered sent (err e) = record p { sent = sent; error = some e }

  with_token :
      (sent : List Request) (r : Result String)
      → catch
          ((λ q. (r, q)) >>= enter config base64 username password)
          (λ e. set_error (some e))
          (record p { sent = sent })
        ≡ (ok tt, entered sent r)
  unfolding enter
  with_token sent (ok t) = refl
  with_token sent (err e) = refl

  -- A signup creates the account and, if that succeeds, logs in. When the login is answered with a
  -- token, the session is stored with the name and the token, and the app is opened. After any error,
  -- and when the token is missing or empty, the session stays as it was and the error is shown.
  pub signup_submit_lem :
      (created : Result (Unit {0})) (answer : Result (Option String))
      → signup_submit config base64 username password created answer p
        ≡ (ok tt, entered (requests created) (token_after created answer))
  unfolding signup_submit login
  signup_submit_lem (err e) answer = with_token (requests (err e)) (err e)
  signup_submit_lem (ok _) (err e) = with_token (requests (ok tt)) (err e)
  signup_submit_lem (ok _) (ok t) = with_token (requests (ok tt)) (token_of (truthy t))
