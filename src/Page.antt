-- ===== src/Page.antt =====
-- What the handlers of web/src/components and the methods of AccountApi work on: the database, the
-- session, the requests that are sent, and where the page goes. A promise that is rejected keeps what
-- was done before; what the server answers is an argument of each call.
pub mod Samples
pub mod Laws
use ntfy.Base.{String, Option, none, some, List, [], ◌∷◌}
use ntfy.Model.{Config}
use ntfy.Database.{Dexie, Db}
use ntfy.Session
use ntfy.Session.{Session, token}
use ntfy.Errors.{AppError, unauthorized, Result, ok, err}
use ntfy.Util.Auth.{Base64}
use ntfy.Account.{Request}
use ntfy.Account.Calls.{Context}
use ntfy.Profile.{Profile}

-- `redirect` is what was given to `window.location.href`, `route` what was given to `navigate`,
-- `account` what the listener of AccountApi was given, and `error` what `setError` was given.
pub record Page (d : Dexie) : Type 0 where
  pub db : Db d
  pub session : Session
  pub sent : List Request
  pub redirect : Option String
  pub route : Option String
  pub language : Option String
  pub account : Option Profile
  pub error : Option AppError

module _ (d : Dexie) where
  abbrev pub Handler : Type 0 → Type 0
  Handler A = Page d → Result A × Page d

module _ {d : Dexie} where
  abbrev pub pure : {A : Type 0} → A → Handler d A
  pure a p = (ok a, p)

  infixl 5 ◌>>=◌ ◌>>◌
  abbrev pub ◌>>=◌ : {A B : Type 0} → Handler d A → (A → Handler d B) → Handler d B
  ◌>>=◌ m f p = let (r, p') = m p in elim r [ ok a ↦ f a p' | err e ↦ (err e, p') ]

  abbrev pub ◌>>◌ : {A B : Type 0} → Handler d A → Handler d B → Handler d B
  m >> k = m >>= λ _. k

  -- try { … } catch (e) { … }
  abbrev pub catch : {A : Type 0} → Handler d A → (AppError → Handler d A) → Handler d A
  catch m handle p = let (r, p') = m p in elim r [ ok a ↦ (ok a, p') | err e ↦ handle e p' ]

  abbrev pub modify : (Page d → Page d) → Handler d (Unit {0})
  modify f p = (ok tt, f p)

  abbrev pub gets : {A : Type 0} → (Page d → A) → Handler d A
  gets f p = (ok (f p), p)

  abbrev pub on_db : (Db d → Db d) → Handler d (Unit {0})
  on_db f = modify (λ p. record p { db = f p.db })

  abbrev pub set_error : Option AppError → Handler d (Unit {0})
  set_error e = modify (λ p. record p { error = e })

  abbrev pub navigate : String → Handler d (Unit {0})
  navigate route = modify (λ p. record p { route = some route })

  -- `resetAndRedirect` of web/src/app/Session.js
  unfoldable pub reset_and_redirect : String → Handler d (Unit {0})
  unfolding Session.reset
  reset_and_redirect url =
      modify (λ p. record p { session = Session.reset p.session; redirect = some url })

  -- What most handlers do with an error of the server: an UnauthorizedError ends the session.
  unfoldable pub unless_unauthorized :
      {A : Type 0} → A → (AppError → Handler d A) → AppError → Handler d A
  unfolding reset_and_redirect
  unless_unauthorized a handle unauthorized = do reset_and_redirect "/login"; pure a
  unless_unauthorized a handle e = handle e

module _ {d : Dexie} (config : Config) (base64 : Base64) where
  abbrev pub context : Page d → Context
  context p = record { base_url = config.base_url; token = token p.session; base64 = base64 }

  -- A request and its answer.
  abbrev pub call : {A : Type 0} → (Context → Request) → Result A → Handler d A
  call request answer p = (answer, record p { sent = request (context p) ∷ p.sent })
