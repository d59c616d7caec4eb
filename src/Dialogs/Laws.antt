-- ===== src/Dialogs/Laws.antt =====
-- What a request that is only attempted changes.
use ntfy.Base.{◌≡◌, refl, ◌∷◌}
use ntfy.Model.{Config}
use ntfy.Database.{Dexie}
use ntfy.Errors.{
  unauthorized, user_exists, topic_reserved, account_create_limit_reached, incorrect_password,
  other, Result, ok, err,
}
use ntfy.Util.Auth.{Base64}
use ntfy.Account.{Request}
use ntfy.Account.Calls.{Context}
use ntfy.Page.{Page, context, unless_unauthorized, reset_and_redirect}
use ntfy.Dialogs.{attempt}

module _ {d : Dexie} (config : Config) (base64 : Base64) (p : Page d) where
  -- It is never rejected, and leaves the database alone.
  pub attempt_lem :
      (request : Context → Request) (answer : Result (Unit {0}))
      → ((attempt config base64 request answer p).0 ≡ ok tt)
        × ((attempt config base64 request answer p).1.db ≡ p.db)
  unfolding attempt unless_unauthorized reset_and_redirect
  attempt_lem request (ok tt) = (refl, refl)
  attempt_lem request (err unauthorized) = (refl, refl)
  attempt_lem request (err user_exists) = (refl, refl)
  attempt_lem request (err topic_reserved) = (refl, refl)
  attempt_lem request (err account_create_limit_reached) = (refl, refl)
  attempt_lem request (err incorrect_password) = (refl, refl)
  attempt_lem request (err (other m)) = (refl, refl)

  -- It is sent once.
  pub sent-attempt :
      (request : Context → Request) (answer : Result (Unit {0}))
      → (attempt config base64 request answer p).1.sent ≡ request (context config base64 p) ∷ p.sent
  unfolding attempt unless_unauthorized reset_and_redirect
  sent-attempt request (ok tt) = refl
  sent-attempt request (err unauthorized) = refl
  sent-attempt request (err user_exists) = refl
  sent-attempt request (err topic_reserved) = refl
  sent-attempt request (err account_create_limit_reached) = refl
  sent-attempt request (err incorrect_password) = refl
  sent-attempt request (err (other m)) = refl
