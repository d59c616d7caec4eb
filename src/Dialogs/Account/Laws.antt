-- ===== src/Dialogs/Account/Laws.antt =====
-- What the deletion of the account leaves behind.
use ntfy.Base.{String, ◌≡◌, refl, none, inl, inr, ◌⊎◌}
use ntfy.Model.{Config}
use ntfy.Database.{Dexie, Db, subscription, notification}
use ntfy.Errors.{
  unauthorized, user_exists, topic_reserved, account_create_limit_reached, incorrect_password,
  other, Result, ok, err,
}
use ntfy.Util.Auth.{Base64}
use ntfy.Page.{Page, reset_and_redirect, unless_unauthorized}
use ntfy.Dialogs.Account.{delete_account}

module _ {d : Dexie} (config : Config) (base64 : Base64) (p : Page d) where
  -- The database, when the server has accepted the password and when it has not.
  abbrev pub Left : Result (Unit {0}) → Db d → Type 0
  Left (ok _) db =
      (k : String)
      → (subscription d db k ≡ none)
        × (notification d db k ≡ none)
        × (d.users.get db.users k ≡ none)
        × (d.prefs.get db.prefs k ≡ none)
  Left (err _) db = db ≡ p.db

  -- Deleting the account leaves nothing in the database of the browser if the server has deleted it, and
  -- else, with whatever error, leaves the database as it was. The session ends in the first case, and
  -- when the token is refused.
  pub delete_account_lem :
      (password : String) (answer : Result (Unit {0}))
      → let p' : Page d = (delete_account config base64 password answer p).1 in
        Left answer p'.db
        × ((p'.session ≡ p.session) ⊎ ((answer ≡ ok tt) ⊎ (answer ≡ err unauthorized)))
  unfolding delete_account reset_and_redirect unless_unauthorized
  delete_account_lem password (ok tt) = (
    λ k. (
      d.subscriptions.get-empty k,
      d.notifications.get-empty k,
      d.users.get-empty k,
      d.prefs.get-empty k,
    ),
    inr (inl refl),
  )
  delete_account_lem password (err unauthorized) = (refl, inr (inr refl))
  delete_account_lem password (err user_exists) = (refl, inl refl)
  delete_account_lem password (err topic_reserved) = (refl, inl refl)
  delete_account_lem password (err account_create_limit_reached) = (refl, inl refl)
  delete_account_lem password (err incorrect_password) = (refl, inl refl)
  delete_account_lem password (err (other m)) = (refl, inl refl)
