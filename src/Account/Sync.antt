-- ===== src/Account/Sync.antt =====
-- `get`, `sync` and `runWorker` of web/src/app/AccountApi.js, on a page.
pub mod Laws
pub mod After
mod Tests
use ntfy.Base.{
  ℕ, String, Bool, true, false, Option, none, some, List, is_some, truthy, truthy_number, get_or,
}
use ntfy.Model.{Config, Reservation}
use ntfy.Database.{Dexie, Db}
use ntfy.Session
use ntfy.Session.{token}
use ntfy.Settings.{set_sound, set_delete_after, set_min_priority}
use ntfy.Subscriptions.{Remote, sync_from_remote}
use ntfy.Errors.{AppError, Result}
use ntfy.Util.Auth.{Base64}
use ntfy.Profile.{Profile, NotificationSettings}
use ntfy.Account.Calls
use ntfy.Page.{
  Page, Handler, pure, ◌>>=◌, ◌>>◌, catch, modify, gets, on_db, set_error, unless_unauthorized,
  call,
}

abbrev pub or_else {ℓ} : {A : Type ℓ} → Option A → Option A → Option A
or_else none other = other
or_else (some a) other = some a

module _ {d : Dexie} where
  abbrev pub set_text : (String → Db d → Db d) → Option String → Db d → Db d
  set_text set none db = db
  set_text set (some s) db = set s db

  abbrev pub set_number : (ℕ → Db d → Db d) → Option ℕ → Db d → Db d
  set_number set none db = db
  set_number set (some n) db = set n db

  -- Each setting of the account that is true in JavaScript's sense is stored.
  unfoldable pub store_settings : Option NotificationSettings → Db d → Db d
  unfolding set_sound set_delete_after set_min_priority
  store_settings none db = db
  store_settings (some n) db = set_number (set_min_priority d) (truthy_number n.min_priority) (
      set_number (set_delete_after d) (truthy_number n.delete_after)
        (set_text (set_sound d) (truthy n.sound) db))

  unfoldable pub sync_subscriptions :
      Config → Option (List Remote) → Option (List Reservation) → Db d → Db d
  unfolding sync_from_remote
  sync_subscriptions config none reservations db = db
  sync_subscriptions config (some remotes) reservations db =
      sync_from_remote d config remotes reservations db

module _ {d : Dexie} (config : Config) (base64 : Base64) where
  -- `get`, with a listener: the account is displayed.
  unfoldable pub get : Result Profile → Handler d Profile
  unfolding Calls.get_account
  get answer = do
    account ← call config base64 Calls.get_account answer
    modify (λ p. record p { account = some account })
    pure account

  -- What `sync` does with the account.
  unfoldable pub apply : Profile → Handler d (Unit {0})
  unfolding store_settings sync_subscriptions
  apply account = do
    modify (λ p. record p { language = or_else (truthy account.language) p.language })
    on_db (store_settings account.notification)
    on_db (sync_subscriptions config account.subscriptions account.reservations)

  unfoldable pub sync_with_token : Option String → Result Profile → Handler d (Option Profile)
  unfolding get apply
  sync_with_token none answer = pure none
  sync_with_token (some _) answer = do account ← get answer; apply account; pure (some account)

  -- `none` is null, without a token, or undefined, after an error.
  unfoldable pub sync : Result Profile → Handler d (Option Profile)
  unfolding sync_with_token unless_unauthorized
  sync answer =
      catch (do t ← gets (λ p. truthy (token p.session)); sync_with_token t answer)
        (unless_unauthorized none (λ e. pure none))

  abbrev pub extend : Option String → Result (Unit {0}) → Handler d (Unit {0})
  unfolding Calls.extend_token
  extend none answer = pure tt
  extend (some _) answer = catch (call config base64 Calls.extend_token answer) (λ e. pure tt)

  unfoldable pub run_worker : Result (Unit {0}) → Handler d (Unit {0})
  unfolding extend
  run_worker answer = do t ← gets (λ p. truthy (token p.session)); extend t answer
