-- ===== src/Account/Sync/Laws.antt =====
-- What a sync does, by the steps that it consists of, and what is read of the settings afterwards.
use ntfy.Base.{ℕ, String, ◌≡◌, refl, ◌∙◌, ap, false, Option, none, some, ◌∷◌, truthy, truthy_number}
use ntfy.Model.{Config, Value, text}
use ntfy.Database.{Dexie, Db}
use ntfy.Session
use ntfy.Session.{token}
use ntfy.Settings.{set_sound, set_delete_after, set_min_priority}
use ntfy.Settings.Laws.{Readings, readings, readings_set}
use ntfy.Errors.{
  unauthorized, user_exists, topic_reserved, account_create_limit_reached, incorrect_password,
  other, Result, ok, err,
}
use ntfy.Util.Auth.{Base64}
use ntfy.Profile.{Profile, NotificationSettings}
use ntfy.Account.Calls
use ntfy.Page.{Page, context, catch, pure, unless_unauthorized, reset_and_redirect}
use ntfy.Account.Sync.{
  set_text, set_number, or_else, get, apply, sync_with_token, sync, store_settings,
  sync_subscriptions,
}

module _ {d : Dexie} (config : Config) (base64 : Base64) (p : Page d) where
  -- What a sync makes of the page, by the answer of the server.
  abbrev pub Synced : Result Profile → Page d
  Synced (ok account) = record p {
    sent = Calls.get_account (context config base64 p) ∷ p.sent;
    account = some account;
    language = or_else (truthy account.language) p.language;
    db =
        sync_subscriptions config account.subscriptions account.reservations
          (store_settings account.notification p.db);
  }
  Synced (err unauthorized) = record p {
    sent = Calls.get_account (context config base64 p) ∷ p.sent;
    session = Session.reset p.session;
    redirect = some "/login";
  }
  Synced (err _) = record p { sent = Calls.get_account (context config base64 p) ∷ p.sent }

  at_token :
      {t : String} (answer : Result Profile)
      → truthy (token p.session) ≡ some t
      → sync config base64 answer p
        ≡ catch
            (sync_with_token config base64 (some t) answer)
            (unless_unauthorized none (λ e. pure none))
            p
  unfolding sync
  at_token answer e =
      ap
        (λ o.
          catch (sync_with_token config base64 o answer) (unless_unauthorized none (λ e. pure none))
            p)
        e

  abbrev pub returned : Result Profile → Option Profile
  returned (ok account) = some account
  returned (err _) = none

  pub sync-eq :
      (t : String) (answer : Result Profile)
      → truthy (token p.session) ≡ some t
      → sync config base64 answer p ≡ (ok (returned answer), Synced answer)
  unfolding sync_with_token get apply unless_unauthorized reset_and_redirect
  sync-eq t (ok account) e = at_token (ok account) e
  sync-eq t (err unauthorized) e = at_token (err unauthorized) e
  sync-eq t (err user_exists) e = at_token (err user_exists) e
  sync-eq t (err topic_reserved) e = at_token (err topic_reserved) e
  sync-eq t (err account_create_limit_reached) e = at_token (err account_create_limit_reached) e
  sync-eq t (err incorrect_password) e = at_token (err incorrect_password) e
  sync-eq t (err (other m)) e = at_token (err (other m)) e

abbrev pub text_or : Option String → Value → Value
text_or none v = v
text_or (some s) v = text s

module _ {d : Dexie} (db : Db d) where
  sound_stored :
      (o : Option String)
      → readings d (set_text (set_sound d) o db)
        ≡ record (readings d db) { sound = text_or o (readings d db).sound }
  sound_stored none = refl
  sound_stored (some s) = (readings_set d db s "" 0 false).0

  delete_after_stored :
      (o : Option ℕ)
      → readings d (set_number (set_delete_after d) o db)
        ≡ record (readings d db) { delete_after = or_else o (readings d db).delete_after }
  delete_after_stored none = refl
  delete_after_stored (some n) = (readings_set d db "" "" n false).2

  min_priority_stored :
      (o : Option ℕ)
      → readings d (set_number (set_min_priority d) o db)
        ≡ record (readings d db) { min_priority = or_else o (readings d db).min_priority }
  min_priority_stored none = refl
  min_priority_stored (some n) = (readings_set d db "" "" n false).1

module _ {d : Dexie} (db : Db d) where
  -- Of the account's settings those are taken over that are there and neither empty nor 0; the readings
  -- of all others stay as they were. So a retention of 0, for ever, is not taken over.
  pub readings-store_settings :
      (n : NotificationSettings)
      → readings d (store_settings (some n) db) ≡ record (readings d db) {
        sound = text_or (truthy n.sound) (readings d db).sound;
        delete_after = or_else (truthy_number n.delete_after) (readings d db).delete_after;
        min_priority = or_else (truthy_number n.min_priority) (readings d db).min_priority;
      }
  unfolding store_settings
  readings-store_settings n =
      let db' : Db d = set_text (set_sound d) (truthy n.sound) db in
      let db'' : Db d = set_number (set_delete_after d) (truthy_number n.delete_after) db' in
      let with_sound : Readings d → Readings d =
        λ r. record r { sound = text_or (truthy n.sound) r.sound } in
      let with_retention : Readings d → Readings d =
        λ r. record r { delete_after = or_else (truthy_number n.delete_after) r.delete_after } in
      let with_priority : Readings d → Readings d =
        λ r. record r { min_priority = or_else (truthy_number n.min_priority) r.min_priority } in
      min_priority_stored db'' (truthy_number n.min_priority)
      ∙ ap with_priority (
          delete_after_stored db' (truthy_number n.delete_after)
          ∙ ap with_retention (sound_stored db (truthy n.sound)))
