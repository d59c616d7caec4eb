-- ===== src/Dialogs/Preferences/Laws.antt =====
-- What a change of a setting does in the browser and on the server.
use ntfy.Base.{
  ℕ, String, ◌≡◌, refl, ◌∙◌, ap, Bool, true, false, some, List, ◌∷◌, is_some, if◌then◌else◌,
}
use ntfy.Base.Dict.{Object}
use ntfy.Model
use ntfy.Model.{Config}
use ntfy.Database.{Dexie, Db}
use ntfy.Session.{session_of}
use ntfy.Settings.{set_sound, set_min_priority, set_delete_after}
use ntfy.Settings.Laws.{Readings, readings, readings_set}
use ntfy.Errors.{Result, ok}
use ntfy.Util.Auth.{Base64}
use ntfy.Account.{Json, text, number, Request}
use ntfy.Account.Calls
use ntfy.Account.Calls.{Context}
use ntfy.Page.{Page, Handler, context}
use ntfy.Dialogs.Laws.{attempt_lem, sent-attempt}
use ntfy.Dialogs.Preferences.{
  notification, update_if, maybe_update_account_settings, change_sound, change_min_priority,
  change_delete_after,
}

module _ {d : Dexie} (config : Config) (base64 : Base64) (p : Page d) where
  abbrev pub requests_if : Bool → Object Json → List Request
  requests_if exists payload =
      if exists then Calls.update_settings (context config base64 p) payload ∷ p.sent else p.sent

  -- The settings read in this way, and the change is sent if there is a session; the change is not
  -- rejected.
  abbrev pub Changed : Readings d → Object Json → Handler d (Unit {0}) → Type 0
  Changed settings payload handler =
      ((handler p).0 ≡ ok tt)
      × (readings d (handler p).1.db ≡ settings)
      × ((handler p).1.sent ≡ requests_if (is_some (session_of p.session)) payload)

  update_if_lem :
      (exists : Bool) (payload : Object Json) (answer : Result (Unit {0})) (db : Db d)
      → let (r, p') = update_if config base64 exists payload answer (record p { db = db }) in
        (r ≡ ok tt) × (p'.db ≡ db) × (p'.sent ≡ requests_if exists payload)
  update_if_lem true payload answer db =
      let p' : Page d = record p { db = db } in
      let request : Context → Request = λ c. Calls.update_settings c payload in
      let (r, e) = attempt_lem config base64 p' request answer in
      (r, e, sent-attempt config base64 p' request answer)
  update_if_lem false payload answer db = (refl, refl, refl)

  -- Each of the three settings that the account has changes in the browser at once, whatever the server
  -- answers, and no other setting changes with it; the server is sent the new value, once, exactly if
  -- there is a session.
  pub change_lem :
      (sound : String) (n : ℕ) (answer : Result (Unit {0}))
      → Changed
          (record (readings d p.db) { sound = Model.text sound })
          (notification "sound" (text sound))
          (change_sound config base64 sound answer)
        × Changed
            (record (readings d p.db) { min_priority = some n })
            (notification "min_priority" (number n))
            (change_min_priority config base64 n answer)
        × Changed
            (record (readings d p.db) { delete_after = some n })
            (notification "delete_after" (number n))
            (change_delete_after config base64 n answer)
  unfolding change_sound change_min_priority change_delete_after maybe_update_account_settings
  change_lem sound n answer =
      let read = readings_set d p.db sound "" n false in
      (
        from_reading (set_sound d sound p.db) _ _ answer read.0,
        from_reading (set_min_priority d n p.db) _ _ answer read.1,
        from_reading (set_delete_after d n p.db) _ _ answer read.2,
      )
    where
      from_reading :
          (db : Db d) (settings : Readings d) (payload : Object Json) (answer : Result (Unit {0}))
          → readings d db ≡ settings
          → let (r, p') =
              update_if config base64
                (is_some (session_of p.session))
                payload
                answer
                (record p { db = db }) in
            (r ≡ ok tt)
            × (readings d p'.db ≡ settings)
            × (p'.sent ≡ requests_if (is_some (session_of p.session)) payload)
      from_reading db settings payload answer h =
          let (r, e, e') = update_if_lem (is_some (session_of p.session)) payload answer db in
          (r, ap (readings d) e ∙ h, e')
