-- ===== src/Dialogs/Preferences.antt =====
-- web/src/components/Preferences.jsx: the settings, which go to the server where there is a session, and
-- the users of other servers.
pub mod Laws
pub mod Descriptions
pub mod Reservations
mod Tests
use ntfy.Base.{
  ℕ, String, Bool, true, false, not, ◌&&◌, ◌||◌, Option, none, some, List, [], ◌∷◌, map, filter,
  contains, is_some, eqb, ◌==◌, if◌then◌else◌,
}
use ntfy.Base.Dict.{Object}
use ntfy.Model.{Config, User, Subscription, Reservation}
use ntfy.Database.{Dexie}
use ntfy.Session.{Session, session_of}
use ntfy.Errors.{Result, ok}
use ntfy.Util.Auth.{Base64}
use ntfy.Util.Url.{valid_url}
use ntfy.Settings.{set_sound, set_min_priority, set_delete_after, set_web_push_enabled, set_theme}
use ntfy.Users
use ntfy.Account.{Json, Fields, no_fields, field, text, number, object}
use ntfy.Account.Calls
use ntfy.Profile.{Profile}
use ntfy.Page.{Page, Handler, pure, ◌>>=◌, ◌>>◌, modify, gets, on_db}
use ntfy.Dialogs.{attempt}
use ntfy.Dialogs.Subscribe.{no_options, subscribe_topic}

-- { notification: { [name]: value } }
abbrev pub notification : String → Json → Object Json
notification name value = ("notification", object (field name value no_fields)) ∷ []

module _ {d : Dexie} (config : Config) (base64 : Base64) where
  abbrev pub update_if : Bool → Object Json → Result (Unit {0}) → Handler d (Unit {0})
  update_if exists payload answer =
      if exists
      then attempt config base64 (λ c. Calls.update_settings c payload) answer
      else pure tt

  unfoldable pub maybe_update_account_settings :
      Object Json → Result (Unit {0}) → Handler d (Unit {0})
  unfolding session_of attempt Calls.update_settings
  maybe_update_account_settings payload answer = do
    exists ← gets (λ p. is_some (session_of p.session))
    update_if exists payload answer

  -- `handleChange` of each of the settings
  unfoldable pub change_sound : String → Result (Unit {0}) → Handler d (Unit {0})
  unfolding maybe_update_account_settings set_sound
  change_sound value answer = do
    on_db (set_sound d value)
    maybe_update_account_settings (notification "sound" (text value)) answer

  unfoldable pub change_min_priority : ℕ → Result (Unit {0}) → Handler d (Unit {0})
  unfolding maybe_update_account_settings set_min_priority
  change_min_priority value answer = do
    on_db (set_min_priority d value)
    maybe_update_account_settings (notification "min_priority" (number value)) answer

  unfoldable pub change_delete_after : ℕ → Result (Unit {0}) → Handler d (Unit {0})
  unfolding maybe_update_account_settings set_delete_after
  change_delete_after value answer = do
    on_db (set_delete_after d value)
    maybe_update_account_settings (notification "delete_after" (number value)) answer

  unfoldable pub change_language : String → Result (Unit {0}) → Handler d (Unit {0})
  unfolding maybe_update_account_settings
  change_language value answer = do
    modify (λ p. record p { language = some value })
    maybe_update_account_settings (("language", text value) ∷ []) answer

  -- `handleSubmit` and `handleDeleteClick` for the users of other servers
  unfoldable pub user_submit : User → Handler d (Unit {0})
  unfolding Users.save
  user_submit user = modify (λ p. record p { db = Users.save d config p.session user p.db })

  unfoldable pub user_delete : User → Handler d (Unit {0})
  unfolding Users.delete
  user_delete user =
      modify (λ p. record p { db = Users.delete d config p.session user.base_url p.db })

  unfoldable pub handle_subscribe_click : Reservation → Result (Unit {0}) → Handler d Subscription
  unfolding subscribe_topic
  handle_subscribe_click reservation answer =
      subscribe_topic config base64 config.base_url reservation.topic no_options answer

module _ {d : Dexie} where
  -- The settings that stay in the browser.
  unfoldable pub change_theme : String → Handler d (Unit {0})
  unfolding set_theme
  change_theme value = on_db (set_theme d value)

  unfoldable pub change_web_push_enabled : Bool → Handler d (Unit {0})
  unfolding set_web_push_enabled
  change_web_push_enabled value = on_db (set_web_push_enabled d value)

-- Where the button of the dialog for a user can be pressed.
unfoldable pub add_button_enabled : Bool → List User → String → String → String → Bool
unfolding valid_url
add_button_enabled edit_mode users base_url username password =
    if edit_mode
    then not (username == "") && not (password == "")
    else valid_url base_url
      && not (contains (map (λ (u : User). u.base_url) users) base_url)
      && not (username == "")
      && not (password == "")

-- The buttons of a user in the table are there only where this is true.
unfoldable pub is_editable : Config → Session → User → Bool
unfolding session_of
is_editable config session user =
    not (is_some (session_of session)) || not (user.base_url == config.base_url)

unfoldable pub limit_reached : Profile → Bool
limit_reached account = account.role == "user" && eqb account.reservations_remaining 0
