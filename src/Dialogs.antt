-- ===== src/Dialogs.antt =====
-- The dialogs of web/src/components. A dialog that sends a request answers whether it closes.
pub mod Laws
pub mod Entry
pub mod Account
pub mod Reservations
pub mod Subscribe
pub mod Popup
pub mod Upgrade
pub mod Publish
pub mod Preferences
use Prim.Native.String.{[], ◌∷◌}
use ntfy.Base.{String, Bool, true, false, Option, some, ◌==◌, if◌then◌else◌}
use ntfy.Util.Url.{valid_url}
use ntfy.Model.{Config}
use ntfy.Database.{Dexie}
use ntfy.Errors.{AppError, Result}
use ntfy.Util.Auth.{Base64}
use ntfy.Account.{Request}
use ntfy.Account.Calls.{Context}
use ntfy.Page.{Handler, pure, ◌>>=◌, ◌>>◌, catch, set_error, unless_unauthorized, call}

-- `newVal.replace(/\/$/, "")`
abbrev pub strip_slash : String → String
strip_slash [] = []
strip_slash (c ∷ s) = let rest = strip_slash s in if (c ∷ s) == "/" then "" else c ∷ rest

-- `updateBaseUrl`, here and in PublishDialog.jsx
unfoldable pub update_base_url : String → String
unfolding valid_url
update_base_url url = if valid_url url then strip_slash url else url

module _ {d : Dexie} where
  -- The dialog stays open and shows the error.
  abbrev pub show : AppError → Handler d Bool
  show e = set_error (some e) >> pure false

module _ {d : Dexie} (config : Config) (base64 : Base64) where
  -- The dialog closes when its request succeeds; an error is shown, and that the token is refused
  -- ends the session.
  unfoldable pub submit : (Context → Request) → Result (Unit {0}) → Handler d Bool
  unfolding unless_unauthorized
  submit request answer =
      catch (call config base64 request answer >> pure true) (unless_unauthorized false show)

  -- As before, but the dialog also closes when the session ends.
  unfoldable pub submit_and_close : (Context → Request) → Result (Unit {0}) → Handler d Bool
  unfolding unless_unauthorized
  submit_and_close request answer =
      catch (call config base64 request answer >> pure true) (unless_unauthorized true show)

  -- A request of which only one error is noticed: that the token is refused.
  unfoldable pub attempt : (Context → Request) → Result (Unit {0}) → Handler d (Unit {0})
  unfolding unless_unauthorized
  attempt request answer =
      catch (call config base64 request answer) (unless_unauthorized tt (λ e. pure tt))
