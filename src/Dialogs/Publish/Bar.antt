-- ===== src/Dialogs/Publish/Bar.antt =====
-- The bar at the bottom of web/src/components/Messaging.jsx.
use ntfy.Base.{String, Bool, true, false, [], ◌∷◌}
use ntfy.Model.{Config, Subscription}
use ntfy.Database.{Dexie}
use ntfy.Errors.{Result}
use ntfy.Util.Auth.{Base64}
use ntfy.Users
use ntfy.Api
use ntfy.Page.{Handler, pure, ◌>>◌, catch}

module _ {d : Dexie} (config : Config) (base64 : Base64) where
  abbrev send_message : Subscription → String → Result (Unit {0}) → Handler d (Unit {0})
  unfolding Api.publish Users.get
  send_message s message answer p =
      let user = Users.get d config p.session s.base_url p.db in
      (answer, record p { sent = Api.publish base64 user s.base_url s.topic message [] ∷ p.sent })

  -- Whether the error is shown, and the message that is left in the bar: none, also after an error.
  unfoldable pub handle_send_click :
      Subscription → String → Result (Unit {0}) → Handler d (Bool × String)
  unfolding send_message
  handle_send_click s message answer =
      catch (send_message s message answer >> pure (false, "")) (λ e. pure (true, ""))
