-- ===== src/Notifier/Notify.antt =====
-- `notify` of web/src/app/Notifier.js: a message becomes a notification of the browser. The URL of a
-- route on the app's own origin, which the browser makes, is a parameter.
pub mod Laws
mod Tests
use ntfy.Base.{String, Bool, not, Option, if◌then◌else◌}
use ntfy.Model.{Config, Subscription, Message}
use ntfy.Formatting.{Emojis, Params, to_notification_params}
use ntfy.Util.Topic.{topic_display_name}
use ntfy.Dialogs.Popup.{for_subscription}
use ntfy.Notifier.{Browser, supported, sound_to_play}

-- What becomes of a message: nothing, or a sound is played, and then a notification is displayed, unless
-- there is no service worker to display it, which is thrown.
pub data Outcome : Type 0 where
  unsupported : Outcome
  no_registration : Option String → Outcome
  shown : Option String → Params → Outcome

module _ (config : Config) (emojis : Emojis) (absolute : String → String) where
  unfoldable pub params_of : Subscription → Message → Params
  unfolding to_notification_params topic_display_name for_subscription
  params_of s m =
      to_notification_params emojis s.id m (topic_display_name config s)
        (absolute (for_subscription config s))

  -- `sound` is the setting; `registered` tells if there is a service worker.
  unfoldable pub notify : Browser → String → Bool → Subscription → Message → Outcome
  unfolding supported sound_to_play params_of
  notify b sound registered s m =
      if not (supported b)
      then unsupported
      else if registered
      then shown (sound_to_play sound) (params_of s m)
      else no_registration (sound_to_play sound)
