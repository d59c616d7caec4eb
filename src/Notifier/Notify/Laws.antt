-- ===== src/Notifier/Notify/Laws.antt =====
-- A message is displayed alike whichever way it comes.
use Prim.Native.String.{◌++◌}
use ntfy.Util.Url.{topic_short_url}
use ntfy.Base.{
  Option, some, ap, ◌∙◌, String, ◌≡◌, refl, ◌∙◌, ap, true, Option, none, some, truthy, ◌==◌,
  if◌then◌else◌, Bool-cases, inl, inr, eq_refl,
}
use ntfy.Model.{Config, Subscription, Message}
use ntfy.Formatting.{Emojis}
use ntfy.Util.Topic.{topic_display_name}
use ntfy.Dialogs.Popup.{for_subscription}
use ntfy.ServiceWorker.Push.{params_of_push}
use ntfy.Notifier.{Browser, supported, sound_to_play}
use ntfy.Notifier.Notify.{Outcome, params_of, notify}

module _ (config : Config) (emojis : Emojis) (absolute : String → String) where
  name_of_own :
      (s : Subscription)
      → s.base_url ≡ config.base_url
      → truthy s.display_name ≡ none
      → topic_display_name config s ≡ s.topic
  unfolding topic_display_name
  name_of_own s own unnamed =
      ap
        (λ (o : Option String). elim o as (λ _. String) [
          | some name ↦ name
          | none ↦
              if s.base_url == config.base_url then s.topic else topic_short_url s.base_url s.topic
        ])
        unnamed
      ∙ rw (own, eq_refl config.base_url) refl

  route_of_own :
      (s : Subscription) → s.base_url ≡ config.base_url → for_subscription config s ≡ "/" ++ s.topic
  unfolding for_subscription
  route_of_own s own = rw (own, eq_refl config.base_url) refl

  -- Where the topic and the route that it has after a slash lead to one URL, a message for a subscription of
  -- the app's own server that has no name of its own is displayed, when it comes by WebSocket to a browser
  -- with a service worker, as it is when it is pushed, and in no other way; a browser that does not
  -- support notifications displays nothing.
  pub notify-params_of_push :
      (b : Browser) (sound : String) (s : Subscription) (m : Message)
      → absolute ("/" ++ s.topic) ≡ absolute s.topic
      → s.base_url ≡ config.base_url
      → truthy s.display_name ≡ none
      → m.topic ≡ s.topic
      → notify config emojis absolute b sound true s m ≡ (
          if supported b
          then Outcome.shown (sound_to_play sound) (params_of_push emojis absolute s.id m)
          else Outcome.unsupported)
  unfolding notify params_of params_of_push
  notify-params_of_push b sound s m rooted own unnamed same = elim (Bool-cases (supported b)) [
    | inr e ↦ rw e refl
    | inl e ↦ rw (e, name_of_own s own unnamed, route_of_own s own, rooted, same) refl
  ]
