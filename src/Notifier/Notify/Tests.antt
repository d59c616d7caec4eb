-- ===== src/Notifier/Notify/Tests.antt =====
-- A message for a topic of the app's own server.
use ntfy.Base.{String, ◌≡◌, refl, true, false, none, some, [], ◌∷◌, if◌then◌else◌}
use ntfy.Base.Text.{starts_with, prepend}
use ntfy.Model.{Subscription, Message}
use ntfy.Page.Samples.{config}
use ntfy.Formatting.{Emojis}
use ntfy.ServiceWorker.Push.{params_of_push}
use ntfy.Notifier.{supported, sound_to_play}
use ntfy.Notifier.Tests.{browser}
use ntfy.Notifier.Notify.{Outcome, notify}
use ntfy.Notifier.Notify.Laws.{notify-params_of_push}

abbrev emojis : Emojis
emojis = ("warning", "!") ∷ []

abbrev alarm : Message
alarm = record {
  id = "m1";
  time = 7;
  topic = "a";
  title = none;
  message = "hello";
  tags = some ("warning" ∷ []);
  priority = none;
  click = none;
  attachment = none;
  actions = none;
}

abbrev subscription : Subscription
subscription = record {
  id = "https://ntfy.sh/a";
  base_url = "https://ntfy.sh";
  topic = "a";
  muted_until = 0;
  last = none;
  display_name = none;
  reservation = none;
  internal = false;
  state = none;
}

abbrev absolute : String → String
absolute route =
    if starts_with route "/"
    then prepend "https://ntfy.sh" route
    else prepend "https://ntfy.sh/" route

notify-params_of_push_example :
    notify config emojis absolute browser "ding" true subscription alarm ≡ (
      if supported browser
      then Outcome.shown
          (sound_to_play "ding")
          (params_of_push emojis absolute "https://ntfy.sh/a" alarm)
      else Outcome.unsupported)
notify-params_of_push_example =
    notify-params_of_push config emojis absolute browser "ding" subscription alarm refl refl refl
      refl
