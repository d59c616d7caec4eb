-- ===== src/Dialogs/Popup/Tests.antt =====
-- A topic is subscribed to and unsubscribed from, while the token is refused.
use ntfy.Base.{◌≡◌, refl, false, none}
use ntfy.Model.{Subscription}
use ntfy.Database.{Db, subscription, notification}
use ntfy.Database.Listed.{listed, empty}
use ntfy.Errors.{ok, err, unauthorized, other}
use ntfy.Subscriptions.{Options, new_subscription}
use ntfy.Subscriptions.Owners.{HasOwners}
use ntfy.Page.Samples.{config, plain, page}
use ntfy.Dialogs.Subscribe.{add_remotely, subscribe_topic}
use ntfy.Dialogs.Popup.{for_subscription, handle_unsubscribe}
use ntfy.Dialogs.Popup.Laws.{handle_unsubscribe-subscribe_topic}

abbrev options : Options
options = record { internal = false; display_name = none; reservation = none }

abbrev alerts : Subscription
unfolding new_subscription
alerts = new_subscription "https://ntfy.example.com" "alerts" options

external_route : for_subscription config alerts ≡ "/ntfy.example.com/alerts"
unfolding for_subscription alerts
external_route = refl

no_notifications : HasOwners listed empty
no_notifications = record { owner = λ k n e. cc }

subscribed :
    (subscribe_topic config plain "https://ntfy.example.com" "alerts" options
      (err unauthorized)
      page).0
    ≡ ok alerts
unfolding subscribe_topic add_remotely alerts
subscribed = refl

handle_unsubscribe-subscribe_topic_example :
    let db' : Db listed =
      (handle_unsubscribe config plain alerts
        (err (other "timeout"))
        (subscribe_topic config plain "https://ntfy.example.com" "alerts" options
          (err unauthorized)
          page).1).1.db in
    (subscription listed db' "https://ntfy.sh/x" ≡ subscription listed empty "https://ntfy.sh/x")
    × (notification listed db' "https://ntfy.sh/x" ≡ notification listed empty "https://ntfy.sh/x")
handle_unsubscribe-subscribe_topic_example =
    handle_unsubscribe-subscribe_topic config plain page "https://ntfy.example.com" "alerts" options
      alerts (err unauthorized) (err (other "timeout")) refl no_notifications subscribed
      "https://ntfy.sh/x"
