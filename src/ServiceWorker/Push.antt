-- ===== src/ServiceWorker/Push.antt =====
-- `handlePush` of web/public/sw.js: what a push message does to the database and what it shows. The
-- texts of the translations are left out.
pub mod Laws
use ntfy.Base.{ℕ, String, Bool, Option, none, some, List, [], ◌∷◌, ◌==◌, if◌then◌else◌}
use ntfy.Model.{Message, Notification}
use ntfy.Formatting.{Emojis, Params, to_notification_params}
use ntfy.Database.{Dexie, Db}
use ntfy.Subscriptions.{unread, update, with_last, is_new}

pub record Payload : Type 0 where
  pub event : String
  pub subscription_id : String
  pub message : Message

-- The message goes to the open windows of the app, the badge of the app is set, or a notification is
-- displayed: a message of a subscription, a warning that the push subscription expires, or that an
-- unknown message came.
pub data Effect : Type 0 where
  broadcast : Message → Effect
  set_badge : ℕ → Effect
  show_message : String → Message → Effect
  show_expiring show_unknown : Effect

-- What is displayed of a message; the URL that the browser makes of a topic is a parameter.
unfoldable pub params_of_push : Emojis → (String → String) → String → Message → Params
unfolding to_notification_params
params_of_push emojis absolute subscription_id m =
    to_notification_params emojis subscription_id m m.topic (absolute m.topic)

module _ (d : Dexie) where
  open d use {notifications as N}

  -- `addNotification`, with the count for the badge; `none`: the id is there, and `add` is rejected.
  abbrev pub added_rows : String → Message → Db d → Option N.Rows → Option (Db d)
  unfolding update
  added_rows subscription_id m db none = none
  added_rows subscription_id m db (some rows) =
      some (update d subscription_id (with_last m.id) (record db { notifications = rows }))

  unfoldable pub add_notification : String → Message → Db d → Option (Db d)
  unfolding added_rows
  add_notification subscription_id m db =
      added_rows subscription_id m db (N.add db.notifications (unread subscription_id m))

  abbrev pub badge_count : Db d → ℕ
  badge_count db = N.count_where db.notifications (λ n. is_new n.new)

  -- A rejection is not caught: what comes after it does not happen.
  abbrev pub show_added : String → Message → Db d → Option (Db d) → Db d × List Effect
  show_added subscription_id m db none = (db, broadcast m ∷ [])
  show_added subscription_id m db (some db') =
      (db', broadcast m ∷ set_badge (badge_count db') ∷ show_message subscription_id m ∷ [])

  unfoldable pub handle_push_message : Payload → Db d → Db d × List Effect
  unfolding add_notification
  handle_push_message p db =
      show_added p.subscription_id p.message db (add_notification p.subscription_id p.message db)

  unfoldable pub handle_push : Payload → Db d → Db d × List Effect
  unfolding handle_push_message
  handle_push p db =
      if p.event == "message"
      then handle_push_message p db
      else if p.event == "subscription_expiring"
      then (db, show_expiring ∷ [])
      else (db, show_unknown ∷ [])
