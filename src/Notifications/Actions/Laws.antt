-- ===== src/Notifications/Actions/Laws.antt =====
-- What an action leaves in the database.
use ntfy.Base.{ℕ, String, ◌≡◌, ◌&&◌, Option, some, is_some, ◌==◌, eq_iff, if◌then◌else◌, arith}
use ntfy.Model.{Action, Notification}
use ntfy.Database.{Dexie, Db, notification}
use ntfy.Subscriptions.{update_notification}
use ntfy.Notifications.Actions.{
  Outcome, with_status, with_actions, progress_of, error_of, update_action_status, end_http_action,
}

module _ (d : Dexie) where
  open d use {notifications as N}

  pub get-update_action_status :
      (n : Notification) (a : Action) (progress : ℕ) (error : Option String) (db : Db d)
      (k : String)
      → notification d (update_action_status d n a progress error db) k ≡ (
          if n.message.id == k && is_some (notification d db k)
          then some (with_actions (with_status a.id progress error) n)
          else notification d db k)
  unfolding update_action_status update_notification
  get-update_action_status n a progress error db k = ground (
    arith,
    N.get-put db.notifications (with_actions (with_status a.id progress error) n) k,
    eq_iff n.message.id k,
  )

  -- Whatever becomes of the request of an action, the notification is there afterwards exactly if it
  -- was there before: one that was deleted meanwhile does not come back. If it is there, it is the one
  -- that was displayed at the click, and of its actions the one that was clicked has the outcome. Other
  -- notifications stay as they are.
  pub end_http_action_lem :
      (n : Notification) (a : Action) (outcome : Outcome) (db : Db d) (k : String)
      → notification d (end_http_action d n a outcome db) k ≡ (
          if n.message.id == k && is_some (notification d db k)
          then some (with_actions (with_status a.id (progress_of outcome) (error_of a outcome)) n)
          else notification d db k)
  unfolding end_http_action
  end_http_action_lem n a outcome db k =
      get-update_action_status n a (progress_of outcome) (error_of a outcome) db k
