-- ===== src/Database.antt =====
-- The database of web/src/app/db.js: its four tables, over any implementation of Dexie.js. Promises
-- are followed in the order in which the code awaits them; what runs at once under `Promise.all`
-- runs in the order of the array.
pub mod Listed
use ntfy.Base.{String, Option}
use ntfy.Dexie.{Table}
use ntfy.Model.{Subscription, Notification, notification_id, User, Setting}

pub record Dexie : Type 1 where
  pub subscriptions : Table (λ (s : Subscription). s.id)
  pub notifications : Table notification_id
  pub users : Table (λ (u : User). u.base_url)
  pub prefs : Table (λ (s : Setting). s.key)

-- The contents of the four tables.
pub record Db (d : Dexie) : Type 0 where
  pub subscriptions : d.subscriptions.Rows
  pub notifications : d.notifications.Rows
  pub users : d.users.Rows
  pub prefs : d.prefs.Rows

module _ (d : Dexie) where
  abbrev pub subscription : Db d → String → Option Subscription
  subscription db id = d.subscriptions.get db.subscriptions id

  abbrev pub notification : Db d → String → Option Notification
  notification db id = d.notifications.get db.notifications id
