-- ===== src/Background.antt =====
-- What the workers of web/src/app/Poller.js and Pruner.js do to the database. What the server answers
-- to a poll and what the clock shows are arguments.
pub mod Laws
mod Tests
use mathlib.Core.List.{foldl}
use ntfy.Base.{ℕ, ◌+◌, ◌-◌, ◌/◌, Option, none, some, List, [], ◌∷◌, eqb, if◌then◌else◌, get_or}
use ntfy.Model.{Subscription, Message}
use ntfy.Database.{Dexie, Db}
use ntfy.Subscriptions.{add_notifications, prune_notifications}
use ntfy.Settings.{delete_after}

-- Math.round(millis / 1000)
abbrev pub rounded_seconds : ℕ → ℕ
rounded_seconds millis = (millis + 500) / 1000

module _ (d : Dexie) where
  open d use {subscriptions as S}

  abbrev pub store : Subscription → List Message → Db d → Db d
  store s [] db = db
  store s (m ∷ ms) db = get_or (add_notifications d s.id (m ∷ ms) db) db

  -- `none`: the request was rejected, which `pollAll` and `pollInBackground` only log.
  unfoldable pub poll : Subscription → Option (List Message) → Db d → Db d
  unfolding add_notifications
  poll s none db = db
  poll s (some ms) db = store s ms db

  -- The subscriptions are read once, before the answers come; `answer` is what each of them gets, and
  -- the answers come in the order of the subscriptions.
  unfoldable pub poll_all : (Subscription → Option (List Message)) → Db d → Db d
  unfolding poll
  poll_all answer db = foldl (λ db s. poll s (answer s) db) db (S.to_array db.subscriptions)

  -- A threshold below 0, before which there is no notification, is 0 here; where the setting is no
  -- number, the threshold is NaN, which is no key, and the error is only logged.
  abbrev pub prune_after : Option ℕ → ℕ → Db d → Db d
  unfolding prune_notifications
  prune_after none millis db = db
  prune_after (some seconds) millis db =
      if eqb seconds 0 then db else prune_notifications d (rounded_seconds millis - seconds) db

  unfoldable pub prune : ℕ → Db d → Db d
  unfolding delete_after
  prune millis db = prune_after (delete_after d db) millis db
