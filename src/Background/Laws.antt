-- ===== src/Background/Laws.antt =====
-- What a poll and a pruning leave in the database.
use ntfy.Base.{
  ℕ, ◌+◌, ◌-◌, String, ◌≡◌, refl, Bool, ◌∙◌, ap, none, some, List, [], ◌∷◌, map, not, ◌&&◌, eqb,
  ltb, arith, ◌==◌, if◌then◌else◌, get_last?, Option-cases, inl, inr,
}
use ntfy.Dexie.{unless, map_option}
use ntfy.Dexie.Laws.{latest, get-bulk_put}
use ntfy.Model.{Subscription, Message, Notification}
use ntfy.Database.{Dexie, Db, subscription, notification}
use ntfy.Subscriptions.{with_last, add_notifications, update, prune_notifications}
use ntfy.Settings.{delete_after}
use ntfy.Background.{poll, prune, prune_after, rounded_seconds}

-- A polled message as it is stored: it is not marked as new.
abbrev pub polled : String → Message → Notification
polled subscription_id m = record { message = m; subscription_id = subscription_id; new = none }

abbrev is_old : ℕ → ℕ → Notification → Bool
is_old millis seconds n = ltb n.message.time (rounded_seconds millis - seconds)

module _ (d : Dexie) where
  open d use {subscriptions as S, notifications as N}

  add_notifications-some :
      (s : String) (ms : List Message) (last : Message) (db : Db d)
      → get_last? ms ≡ some last
      → add_notifications d s ms db
        ≡ some (
            update d s
              (with_last last.id)
              (record db { notifications = N.bulk_put db.notifications (map (polled s) ms) }))
  unfolding add_notifications
  add_notifications-some s ms last db e = ground arith

  -- A poll whose answer ends with the message `last` stores every message of the answer, of two with the
  -- same id the later one, in place of what was there and without a mark as new; every other notification
  -- stays. The subscription remembers `last` as its last message, and no other subscription changes.
  pub poll_lem :
      (s : Subscription) (ms : List Message) (last : Message) (db : Db d) (k : String)
      → get_last? ms ≡ some last
      → let db' = poll d s (some ms) db in
        (notification d db' k ≡ latest N k (map (polled s.id) ms) (notification d db k))
        × (subscription d db' k ≡ (
            if s.id == k
            then map_option (with_last last.id) (subscription d db k)
            else subscription d db k))
  unfolding poll update
  poll_lem s [] last db k e = cc
  poll_lem s (m ∷ ms) last db k e = rw (add_notifications-some s.id (m ∷ ms) last db e) (
    get-bulk_put N (map (polled s.id) (m ∷ ms)) db.notifications k,
    S.get-update db.subscriptions s.id k (with_last last.id) (λ x. refl),
  )

  prune_after-some :
      (millis seconds : ℕ) (db : Db d) (k : String)
      → notification d (prune_after d (some seconds) millis db) k
        ≡ unless
            (λ n. not (eqb seconds 0) && ltb (n.message.time + seconds) (rounded_seconds millis))
            (notification d db k)
  unfolding prune_notifications
  prune_after-some millis seconds db k = elim (Option-cases (notification d db k)) [
    | inl e ↦ ground (arith, e, N.get-delete_where db.notifications (is_old millis seconds) k)
    | inr (n, e) ↦ ground (arith, e, N.get-delete_where db.notifications (is_old millis seconds) k)
  ]

  -- With a retention of `seconds`, which is not 0, a pruning removes exactly the notifications that are older
  -- than that at the time `millis`, rounded to seconds; with a retention of 0 it removes none.
  pub prune_lem :
      (millis seconds : ℕ) (db : Db d) (k : String)
      → delete_after d db ≡ some seconds
      → notification d (prune d millis db) k
        ≡ unless
            (λ n. not (eqb seconds 0) && ltb (n.message.time + seconds) (rounded_seconds millis))
            (notification d db k)
  unfolding prune
  prune_lem millis seconds db k e =
      ap (λ o. notification d (prune_after d o millis db) k) e
      ∙ prune_after-some millis seconds db k
