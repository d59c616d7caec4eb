-- ===== src/ServiceWorker/Push/Laws.antt =====
-- Messages that come by push and by WebSocket.
use ntfy.Base.{
  String, ◌≡◌, refl, sym, ◌∙◌, ap, subst, true, false, none, some, List, [], ◌∷◌, is_some, arith,
  Bool-cases, inl, inr, if◌then◌else◌,
}
use ntfy.Model.{Message, Subscription}
use ntfy.Database.{Dexie, Db, subscription, notification}
use ntfy.Subscriptions
use ntfy.Subscriptions.{unread, update, with_last}
use ntfy.Delivery.{Parser, handle_message}
use ntfy.Delivery.Messages.{handle_message_again}
use ntfy.ServiceWorker.Push.{
  Payload, Effect, broadcast, set_badge, show_message, badge_count, added_rows, add_notification,
  show_added, handle_push_message, handle_push,
}

module _ (d : Dexie) where
  open d use {notifications as N}

  old_refused :
      (id : String) (m : Message) (db : Db d)
      → is_some (notification d db m.id) ≡ true
      → (add_notification d id m db ≡ none) × ((Subscriptions.add_notification d id m db).0 ≡ db)
  unfolding add_notification added_rows Subscriptions.add_notification update
  old_refused id m db old = ground (arith, N.add_lem db.notifications (unread id m))

  new_added :
      (id : String) (m : Message) (db : Db d)
      → is_some (notification d db m.id) ≡ false
      → add_notification d id m db ≡ some (Subscriptions.add_notification d id m db).0
  unfolding add_notification added_rows Subscriptions.add_notification update
  new_added id m db new = ground (arith, N.add_lem db.notifications (unread id m))

  -- What a push message makes visible.
  abbrev pub shown : Payload → Db d → List Effect
  shown p db =
      if is_some (notification d db p.message.id)
      then broadcast p.message ∷ []
      else broadcast p.message
        ∷ set_badge
            (badge_count d (Subscriptions.add_notification d p.subscription_id p.message db).0)
        ∷ show_message p.subscription_id p.message
        ∷ []

  pub handle_push_lem :
      (p : Payload) (db : Db d)
      → p.event ≡ "message"
      → handle_push d p db
        ≡ ((Subscriptions.add_notification d p.subscription_id p.message db).0, shown p db)
  handle_push_lem p db e =
      is_message ∙ elim (Bool-cases (is_some (notification d db p.message.id))) [
        | inl old ↦
            let (refused, same) = old_refused p.subscription_id p.message db old in
            ap (show_added d p.subscription_id p.message db) refused ∙ rw (same, old) refl
        | inr new ↦
            ap (show_added d p.subscription_id p.message db)
              (new_added p.subscription_id p.message db new)
            ∙ rw new refl
      ]
    where
      is_message :
          handle_push d p db
          ≡ show_added d p.subscription_id p.message db
              (add_notification d p.subscription_id p.message db)
      is_message = unfold handle_push handle_push_message in rw e refl

  -- A message that came by push, and comes by WebSocket as well for a subscription that is not internal,
  -- is not notified of again and changes nothing.
  pub handle_message-handle_push :
      (parse : Parser) (p : Payload) (db : Db d) (s : Subscription)
      → p.event ≡ "message"
      → subscription d db p.subscription_id ≡ some s
      → s.internal ≡ false
      → let db' = (handle_push d p db).0 in
        handle_message d parse p.subscription_id p.message db' ≡ (db', [])
  handle_message-handle_push parse p db s e there i =
      subst (λ db'. handle_message d parse p.subscription_id p.message db' ≡ (db', []))
        (sym (ap (λ (r : Db d × List Effect). r.0) (handle_push_lem p db e)))
        (handle_message_again d parse p.subscription_id p.message db (s, there, i))
