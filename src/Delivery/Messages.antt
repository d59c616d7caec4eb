-- ===== src/Delivery/Messages.antt =====
-- What is shown of the messages that come in.
use ntfy.Base.{
  ℕ, ◌≤◌, none, Option, ltb, ◌==◌, ◌∷◌, eq_iff, String, ◌≡◌, refl, sym, ◌∙◌, ap, subst, Bool, true,
  false, get_or, some, List, [], is_some, if◌then◌else◌, arith, Bool-cases, inl, inr, eq_refl,
}
use ntfy.Dexie.{map_option}
use ntfy.Model.{Subscription, Message, Setting}
use ntfy.Database.{Dexie, Db, subscription, notification}
use ntfy.Subscriptions.{add_notification, update, with_last, unread}
use ntfy.Subscriptions.Notifications.{add_notification_lem, add_notification_twice}
use ntfy.Settings.{min_priority, number_or}
use ntfy.Delivery.{
  Effect, notify_user, Parser, notify_if, notify_found, notify, notify_added, handle_notification,
  handle_found, handle_message,
}

module _ (d : Dexie) where
  open d use {notifications as N}

  notify_added-false :
      (id : String) (m : Message) (r : Db d × Bool)
      → r.1 ≡ false
      → notify_added d id m r ≡ (r.0, [])
  unfolding notify_added
  notify_added-false id m (db, false) e = refl
  notify_added-false id m (db, true) e = cc

  notify_added-true :
      (id : String) (m : Message) (s : Subscription) (r : Db d × Bool)
      → r.1 ≡ true
      → subscription d r.0 id ≡ some s
      → notify_added d id m r ≡ (r.0, notify_if (min_priority d r.0) s m)
  unfolding notify_added notify
  notify_added-true id m s (db, false) e e' = cc
  notify_added-true id m s (db, true) e e' =
      ap (λ o. (db, get_or (notify_found (min_priority d db) o m) [])) e'

  min_priority-add_notification :
      (id : String) (m : Message) (db : Db d)
      → min_priority d (add_notification d id m db).0 ≡ min_priority d db
  unfolding min_priority
  min_priority-add_notification id m db =
      ap (λ t. number_or 1 (map_option (λ (x : Setting). x.value) (d.prefs.get t "minPriority")))
        (prefs_kept)
    where
      prefs_kept : (add_notification d id m db).0.prefs ≡ db.prefs
      prefs_kept = unfold add_notification update in ground arith

  handle_message_found :
      (parse : Parser) (id : String) (m : Message) (db : Db d) (s : Subscription)
      → subscription d db id ≡ some s
      → s.internal ≡ false
      → handle_message d parse id m db ≡ notify_added d id m (add_notification d id m db)
  unfolding handle_message handle_found handle_notification
  handle_message_found parse id m db s e i = ap (λ o. handle_found d o parse id m db) e ∙ rw i refl

  handle_message-eq :
      (parse : Parser) (id : String) (m : Message) (db : Db d) (s : Subscription)
      → subscription d db id ≡ some s
      → s.internal ≡ false
      → handle_message d parse id m db ≡ (
        (add_notification d id m db).0,
        if is_some (notification d db m.id)
            then []
            else notify_if (min_priority d db) (with_last m.id s) m,
      )
  handle_message-eq parse id m db s e i =
      let (added, _, known) = add_notification_lem d id m db id in
      handle_message_found parse id m db s e i
      ∙ elim (Bool-cases (is_some (notification d db m.id))) [
        | inl old ↦
            notify_added-false id m (add_notification d id m db) (ground (arith, added, old))
            ∙ rw old refl
        | inr new ↦
            notify_added-true id m (with_last m.id s) (add_notification d id m db)
              (ground (arith, added, new)) (known ∙ ground (arith, e, new, eq_refl id))
            ∙ rw (new, min_priority-add_notification id m db) refl
      ]

  -- A user wants to be notified of a message of this subscription: it is not muted, and the least
  -- priority is a number that the message's, or else 3, is not below.
  abbrev pub IsWanted : Option ℕ → Subscription → Message → Type 0
  IsWanted none s m = s.muted_until ≡ 0
  IsWanted (some minimum) s m = (s.muted_until ≡ 0) × (minimum ≤ get_or m.priority 3)

  abbrev pub Notifies : Option ℕ → Subscription → Message → List Effect → Type 0
  Notifies minimum s m effects =
      (IsWanted minimum s m → effects ≡ notify_user s m ∷ [])
      × ((IsWanted minimum s m → ⊥) → effects ≡ [])

  notify_if-Notifies :
      (minimum : Option ℕ) (s : Subscription) (m : Message)
      → Notifies minimum s m (notify_if minimum s m)
  notify_if-Notifies none s m = elim (Bool-cases (ltb 0 s.muted_until)) [
    | inl e ↦ (λ h. absurd (ground arith), λ h. rw e refl)
    | inr e ↦ (λ h. rw e refl, λ h. absurd (h (ground arith)))
  ]
  notify_if-Notifies (some minimum) s m = elim (Bool-cases (ltb 0 s.muted_until)) [
    | inl e ↦ (λ (h, _). absurd (ground arith), λ h. rw e refl)
    | inr e ↦ elim (Bool-cases (ltb (get_or m.priority 3) minimum)) [
      | inl e' ↦ (λ (_, h). absurd (ground arith), λ h. rw (e, e') refl)
      | inr e' ↦ (λ h. rw (e, e') refl, λ h. absurd (h (ground arith, ground arith)))
    ]
  ]

  unchanged :
      (id : String) (m : Message) (db : Db d)
      → is_some (notification d db m.id) ≡ true
      → (add_notification d id m db).0 ≡ db
  unfolding add_notification
  unchanged id m db old = ground (arith, old, N.add_lem db.notifications (unread id m))

  -- What becomes of a message whose id is not stored yet.
  abbrev pub Arrives : String → Message → Db d → Subscription → Db d × List Effect → Type 0
  Arrives id m db s (db', effects) =
      ((k : String)
        → notification d db' k ≡ (
            if m.id == k
            then some (record { message = m; subscription_id = id; new = some 1 })
            else notification d db k))
      × ((k : String)
          → subscription d db' k
            ≡ (if id == k then some (record s { last = some m.id }) else subscription d db k))
      × Notifies (min_priority d db) (record s { last = some m.id }) m effects

  -- A message for a subscription that is not internal: if its id is stored already, nothing changes and
  -- nothing is displayed. If not, it is stored as new, under its id, for this subscription, which has it
  -- as its last one, and no other notification or subscription changes; and it is displayed exactly if
  -- the subscription is not muted and the priority of the message, or else 3, is not below the least
  -- one, where that is a number.
  pub handle_message_lem :
      (parse : Parser) (id : String) (m : Message) (db : Db d) (s : Subscription)
      → subscription d db id ≡ some s
      → s.internal ≡ false
      → let result : Db d × List Effect = handle_message d parse id m db in
        (is_some (notification d db m.id) ≡ true → result ≡ (db, []))
        × (notification d db m.id ≡ none → Arrives id m db s result)
  handle_message_lem parse id m db s e i = (
    λ old.
        handle_message-eq parse id m db s e i ∙ rw old (ap (λ x. (x, [])) (unchanged id m db old)),
    λ new.
        subst (Arrives id m db s)
          {x = ((add_notification d id m db).0, notify_if (min_priority d db) (with_last m.id s) m)}
          (sym (handle_message-eq parse id m db s e i ∙ rw new refl))
          (
            λ k.
                let (_, there, _) = add_notification_lem d id m db k in
                there ∙ ground (arith, new, eq_iff m.id k),
            λ k.
                let (_, _, known) = add_notification_lem d id m db k in
                known ∙ ground (arith, new, e, eq_iff id k),
            notify_if-Notifies (min_priority d db) (with_last m.id s) m,
          ),
  )

  stored_is_some :
      (id : String) (m : Message) (db : Db d)
      → is_some (notification d (add_notification d id m db).0 m.id) ≡ true
  stored_is_some id m db =
      let (_, there, _) = add_notification_lem d id m db m.id in
      ap is_some there ∙ ground (arith, eq_refl m.id)

  -- The subscription of a stored message is there, and is internal as before.
  abbrev pub IsListening : String → Db d → Type 0
  IsListening id db = (s : Subscription) × (subscription d db id ≡ some s) × (s.internal ≡ false)

  still-IsListening :
      (id : String) (m : Message) (db : Db d)
      → IsListening id db
      → IsListening id (add_notification d id m db).0
  still-IsListening id m db (s, e, i) =
      let (_, _, known) = add_notification_lem d id m db id in
      elim (Bool-cases (is_some (notification d db m.id))) [
        | inl old ↦ (s, known ∙ ground (arith, e, old), i)
        | inr new ↦ (with_last m.id s, known ∙ ground (arith, e, new, eq_refl id), i)
      ]

  pub handle_message_again :
      (parse : Parser) (id : String) (m : Message) (db : Db d)
      → IsListening id db
      → let db' = (add_notification d id m db).0 in handle_message d parse id m db' ≡ (db', [])
  handle_message_again parse id m db h =
      let (s', e', i') = still-IsListening id m db h in
      handle_message-eq parse id m (add_notification d id m db).0 s' e' i'
      ∙ rw (add_notification_twice d id m db, stored_is_some id m db) refl

  -- The second time that a message comes for a subscription that is not internal, nothing changes and
  -- the user is not notified.
  pub handle_message_twice :
      (parse : Parser) (id : String) (m : Message) (db : Db d) (s : Subscription)
      → subscription d db id ≡ some s
      → s.internal ≡ false
      → let db' = (handle_message d parse id m db).0 in handle_message d parse id m db' ≡ (db', [])
  handle_message_twice parse id m db s e i =
      subst (λ db'. handle_message d parse id m db' ≡ (db', []))
        (sym (ap (λ (r : Db d × List Effect). r.0) (handle_message-eq parse id m db s e i)))
        (handle_message_again parse id m db (s, e, i))
