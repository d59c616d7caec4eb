-- ===== src/Dialogs/Popup/Laws.antt =====
-- What unsubscribing removes, and that it undoes a subscription.
use ntfy.Base.{
  String, ◌≡◌, refl, sym, ◌∙◌, ap, Bool, true, false, not, ◌&&◌, Option, none, some, is_some, ◌==◌,
  eq_iff, arith, Bool-cases, inl, inr,
}
use ntfy.Model.{Config, Subscription, Notification}
use ntfy.Database.{Dexie, Db, subscription, notification}
use ntfy.Dexie.{unless}
use ntfy.Session.{session_of}
use ntfy.Errors.{Result, ok}
use ntfy.Util.Auth.{Base64}
use ntfy.Util.Url.{topic_url}
use ntfy.Subscriptions
use ntfy.Subscriptions.{Options, new_subscription}
use ntfy.Subscriptions.Sync.{get-add, id-add, notifications-add}
use ntfy.Subscriptions.Owners.{HasOwners}
use ntfy.Account.Calls
use ntfy.Page.{Page, Handler, ◌>>=◌, gets, navigate}
use ntfy.Page.Laws.{bind-ok}
use ntfy.Dialogs.Laws.{attempt_lem}
use ntfy.Dialogs.Subscribe.{subscribe_topic}
use ntfy.Dialogs.Subscribe.Laws.{subscribe_topic-add}
use ntfy.Dialogs.Popup.{remove_remotely, route_after, handle_unsubscribe}

module _ {d : Dexie} (config : Config) (base64 : Base64) where
  remove_remotely_lem :
      (p : Page d) (known : Bool) (s : Subscription) (answer : Result (Unit {0}))
      → ((remove_remotely config base64 known s answer p).0 ≡ ok tt)
        × ((remove_remotely config base64 known s answer p).1.db ≡ p.db)
  unfolding remove_remotely
  remove_remotely_lem p true s answer =
      attempt_lem config base64 p (λ c. Calls.delete_subscription c s.base_url s.topic) answer
  remove_remotely_lem p false s answer = (refl, refl)

  module _ (p : Page d) (s : Subscription) (answer : Result (Unit {0})) where
    -- Whatever the server answers, the subscription is removed from the browser, with what belongs to it,
    -- and the page goes to the first subscription that is left.
    pub handle_unsubscribe-remove :
        let (r, p') = handle_unsubscribe config base64 s answer p in
        (r ≡ ok tt)
        × (p'.db ≡ Subscriptions.remove d s p.db)
        × (p'.route
            ≡ some (route_after config (Subscriptions.first d (Subscriptions.remove d s p.db))))
    unfolding handle_unsubscribe
    handle_unsubscribe-remove =
        let p' : Page d = record p { db = Subscriptions.remove d s p.db } in
        let known : Bool = is_some (session_of p.session) && not s.internal in
        let remotely : Handler d (Unit {0}) = remove_remotely config base64 known s answer in
        let (e, e') = remove_remotely_lem p' known s answer in
        rw
          (bind-ok remotely
            (λ _. gets (λ q. Subscriptions.first d q.db) >>= λ selected.
              navigate (route_after config selected))
            p' tt e)
          (refl, e', ap (λ db. some (route_after config (Subscriptions.first d db))) e')

module _ (d : Dexie) (db : Db d) (base_url topic : String) (opts : Options) where
  open d use {subscriptions as S, notifications as N}

  abbrev added_and_removed : Db d
  added_and_removed =
      let (db', s) = Subscriptions.add d base_url topic opts db in Subscriptions.remove d s db'

  -- subscription
  subscription-undone :
      subscription d db (topic_url base_url topic) ≡ none
      → (k : String) → subscription d added_and_removed k ≡ subscription d db k
  unfolding Subscriptions.remove
  subscription-undone new k =
      let (db', s) = Subscriptions.add d base_url topic opts db in
      rw
        (
          S.get-delete db'.subscriptions s.id k,
          id-add d base_url topic opts db,
          get-add d base_url topic opts db k,
        )
        (ground (arith, eq_iff (topic_url base_url topic) k))

  notification-undone :
      subscription d db (topic_url base_url topic) ≡ none
      → HasOwners d db
      → (k : String) → notification d added_and_removed k ≡ notification d db k
  unfolding Subscriptions.remove
  notification-undone new h k =
      let (db', s) = Subscriptions.add d base_url topic opts db in
      rw
        (
          N.get-delete_where db'.notifications (λ n. n.subscription_id == s.id) k,
          id-add d base_url topic opts db,
          notifications-add d base_url topic opts db,
        )
        (not_removed (notification d db k) refl)
    where
      not_removed :
          (o : Option Notification)
          → notification d db k ≡ o
          → unless (λ (n : Notification). n.subscription_id == topic_url base_url topic) o ≡ o
      not_removed none e = refl
      not_removed (some n) e =
          let owned = h.owner k n e in
          elim (Bool-cases (n.subscription_id == topic_url base_url topic)) [
            | inl e' ↦
                let same : n.subscription_id ≡ topic_url base_url topic =
                  ground (arith, eq_iff n.subscription_id (topic_url base_url topic)) in
                let gone : subscription d db n.subscription_id ≡ none = rw same new in cc
            | inr e' ↦ rw e' refl
          ]

module _ {d : Dexie} (config : Config) (base64 : Base64) (p : Page d) where
  -- Subscribing to a topic that was not subscribed to and unsubscribing from it leaves every subscription
  -- and every notification of the browser as it was, whatever the server answers each time, where before
  -- each notification belonged to a subscription.
  pub handle_unsubscribe-subscribe_topic :
      (base_url topic : String) (opts : Options) (s : Subscription)
      (answer answer' : Result (Unit {0}))
      → subscription d p.db (topic_url base_url topic) ≡ none
      → HasOwners d p.db
      → (subscribe_topic config base64 base_url topic opts answer p).0 ≡ ok s
      → (k : String)
      → let db' : Db d =
          (handle_unsubscribe config base64 s answer'
            (subscribe_topic config base64 base_url topic opts answer p).1).1.db in
        (subscription d db' k ≡ subscription d p.db k)
        × (notification d db' k ≡ notification d p.db k)
  handle_unsubscribe-subscribe_topic base_url topic opts s answer answer' new h e k =
      let p' : Page d = (subscribe_topic config base64 base_url topic opts answer p).1 in
      let (db', s') = Subscriptions.add d base_url topic opts p.db in
      let (stored, added) = subscribe_topic-add config base64 p base_url topic opts answer in
      let same : ok s' ≡ ok s = sym stored ∙ e in
      let same' : s ≡ s' = cc in
      let undone =
        (handle_unsubscribe-remove config base64 p' s answer').1
        ∙ ap (Subscriptions.remove d s) added
        ∙ ap (λ x. Subscriptions.remove d x db') same' in
      rw undone (
        subscription-undone d p.db base_url topic opts new k,
        notification-undone d p.db base_url topic opts new h k,
      )
