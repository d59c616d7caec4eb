-- ===== src/Dialogs/Preferences/Reservations.antt =====
-- `Reservations` and `ReservationsTable` of web/src/components/Preferences.jsx: the topics that are
-- reserved, and for which of them a subscription is offered. The names that every object of JavaScript
-- inherits are an argument; a subscription with the topic `__proto__`, which changes what the object
-- inherits, is not looked at.
mod Tests
use mathlib.Core.List.{List, [], ◌∷◌, foldl}
use ntfy.Base.{
  ℕ, ◌+◌, String, Bool, true, false, not, ◌&&◌, ◌||◌, Option, none, some, map, filter, contains,
  any, is_some, get_or, ltb, leb, ◌==◌, if◌then◌else◌, ◌≡◌, refl, ◌∙◌, arith,
}
use ntfy.Base.Dict.{Object, property, assign, property-assign}
use ntfy.Model.{Config, Subscription, Reservation}
use ntfy.Session.{Session, session_of}
use ntfy.Profile.{Profile}
use ntfy.Dialogs.Preferences.{limit_reached}

-- The rows of the table, none where it is not there, and whether a reservation can be added.
pub record Card : Type 0 where
  pub table : Option (List Reservation)
  pub limit_alert : Bool
  pub add_disabled : Bool

abbrev pub table_of : List Reservation → Option (List Reservation)
table_of [] = none
table_of (r ∷ reservations) = some (r ∷ reservations)

abbrev pub card_of : Option Profile → Option Card
unfolding limit_reached
card_of none = none
card_of (some account) = some (record {
  table = table_of (get_or account.reservations []);
  limit_alert = limit_reached account;
  add_disabled = limit_reached account;
})

unfoldable pub reservations : Bool → Session → Option Profile → Option Card
unfolding session_of
reservations enable_reservations session account =
    if not enable_reservations || not (is_some (session_of session)) then none else card_of account

-- The subscriptions of the own server by their topics, the last one where two have the same.
unfoldable pub local_subscriptions : Config → List Subscription → Object Subscription
unfolding assign
local_subscriptions config subscriptions =
    foldl (λ object (s : Subscription). assign object s.topic s) []
      (filter (λ (s : Subscription). s.base_url == config.base_url) subscriptions)

-- !localSubscriptions[reservation.topic]
unfoldable pub not_subscribed : List String → Config → List Subscription → Reservation → Bool
unfolding local_subscriptions property
not_subscribed inherited config subscriptions r = not (
    is_some (property (local_subscriptions config subscriptions) r.topic)
    || contains inherited r.topic)

-- The dialogs of the table.
pub record Table : Type 0 where
  pub dialog_key : ℕ
  pub dialog_reservation : Option Reservation
  pub edit_dialog_open : Bool
  pub delete_dialog_open : Bool

unfoldable pub handle_edit_click : Reservation → Table → Table
handle_edit_click r s = record {
  dialog_key = s.dialog_key + 1;
  dialog_reservation = some r;
  edit_dialog_open = true;
  delete_dialog_open = s.delete_dialog_open;
}

unfoldable pub handle_delete_click : Reservation → Table → Table
handle_delete_click r s = record {
  dialog_key = s.dialog_key + 1;
  dialog_reservation = some r;
  edit_dialog_open = s.edit_dialog_open;
  delete_dialog_open = true;
}

fold_lem :
    (subscriptions : List Subscription) (object : Object Subscription) (topic : String)
    → is_some (
        property
          (foldl (λ object (s : Subscription). assign object s.topic s) object subscriptions)
          topic)
      ≡ (any (λ (s : Subscription). s.topic == topic) subscriptions
          || is_some (property object topic))
fold_lem [] object topic = refl
fold_lem (s ∷ subscriptions) object topic =
    fold_lem subscriptions (assign object s.topic s) topic
    ∙ rw (property-assign object s.topic topic s) (ground arith)

any-filter :
    {A : Type 0} (p q : A → Bool) (xs : List A) → any q (filter p xs) ≡ any (λ x. p x && q x) xs
any-filter p q [] = refl
any-filter p q (x ∷ xs) = ground (arith, any-filter p q xs)

-- A subscription is offered for a reserved topic exactly where there is none of this topic on the own
-- server, and no object inherits something under the name of the topic.
pub not_subscribed_lem :
    (inherited : List String) (config : Config) (subscriptions : List Subscription)
    (r : Reservation)
    → not_subscribed inherited config subscriptions r
      ≡ not (
          any
            (λ (s : Subscription). s.base_url == config.base_url && s.topic == r.topic)
            subscriptions
          || contains inherited r.topic)
unfolding not_subscribed local_subscriptions
not_subscribed_lem inherited config subscriptions r =
    rw
      (
        fold_lem (filter (λ (s : Subscription). s.base_url == config.base_url) subscriptions) []
            r.topic,
        any-filter (λ (s : Subscription). s.base_url == config.base_url)
            (λ (s : Subscription). s.topic == r.topic) subscriptions,
      )
      (ground arith)
