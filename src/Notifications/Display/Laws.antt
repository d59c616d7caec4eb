-- ===== src/Notifications/Display/Laws.antt =====
-- The errors of actions are displayed.
use Prim.Native.Char.{Char}
use Prim.Native.String.{[], ◌∷◌, ◌++◌}
use text.Mathlib.TextLemmas.{cons-ne-nil}
use mathlib.Core.List.{[], ◌∷◌}
use ntfy.Base.Decimal.{to_string}
use ntfy.Base.{
  ℕ, String, ◌≡◌, refl, sym, ◌∙◌, subst, true, false, Option, none, some, is_some, List, map, any,
  contains, get_or, truthy, ◌==◌, eq_iff, eq_refl, arith, Bool-cases, inl, inr,
}
use ntfy.Base.Text.{prepend, append-eq-prepend}
use ntfy.Model.{Action, Notification}
use ntfy.Database.{Dexie, Db, notification}
use ntfy.Notifications.Actions.{
  answered, with_status, with_actions, is_success, failed, end_http_action,
}
use ntfy.Notifications.Actions.Laws.{end_http_action_lem}
use ntfy.Notifications.Display.{add_error, errors_of}

truthy_of_ne-nil : (s : String) → (s == "") ≡ false → truthy (some s) ≡ some s
truthy_of_ne-nil s h = ground arith

contains-add_error :
    (o : Option String) (errors : List String) (e : String)
    → contains errors e ≡ true
    → contains (add_error o errors) e ≡ true
contains-add_error none errors e h = h
contains-add_error (some e') errors e h = ground arith

errors_of-with_status :
    (id e : String) (progress : ℕ) (actions : List Action)
    → truthy (some e) ≡ some e
    → any (λ (a : Action). a.id == id) actions ≡ true
    → contains (errors_of (map (with_status id progress (some e)) actions)) e ≡ true
errors_of-with_status id e progress [] t h = h
errors_of-with_status id e progress (a ∷ actions) t h = elim (Bool-cases (a.id == id)) [
  | inl same ↦ rw same (
      subst
        (λ o.
          contains (add_error o (errors_of (map (with_status id progress (some e)) actions))) e
          ≡ true)
        (sym t) (ground (arith, eq_refl e)))
  | inr other ↦ rw other (
      contains-add_error (truthy a.error) _ e
        (errors_of-with_status id e progress actions t (ground (arith, other))))
]

abbrev pub unexpected : Action → ℕ → String
unexpected a status = a.label ++ (": Unexpected response HTTP " ++ to_string status)

truthy-cons : (c : Char) (s : String) → truthy (some (c ∷ s)) ≡ some (c ∷ s)
truthy-cons c s =
    let ne : (c ∷ s) ≡ "" → ⊥ = cons-ne-nil c s in
    truthy_of_ne-nil (c ∷ s) (elim (Bool-cases ((c ∷ s) == "")) [
      | inl e ↦ absurd (ne ((eq_iff (c ∷ s) "").0 e))
      | inr e ↦ e
    ])

truthy-append :
    (s t : String) (c : Char) → truthy (some (prepend s (c ∷ t))) ≡ some (prepend s (c ∷ t))
truthy-append [] t c = truthy-cons c t
truthy-append (d ∷ s) t c = truthy-cons d (prepend s (c ∷ t))

truthy-unexpected :
    (a : Action) (status : ℕ) → truthy (some (unexpected a status)) ≡ some (unexpected a status)
truthy-unexpected a status =
    rw
      (
        append-eq-prepend a.label (": Unexpected response HTTP " ++ to_string status),
        append-eq-prepend ": Unexpected response HTTP " (to_string status),
      )
      (truthy-append a.label (prepend " Unexpected response HTTP " (to_string status)) ":")

abbrev errors_in : Option Notification → List String
errors_in none = []
errors_in (some n) = errors_of (get_or n.message.actions [])

module _ (d : Dexie) where
  -- When an action is answered with a status that is no success, the errors below its notification name
  -- the action and the status.
  pub error_is_displayed :
      (n n' : Notification) (a : Action) (actions : List Action) (status : ℕ) (db : Db d)
      → is_success status ≡ false
      → n.message.actions ≡ some actions
      → any (λ (b : Action). b.id == a.id) actions ≡ true
      → notification d (end_http_action d n a (answered status) db) n.message.id ≡ some n'
      → contains (errors_of (get_or n'.message.actions [])) (unexpected a status) ≡ true
  error_is_displayed n n' a actions status db bad e h there =
      subst (λ o. contains (errors_in o) (unexpected a status) ≡ true) (sym same ∙ there)
        (rw e (
          errors_of-with_status a.id (unexpected a status) failed actions
            (truthy-unexpected a status) h))
    where
      was_there : is_some (notification d db n.message.id) ≡ true
      was_there = ground (arith, end_http_action_lem d n a (answered status) db n.message.id, there)

      same :
          notification d (end_http_action d n a (answered status) db) n.message.id
          ≡ some (with_actions (with_status a.id failed (some (unexpected a status))) n)
      same =
          end_http_action_lem d n a (answered status) db n.message.id
          ∙ rw (was_there, eq_refl n.message.id, bad) refl
