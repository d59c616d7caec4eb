-- ===== src/Base/Dict.antt =====
-- JavaScript objects that are used as maps, in the order in which their properties were made.
use ntfy.Base.{
  String, ◌≡◌, Option, none, some, List, [], ◌∷◌, arith, ◌==◌, eq_iff, if◌then◌else◌, true, false,
}

abbrev pub Object {ℓ} : Type ℓ → Type ℓ
Object V = List (String × V)

module _ {ℓ} {V : Type ℓ} where
  -- `object[name]`
  unfoldable pub property : Object V → String → Option V
  property [] name = none
  property (entry ∷ object) name = elim (entry.0 == name) [
    | true ↦ some entry.1
    | false ↦ property object name
  ]

  -- `{ ...object, [name]: value }`
  unfoldable pub assign : Object V → String → V → Object V
  assign [] name value = (name, value) ∷ []
  assign (entry ∷ object) name value = elim (entry.0 == name) [
    | true ↦ (name, value) ∷ object
    | false ↦ entry ∷ assign object name value
  ]

  pub property-assign :
      (object : Object V) (name other : String) (value : V)
      → property (assign object name value) other
        ≡ (if name == other then some value else property object other)
  unfolding property assign
  property-assign [] name other value = ground arith
  property-assign (entry ∷ object) name other value = ground (
    arith,
    property-assign object name other value,
    eq_iff entry.0 name,
    eq_iff entry.0 other,
    eq_iff name other,
  )
