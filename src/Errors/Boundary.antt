-- ===== src/Errors/Boundary.antt =====
-- web/src/components/ErrorBoundary.jsx: what is displayed when a component throws an error, and the text
-- that can be copied then. The better stack trace, which comes later, is an argument.
mod Tests
use Prim.Native.String.{◌++◌}
use mathlib.Core.List.{List, map}
use ntfy.Base.{
  String, ◌≡◌, refl, Bool, true, false, ◌&&◌, ◌||◌, Option, none, some, is_some, ◌==◌,
  if◌then◌else◌, Bool-cases, inl, inr, arith,
}
use ntfy.Base.Search.{includes, split_from}
use ntfy.Base.Text.{join}
use ntfy.Base.Trim.{trim}

-- An error, with what `toString` gives.
pub record Caught : Type 0 where
  pub name : String
  pub message : Option String
  pub text : String

pub record Boundary : Type 0 where
  pub error : Bool
  pub original_stack : Option String
  pub nice_stack : Option String
  pub unsupported_indexed_db : Bool

abbrev pub no_error : Boundary
no_error = record {
  error = false;
  original_stack = none;
  nice_stack = none;
  unsupported_indexed_db = false;
}

-- `message?.indexOf("InvalidStateError") !== -1`, which holds of a message that is undefined, too.
abbrev mentions_state : Option String → Bool
mentions_state none = true
mentions_state (some message) = includes message "InvalidStateError"

unfoldable pub is_unsupported_indexed_db : Caught → Bool
unfolding includes
is_unsupported_indexed_db e =
    e.name == "InvalidStateError" || e.name == "DatabaseClosedError" && mentions_state e.message

unfoldable pub prettier_stack : String → String
unfolding split_from trim join
prettier_stack component_stack =
    join "\n" (map (λ line. "  at " ++ line) (split_from "\n" 0 (trim component_stack)))

unfoldable pub handle_error : Caught → String → Boundary → Boundary
unfolding prettier_stack
handle_error e component_stack s = record s {
  error = true;
  original_stack = some (e.text ++ ("\n" ++ prettier_stack component_stack));
}

unfoldable pub handle_unsupported_indexed_db : Boundary → Boundary
handle_unsupported_indexed_db s = record s { error = true; unsupported_indexed_db = true }

unfoldable pub component_did_catch : Caught → String → Boundary → Boundary
unfolding is_unsupported_indexed_db handle_error handle_unsupported_indexed_db
component_did_catch e component_stack s =
    if is_unsupported_indexed_db e
    then handle_unsupported_indexed_db s
    else handle_error e component_stack s

-- The better stack trace has come.
unfoldable pub stack_fetched : String → Boundary → Boundary
stack_fetched nice_stack s = record s { nice_stack = some nice_stack }

abbrev before_original : Option String → String
before_original none = ""
before_original (some nice_stack) = nice_stack ++ "\n\n"

-- A stack that is not there is written as JavaScript writes it.
abbrev or_null : Option String → String
or_null none = "null"
or_null (some stack) = stack

unfoldable pub copy_stack : Boundary → String
copy_stack s = before_original s.nice_stack ++ (or_null s.original_stack ++ "\n")

pub data Displayed : Type 0 where
  children unsupported_page error_page : Displayed

unfoldable pub render : Boundary → Displayed
render s =
    if s.error
    then (if s.unsupported_indexed_db then Displayed.unsupported_page else Displayed.error_page)
    else Displayed.children

pub data Reach : Boundary → Type 0 where
  start : Reach no_error
  catches :
      {s : Boundary} (e : Caught) (component_stack : String)
      → Reach s
      → Reach (component_did_catch e component_stack s)
  fetches :
      {s : Boundary} (nice_stack : String)
      → Reach s
      → s.error ≡ true
      → Reach (stack_fetched nice_stack s)

abbrev pub HasStack : Boundary → Type 0
HasStack s = (s.error ≡ true) → (s.unsupported_indexed_db || is_some s.original_stack) ≡ true

catches-HasStack :
    (e : Caught) (component_stack : String) (s : Boundary)
    → HasStack (component_did_catch e component_stack s)
unfolding component_did_catch handle_error handle_unsupported_indexed_db
catches-HasStack e component_stack s = elim (Bool-cases (is_unsupported_indexed_db e)) [
  | inl k ↦ rw k (λ _. refl)
  | inr k ↦ rw k (λ _. ground arith)
]

has_stack : {s : Boundary} → Reach s → HasStack s
unfolding stack_fetched
has_stack Reach.start = λ e. cc
has_stack (Reach.catches {s} e component_stack r) = catches-HasStack e component_stack s
has_stack (Reach.fetches nice_stack r k) = has_stack r

page_lem :
    (error unsupported there : Bool)
    → (error ≡ true → (unsupported || there) ≡ true)
    → (if error
        then (if unsupported then Displayed.unsupported_page else Displayed.error_page)
        else Displayed.children)
      ≡ Displayed.error_page
    → there ≡ true
page_lem false unsupported there h e = cc
page_lem true true there h e = cc
page_lem true false there h e = h refl

-- Whatever errors are caught and whenever their better traces come: where the page with the stack trace
-- is displayed, there is a trace to copy.
pub original_stack-Reach :
    {s : Boundary} → Reach s → render s ≡ Displayed.error_page → is_some s.original_stack ≡ true
unfolding render
original_stack-Reach {s} r e =
    page_lem s.error s.unsupported_indexed_db (is_some s.original_stack) (has_stack r) e
