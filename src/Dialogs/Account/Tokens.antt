-- ===== src/Dialogs/Account/Tokens.antt =====
-- `TokensTable` of web/src/components/Account.jsx: the order of the access tokens, what may be done with
-- each, and the dialogs that are opened from the table. How `localeCompare` orders two texts is a
-- parameter: `locale_less a b` says that it is negative.
pub mod Laws
mod Tests
use ntfy.Base.{
  ℕ, ◌+◌, String, ◌≡◌, Bool, true, false, not, Option, none, some, List, map, truthy, truthy_number,
  get_or, ◌==◌, if◌then◌else◌,
}
use ntfy.Base.Sort.{sort}

-- `expires` is 0 for a token that does not expire.
pub record Token : Type 0 where
  pub token : String
  pub label : Option String
  pub expires : ℕ

-- `token.token === session.token()`
abbrev pub is_current : Option String → Token → Bool
is_current none t = false
is_current (some session) t = t.token == session

module _ (locale_less : String → String → Bool) (session : Option String) where
  abbrev pub comes_before : Token → Token → Bool
  comes_before a b =
      if is_current session a
      then true
      else if is_current session b
      then false
      else locale_less a.token b.token

  unfoldable pub sorted_tokens : List Token → List Token
  unfolding sort
  sorted_tokens tokens = sort comes_before tokens

-- What a row shows as the label: that it is the current session, or a text.
pub data Label : Type 0 where
  current_session : Label
  text : String → Label

pub record Row : Type 0 where
  pub label : Label
  pub expires : Option ℕ
  pub editable : Bool

unfoldable pub row : Option String → Token → Row
row session t = record {
  label =
      if is_current session t
      then Label.current_session
      else Label.text (get_or (truthy t.label) "-");
  expires = truthy_number (some t.expires);
  editable = not (is_current session t);
}

-- The state of the table: the dialogs, the first of which a new key resets, and the token that they
-- are about.
pub record Table : Type 0 where
  pub upsert_dialog_key : ℕ
  pub upsert_dialog_open : Bool
  pub delete_dialog_open : Bool
  pub selected_token : Option Token

abbrev pub new_table : Table
new_table = record {
  upsert_dialog_key = 0;
  upsert_dialog_open = false;
  delete_dialog_open = false;
  selected_token = none;
}

unfoldable pub handle_edit_click : Token → Table → Table
handle_edit_click t s = record {
  upsert_dialog_key = s.upsert_dialog_key + 1;
  upsert_dialog_open = true;
  delete_dialog_open = s.delete_dialog_open;
  selected_token = some t;
}

unfoldable pub handle_delete_click : Token → Table → Table
handle_delete_click t s = record s { delete_dialog_open = true; selected_token = some t }

unfoldable pub handle_dialog_close : Table → Table
handle_dialog_close s = record {
  upsert_dialog_key = s.upsert_dialog_key;
  upsert_dialog_open = false;
  delete_dialog_open = false;
  selected_token = none;
}

-- What the user can do: the buttons of a row are there where it is editable.
pub data Step (session : Option String) : Table → Table → Type 0 where
  edit :
      (t : Token) (s : Table)
      → (row session t).editable ≡ true
      → Step session s (handle_edit_click t s)
  delete :
      (t : Token) (s : Table)
      → (row session t).editable ≡ true
      → Step session s (handle_delete_click t s)
  close : (s : Table) → Step session s (handle_dialog_close s)

pub data Reach (session : Option String) : Table → Type 0 where
  start : Reach session new_table
  step : {s s' : Table} → Reach session s → Step session s s' → Reach session s'
