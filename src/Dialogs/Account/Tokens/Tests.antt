-- ===== src/Dialogs/Account/Tokens/Tests.antt =====
-- Two tokens, the second of which is that of the session.
use mathlib.Core.List.{Perm}
use ntfy.Base.{◌≡◌, refl, true, none, some, List, [], ◌∷◌}
use ntfy.Base.Order.{text_lt, text_lt_asym, text_lt_trans}
use ntfy.Base.Sort.{sort}
use ntfy.Dialogs.Account.Tokens.{
  Token, sorted_tokens, new_table, handle_edit_click, row, Step, Reach,
}
use ntfy.Dialogs.Account.Tokens.Laws.{IsCollation, IsInOrder, sorted_tokens_lem}

abbrev script : Token
script = record { token = "tk_a"; label = some "script"; expires = 0 }

abbrev current : Token
current = record { token = "tk_b"; label = none; expires = 5 }

abbrev tokens : List Token
tokens = script ∷ current ∷ []

current_first : sorted_tokens text_lt (some "tk_b") tokens ≡ current ∷ script ∷ []
unfolding sorted_tokens sort
current_first = refl

collation : IsCollation text_lt
collation = record { asym = text_lt_asym; trans = text_lt_trans }

sorted_tokens_lem_example :
    Perm (sorted_tokens text_lt (some "tk_b") tokens) tokens
    × IsInOrder text_lt (some "tk_b") (sorted_tokens text_lt (some "tk_b") tokens)
sorted_tokens_lem_example =
    sorted_tokens_lem text_lt (some "tk_b") tokens collation (λ e. absurd cc, (λ _. tt, tt))

edited : Reach (some "tk_b") (handle_edit_click script new_table)
edited = Reach.step Reach.start (Step.edit script new_table editable)
  where
    editable : (row (some "tk_b") script).editable ≡ true
    editable = unfold row in refl
