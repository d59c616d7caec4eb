-- ===== src/Api/Laws.antt =====
-- What a poll makes of the body of a response.
use mathlib.Core.List.{◌++◌}
use ntfy.Base.{◌≡◌, refl, ◌∙◌, ap, false, Option, none, some, [], ◌∷◌, All}
use ntfy.Model.{Message}
use ntfy.Util.Lines.{Text, is_break}
use ntfy.Util.Lines.Laws.{fetch_lines-crlf, lines_of}
use ntfy.Api.{LineParser, and_messages, messages_of, poll_messages}

and_messages-none : (m : Option (Option Message)) → and_messages m none ≡ none
and_messages-none none = refl
and_messages-none (some m) = refl

-- A poll is rejected wherever a line of its body ends in a carriage return with a line feed, whatever
-- messages it holds, since the empty text is no JSON.
pub poll_messages-crlf :
    {Value : Type 0} (parse : LineParser) (decode : Value → Text) (value : Value) (s t : Text)
    → parse [] ≡ none
    → decode value ≡ s ++ "\r" ∷ "\n" ∷ t
    → All (λ c. is_break c ≡ false) s
    → poll_messages parse decode (value ∷ []) ≡ none
unfolding poll_messages messages_of
poll_messages-crlf parse decode value s t empty e h =
    ap (messages_of parse) (fetch_lines-crlf decode value s t e h)
    ∙ ap (λ o. and_messages (parse s) (and_messages o (messages_of parse (lines_of t)))) empty
    ∙ and_messages-none (parse s)
