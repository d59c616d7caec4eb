-- ===== src/Api/Tests.antt =====
-- Answers of the server.
use ntfy.Base.{◌≡◌, refl, false, some, none, [], ◌∷◌}
use ntfy.Util.Lines.{Text}
use ntfy.Base.Decimal.{to_string}
use ntfy.Api.{LineParser, on_ready_state_change, rejected, topic_auth}

abbrev parse : LineParser
parse [] = none
parse (c ∷ line) = some none

abbrev same : Text → Text
same s = s

denied : topic_auth 403 ≡ some false
unfolding topic_auth
denied = refl

described :
    on_ready_state_change 4 413 (some (record { code = some 41301; error = some "too large" }))
    ≡ rejected "Error 41301: too large"
unfolding on_ready_state_change to_string
described = refl
