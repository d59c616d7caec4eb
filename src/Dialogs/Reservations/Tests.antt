-- ===== src/Dialogs/Reservations/Tests.antt =====
-- A reservation that is there already.
use ntfy.Base.{◌≡◌, refl, true, [], ◌∷◌}
use ntfy.Model.{Permission}
use ntfy.Dialogs.Reservations.{already_reserved}

reserved_twice :
    already_reserved (record { topic = "mine"; everyone = Permission.deny_all } ∷ []) "mine" ≡ true
reserved_twice = refl
