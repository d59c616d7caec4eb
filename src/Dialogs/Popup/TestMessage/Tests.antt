-- ===== src/Dialogs/Popup/TestMessage/Tests.antt =====
-- A test message, and the chip of an account that has used its reservations.
use ntfy.Base.{◌≡◌, refl, true, false, some, none, ◌∷◌, []}
use ntfy.Util.Shuffle.{shuffle, shuffle_from}
use ntfy.Dialogs.Popup.TestMessage.{Draws, test_tags, Chip, reserve_limit_chip}

abbrev draws : Draws
draws = record {
  of_tags = λ i. 0;
  of_priorities = λ i. 0;
  of_titles = λ i. 0;
  of_messages = λ i. 0;
  tag_count = 2;
}

two_tags : test_tags draws ≡ "octopus" ∷ "upside_down_face" ∷ []
unfolding test_tags shuffle shuffle_from
two_tags = refl

used_up :
    reserve_limit_chip
      (record { enable_reservations = true; enable_payments = true })
      (some (record { is_admin = false; remaining = 0; limit = 3 }))
    ≡ some Chip.limit_reached
unfolding reserve_limit_chip
used_up = refl

hidden :
    reserve_limit_chip (record { enable_reservations = true; enable_payments = false }) none ≡ none
unfolding reserve_limit_chip
hidden = refl
