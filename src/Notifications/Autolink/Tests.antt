-- ===== src/Notifications/Autolink/Tests.antt =====
-- A message with a URL at the end of a sentence.
use mathlib.Core.List.{[], ◌∷◌}
use ntfy.Base.{◌≡◌, refl, All}
use ntfy.Notifications.Autolink.{
  plain, link, autolink, parts_from, match_length, longest, starts_with_any_case, first_is_word,
  is_word, is_inner, is_last,
}
use ntfy.Notifications.Autolink.Laws.{joined, IsSafe, autolink_lem}

cut_out :
    autolink "see https://ntfy.sh/docs."
    ≡ plain "see " ∷ link "https://ntfy.sh/docs" ∷ plain "." ∷ []
unfolding autolink parts_from match_length longest starts_with_any_case first_is_word is_word
    is_inner is_last
cut_out = refl

no_word : autolink "xhttp://a" ≡ plain "xhttp://a" ∷ []
unfolding autolink parts_from match_length longest starts_with_any_case first_is_word is_word
    is_inner is_last
no_word = refl

upper : autolink "HTTP://A/ b" ≡ plain "" ∷ link "HTTP://A" ∷ plain "/ b" ∷ []
unfolding autolink parts_from match_length longest starts_with_any_case first_is_word is_word
    is_inner is_last
upper = refl

autolink_lem_example :
    (joined (autolink "see https://ntfy.sh.") ≡ "see https://ntfy.sh.")
    × All IsSafe (autolink "see https://ntfy.sh.")
autolink_lem_example = autolink_lem "see https://ntfy.sh."
