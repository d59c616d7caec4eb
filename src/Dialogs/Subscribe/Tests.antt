-- ===== src/Dialogs/Subscribe/Tests.antt =====
-- A topic is subscribed to on a page with a session.
use ntfy.Base.{ℕ, ◌≤◌, ◌⊎◌, ◌≡◌, refl, true, false, some, none}
use ntfy.Model.{Permission}
use ntfy.Errors.{Result, topic_reserved, ok, err}
use ntfy.Util.Url.{valid_url}
use ntfy.Subscriptions.{Options}
use ntfy.Page.Samples.{config, plain, page}
use ntfy.Dialogs.{update_base_url}
use ntfy.Dialogs.Subscribe.{reserved_by_other, authorized, handle_subscribe}
use ntfy.Dialogs.Subscribe.Laws.{Refuses, Wanted, handle_subscribe_lem}

abbrev pub options : Options
options = record { internal = false; display_name = some "Alerts"; reservation = none }

slash_goes : update_base_url "https://ntfy.example.com/" ≡ "https://ntfy.example.com"
unfolding update_base_url
slash_goes = refl

no_host : valid_url "https://" ≡ false
unfolding valid_url
no_host = refl

abbrev answer : Result (Unit {0})
answer = err topic_reserved

abbrev status : ℕ
status = 200

handle_subscribe_lem_example :
    let r =
      (handle_subscribe config plain "https://ntfy.sh" "alerts" true Permission.deny_all status
        answer page).0 in
    (r ≡ ok authorized → (200 ≤ status) × (status ≤ 299))
    × ((status ≡ 401) ⊎ (status ≡ 403)
        → Refuses config plain page "https://ntfy.sh" "alerts" true Permission.deny_all status
            answer r)
    × (200 ≤ 200
        → 200 ≤ 299
        → Wanted config plain page "https://ntfy.sh" "alerts" true Permission.deny_all status answer
        → answer ≡ err topic_reserved
        → r ≡ ok reserved_by_other)
handle_subscribe_lem_example =
    handle_subscribe_lem config plain page "https://ntfy.sh" "alerts" true Permission.deny_all
      status answer
