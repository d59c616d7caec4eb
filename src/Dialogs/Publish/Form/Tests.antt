-- ===== src/Dialogs/Publish/Form/Tests.antt =====
-- A dialog for a topic of the app's own server.
use ntfy.Base.{String, ◌≡◌, refl, true, false, Option, none, some}
use ntfy.Base.Dict.{property}
use ntfy.Base.Search.{split_from}
use ntfy.Dialogs.Publish.{File, search_params}
use ntfy.Dialogs.Publish.Form.{Form, new_form, take_topic, show_attach_file, change_attach_url}
use ntfy.Dialogs.Publish.Form.Hidden.{Step, Reach, search_params-Reach}

abbrev no_url : String → Option String
no_url url = none

abbrev log : File
log = record { name = "log.txt"; size = 2048 }

abbrev form : Form
form = take_topic "https://ntfy.sh" "alerts" new_form

abbrev with_row : Form
with_row = record form { show_attach_url = true }

named :
    (change_attach_url (λ url. some "/a/b.png") "https://x.y/a/b.png" form).draft.filename ≡ "b.png"
unfolding change_attach_url split_from take_topic
named = refl

opened : Reach no_url form
opened = Reach.start "https://ntfy.sh" "alerts"

row_opened : Reach no_url with_row
row_opened = Reach.next opened (Step.opens_attach_url form hidden)
  where
    hidden : show_attach_file form ≡ false
    hidden = unfold show_attach_file take_topic in refl

search_params-Reach_example :
    let s : Form = with_row in
    (s.show_click_url ≡ false → property (search_params s.draft) "click" ≡ none)
    × (s.show_email ≡ false → property (search_params s.draft) "email" ≡ none)
    × (s.show_call ≡ false → property (search_params s.draft) "call" ≡ none)
    × (s.show_delay ≡ false → property (search_params s.draft) "delay" ≡ none)
    × (s.show_attach_url ≡ false → property (search_params s.draft) "attach" ≡ none)
    × (s.show_topic_url ≡ false
        → (s.draft.base_url ≡ s.given_base_url) × (s.draft.topic ≡ s.given_topic))
search_params-Reach_example = search_params-Reach row_opened
