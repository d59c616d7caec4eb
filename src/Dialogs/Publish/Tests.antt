-- ===== src/Dialogs/Publish/Tests.antt =====
-- A message with a file, of which some fields are filled in.
use ntfy.Base.{◌≡◌, refl, false, ℕ, some, none, none, [], ◌∷◌}
use ntfy.Base.Decimal.{to_string}
use ntfy.Base.Dict.{property}
use ntfy.Base.Text.{replace_all}
use ntfy.Base.Trim.{trim}
use ntfy.Dialogs.Publish.{File, Draft, search_params, limit_error, handle_emoji_pick}
use ntfy.Dialogs.Publish.Dragging.{
  Dialog, closed, default, drag_enter, handle_attach_file_drop, handle_attach_file_drag_leave,
  start, next, enters, drops, leaves, IsConsistent, Reach-IsConsistent,
}
use ntfy.Dialogs.Publish.Laws.{
  text_value, priority_value, message_value, markdown_value, property-search_params,
}

abbrev draft : Draft
draft = record {
  base_url = "https://ntfy.sh";
  topic = "alerts";
  message = "all well\nsee the file ";
  title = " Backup ";
  tags = "";
  priority = 4;
  click_url = "";
  attach_url = "";
  filename = "log.txt";
  email = "";
  call = "";
  delay = "";
  attach_file = some (record { name = "log.txt"; size = 2048 });
  markdown_enabled = false;
  publish_another = false;
}

params :
    search_params draft
    ≡ ("title", "Backup")
      ∷ ("priority", "4")
      ∷ ("filename", "log.txt")
      ∷ ("message", "all well\\nsee the file")
      ∷ []
unfolding search_params trim to_string replace_all
params = refl

first_emoji : handle_emoji_pick "  " "tada" ≡ "tada"
unfolding handle_emoji_pick
first_emoji = refl

nothing_left : limit_error 0 0 1000000 ≡ none
unfolding limit_error
nothing_left = refl

property-search_params_example :
    (property (search_params draft) "title" ≡ text_value " Backup ")
    × (property (search_params draft) "tags" ≡ text_value "")
    × (property (search_params draft) "priority" ≡ priority_value 4)
    × (property (search_params draft) "click" ≡ text_value "")
    × (property (search_params draft) "attach" ≡ text_value "")
    × (property (search_params draft) "filename" ≡ text_value "log.txt")
    × (property (search_params draft) "email" ≡ text_value "")
    × (property (search_params draft) "call" ≡ text_value "")
    × (property (search_params draft) "delay" ≡ text_value "")
    × (property (search_params draft) "message"
        ≡ message_value draft.attach_file "all well\nsee the file ")
    × (property (search_params draft) "markdown" ≡ markdown_value false)
property-search_params_example = property-search_params draft

abbrev quota_left : ℕ
quota_left = 1024

abbrev log : File
log = record { name = "log.txt"; size = 2048 }

abbrev untouched : Dialog
untouched = record { open_mode = closed; dialog_key = 0; drop_zone = false; attach_file = none }

abbrev dropped : Dialog
dropped = record { open_mode = default; dialog_key = 0; drop_zone = false; attach_file = some log }

drops_log : handle_attach_file_drop (some log) (drag_enter untouched) ≡ dropped
unfolding handle_attach_file_drop drag_enter
drops_log = refl

Reach-IsConsistent_example :
    IsConsistent
      (handle_attach_file_drag_leave (handle_attach_file_drop (some log) (drag_enter untouched)))
Reach-IsConsistent_example = Reach-IsConsistent (
    next (next (next start (enters untouched)) (drops (some log) (drag_enter untouched)))
      (leaves (handle_attach_file_drop (some log) (drag_enter untouched))))
