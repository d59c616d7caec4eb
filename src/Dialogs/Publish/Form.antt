-- ===== src/Dialogs/Publish/Form.antt =====
-- The fields of web/src/components/PublishDialog.jsx, of which most are hidden until they are asked for:
-- what is typed into them, and what opening and closing their rows does. The path of a URL, which the
-- browser parses, is a parameter: `none` where the text is no URL.
pub mod Hidden
pub mod Late
mod Tests
use ntfy.Base.{
  ℕ, String, ◌≡◌, Bool, true, false, not, ◌&&◌, ◌||◌, Option, none, some, List, is_some, get_last?,
  get_or, ◌==◌, if◌then◌else◌,
}
use ntfy.Base.Search.{split_from}
use ntfy.Dialogs.{update_base_url}
use ntfy.Dialogs.Publish.{File, Draft, LimitError, handle_emoji_pick}

-- `given_base_url` and `given_topic` are the properties of the dialog, "" where there is no topic.
pub record Form : Type 0 where
  pub given_base_url : String
  pub given_topic : String
  pub draft : Draft
  pub message_focused : Bool
  pub filename_edited : Bool
  pub attach_file_error : Option LimitError
  pub show_topic_url : Bool
  pub show_click_url : Bool
  pub show_attach_url : Bool
  pub show_email : Bool
  pub show_call : Bool
  pub show_delay : Bool

abbrev pub empty_draft : Draft
empty_draft = record {
  base_url = "";
  topic = "";
  message = "";
  title = "";
  tags = "";
  priority = 3;
  click_url = "";
  attach_url = "";
  filename = "";
  email = "";
  call = "";
  delay = "";
  attach_file = none;
  markdown_enabled = false;
  publish_another = false;
}

-- The state before any effect.
abbrev pub new_form : Form
new_form = record {
  given_base_url = "";
  given_topic = "";
  draft = empty_draft;
  message_focused = true;
  filename_edited = false;
  attach_file_error = none;
  show_topic_url = false;
  show_click_url = false;
  show_attach_url = false;
  show_email = false;
  show_call = false;
  show_delay = false;
}

unfoldable pub show_attach_file : Form → Bool
show_attach_file s = is_some s.draft.attach_file && not s.show_attach_url

-- The effects that take the properties over.
unfoldable pub take_topic : String → String → Form → Form
take_topic base_url topic s = record s {
  given_base_url = base_url;
  given_topic = topic;
  draft = record s.draft { base_url = base_url; topic = topic };
  show_topic_url = base_url == "" || topic == "";
  message_focused = not (topic == "");
}

unfoldable pub take_message : String → Form → Form
take_message message s = record s { draft = record s.draft { message = message } }

-- Whether the row of the topic can be closed.
unfoldable pub closable : Form → Bool
closable s = not (s.given_base_url == "") && not (s.given_topic == "")

unfoldable pub close_topic_url : Form → Form
close_topic_url s = record s {
  draft = record s.draft { base_url = s.given_base_url; topic = s.given_topic };
  show_topic_url = false;
}

unfoldable pub set_base_url : String → Form → Form
unfolding update_base_url
set_base_url url s = record s { draft = record s.draft { base_url = update_base_url url } }

unfoldable pub set_topic : String → Form → Form
set_topic topic s = record s { draft = record s.draft { topic = topic } }

unfoldable pub close_click_url : Form → Form
close_click_url s = record s { draft = record s.draft { click_url = "" }; show_click_url = false }

unfoldable pub close_email : Form → Form
close_email s = record s { draft = record s.draft { email = "" }; show_email = false }

unfoldable pub close_call : Form → Form
close_call s = record s { draft = record s.draft { call = "" }; show_call = false }

-- The chip, which is there where the account has a phone number: the first one is chosen.
unfoldable pub open_call : String → Form → Form
open_call phone_number s = record s {
  draft = record s.draft { call = phone_number };
  show_call = true;
}

unfoldable pub close_delay : Form → Form
close_delay s = record s { draft = record s.draft { delay = "" }; show_delay = false }

unfoldable pub close_attach_url : Form → Form
close_attach_url s = record s {
  draft = record s.draft { attach_url = ""; filename = "" };
  filename_edited = false;
  show_attach_url = false;
}

module _ (pathname : String → Option String) where
  abbrev filename_of : Option String → String → String
  filename_of none filename = filename
  filename_of (some path) filename = get_or (get_last? (split_from "/" 0 path)) filename

  -- While no name was typed, the file has the name in which the path of the URL ends.
  unfoldable pub change_attach_url : String → Form → Form
  unfolding split_from
  change_attach_url url s =
      let filename : String =
        if s.filename_edited
        then s.draft.filename
        else filename_of (pathname url) s.draft.filename in
      record s { draft = record s.draft { attach_url = url; filename = filename } }

unfoldable pub change_filename : String → Form → Form
change_filename filename s = record s {
  draft = record s.draft { filename = filename };
  filename_edited = true;
}

-- `onChangeFilename` of the box with the file
unfoldable pub rename_file : String → Form → Form
rename_file filename s = record s { draft = record s.draft { filename = filename } }

-- `updateAttachFile`, until the limits are checked, and after that.
unfoldable pub update_attach_file : File → Form → Form
update_attach_file f s = record s {
  draft = record s.draft { attach_file = some f; filename = f.name };
}

unfoldable pub checked : Option LimitError → Form → Form
checked error s = record s { attach_file_error = error }

unfoldable pub remove_file : Form → Form
remove_file s = record s {
  draft = record s.draft { attach_file = none; filename = "" };
  attach_file_error = none;
}

-- The fields into which a text is typed, or from a list of values chosen.
pub data Field : Type 0 where
  title message tags click_url email call delay : Field

abbrev pub is_visible : Field → Form → Bool
is_visible Field.click_url s = s.show_click_url
is_visible Field.email s = s.show_email
is_visible Field.call s = s.show_call
is_visible Field.delay s = s.show_delay
is_visible _ s = true

unfoldable pub type_in : Field → String → Draft → Draft
type_in Field.title text m = record m { title = text }
type_in Field.message text m = record m { message = text }
type_in Field.tags text m = record m { tags = text }
type_in Field.click_url text m = record m { click_url = text }
type_in Field.email text m = record m { email = text }
type_in Field.call text m = record m { call = text }
type_in Field.delay text m = record m { delay = text }
