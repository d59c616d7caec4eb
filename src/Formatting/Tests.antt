-- ===== src/Formatting/Tests.antt =====
-- A message with tags and actions.
use ntfy.Base.{◌≡◌, refl, true, false, some, none, [], ◌∷◌}
use ntfy.Base.Dict.{property}
use ntfy.Base.Text.{join}
use ntfy.Model.{Message, Action}
use ntfy.ServiceWorker.{Desktop}
use ntfy.Formatting.{Emojis, is_image, format_message}

abbrev emojis : Emojis
emojis = ("warning", "!") ∷ ("tada", "*") ∷ []

abbrev open_door : Action
open_door = record {
  id = "a1";
  action = "http";
  label = "open";
  url = "https://example.com";
  method = none;
  headers = none;
  body = none;
  clear = false;
  progress = none;
  error = none;
}

abbrev alarm : Message
alarm = record {
  id = "m1";
  time = 7;
  topic = "a";
  title = none;
  message = "hello";
  tags = some ("warning" ∷ "door" ∷ "tada" ∷ []);
  priority = none;
  click = none;
  attachment = none;
  actions = some (record open_door { action = "broadcast"; label = "x" } ∷ open_door ∷ []);
}

abbrev desktop : Desktop
desktop = record {
  windows = [];
  focused = none;
  opened = [];
  closed = false;
  requests = [];
  failures = [];
}

body_with_emojis : format_message emojis alarm ≡ "! * hello"
unfolding format_message property join
body_with_emojis = refl

image_by_extension :
    is_image
      (some (record { name = some "a.JPEG"; type = none; url = none; size = none; expires = none }))
    ≡ true
unfolding is_image
image_by_extension = refl
