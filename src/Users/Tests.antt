-- ===== src/Users/Tests.antt =====
-- One user of another server, and the one who is logged in.
use ntfy.Base.{◌≡◌, refl, false, some, none, []}
use ntfy.Model.{Config, User}
use ntfy.Database.{Db}
use ntfy.Database.Listed.{listed, empty}
use ntfy.Session.{Session, nothing, session_of}
use ntfy.Users.{get, save}

abbrev config : Config
config = record {
  base_url = "https://ntfy.sh";
  app_root = "/";
  enable_web_push = false;
  web_push_public_key = "";
  disallowed_topics = [];
}

abbrev session : Session
session = record { local = record { user = some "phil"; token = some "tk_1" }; replica = nothing }

abbrev ben : User
ben = record {
  base_url = "https://example.com";
  username = "ben";
  password = some "x";
  token = none;
}

abbrev with_ben : Db listed
with_ben = save listed config session ben empty

found : get listed config session "https://example.com" with_ben ≡ some ben
unfolding get save session_of
found = refl
