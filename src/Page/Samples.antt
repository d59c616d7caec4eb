-- ===== src/Page/Samples.antt =====
-- A page on which a user is logged in.
use ntfy.Base.{Bool, some, none, []}
use ntfy.Model.{Config}
use ntfy.Database.Listed.{listed, empty}
use ntfy.Session.{nothing}
use ntfy.Util.Auth.{Base64}
use ntfy.Page.{Page}

abbrev pub config : Config
config = record {
  base_url = "https://ntfy.sh";
  app_root = "/";
  enable_web_push = Bool.false;
  web_push_public_key = "";
  disallowed_topics = [];
}

abbrev pub plain : Base64
plain = record { encode = λ s. s; encode_uri = λ s. s }

abbrev pub page : Page listed
page = record {
  db = empty;
  session = record {
    local = record { user = some "phil"; token = some "tk_1" };
    replica = nothing;
  };
  sent = [];
  redirect = none;
  route = none;
  language = none;
  account = none;
  error = none;
}
