-- ===== src/Connection.antt =====
-- web/src/app/Connection.js: one WebSocket for one topic, reconnecting by itself. The browser is the
-- sockets that are not closed yet and the timers that are pending; what the code does to them, and
-- the events by which they call back, are the steps of Connection/Events.antt. Log lines are left
-- out, and so is `onerror`, which only writes one.
pub mod Events
pub mod Backoff
pub mod Single
pub mod Reopen
pub mod Resume
mod Tests
use Prim.Native.String.{◌++◌}
use mathlib.Core.List
use ntfy.Base.{
  ℕ, ◌+◌, ◌-◌, ◌*◌, String, Bool, true, false, not, Option, none, some, List, [], ◌∷◌, map, length,
  get_elem?, min, eqb, filter, truthy, get_or, if◌then◌else◌, get_elem_or,
}
use ntfy.Base.Int.{ℤ}
use ntfy.Base.Text.{join}
use ntfy.Model.{ConnectionState, connecting, User, Message}
use ntfy.Util.Url.{topic_url_ws}
use ntfy.Util.Auth.{Base64, basic_auth, bearer_auth, encode_base64_url}

abbrev pub retry_backoff_seconds : List ℕ
retry_backoff_seconds = 5 ∷ 10 ∷ 20 ∷ 30 ∷ 60 ∷ 120 ∷ []

pub record Socket : Type 0 where
  pub id : ℕ
  pub url : String
  -- `close()` was called, and the browser has yet to report the end.
  pub closing : Bool

pub record Timer : Type 0 where
  pub id : ℕ
  pub millis : ℕ

-- The listeners that were called, the last one first.
pub data Call : Type 0 where
  state_changed : String → ConnectionState → Call
  notification : String → Message → Call

pub record Browser : Type 0 where
  -- The next identity of a socket or a timer.
  pub fresh : ℕ
  pub sockets : List Socket
  pub timers : List Timer
  pub calls : List Call

pub record Connection : Type 0 where
  pub connection_id : ℤ
  pub subscription_id : String
  pub base_url : String
  pub topic : String
  pub user : Option User
  pub since : Option String
  pub ws : Option ℕ
  pub retry_count : ℕ
  pub retry_timeout : Option ℕ

pub record World : Type 0 where
  pub connection : Connection
  pub browser : Browser

abbrev pub new : ℤ → String → String → String → Option User → Option String → Connection
new connection_id subscription_id base_url topic user since = record {
  connection_id = connection_id;
  subscription_id = subscription_id;
  base_url = base_url;
  topic = topic;
  user = user;
  since = since;
  ws = none;
  retry_count = 0;
  retry_timeout = none;
}

-- The delay before the retry that follows `retry_count` failures.
unfoldable pub retry_seconds : ℕ → ℕ
retry_seconds retry_count =
    get_elem_or retry_backoff_seconds (min retry_count (length retry_backoff_seconds - 1)) 0

abbrev pub call : Call → Browser → Browser
call c b = record b { calls = c ∷ b.calls }

-- clearTimeout, of a timer that may be null
abbrev pub cleared : Option ℕ → List Timer → List Timer
cleared none timers = timers
cleared (some t) timers = filter (λ x. not (eqb x.id t)) timers

abbrev pub start_closing : ℕ → Socket → Socket
start_closing s x = if eqb x.id s then record x { closing = true } else x

-- `socket.close()`, of a socket that may be null
abbrev pub closing_all : Option ℕ → List Socket → List Socket
closing_all none sockets = sockets
closing_all (some s) sockets = map (start_closing s) sockets

module _ (base64 : Base64) where
  -- `this.user` is there where this is called; a token that is not there is written as JavaScript
  -- writes it.
  unfoldable pub auth_param : User → String
  auth_param user = elim (truthy user.password) [
    | some password ↦ encode_base64_url base64 (basic_auth base64 user.username password)
    | none ↦ encode_base64_url base64 (bearer_auth (get_or user.token "undefined"))
  ]

  abbrev since_params : Option String → List String
  since_params none = []
  since_params (some since) = ("since=" ++ since) ∷ []

  abbrev auth_params : Option User → List String
  auth_params none = []
  auth_params (some user) = ("auth=" ++ auth_param user) ∷ []

  abbrev with_params : String → List String → String
  with_params url [] = url
  with_params url (p ∷ ps) = url ++ ("?" ++ join "&" (p ∷ ps))

  unfoldable pub ws_url : Connection → String
  ws_url c =
      with_params (topic_url_ws c.base_url c.topic)
        (List.◌++◌ (since_params (truthy c.since)) (auth_params c.user))

  unfoldable pub start : World → World
  start w =
      let b = w.browser in
      record {
        connection = record w.connection { ws = some b.fresh };
        browser = record b {
          fresh = b.fresh + 1;
          sockets = record { id = b.fresh; url = ws_url w.connection; closing = false } ∷ b.sockets;
        };
      }

unfoldable pub close : World → World
close w = record {
  connection = record w.connection { retry_timeout = none; ws = none };
  browser = record w.browser {
    sockets = closing_all w.connection.ws w.browser.sockets;
    timers = cleared w.connection.retry_timeout w.browser.timers;
  };
}
