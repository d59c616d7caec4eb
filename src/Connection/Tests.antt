-- ===== src/Connection/Tests.antt =====
-- A connection to one topic, followed through its events.
use Prim.Native.String.{◌++◌}
use ntfy.Util.Url.{topic_url_ws}
use ntfy.Base.{◌+◌, ◌≤◌, ◌≡◌, refl, false, none, some, [], length, inr}
use ntfy.Base.Int.{pos}
use ntfy.Util.Auth.{Base64}
use ntfy.Base.Text.{replace_all, join}
use ntfy.Util.Url.{topic_url_ws}
use ntfy.Connection
use ntfy.Connection.{Socket, Timer, Connection, World, start, close, retry_seconds, ws_url}
use ntfy.Connection.Events.{
  on_close, Data, relevant_and_valid, on_open, on_message, Reach, here, next, opened, message,
  ended, end_socket, fire,
}
use ntfy.Connection.Single.{Live, sockets_timers-le, Quiet, close-Quiet}
use ntfy.Connection.Resume.{last_notified, or_else, since-Reach, url_of_first, resumed, url-fire}
use ntfy.Connection.Reopen.{reopens-close}

abbrev plain : Base64
plain = record { encode = λ s. s; encode_uri = λ s. s }

abbrev fresh_world : World
fresh_world = record {
  connection = Connection.new (pos 1) "https://ntfy.sh/a" "https://ntfy.sh" "a" none none;
  browser = record { fresh = 0; sockets = []; timers = []; calls = [] };
}

abbrev hello : Data
hello = record {
  event = "message";
  id = some "m1";
  time = some 7;
  message = some "hello";
  topic = "a";
  title = none;
  tags = none;
  priority = none;
  click = none;
  attachment = none;
  actions = none;
}

-- The socket opens, a message arrives, and the socket dies.
abbrev started : World
started = start plain fresh_world

abbrev after_hello : World
after_hello = on_message (some hello) (on_open started)

abbrev dead : World
dead = end_socket 0 false after_hello

abbrev first_socket : Socket
first_socket = record { id = 0; url = ws_url plain fresh_world.connection; closing = false }

reaches_dead : Reach plain started dead
unfolding start on_open on_message relevant_and_valid
reaches_dead =
    next
      (next (next here (opened first_socket ([], [], refl) refl))
        (message first_socket (some hello) ([], [], refl) refl))
      (ended first_socket false ([], [], refl))

sockets_timers-le_example : length dead.browser.sockets + length dead.browser.timers ≤ 1
sockets_timers-le_example = sockets_timers-le plain fresh_world (refl, refl) reaches_dead

close-Quiet_example : Quiet (close dead)
close-Quiet_example = close-Quiet plain fresh_world (refl, refl) reaches_dead

since-Reach_example : dead.connection.since ≡ or_else (last_notified dead.browser.calls) none
since-Reach_example = since-Reach plain fresh_world refl reaches_dead

url-fire_example :
    url_of_first (fire plain 1 dead).browser.sockets
    ≡ some (topic_url_ws "https://ntfy.sh" "a" ++ resumed plain "m1" none)
unfolding on_close on_message relevant_and_valid on_open start
url-fire_example = url-fire plain fresh_world 1 "m1" refl reaches_dead refl refl

-- The URL of the retry.
resumed_url :
    ws_url plain (record fresh_world.connection { since = some "m1" })
    ≡ "wss://ntfy.sh/a/ws?since=m1"
unfolding ws_url topic_url_ws replace_all join
resumed_url = refl

started-Live : Live started
unfolding start
started-Live = (first_socket, refl, refl, inr refl)

reopens-close_example :
    (u : World) × Reach plain (close started) u
    × (u.connection.ws ≡ some (started.browser.fresh + 1))
    × (url_of_first u.browser.sockets ≡ some (ws_url plain started.connection))
reopens-close_example = reopens-close plain started started-Live
