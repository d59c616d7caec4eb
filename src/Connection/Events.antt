-- ===== src/Connection/Events.antt =====
-- The handlers of web/src/app/Connection.js that the browser calls, and the steps in which it does.
use ntfy.Base.{
  ℕ, ◌+◌, ◌*◌, String, Bool, true, false, not, ◌≡◌, Option, none, some, List, ◌∷◌, eqb, filter,
  ◌==◌, if◌then◌else◌,
}
use mathlib.Core.List.{◌++◌}
use ntfy.Model.{connected, connecting, Message, Attachment, Action}
use ntfy.Util.Auth.{Base64}
use ntfy.Connection.{
  Socket, Timer, state_changed, notification, Browser, World, retry_seconds, call, start, close,
}

-- What JSON.parse makes of the data of a message: an object with these properties, each present or
-- not. A text that is no JSON, or no object, is `none`: reading it throws, and the error is caught.
pub record Data : Type 0 where
  pub event : String
  pub id : Option String
  pub time : Option ℕ
  pub message : Option String
  pub topic : String
  pub title : Option String
  pub tags : Option (List String)
  pub priority : Option ℕ
  pub click : Option String
  pub attachment : Option Attachment
  pub actions : Option (List Action)

abbrev message_of : Data → Option String → Option ℕ → Option String → Option Message
message_of d (some id) (some time) (some message) = some (record {
  id = id;
  time = time;
  topic = d.topic;
  title = d.title;
  message = message;
  tags = d.tags;
  priority = d.priority;
  click = d.click;
  attachment = d.attachment;
  actions = d.actions;
})
message_of d _ _ _ = none

-- `relevantAndValid`, with the message that it finds.
unfoldable pub relevant_and_valid : Data → Option Message
relevant_and_valid d = if d.event == "message" then message_of d d.id d.time d.message else none

unfoldable pub on_open : World → World
on_open w = record {
  connection = record w.connection { retry_count = 0 };
  browser = call (state_changed w.connection.subscription_id connected) w.browser;
}

abbrev pub received : World → Option Message → World
received w none = w
received w (some m) = record {
  connection = record w.connection { since = some m.id };
  browser = call (notification w.connection.subscription_id m) w.browser;
}

unfoldable pub on_message : Option Data → World → World
on_message none w = w
on_message (some d) w = if d.event == "open" then w else received w (relevant_and_valid d)

unfoldable pub on_close : Bool → World → World
on_close true w = record w { connection = record w.connection { ws = none } }
on_close false w =
    let c = w.connection in
    let b = w.browser in
    record {
      connection = record c { retry_count = c.retry_count + 1; retry_timeout = some b.fresh };
      browser = call (state_changed c.subscription_id connecting) (record b {
        fresh = b.fresh + 1;
        timers = record { id = b.fresh; millis = retry_seconds c.retry_count * 1000 } ∷ b.timers;
      });
    }

abbrev pub without_socket : ℕ → Browser → Browser
without_socket s b = record b { sockets = filter (λ x. not (eqb x.id s)) b.sockets }

abbrev pub without_timer : ℕ → Browser → Browser
without_timer t b = record b { timers = filter (λ x. not (eqb x.id t)) b.timers }

-- The socket `x` is one of the browser's.
abbrev pub Holds : {A : Type 0} → A → List A → Type 0
Holds {A} x xs = (before : List A) × (after : List A) × (xs ≡ before ++ x ∷ after)

-- The socket ends, and its event is handled.
abbrev pub end_socket : ℕ → Bool → World → World
end_socket s clean w = on_close clean (record w { browser = without_socket s w.browser })

module _ (base64 : Base64) where
  -- The timer fires and `start()` runs.
  abbrev pub fire : ℕ → World → World
  fire t w = start base64 (record w { browser = without_timer t w.browser })

  -- What can happen next. A socket that is closing reports nothing but its end.
  pub data Step (w : World) : World → Type 0 where
    opened : (s : Socket) → Holds s w.browser.sockets → s.closing ≡ false → Step w (on_open w)
    message :
        (s : Socket) (d : Option Data)
        → Holds s w.browser.sockets
        → s.closing ≡ false
        → Step w (on_message d w)
    ended :
        (s : Socket) (clean : Bool) → Holds s w.browser.sockets → Step w (end_socket s.id clean w)
    fired : (t : Timer) → Holds t w.browser.timers → Step w (fire t.id w)
    closed : Step w (close w)

  pub data Reach (w : World) : World → Type 0 where
    here : Reach w w
    next : {u v : World} → Reach w u → Step u v → Reach w v
