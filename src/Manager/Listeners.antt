-- ===== src/Manager/Listeners.antt =====
-- The listeners of web/src/app/ConnectionManager.js. A listener is what it does, up to an error if it
-- throws one, which is caught and only logged.
use ntfy.Base.{Option, none, some}
use ntfy.Model.{ConnectionState, Message}
use ntfy.Base.{String}

module _ (World : Type 0) where
  abbrev pub StateListener : Type 0
  StateListener = String → ConnectionState → World → World

  abbrev pub MessageListener : Type 0
  MessageListener = String → Message → World → World

  pub record Listeners : Type 0 where
    pub state_listener : Option StateListener
    pub message_listener : Option MessageListener

  unfoldable pub register_state_listener : StateListener → Listeners → Listeners
  register_state_listener listener l = record l { state_listener = some listener }

  unfoldable pub reset_state_listener : Listeners → Listeners
  reset_state_listener l = record l { state_listener = none }

  unfoldable pub register_message_listener : MessageListener → Listeners → Listeners
  register_message_listener listener l = record l { message_listener = some listener }

  unfoldable pub reset_message_listener : Listeners → Listeners
  reset_message_listener l = record l { message_listener = none }

  abbrev call_state : Option StateListener → String → ConnectionState → World → World
  call_state none id state w = w
  call_state (some listener) id state w = listener id state w

  abbrev call_message : Option MessageListener → String → Message → World → World
  call_message none id m w = w
  call_message (some listener) id m w = listener id m w

  unfoldable pub state_changed : Listeners → String → ConnectionState → World → World
  state_changed l id state w = call_state l.state_listener id state w

  unfoldable pub notification_received : Listeners → String → Message → World → World
  notification_received l id m w = call_message l.message_listener id m w
