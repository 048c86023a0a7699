-- ===== src/Ws.antt =====
-- A WebSocket session (internal/protocols/ws/session.go, socket.go). The connection, the clock and
-- the context are the record Net over a world; what JavaScript does in one call is a tree of its calls
-- of the socket, and J is the heap that such calls share. The depth of nested calls is bounded, as by
-- the interpreter's call stack (SetMaxCallStackSize): a call beyond it throws.
pub mod Handlers
pub mod Session
pub mod Grown
pub mod Ended
pub mod Recorded
mod Tests
use loadtool.Prelude.{ℕ, zero, suc, ◌+◌, List, [], ◌∷◌, ◌++◌, Option, none, some, Bool, true, false}
use loadtool.Prelude.Int.{ℤ}
use loadtool.Metrics.Families.Samples.{Call}
use loadtool.Protocol.{Code, Error}

-- The events of socket.on.
pub data EventName : Type 0 where
  open_event message_event close_event error_event : EventName

abbrev pub same_event : EventName → EventName → Bool
same_event open_event open_event = true
same_event message_event message_event = true
same_event close_event close_event = true
same_event error_event error_event = true
same_event a b = false

-- The families of the module.
pub record Ids : Type 0 where
  pub connecting : ℕ
  pub sessions : ℕ
  pub session_failed : ℕ
  pub session_duration : ℕ
  pub msgs_sent : ℕ
  pub msgs_received : ℕ
  pub msg_latency : ℕ
  pub errors : ℕ

-- What a handler is called with; the data of a message is in the heap.
pub data Argument : Type 0 where
  no_argument message_data : Argument
  close_code_is : ℤ → Argument
  error_is : Code → Argument

-- One call of JavaScript: it ends, or throws, or calls a method of the socket and goes on.
pub data Act (Fn J : Type 0) : Type 0 where
  finished threw : J → Act Fn J
  on : EventName → Fn → Act Fn J → Act Fn J
  -- With whether a reply is timed. The handlers of an error run before send returns.
  send : J → Bool → (Bool → J → Act Fn J) → Act Fn J
  close : Act Fn J → Act Fn J
  -- With the delay, and whether it repeats.
  add_timer : Fn → ℕ → Bool → (ℕ → Act Fn J) → Act Fn J

pub record Timer (Fn : Type 0) : Type 0 where
  pub id : ℕ
  pub at : ℕ
  pub every : ℕ
  pub fn : Fn

-- What the reader goroutine passes on: a message with the time it was read, or an error with its
-- close status, below 0 if it has none. Besides, what the loop can be woken by.
pub data Event : Type 0 where
  message : ℕ → Event
  failure : ℤ → Error → Event
  no_more timer_due context_ended : Event

pub record Net (E : Type 0) : Type 0 where
  pub now : E → ℕ
  -- ctx.Err() != nil
  pub ended : E → Bool
  -- conn.Write; no error is the empty chain.
  pub write : E → Error × E
  -- The close handshake, on a goroutine of its own.
  pub start_close : E → E
  -- The world when the loop takes an event: time passes and the context may end while it waits.
  pub pass : Event → E → E

-- The fields of session that the event loop uses; an error of nil is the empty chain, and `calls` are
-- those of the recorder.
pub record State (Fn E J : Type 0) : Type 0 where
  pub handlers : List (EventName × Fn)
  pub timers : List (Timer Fn)
  pub next_id : ℕ
  pub pending : List ℕ
  pub closing : Bool
  pub done : Bool
  -- The loop has seen the end of the context, which stays ended.
  pub cut : Bool
  pub thrown : Bool
  pub error : Error
  pub code : Code
  pub close_code : ℤ
  pub opened : ℕ
  pub duration : ℤ
  pub calls : List Call
  pub env : E
  pub heap : J

abbrev pub max_pending_replies : ℕ
max_pending_replies = 1024
