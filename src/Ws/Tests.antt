-- ===== src/Ws/Tests.antt =====
-- A session that sends, gets a reply and closes, and one whose error handler sends again.
use loadtool.Prelude.{
  ◌⊎◌, ◌≡◌, refl, ℕ, zero, suc, ◌+◌, ◌≤◌, arith, List, [], ◌∷◌, length, Option, none, some, true,
  false,
}
use loadtool.Prelude.Int.{pos, ◌-ℤ◌}
use loadtool.Metrics.Families.Samples.{trend, add, rate}
use loadtool.Protocol.{no_code, record_outcome, code_of}
use loadtool.Ws.{
  open_event, message_event, error_event, Ids, Argument, no_argument, Act, finished, threw, on,
  send, close, Net, Event, message, failure, timer_due, context_ended, max_pending_replies,
}
use loadtool.Ws.Handlers.{St, emit_each, end, send_message, exec, invoke}
use loadtool.Ws.Session.{is_over, dialed, fire_each, run_events, opened_with, connect}
use loadtool.Ws.Ended.{run_events-returns}
use loadtool.Ws.Recorded.{connect-counted, counted}

-- The world is a clock that a write moves on.
abbrev net : Net ℕ
net = record {
  now = λ e. e;
  ended = λ e. false;
  write = λ e. ([], suc e);
  start_close = λ e. e;
  pass = λ event e. e + 2;
}

abbrev ids : Ids
ids = record {
  connecting = 0;
  sessions = 1;
  session_failed = 2;
  session_duration = 3;
  msgs_sent = 4;
  msgs_received = 5;
  msg_latency = 6;
  errors = 7;
}

-- 0 is the setup callback, 1 the handler of "open" and 2 the one of "message".
abbrev script : ℕ → Argument → ℕ → Act ℕ ℕ
script zero arg j = on open_event 1 (on message_event 2 (finished j))
script (suc zero) arg j = send j true (λ sent j'. finished (suc j'))
script f arg j = close (finished j)

abbrev session : St net ids script
session = record {
  handlers = [];
  timers = [];
  next_id = 0;
  pending = [];
  closing = false;
  done = false;
  cut = false;
  thrown = false;
  error = [];
  code = no_code;
  close_code = pos 0;
  opened = 0;
  duration = pos 0;
  calls = [];
  env = 10;
  heap = 0;
}

abbrev events : List Event
events = message 15 ∷ failure (pos 1000) [] ∷ []

abbrev state_or : St net ids script → Option (St net ids script) → St net ids script
state_or s none = s
state_or s (some t) = t

abbrev ended_session : St net ids script
ended_session = state_or session (connect net ids script 8 (dialed 101 (pos 3) []) 0 events session)

session-ends :
    connect net ids script 8 (dialed 101 (pos 3) []) 0 events session ≡ some ended_session
unfolding connect record_outcome code_of invoke exec send_message emit_each run_events end fire_each
    ◌-ℤ◌
session-ends = refl

session-records :
    ended_session.calls
    ≡ trend 0 (pos 3) true
      ∷ add 1 1
      ∷ add 4 1
      ∷ add 5 1
      ∷ trend 6 (pos 5) true
      ∷ trend 3 (pos 5) true
      ∷ rate 2 false
      ∷ []
unfolding connect record_outcome code_of invoke exec send_message emit_each run_events end fire_each
    ◌-ℤ◌
session-records = refl

connect-counted_example :
    (length ended_session.pending ≤ max_pending_replies)
    × ((counted net ids script ended_session ≡ 1)
        ⊎ ((counted net ids script ended_session ≡ counted net ids script session)
            × ((is_over net ids script ended_session ≡ true)
                ⊎ ((invoke net ids script 8 0 no_argument
                      (opened_with net ids script (pos 3) session)).0
                    ≡ true))))
connect-counted_example =
    connect-counted net ids script 8 101 (pos 3) 0 events session ended_session (omega arith)
      session-ends

run_events-returns_example :
    (t : St net ids script) × (run_events net ids script
        (invoke net ids script 8)
        (timer_due ∷ context_ended ∷ [])
        session
      ≡ some t)
    × (t.done ≡ true)
run_events-returns_example =
    run_events-returns net ids script 8 (timer_due ∷ []) context_ended [] session tt

-- An error handler that sends on a closing socket calls itself until the stack is used up, and
-- throws then: each send fires the error again.
abbrev answering : ℕ → Argument → ℕ → Act ℕ ℕ
answering f arg j = send j false (λ sent j'. finished j')

abbrev closing : St net ids answering
closing = record session { handlers = (error_event, 0) ∷ []; closing = true }

errors-nest :
    ((invoke net ids answering 5 0 no_argument closing).1.calls
      ≡ add 7 1 ∷ add 7 1 ∷ add 7 1 ∷ add 7 1 ∷ add 7 1 ∷ [])
    × ((invoke net ids answering 5 0 no_argument closing).1.thrown ≡ true)
unfolding invoke exec send_message emit_each
errors-nest = (refl, refl)

-- A handler of "open" that throws: the session is recorded with a duration of 0 and as not failed.
abbrev throwing : ℕ → Argument → ℕ → Act ℕ ℕ
throwing zero arg j = on open_event 1 (finished j)
throwing f arg j = threw j

throw-records :
    (state_or session (connect net ids throwing 8 (dialed 101 (pos 3) []) 0 [] session)).calls
    ≡ trend 0 (pos 3) true ∷ add 1 1 ∷ trend 3 (pos 0) true ∷ rate 2 false ∷ []
unfolding connect record_outcome code_of invoke exec emit_each run_events
throw-records = refl

-- A session whose context ends while it waits: its end is not recorded.
cut-records :
    (state_or session
      (connect net ids script 8 (dialed 101 (pos 3) []) 0 (context_ended ∷ []) session)).calls
    ≡ trend 0 (pos 3) true ∷ add 1 1 ∷ add 4 1 ∷ []
unfolding connect record_outcome code_of invoke exec send_message emit_each run_events
cut-records = refl
