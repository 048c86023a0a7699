-- ===== src/Ws/Session.antt =====
-- The event loop of a session and connect: dial, run, handle, readFailed, fireTimers and what they
-- record. The events are a list, in the order in which the loop takes them; while the session is not
-- over at the end of the list, it waits.
use loadtool.Prelude.{
  ℕ, ◌+◌, List, [], ◌∷◌, ◌++◌, Option, none, some, Bool, true, false, ◌&&◌, ◌||◌, not, leb, ltb,
  ◌==◌, if◌then◌else◌,
}
use loadtool.Prelude.Int.{ℤ, pos, ◌-ℤ◌, leb_ℤ}
use loadtool.Metrics.Families.Samples.{trend, add, rate}
use loadtool.Protocol.{
  Code, no_code, bad_protocol, server, Error, is_nil, classify, Families, Outcome, record_outcome,
}
use loadtool.Ws.{
  open_event, message_event, Ids, Argument, no_argument, message_data, Act, Timer, Net, Event,
  message, failure, no_more, timer_due, context_ended,
}
use loadtool.Ws.Handlers.{
  St, Invoke, record_call, handle_throw, unless_thrown, emit, emit_error, end, abnormal, invoke,
}

-- What websocket.Dial returns after the check of the URL: the status of the response, 0 if there is
-- none, and the time that it took.
pub data Dialed : Type 0 where
  bad_url : Error → Dialed
  dialed : ℕ → ℤ → Error → Dialed

module _ {Fn E J : Type 0} (net : Net E) (ids : Ids) (call : Fn → Argument → J → Act Fn J) where
  -- The time from a send to the message that answers it.
  abbrev pub answer : ℕ → List ℕ → St net ids call → St net ids call
  answer at [] s = s
  answer at (sent ∷ rest) s =
      record_call net ids call (trend ids.msg_latency (pos at -ℤ pos sent) true)
        (record s { pending = rest })

  abbrev pub on_message : Invoke net ids call → ℕ → St net ids call → St net ids call
  on_message inv at s =
      let s₁ = record_call net ids call (add ids.msgs_received 1) s in
      emit net ids call inv message_event message_data (answer at s₁.pending s₁)

  abbrev pub set_code : Code → St net ids call → St net ids call
  set_code c s = record s { code = c }

  -- readFailed
  abbrev pub read_failed : Invoke net ids call → ℤ → Error → St net ids call → St net ids call
  read_failed inv status err s =
      if leb_ℤ (pos 1000) status && leb_ℤ status (pos 1001)
      then end net ids call inv [] status s
      else if leb_ℤ (pos 0) status
      then set_code server (end net ids call inv err status s)
      else if s.closing
      then end net ids call inv [] (pos 1000) s
      else set_code (classify err) (
          end net ids call inv err (abnormal net ids call) (
            emit_error net ids call inv (classify err)
              (record_call net ids call (add ids.errors 1) s)))

  abbrev pub insert_timer : Timer Fn → List (Timer Fn) → List (Timer Fn)
  insert_timer t [] = t ∷ []
  insert_timer t (u ∷ us) =
      let rest = insert_timer t us in if leb t.at u.at then t ∷ u ∷ us else u ∷ rest

  -- The timers that are due, earliest first; of two at the same time, the one set first.
  abbrev pub due_timers : ℕ → List (Timer Fn) → List (Timer Fn)
  due_timers now [] = []
  due_timers now (t ∷ ts) =
      let rest = due_timers now ts in if leb t.at now then insert_timer t rest else rest

  abbrev pub next_at : ℕ → Timer Fn → ℕ
  next_at now t = if ltb (t.at + t.every) now then now + t.every else t.at + t.every

  -- A repeating timer is set again, another one removed.
  abbrev pub reschedule : ℕ → Timer Fn → List (Timer Fn) → List (Timer Fn)
  reschedule now t [] = []
  reschedule now t (u ∷ us) =
      let rest = reschedule now t us in
      if u.id == t.id
      then (if ltb 0 t.every then record u { at = next_at now t } ∷ rest else rest)
      else u ∷ rest

  unfoldable pub fire_each :
      Invoke net ids call → ℕ → List (Timer Fn) → St net ids call → St net ids call
  fire_each inv now [] s = s
  fire_each inv now (t ∷ ts) s =
      if s.done
      then s
      else unless_thrown net ids call
          (inv t.fn no_argument (record s { timers = reschedule now t s.timers }))
          (fire_each inv now ts)

  abbrev pub fire_timers : Invoke net ids call → St net ids call → St net ids call
  fire_timers inv s = fire_each inv (net.now s.env) (due_timers (net.now s.env) s.timers) s

  -- A round of the loop, in the world as it is then.
  abbrev pub handled : Invoke net ids call → Event → St net ids call → St net ids call
  handled inv (message at) s = on_message inv at s
  handled inv (failure status err) s = read_failed inv status err s
  handled inv no_more s = end net ids call inv [] (abnormal net ids call) s
  handled inv timer_due s = fire_timers inv s
  handled inv context_ended s = record s { done = true; cut = true }

  abbrev pub woken : Event → St net ids call → St net ids call
  woken e s = record s { env = net.pass e s.env }

  -- One round of the loop.
  abbrev pub on_event : Invoke net ids call → Event → St net ids call → St net ids call
  on_event inv e s = handled inv e (woken e s)

  unfoldable pub run_events :
      Invoke net ids call → List Event → St net ids call → Option (St net ids call)
  run_events inv [] s = if s.done then some s else none
  run_events inv (e ∷ es) s =
      let rest = run_events inv es (on_event inv e s) in if s.done then some s else rest

  abbrev pub record_failed : Bool → St net ids call → St net ids call
  record_failed failed s = record_call net ids call (rate ids.session_failed failed) s

  -- ctx.Err() != nil behind the loop
  abbrev pub is_over : St net ids call → Bool
  is_over s = net.ended s.env || s.cut

  -- recordSessionEnd, unless the test is ending.
  abbrev pub record_end : St net ids call → St net ids call
  record_end s =
      if is_over s
      then s
      else record_failed (not (is_nil s.error))
          (record_call net ids call (trend ids.session_duration s.duration (is_nil s.error)) s)

  abbrev pub finish : Option (St net ids call) → Option (St net ids call)
  finish none = none
  finish (some s) = some (record_end s)

  -- run, after the setup callback.
  abbrev pub after_setup :
      Invoke net ids call → List Event → Bool × St net ids call → Option (St net ids call)
  after_setup inv events (true, s) = some (handle_throw net ids call s)
  after_setup inv events (false, s) =
      finish (run_events inv events (emit net ids call inv open_event no_argument s))

  abbrev pub families : Families
  families = record { duration = some ids.connecting; count = some ids.sessions; failed = none }

  abbrev pub code_for : ℕ → Code
  code_for status =
      if leb 400 status then server else if not (status == 0) then bad_protocol else no_code

  -- protocol.Record
  abbrev pub record_dial : Outcome → St net ids call → Code × St net ids call
  record_dial out s =
      let r = record_outcome (not (net.ended s.env)) families out in
      (r.0, record s { calls = s.calls ++ r.1 })

  abbrev pub dial_failed : Error → Code × St net ids call → St net ids call
  dial_failed err (code, s) = record_failed true (record s { error = err; code = code })

  -- The session after a handshake that took `took`.
  abbrev pub opened_with : ℤ → St net ids call → St net ids call
  opened_with took s =
      let r = record_dial (record { duration = took; err = []; code = no_code; sent = true }) s in
      record r.1 { opened = net.now r.1.env }

  -- connect with a callback, from the result of the handshake on; `depth` bounds nested calls.
  unfoldable pub connect : ℕ → Dialed → Fn → List Event → St net ids call → Option (St net ids call)
  connect depth (bad_url err) setup events s = some (
      dial_failed err
        (record_dial (record { duration = pos 0; err = err; code = no_code; sent = false }) s))
  connect depth (dialed status took (l ∷ err)) setup events s = some (
      dial_failed (l ∷ err) (
        record_dial (record { duration = took; err = l ∷ err; code = code_for status; sent = true })
          s))
  connect depth (dialed status took []) setup events s =
      let inv = invoke net ids call depth in
      after_setup inv events (inv setup no_argument (opened_with took s))
