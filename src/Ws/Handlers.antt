-- ===== src/Ws/Handlers.antt =====
-- What handlers do to a session: emit, send, close, the timers, end and handleThrow.
use loadtool.Prelude.{
  ℕ, zero, suc, ◌+◌, List, [], ◌∷◌, ◌++◌, length, drop, Bool, true, false, ◌||◌, ◌&&◌, not, leb,
  ◌==◌, if◌then◌else◌,
}
use loadtool.Prelude.Int.{ℤ, pos, ◌-ℤ◌}
use loadtool.Metrics.Families.Samples.{Call, add}
use loadtool.Protocol.{Code, closed, Error, is_nil, is_set, classify}
use loadtool.Ws.{
  EventName, close_event, error_event, same_event, Ids, Argument, close_code_is, error_is, Act,
  finished, threw, on, send, close, add_timer, Net, State, max_pending_replies,
}

module _ {Fn E J : Type 0} (net : Net E) (ids : Ids) (call : Fn → Argument → J → Act Fn J) where
  abbrev pub St : Type 0
  St = State Fn E J

  -- A call of JavaScript, with whether it has thrown.
  abbrev pub Invoke : Type 0
  Invoke = Fn → Argument → St → Bool × St

  -- recorder: nothing is recorded once the test is ending.
  abbrev pub record_call : Call → St → St
  record_call c s = if net.ended s.env then s else record s { calls = s.calls ++ (c ∷ []) }

  abbrev pub handlers_of : EventName → List (EventName × Fn) → List Fn
  handlers_of name [] = []
  handlers_of name (f ∷ fs) =
      let rest = handlers_of name fs in if same_event f.0 name then f.1 ∷ rest else rest

  abbrev pub handle_throw : St → St
  handle_throw s =
      if net.ended s.env then record s { done = true } else record s { done = true; thrown = true }

  abbrev pub unless_thrown : Bool × St → (St → St) → St
  unless_thrown (true, s) next = handle_throw s
  unless_thrown (false, s) next = next s

  -- The loop of emit over the handlers that are registered when it starts.
  unfoldable pub emit_each : Invoke → Argument → List Fn → St → St
  emit_each inv arg [] s = s
  emit_each inv arg (f ∷ fs) s =
      if s.thrown then s else unless_thrown (inv f arg s) (emit_each inv arg fs)

  abbrev pub emit : Invoke → EventName → Argument → St → St
  emit inv name arg s = emit_each inv arg (handlers_of name s.handlers) s

  abbrev pub emit_error : Invoke → Code → St → St
  emit_error inv code = emit inv error_event (error_is code)

  -- The first part of end, on a session that is not over.
  abbrev pub close_with : Error → ℤ → St → St
  close_with err code s = record s {
    done = true;
    duration = pos (net.now s.env) -ℤ pos s.opened;
    close_code = code;
    error = if not (is_nil err) && is_nil s.error then err else s.error;
    code =
        if not (is_nil err) && is_nil s.error && not (is_set s.code) then classify err else s.code;
  }

  unfoldable pub end : Invoke → Error → ℤ → St → St
  end inv err code s =
      if s.done then s else emit inv close_event (close_code_is code) (close_with err code s)

  abbrev pub push_pending : Bool → ℕ → St → St
  push_pending false start s = s
  push_pending true start s = record s {
    pending =
        (if leb max_pending_replies (length s.pending) then drop 1 s.pending else s.pending)
        ++ (start ∷ []);
  }

  abbrev pub abnormal : ℤ
  abnormal = pos 1006

  -- send after conn.Write, which began at `start`.
  abbrev pub sent_with : Invoke → Bool → ℕ → Error → St → Bool × St
  sent_with inv reply start [] s =
      (true, push_pending reply start (record_call (add ids.msgs_sent 1) s))
  sent_with inv reply start (l ∷ err) s =
      if net.ended s.env then (false, record s { done = true }) else (
        false,
        record (end inv (l ∷ err) abnormal
            (emit_error inv (classify (l ∷ err)) (record_call (add ids.errors 1) s))) {
              code = classify (l ∷ err);
            },
      )

  unfoldable pub send_message : Invoke → Bool → St → Bool × St
  send_message inv reply s =
      if s.done || s.closing
      then (false, emit_error inv closed (record_call (add ids.errors 1) s))
      else (let w = net.write s.env in
          sent_with inv reply (net.now s.env) w.0 (record s { env = w.1 }))

  abbrev pub close_socket : St → St
  close_socket s =
      if s.closing || s.done then s else record s { closing = true; env = net.start_close s.env }

  abbrev pub with_timer : Fn → ℕ → Bool → St → St
  with_timer fn d repeats s = record s {
    next_id = suc s.next_id;
    timers =
        s.timers
        ++ (record {
          id = suc s.next_id;
          at = net.now s.env + d;
          every = if repeats then d else 0;
          fn = fn;
        }
            ∷ []);
  }

  -- One call of JavaScript.
  unfoldable pub exec : Invoke → Act Fn J → St → Bool × St
  exec inv (finished j) s = (false, record s { heap = j })
  exec inv (threw j) s = (true, record s { heap = j })
  exec inv (on name fn k) s = exec inv k (record s { handlers = s.handlers ++ ((name, fn) ∷ []) })
  exec inv (send j reply k) s =
      let r = send_message inv reply (record s { heap = j }) in exec inv (k r.0 r.1.heap) r.1
  exec inv (close k) s = exec inv k (close_socket s)
  exec inv (add_timer fn d repeats k) s =
      -- An interval of 0 ms throws.
      if repeats && d == 0
      then (true, s)
      else exec inv (k (suc s.next_id)) (with_timer fn d repeats s)

  -- A call at a depth of nesting; the depth is what the stack has left.
  unfoldable pub invoke : ℕ → Invoke
  invoke zero f arg s = (true, s)
  invoke (suc depth) f arg s = exec (invoke depth) (call f arg s.heap) s
