-- ===== src/Ws/Grown/Whole.antt =====
-- Handlers to any depth, and the rounds of the event loop.
use loadtool.Prelude.{
  ◌≡◌, refl, ap, ℕ, zero, suc, List, [], ◌∷◌, ◌++◌, length, Bool, true, false, ◌||◌, ◌&&◌, ◌==◌,
  if◌then◌else◌, arith,
}
use loadtool.Prelude.Int.{ℤ, pos, ◌-ℤ◌, leb_ℤ}
use loadtool.Metrics.Families.Samples.{trend, add}
use loadtool.Protocol.{Code, server, closed, Error, classify}
use loadtool.Ws.{
  message_event, error_event, Ids, Argument, no_argument, message_data, error_is, Act, finished,
  threw, on, send, close, add_timer, Timer, Net, Event, message, failure, no_more, timer_due,
  context_ended,
}
use loadtool.Ws.Handlers.{
  St, Invoke, record_call, emit_error, end, abnormal, sent_with, send_message, close_socket,
  with_timer, exec, invoke, unless_thrown,
}
use loadtool.Ws.Session.{
  answer, on_message, set_code, read_failed, fire_each, due_timers, reschedule, handled, woken,
  on_event,
}
use loadtool.Ws.Grown.{
  if_both, Grows, Grows-self, Grows-trans, InvokeGrows, record_call-Grows, unless_thrown-Grows,
  emit-Grows, end-Grows, same-Grows, push_pending-Grows,
}

module _ {Fn E J : Type 0} (net : Net E) (ids : Ids) (call : Fn → Argument → J → Act Fn J) where
  set_code-Grows :
      (c : Code) (s : St net ids call) → Grows net ids call s (set_code net ids call c s)
  set_code-Grows c s = same-Grows net ids call s _ refl refl refl refl refl refl

  -- An error is counted and given to its handlers, and then the session ends.
  fail-Grows :
      (inv : Invoke net ids call)
      → InvokeGrows net ids call inv
      → (err : Error) (c : Code) (s : St net ids call)
      → Grows net ids call s (
          set_code net ids call c (
            end net ids call inv err
              (abnormal net ids call)
              (emit_error net ids call inv c (record_call net ids call (add ids.errors 1) s))))
  fail-Grows inv g err c s =
      let s₁ = record_call net ids call (add ids.errors 1) s in
      let s₂ = emit_error net ids call inv c s₁ in
      let s₃ = end net ids call inv err (abnormal net ids call) s₂ in
      Grows-trans net ids call s s₁ _ (record_call-Grows net ids call (add ids.errors 1) s refl) (
        Grows-trans net ids call s₁ s₂ _ (emit-Grows net ids call inv g error_event (error_is c) s₁)
          (Grows-trans net ids call s₂ s₃ _
            (end-Grows net ids call inv g err (abnormal net ids call) s₂) (set_code-Grows c s₃)))

  sent_with-Grows :
      (inv : Invoke net ids call)
      → InvokeGrows net ids call inv
      → (reply : Bool) (start : ℕ) (err : Error) (s : St net ids call)
      → Grows net ids call s (sent_with net ids call inv reply start err s).1
  sent_with-Grows inv g reply start [] s =
      let s₁ = record_call net ids call (add ids.msgs_sent 1) s in
      Grows-trans net ids call s s₁ _ (record_call-Grows net ids call (add ids.msgs_sent 1) s refl)
        (push_pending-Grows net ids call reply start s₁)
  sent_with-Grows inv g reply start (l ∷ err) s =
      if_both (λ (r : Bool × St net ids call). Grows net ids call s r.1) (net.ended s.env)
        (false, record s { done = true }) (false, _)
        (λ e. record { rates = refl; bounded = λ h. h; stays = λ h. (refl, refl, refl, refl) })
        (λ e. fail-Grows inv g (l ∷ err) (classify (l ∷ err)) s)

  send_message-Grows :
      (inv : Invoke net ids call)
      → InvokeGrows net ids call inv
      → (reply : Bool) (s : St net ids call)
      → Grows net ids call s (send_message net ids call inv reply s).1
  unfolding send_message
  send_message-Grows inv g reply s =
      let counted = record_call net ids call (add ids.errors 1) s in
      let w = net.write s.env in
      let written : St net ids call = record s { env = w.1 } in
      if_both (λ (r : Bool × St net ids call). Grows net ids call s r.1) (s.done || s.closing)
        (false, emit_error net ids call inv closed counted)
        (sent_with net ids call inv reply (net.now s.env) w.0 written)
        (λ e.
          Grows-trans net ids call s counted _
            (record_call-Grows net ids call (add ids.errors 1) s refl)
            (emit-Grows net ids call inv g error_event (error_is closed) counted))
        (λ e.
          Grows-trans net ids call s written _
            (same-Grows net ids call s written refl refl refl refl refl refl)
            (sent_with-Grows inv g reply (net.now s.env) w.0 written))

  close_socket-Grows : (s : St net ids call) → Grows net ids call s (close_socket net ids call s)
  close_socket-Grows s =
      if_both (λ t. Grows net ids call s t) (s.closing || s.done) s
        (record s { closing = true; env = net.start_close s.env }) (λ e. Grows-self net ids call s)
        (λ e. same-Grows net ids call s _ refl refl refl refl refl refl)

  exec-Grows :
      (inv : Invoke net ids call)
      → InvokeGrows net ids call inv
      → (a : Act Fn J) (s : St net ids call) → Grows net ids call s (exec net ids call inv a s).1
  unfolding exec
  exec-Grows inv g (finished j) s = same-Grows net ids call s _ refl refl refl refl refl refl
  exec-Grows inv g (threw j) s = same-Grows net ids call s _ refl refl refl refl refl refl
  exec-Grows inv g (on name fn k) s =
      let s₁ : St net ids call = record s { handlers = s.handlers ++ ((name, fn) ∷ []) } in
      Grows-trans net ids call s s₁ _ (same-Grows net ids call s s₁ refl refl refl refl refl refl)
        (exec-Grows inv g k s₁)
  exec-Grows inv g (send j reply k) s =
      let s₁ : St net ids call = record s { heap = j } in
      let r = send_message net ids call inv reply s₁ in
      Grows-trans net ids call s s₁ _ (same-Grows net ids call s s₁ refl refl refl refl refl refl) (
        Grows-trans net ids call s₁ r.1 _ (send_message-Grows inv g reply s₁)
          (exec-Grows inv g (k r.0 r.1.heap) r.1))
  exec-Grows inv g (close k) s =
      let s₁ = close_socket net ids call s in
      Grows-trans net ids call s s₁ _ (close_socket-Grows s) (exec-Grows inv g k s₁)
  exec-Grows inv g (add_timer fn d repeats k) s =
      let rest = exec-Grows inv g (k (suc s.next_id)) (with_timer net ids call fn d repeats s) in
      let timed = with_timer net ids call fn d repeats s in
      if_both (λ (r : Bool × St net ids call). Grows net ids call s r.1) (repeats && d == 0)
        (true, s) (exec net ids call inv (k (suc s.next_id)) timed) (λ e. Grows-self net ids call s)
        (λ e.
          Grows-trans net ids call s timed _
            (same-Grows net ids call s timed refl refl refl refl refl refl) rest)

  pub invoke-Grows : (depth : ℕ) → InvokeGrows net ids call (invoke net ids call depth)
  unfolding invoke
  invoke-Grows zero f arg s = Grows-self net ids call s
  invoke-Grows (suc depth) f arg s =
      exec-Grows (invoke net ids call depth) (invoke-Grows depth) (call f arg s.heap) s

  answer-Grows :
      (at : ℕ) (pending : List ℕ) (s : St net ids call)
      → s.pending ≡ pending
      → Grows net ids call s (answer net ids call at pending s)
  answer-Grows at [] s e = Grows-self net ids call s
  answer-Grows at (sent ∷ rest) s e =
      let s₁ : St net ids call = record s { pending = rest } in
      Grows-trans net ids call s s₁ _
        (record {
          rates = refl;
          bounded = λ h. let n : length s.pending ≡ suc (length rest) = ap length e in omega arith;
          stays = λ h. (h, refl, refl, refl);
        })
        (record_call-Grows net ids call (trend ids.msg_latency (pos at -ℤ pos sent) true) s₁ refl)

  on_message-Grows :
      (inv : Invoke net ids call)
      → InvokeGrows net ids call inv
      → (at : ℕ) (s : St net ids call) → Grows net ids call s (on_message net ids call inv at s)
  on_message-Grows inv g at s =
      let s₁ = record_call net ids call (add ids.msgs_received 1) s in
      let s₂ = answer net ids call at s₁.pending s₁ in
      Grows-trans net ids call s s₁ _
        (record_call-Grows net ids call (add ids.msgs_received 1) s refl)
        (Grows-trans net ids call s₁ s₂ _ (answer-Grows at s₁.pending s₁ refl)
          (emit-Grows net ids call inv g message_event message_data s₂))

  read_failed-Grows :
      (inv : Invoke net ids call)
      → InvokeGrows net ids call inv
      → (status : ℤ) (err : Error) (s : St net ids call)
      → Grows net ids call s (read_failed net ids call inv status err s)
  read_failed-Grows inv g status err s =
      let clean = end net ids call inv [] status s in
      let coded = set_code net ids call server (end net ids call inv err status s) in
      let ours = end net ids call inv [] (pos 1000) s in
      let counted = record_call net ids call (add ids.errors 1) s in
      let theirs = set_code net ids call (classify err) (
        end net ids call inv err (abnormal net ids call)
          (emit_error net ids call inv (classify err) counted)) in
      if_both (λ t. Grows net ids call s t) (leb_ℤ (pos 1000) status && leb_ℤ status (pos 1001))
        clean (if leb_ℤ (pos 0) status then coded else if s.closing then ours else theirs)
        (λ e. end-Grows net ids call inv g [] status s)
        (λ e.
          if_both (λ t. Grows net ids call s t) (leb_ℤ (pos 0) status) coded
            (if s.closing then ours else theirs)
            (λ e'.
              Grows-trans net ids call s (end net ids call inv err status s) coded
                (end-Grows net ids call inv g err status s)
                (set_code-Grows server (end net ids call inv err status s)))
            (λ e'.
              if_both (λ t. Grows net ids call s t) s.closing ours theirs
                (λ e''. end-Grows net ids call inv g [] (pos 1000) s)
                (λ e''. fail-Grows inv g err (classify err) s)))

  fire_each-Grows :
      (inv : Invoke net ids call)
      → InvokeGrows net ids call inv
      → (now : ℕ) (ts : List (Timer Fn)) (s : St net ids call)
      → Grows net ids call s (fire_each net ids call inv now ts s)
  unfolding fire_each
  fire_each-Grows inv g now [] s = Grows-self net ids call s
  fire_each-Grows inv g now (t ∷ ts) s =
      let s₁ : St net ids call = record s { timers = reschedule net ids call now t s.timers } in
      let one =
        Grows-trans net ids call s s₁ (inv t.fn no_argument s₁).1
          (same-Grows net ids call s s₁ refl refl refl refl refl refl) (g t.fn no_argument s₁) in
      let rest = fire_each-Grows inv g now ts in
      let fired = inv t.fn no_argument s₁ in
      if_both (λ t. Grows net ids call s t) s.done s
        (unless_thrown net ids call fired (fire_each net ids call inv now ts))
        (λ e. Grows-self net ids call s)
        (λ e. unless_thrown-Grows net ids call s fired (fire_each net ids call inv now ts) one rest)

  handled-Grows :
      (inv : Invoke net ids call)
      → InvokeGrows net ids call inv
      → (e : Event) (s : St net ids call) → Grows net ids call s (handled net ids call inv e s)
  handled-Grows inv g (message at) s = on_message-Grows inv g at s
  handled-Grows inv g (failure status err) s = read_failed-Grows inv g status err s
  handled-Grows inv g no_more s = end-Grows net ids call inv g [] (abnormal net ids call) s
  handled-Grows inv g timer_due s =
      fire_each-Grows inv g (net.now s.env) (due_timers net ids call (net.now s.env) s.timers) s
  handled-Grows inv g context_ended s = record {
    rates = refl;
    bounded = λ h. h;
    stays = λ h. (refl, refl, refl, refl);
  }

  pub on_event-Grows :
      (inv : Invoke net ids call)
      → InvokeGrows net ids call inv
      → (e : Event) (s : St net ids call) → Grows net ids call s (on_event net ids call inv e s)
  on_event-Grows inv g e s =
      let s₁ = woken net ids call e s in
      Grows-trans net ids call s s₁ (handled net ids call inv e s₁)
        (same-Grows net ids call s s₁ refl refl refl refl refl refl) (handled-Grows inv g e s₁)
