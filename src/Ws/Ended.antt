-- ===== src/Ws/Ended.antt =====
-- The end of the event loop.
use loadtool.Prelude.{
  ◌≡◌, refl, ap, ℕ, List, [], ◌∷◌, ◌++◌, Option, none, some, true, ◌&&◌, if◌then◌else◌,
}
use loadtool.Prelude.Int.{ℤ, pos, leb_ℤ}
use loadtool.Metrics.Families.Samples.{add}
use loadtool.Protocol.{server, Error, classify}
use loadtool.Ws.{
  close_event, close_code_is, Ids, Argument, Act, Net, Event, message, failure, no_more, timer_due,
  context_ended,
}
use loadtool.Ws.Handlers.{
  St, Invoke, record_call, emit, emit_error, close_with, end, abnormal, invoke,
}
use loadtool.Ws.Session.{set_code, handled, woken, on_event, run_events}
use loadtool.Ws.Grown.{if_both, InvokeGrows, emit-Grows}
use loadtool.Ws.Grown.Whole.{invoke-Grows}

-- The events after which a session is over.
abbrev pub Ends : Event → Type 0
Ends (failure status err) = Unit
Ends no_more = Unit
Ends context_ended = Unit
Ends e = ⊥

module _ {Fn E J : Type 0} (net : Net E) (ids : Ids) (call : Fn → Argument → J → Act Fn J) where
  end-done :
      (inv : Invoke net ids call)
      → InvokeGrows net ids call inv
      → (err : Error) (code : ℤ) (s : St net ids call)
      → (end net ids call inv err code s).done ≡ true
  unfolding end
  end-done inv g err code s =
      let closing = close_with net ids call err code s in
      if_both (λ (t : St net ids call). t.done ≡ true) s.done s
        (emit net ids call inv close_event (close_code_is code) closing) (λ e. e)
        (λ e.
          ((emit-Grows net ids call inv g close_event (close_code_is code) closing).stays refl).0)

  handled-done :
      (inv : Invoke net ids call)
      → InvokeGrows net ids call inv
      → (e : Event) (s : St net ids call) → Ends e
      → (handled net ids call inv e s).done ≡ true
  handled-done inv g (failure status err) s h =
      let Over : St net ids call → Type 0 = λ t. t.done ≡ true in
      let counted = record_call net ids call (add ids.errors 1) s in
      let ours = end net ids call inv [] (pos 1000) s in
      let theirs = set_code net ids call (classify err) (
        end net ids call inv err (abnormal net ids call)
          (emit_error net ids call inv (classify err) counted)) in
      let coded = set_code net ids call server (end net ids call inv err status s) in
      let uncoded = if s.closing then ours else theirs in
      if_both Over (leb_ℤ (pos 1000) status && leb_ℤ status (pos 1001))
        (end net ids call inv [] status s) (if leb_ℤ (pos 0) status then coded else uncoded)
        (λ e. end-done inv g [] status s)
        (λ e.
          if_both Over (leb_ℤ (pos 0) status) coded uncoded (λ e'. end-done inv g err status s)
            (λ e'.
              if_both Over s.closing ours theirs (λ e''. end-done inv g [] (pos 1000) s)
                (λ e''.
                  end-done inv g err (abnormal net ids call)
                    (emit_error net ids call inv (classify err) counted))))
  handled-done inv g no_more s h = end-done inv g [] (abnormal net ids call) s
  handled-done inv g context_ended s h = refl
  handled-done inv g (message at) s h = absurd h
  handled-done inv g timer_due s h = absurd h

  on_event-done :
      (inv : Invoke net ids call)
      → InvokeGrows net ids call inv
      → (e : Event) (s : St net ids call) → Ends e
      → (on_event net ids call inv e s).done ≡ true
  on_event-done inv g e s h = handled-done inv g e (woken net ids call e s) h

  pub run_events-over :
      (inv : Invoke net ids call) (es : List Event) (s : St net ids call)
      → s.done ≡ true
      → run_events net ids call inv es s ≡ some s
  unfolding run_events
  run_events-over inv [] s h = ap (λ b. if b then some s else none) h
  run_events-over inv (e ∷ es) s h =
      ap (λ b. if b then some s else run_events net ids call inv es (on_event net ids call inv e s))
        h

  -- The event loop returns once the connection has failed or closed, or the context has ended,
  -- whatever came before and whatever the handlers do.
  pub run_events-returns :
      (depth : ℕ) (before : List Event) (e : Event) (rest : List Event) (s : St net ids call)
      → Ends e
      → (t : St net ids call) × (run_events net ids call
            (invoke net ids call depth)
            (before ++ (e ∷ rest))
            s
          ≡ some t)
        × (t.done ≡ true)
  unfolding run_events
  run_events-returns depth [] e rest s h =
      let inv = invoke net ids call depth in
      let next = on_event net ids call inv e s in
      let over = on_event-done inv (invoke-Grows net ids call depth) e s h in
      if_both
        (λ (o : Option (St net ids call)). (t : St net ids call) × (o ≡ some t) × (t.done ≡ true))
        s.done (some s) (run_events net ids call inv rest next) (λ e. (s, refl, e))
        (λ e. (next, run_events-over inv rest next over, over))
  run_events-returns depth (b ∷ before) e rest s h =
      let inv = invoke net ids call depth in
      let later = run_events-returns depth before e rest (on_event net ids call inv b s) h in
      if_both
        (λ (o : Option (St net ids call)). (t : St net ids call) × (o ≡ some t) × (t.done ≡ true))
        s.done (some s)
        (run_events net ids call inv (before ++ (e ∷ rest)) (on_event net ids call inv b s))
        (λ e. (s, refl, e)) (λ e. later)
