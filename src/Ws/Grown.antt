-- ===== src/Ws/Grown.antt =====
-- What handlers and events do to the fields that a session keeps.
pub mod Whole
use loadtool.Prelude.{
  ◌≡◌, inl, inr, refl, sym, ap, subst, ◌∙◌, ℕ, zero, suc, ◌+◌, ◌-◌, ◌≤◌, List, [], ◌∷◌, ◌++◌,
  length, length-append, length-drop, drop, Bool, true, false, ◌||◌, ◌&&◌, not, leb, ltb, ◌==◌,
  if◌then◌else◌, count, count-append, arith, Bool-cases, leb→le,
}
use loadtool.Prelude.Int.{ℤ, pos, ◌-ℤ◌, leb_ℤ}
use loadtool.Metrics.Families.Samples.{Call, trend, add, rate}
use loadtool.Protocol.{Code, server, closed, Error, is_nil, is_set, classify}
use loadtool.Ws.{
  EventName, open_event, message_event, close_event, error_event, Ids, Argument, no_argument,
  message_data, close_code_is, error_is, Act, finished, threw, on, send, close, add_timer, Timer,
  Net, State, Event, message, failure, no_more, timer_due, context_ended, max_pending_replies,
}
use loadtool.Ws.Handlers.{
  St, Invoke, record_call, handlers_of, handle_throw, unless_thrown, emit_each, emit, emit_error,
  close_with, end, push_pending, abnormal, sent_with, send_message, close_socket, with_timer, exec,
  invoke,
}
use loadtool.Ws.Session.{
  answer, on_message, set_code, read_failed, fire_each, due_timers, reschedule, fire_timers,
  on_event,
}

-- Both branches of a test.
pub if_both {ℓ} :
    {A : Type ℓ} (P : A → Type 0) (b : Bool) (x y : A)
    → (b ≡ true → P x)
    → (b ≡ false → P y)
    → P (if b then x else y)
if_both P true x y yes_P no_P = yes_P refl
if_both P false x y yes_P no_P = no_P refl

-- A call of Rate, which a session makes for ws_session_failed only.
abbrev pub is_rate : Call → Bool
is_rate (rate id v) = true
is_rate c = false

module _ {Fn E J : Type 0} (net : Net E) (ids : Ids) (call : Fn → Argument → J → Act Fn J) where
  -- From one state to a later one: no further session is counted as failed or not, the sends that
  -- await a reply stay within their bound, and what the end of the session has set stays.
  pub record Grows (s t : St net ids call) : Type 0 where
    pub rates : count is_rate t.calls ≡ count is_rate s.calls
    pub bounded : length s.pending ≤ max_pending_replies → length t.pending ≤ max_pending_replies
    pub stays :
        s.done ≡ true
        → (t.done ≡ true)
          × (t.error ≡ s.error)
          × (t.close_code ≡ s.close_code)
          × (t.duration ≡ s.duration)

  pub Grows-self : (s : St net ids call) → Grows s s
  Grows-self s = record { rates = refl; bounded = λ h. h; stays = λ h. (h, refl, refl, refl) }

  pub Grows-trans : (s t u : St net ids call) → Grows s t → Grows t u → Grows s u
  Grows-trans s t u g k = record {
    rates = k.rates ∙ g.rates;
    bounded = λ h. k.bounded (g.bounded h);
    stays = λ h.
        let (a, b, c, d) = g.stays h in
        let (a', b', c', d') = k.stays a in (a', b' ∙ b, c' ∙ c, d' ∙ d);
  }

  -- A call of JavaScript that keeps to it.
  abbrev pub InvokeGrows : Invoke net ids call → Type 0
  InvokeGrows inv = (f : Fn) (arg : Argument) (s : St net ids call) → Grows s (inv f arg s).1

  pub record_call-Grows :
      (c : Call) (s : St net ids call) → is_rate c ≡ false → Grows s (record_call net ids call c s)
  record_call-Grows c s other = elim (Bool-cases (net.ended s.env)) [
    | inl e ↦ rw e (Grows-self s)
    | inr e ↦ rw e (record {
      rates = count-append is_rate s.calls (c ∷ []) ∙ rw other (omega arith);
      bounded = λ h. h;
      stays = λ h. (h, refl, refl, refl);
    })
  ]

  pub handle_throw-Grows : (s : St net ids call) → Grows s (handle_throw net ids call s)
  handle_throw-Grows s = elim (Bool-cases (net.ended s.env)) [
    | inl e ↦
        rw e (record { rates = refl; bounded = λ h. h; stays = λ h. (refl, refl, refl, refl) })
    | inr e ↦
        rw e (record { rates = refl; bounded = λ h. h; stays = λ h. (refl, refl, refl, refl) })
  ]

  pub unless_thrown-Grows :
      (s : St net ids call) (r : Bool × St net ids call) (next : St net ids call → St net ids call)
      → Grows s r.1
      → ((t : St net ids call) → Grows t (next t))
      → Grows s (unless_thrown net ids call r next)
  unless_thrown-Grows s (true, t) next g rest =
      Grows-trans s t (handle_throw net ids call t) g (handle_throw-Grows t)
  unless_thrown-Grows s (false, t) next g rest = Grows-trans s t (next t) g (rest t)

  pub emit_each-Grows :
      (inv : Invoke net ids call)
      → InvokeGrows inv
      → (arg : Argument) (fs : List Fn) (s : St net ids call)
      → Grows s (emit_each net ids call inv arg fs s)
  unfolding emit_each
  emit_each-Grows inv g arg [] s = Grows-self s
  emit_each-Grows inv g arg (f ∷ fs) s =
      let rest = emit_each-Grows inv g arg fs in
      if_both (λ t. Grows s t) s.thrown s
        (unless_thrown net ids call (inv f arg s) (emit_each net ids call inv arg fs))
        (λ e. Grows-self s)
        (λ e.
          unless_thrown-Grows s (inv f arg s) (emit_each net ids call inv arg fs) (g f arg s) rest)

  pub emit-Grows :
      (inv : Invoke net ids call)
      → InvokeGrows inv
      → (name : EventName) (arg : Argument) (s : St net ids call)
      → Grows s (emit net ids call inv name arg s)
  emit-Grows inv g name arg s =
      emit_each-Grows inv g arg (handlers_of net ids call name s.handlers) s

  -- A session that is not over may set how it ends.
  fresh-Grows :
      (s t : St net ids call)
      → s.done ≡ false
      → t.calls ≡ s.calls
      → t.pending ≡ s.pending
      → Grows s t
  fresh-Grows s t going same_calls same_pending = record {
    rates = ap (count is_rate) same_calls;
    bounded = λ h. subst (λ x. length x ≤ max_pending_replies) (sym same_pending) h;
    stays = λ h. absurd (cc (going, h));
  }

  pub end-Grows :
      (inv : Invoke net ids call)
      → InvokeGrows inv
      → (err : Error) (code : ℤ) (s : St net ids call) → Grows s (end net ids call inv err code s)
  unfolding end
  end-Grows inv g err code s =
      let closing = close_with net ids call err code s in
      let last = emit net ids call inv close_event (close_code_is code) closing in
      if_both (λ t. Grows s t) s.done s last (λ e. Grows-self s)
        (λ e.
          Grows-trans s closing last (fresh-Grows s closing e refl refl)
            (emit-Grows inv g close_event (close_code_is code) closing))

  -- A change of fields that Grows does not speak of.
  pub same-Grows :
      (s t : St net ids call)
      → t.calls ≡ s.calls
      → t.pending ≡ s.pending
      → t.done ≡ s.done
      → t.error ≡ s.error
      → t.close_code ≡ s.close_code
      → t.duration ≡ s.duration
      → Grows s t
  same-Grows s t a b c d e f = record {
    rates = ap (count is_rate) a;
    bounded = λ h. subst (λ x. length x ≤ max_pending_replies) (sym b) h;
    stays = λ h. (c ∙ h, d, e, f);
  }

  pub push_pending-Grows :
      (reply : Bool) (start : ℕ) (s : St net ids call)
      → Grows s (push_pending net ids call reply start s)
  push_pending-Grows false start s = Grows-self s
  push_pending-Grows true start s = record {
    rates = refl;
    bounded = λ h. elim (Bool-cases (leb max_pending_replies (length s.pending))) [
      | inl full ↦
          let at_least = leb→le max_pending_replies (length s.pending) full in
          let dropped = length-drop 1 s.pending in
          let appended = length-append (drop 1 s.pending) (start ∷ []) in rw full (omega arith)
      | inr fits ↦
          let appended = length-append s.pending (start ∷ []) in
          let less : ltb (length s.pending) max_pending_replies ≡ true = ground arith in
          rw fits (ground arith)
    ];
    stays = λ h. (h, refl, refl, refl);
  }
