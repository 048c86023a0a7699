-- ===== src/Ws/Recorded.antt =====
-- What is recorded of a session.
use loadtool.Prelude.{
  ◌⊎◌, inr, inl, ◌≡◌, inl, inr, refl, sym, ap, subst, ◌∙◌, ℕ, suc, ◌+◌, ◌≤◌, List, [], ◌∷◌, ◌++◌,
  length, Option, none, some, Bool, true, false, not, if◌then◌else◌, arith, Bool-cases, some_inj,
  count, count-append,
}
use loadtool.Prelude.Int.{ℤ}
use loadtool.Metrics.Families.Samples.{trend, rate}
use loadtool.Protocol.{no_code, is_nil, record_outcome}
use loadtool.Ws.{open_event, Ids, Argument, no_argument, Act, Net, Event, max_pending_replies}
use loadtool.Ws.Handlers.{St, Invoke, handle_throw, emit, invoke}
use loadtool.Ws.Session.{
  dialed, on_event, run_events, is_over, record_end, finish, after_setup, families, opened_with,
  connect,
}
use loadtool.Ws.Grown.{
  is_rate, Grows, Grows-self, Grows-trans, InvokeGrows, handle_throw-Grows, emit-Grows,
}
use loadtool.Ws.Grown.Whole.{invoke-Grows, on_event-Grows}
use loadtool.Ws.Ended.{run_events-over}

module _ {Fn E J : Type 0} (net : Net E) (ids : Ids) (call : Fn → Argument → J → Act Fn J) where
  run_events-Grows :
      (inv : Invoke net ids call)
      → InvokeGrows net ids call inv
      → (es : List Event) (s t : St net ids call) → run_events net ids call inv es s ≡ some t
      → Grows net ids call s t
  unfolding run_events
  run_events-Grows inv g [] s t h = elim (Bool-cases s.done) [
    | inl e ↦
        let same : s ≡ t = some_inj (sym (run_events-over net ids call inv [] s e) ∙ h) in
        subst (Grows net ids call s) same (Grows-self net ids call s)
    | inr e ↦
        let bad : none ≡ some t = sym (ap (λ b. if b then some s else none) e) ∙ h in
        absurd (cc bad)
  ]
  run_events-Grows inv g (x ∷ es) s t h =
      let next = on_event net ids call inv x s in
      let rest = run_events-Grows inv g es next t in
      elim (Bool-cases s.done) [
        | inl e ↦
            let same : s ≡ t = some_inj (sym (run_events-over net ids call inv (x ∷ es) s e) ∙ h) in
            subst (Grows net ids call s) same (Grows-self net ids call s)
        | inr e ↦
            let going : run_events net ids call inv es next ≡ some t =
              sym (ap (λ b. if b then some s else run_events net ids call inv es next) e) ∙ h in
            Grows-trans net ids call s next t (on_event-Grows net ids call inv g x s) (rest going)
      ]

  -- The number of sessions that are counted as failed or not.
  abbrev pub counted : St net ids call → ℕ
  counted s = count is_rate s.calls

  -- What the end of a session records: once, or nothing because the context has ended.
  unfoldable Once : ℕ → St net ids call → Type 0
  Once n t = (counted t ≡ suc n) ⊎ ((counted t ≡ n) × (is_over net ids call t ≡ true))

  record_end-counted :
      (s : St net ids call)
      → ((record_end net ids call s).pending ≡ s.pending)
        × Once (counted s) (record_end net ids call s)
  unfolding Once
  record_end-counted s = elim (Bool-cases (net.ended s.env)) [
    | inl e ↦
        let at_end : record_end net ids call s ≡ s = rw e refl in
        subst (λ (x : St net ids call). (x.pending ≡ s.pending) × Once (counted s) x) (sym at_end)
          (refl, inr (refl, rw e refl))
    | inr e ↦ elim (Bool-cases s.cut) [
      | inl c ↦
          let gone : is_over net ids call s ≡ true = rw (e, c) refl in
          let at_end : record_end net ids call s ≡ s = rw gone refl in
          subst (λ (x : St net ids call). (x.pending ≡ s.pending) × Once (counted s) x) (sym at_end)
            (refl, inr (refl, gone))
      | inr c ↦
          let ended_call = trend ids.session_duration s.duration (is_nil s.error) in
          let failed_call = rate ids.session_failed (not (is_nil s.error)) in
          let last : St net ids call = record s {
            calls = (s.calls ++ (ended_call ∷ [])) ++ (failed_call ∷ []);
          } in
          let live : is_over net ids call s ≡ false = rw (e, c) refl in
          let at_end : record_end net ids call s ≡ last = rw live (rw e (rw e refl)) in
          let all : counted last ≡ suc (counted s) =
            count-append is_rate (s.calls ++ (ended_call ∷ [])) (failed_call ∷ [])
            ∙ ap (λ n. n + 1) (count-append is_rate s.calls (ended_call ∷ []))
            ∙ omega arith in
          subst (λ (x : St net ids call). (x.pending ≡ s.pending) × Once (counted s) x) (sym at_end)
            (refl, inl all)
    ]
  ]

  opened-counted :
      (took : ℤ) (s : St net ids call)
      → (counted (opened_with net ids call took s) ≡ counted s)
        × ((opened_with net ids call took s).pending ≡ s.pending)
  unfolding record_outcome
  opened-counted took s = (
    count-append is_rate s.calls
          (record_outcome (not (net.ended s.env)) (families net ids call)
            (record { duration = took; err = []; code = no_code; sent = true })).1
        ∙ no_rates (not (net.ended s.env)),
    refl,
  )
    where
      no_rates :
          (live : Bool)
          → counted s
              + count is_rate
                  (record_outcome live
                    (families net ids call)
                    (record { duration = took; err = []; code = no_code; sent = true })).1
            ≡ counted s
      no_rates true = omega arith
      no_rates false = omega arith

  -- A session whose handshake succeeded, and which began with at most 1024 sends that await a reply,
  -- is counted exactly once as failed or not when connect returns; or it is not counted, and then the
  -- context has ended, or the setup callback threw. At most 1024 sends await a reply then.
  pub connect-counted :
      (depth status : ℕ) (took : ℤ) (setup : Fn) (events : List Event) (s t : St net ids call)
      → length s.pending ≤ max_pending_replies
      → connect net ids call depth (dialed status took []) setup events s ≡ some t
      → (length t.pending ≤ max_pending_replies)
        × ((counted t ≡ suc (counted s))
            ⊎ ((counted t ≡ counted s)
                × ((is_over net ids call t ≡ true)
                    ⊎ ((invoke net ids call depth setup no_argument
                          (opened_with net ids call took s)).0
                        ≡ true))))
  unfolding connect
  connect-counted depth status took setup events s t few h =
      split (inv setup no_argument opened).0 refl (inv setup no_argument opened).1 refl h
    where
      inv : Invoke net ids call
      inv = invoke net ids call depth

      opened : St net ids call
      opened = opened_with net ids call took s

      opened-Grows :
          (u : St net ids call) → (inv setup no_argument opened).1 ≡ u → Grows net ids call opened u
      opened-Grows u at_u =
          subst (Grows net ids call opened) at_u
            (invoke-Grows net ids call depth setup no_argument opened)

      ended_with :
          (u v : St net ids call)
          → Grows net ids call opened u
          → run_events net ids call inv events (emit net ids call inv open_event no_argument u)
            ≡ some v
          → (counted v ≡ counted s) × (length v.pending ≤ max_pending_replies)
      ended_with u v g run =
          let first = emit net ids call inv open_event no_argument u in
          let inv-Grows = invoke-Grows net ids call depth in
          let g' = Grows-trans net ids call opened u v g (
            Grows-trans net ids call u first v
              (emit-Grows net ids call inv inv-Grows open_event no_argument u)
              (run_events-Grows inv inv-Grows events first v run)) in
          let (same, pending_same) = opened-counted took s in (g'.rates ∙ same, g'.bounded few)

      finished :
          (u : St net ids call)
          → Grows net ids call opened u
          → (o : Option (St net ids call))
          → run_events net ids call inv events (emit net ids call inv open_event no_argument u) ≡ o
          → finish net ids call o ≡ some t
          → (length t.pending ≤ max_pending_replies) × Once (counted s) t
      finished u g none run h = absurd (cc h)
      finished u g (some v) run h =
          let (same, few_left) = ended_with u v g run in
          let (pending_same, once) = record_end-counted v in
          subst
            (λ (x : St net ids call). (length x.pending ≤ max_pending_replies) × Once (counted s) x)
            (some_inj h)
            (
              subst (λ x. length x ≤ max_pending_replies) (sym pending_same) few_left,
              subst (λ n. Once n (record_end net ids call v)) same once,
            )

      split :
          (threw : Bool)
          → (inv setup no_argument opened).0 ≡ threw
          → (u : St net ids call) → (inv setup no_argument opened).1 ≡ u
          → after_setup net ids call inv events (threw, u) ≡ some t
          → (length t.pending ≤ max_pending_replies)
            × ((counted t ≡ suc (counted s))
                ⊎ ((counted t ≡ counted s)
                    × ((is_over net ids call t ≡ true)
                        ⊎ ((inv setup no_argument opened).0 ≡ true))))
      split true e u at_u h =
          let (same, pending_same) = opened-counted took s in
          let g =
            Grows-trans net ids call opened u (handle_throw net ids call u) (opened-Grows u at_u)
              (handle_throw-Grows net ids call u) in
          let k = subst (Grows net ids call opened) (some_inj h) g in
          (k.bounded few, inr (k.rates ∙ same, inr e))
      split false e u at_u h =
          let (few_left, once) =
            finished u (opened-Grows u at_u)
              (run_events net ids call inv events (emit net ids call inv open_event no_argument u))
              refl h in
          (few_left, unfold Once in elim once [ inl x ↦ inl x | inr (x, y) ↦ inr (x, inl y) ])
