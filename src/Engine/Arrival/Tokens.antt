-- ===== src/Engine/Arrival/Tokens.antt =====
-- Every start is run or dropped, and one is dropped only when every VU is busy.
use loadtool.Prelude.{◌+◌, ◌≤◌, ◌<◌, ◌≡◌, true, false, arith}
use loadtool.Engine.Arrival.{
  ArrivalRate, Run, begin_run, Step, Reach, hand_over, drop, finish, exhaust, cancel, quit, abandon,
  begin, then,
}
use loadtool.Engine.Arrival.Schedule.{starts, Fits, offset-lt}

-- Between two steps.
pub record Inv (e : ArrivalRate) (s : Run) : Type 0 where
  pub tokens : s.idle + s.busy + s.lost ≡ e.pre_allocated_vus
  pub decided : s.finished + s.busy + s.dropped ≡ s.k
  pub scheduled : s.k ≤ starts e
  pub kept : s.cancelled ≡ false → s.lost ≡ 0
  pub ended : s.running ≡ false → s.cancelled ≡ false → starts e ≤ s.k
  pub lost_at_end : s.running ≡ true → s.lost ≡ 0

module _ (e : ArrivalRate) (rate_pos : 0 < e.rate) (unit_pos : 0 < e.time_unit)
    (fits : Fits e) where
  Step-Inv : {s u : Run} → Step e s u → Inv e s → Inv e u
  Step-Inv {s} (hand_over r d i eq) v =
      let lt = (offset-lt e s.k rate_pos unit_pos fits v.scheduled).0 d in ground arith
  Step-Inv {s} (drop r d i eq) v =
      let lt = (offset-lt e s.k rate_pos unit_pos fits v.scheduled).0 d in ground arith
  Step-Inv (finish b eq) v = ground arith
  Step-Inv {s} (exhaust r late eq) v =
      let iff = (offset-lt e s.k rate_pos unit_pos fits v.scheduled).1 in ground (arith, iff)
  Step-Inv (cancel eq) v = ground arith
  Step-Inv (quit r c eq) v = ground arith
  Step-Inv (abandon r c d i eq) v = ground arith

  begin-Inv : Inv e (begin_run e)
  unfolding begin_run
  begin-Inv = ground arith

  -- For a positive rate and time unit, and products that fit in an int64: in every state that a run
  -- can reach, the tokens in the channel, the VUs in an iteration and the tokens lost to a
  -- cancellation are together the VUs. The starts decided so far, at most the scheduled ones, were
  -- each run, are running, or were dropped. A token is lost only in a cancelled run, and a
  -- scheduler that was not cancelled returns only behind the last start.
  pub Reach-Inv : {s : Run} → Reach e s → Inv e s
  Reach-Inv begin = begin-Inv
  Reach-Inv (then r st) = Step-Inv st (Reach-Inv r)

  -- For a positive rate and time unit, and products that fit in an int64: when the scheduler of a
  -- run that was not cancelled has returned and no VU is busy any more, the iterations finished and
  -- the starts dropped are together the scheduled starts.
  pub Reach-accounts :
      {s : Run}
      → Reach e s
      → s.running ≡ false
      → s.cancelled ≡ false
      → s.busy ≡ 0
      → s.finished + s.dropped ≡ starts e
  Reach-accounts r over live done =
      let v = Reach-Inv r in let all = v.ended over live in omega (arith, v.decided, v.scheduled)

  -- For a positive rate and time unit, and products that fit in an int64: a scheduler still
  -- running, with no token left, has every VU in an iteration: a start is dropped only then.
  pub drop-busy :
      {s : Run} → Reach e s → s.running ≡ true → s.idle ≡ 0 → s.busy ≡ e.pre_allocated_vus
  drop-busy r on none =
      let v = Reach-Inv r in let kept = v.lost_at_end on in omega (arith, v.tokens)
