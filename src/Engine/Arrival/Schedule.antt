-- ===== src/Engine/Arrival/Schedule.antt =====
-- How many starts the schedule has.
use native.Mathlib.Nat.{div-lt_iff_lt-mul, le-div_iff_mul-le}
use loadtool.Prelude.{
  ℕ, ◌+◌, ◌-◌, ◌*◌, ◌/◌, ◌^◌, ◌≡◌, true, ◌≤◌, ◌<◌, ◌↔◌, arith, ltb, ltb→lt, Bool-cases, inl, inr,
}
use loadtool.Engine.Arrival.{ArrivalRate, offset, due}
use loadtool.Prelude.Int.{pos, wrap_int64}

-- duration * rate / timeUnit, rounded up
abbrev pub starts : ArrivalRate → ℕ
starts e = (e.duration * e.rate + e.time_unit - 1) / e.time_unit

-- The products that offset computes for the starts of the schedule fit in an int64.
abbrev pub Fits : ArrivalRate → Type 0
Fits e = e.duration * e.rate + e.time_unit ≤ 2 ^ 63

exact-lt :
    (e : ArrivalRate) (k : ℕ)
    → 0 < e.rate
    → 0 < e.time_unit
    → (k * e.time_unit / e.rate < e.duration) ↔ (k < starts e)
exact-lt e k r t =
    let due = div-lt_iff_lt-mul {k = e.rate} {x = k * e.time_unit} {y = e.duration} r in
    let count =
      div-lt_iff_lt-mul {k = e.time_unit} {x = e.duration * e.rate + e.time_unit - 1} {y = k + 1}
        t in
    (
      λ early. elim (Bool-cases (ltb k (starts e))) [
        | inl lt ↦ ltb→lt _ _ lt
        | inr ge ↦
            let le : starts e < k + 1 = ground arith in
            absurd (omega (arith, due.0 early, count.0 le))
      ],
      λ below. elim (Bool-cases (ltb (k * e.time_unit) (e.duration * e.rate))) [
        | inl lt ↦ due.1 (ltb→lt _ _ lt)
        | inr ge ↦
            let le : e.duration * e.rate ≤ k * e.time_unit = ground arith in
            absurd (omega (arith, count.1 (omega arith)))
      ],
    )

starts-le :
    (e : ArrivalRate) (k : ℕ)
    → 0 < e.time_unit
    → k ≤ starts e
    → k * e.time_unit ≤ e.duration * e.rate + e.time_unit - 1
starts-le e k t h =
    (le-div_iff_mul-le {k = e.time_unit} {x = k} {y = e.duration * e.rate + e.time_unit - 1} t).0 h

-- For the starts of the schedule and the one behind the last, whose products fit in an int64: start
-- k is due before the scenario stops starting exactly when k is below duration * rate / timeUnit,
-- rounded up. The starts do not drift.
pub offset-lt :
    (e : ArrivalRate) (k : ℕ)
    → 0 < e.rate
    → 0 < e.time_unit
    → Fits e
    → k ≤ starts e
    → (due e k ≡ true) ↔ (k < starts e)
unfolding offset
offset-lt e k r t fits le =
    let small = starts-le e k t le in
    let w : wrap_int64 (k * e.time_unit) ≡ pos (k * e.time_unit) = ground arith in
    let iff = exact-lt e k r t in rw w (ground (arith, iff))
