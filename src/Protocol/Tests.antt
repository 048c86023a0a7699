-- ===== src/Protocol/Tests.antt =====
-- Runs, and the theorem at three operations.
use loadtool.Prelude.{ℕ, List, [], ◌∷◌, Option, none, some, Bool, true, false, ◌≡◌, refl}
use loadtool.Prelude.Int.{pos}
use loadtool.Prelude.Result.{err}
use loadtool.Protocol.{
  Outcome, Families, Link, Cause, op_error, dns_error, eof, other, no_code, dns, timeout, classify,
  record_each, family_ids,
}
use loadtool.Protocol.Counted.{Tallied, values, durations, record_each-Tallied}

abbrev pub link : Cause → Link
link c = record { cause = c; net_timeout = none }

-- A dial that timed out is a timeout, a look-up that failed while dialling is a DNS error.
dial_timeout : classify (record { cause = op_error true; net_timeout = some true } ∷ []) ≡ timeout
unfolding classify
dial_timeout = refl

dial_dns : classify (link other ∷ link (op_error true) ∷ link dns_error ∷ []) ≡ dns
unfolding classify
dial_dns = refl

abbrev pub families : Families
families = record { duration = some 0; count = some 1; failed = some 2 }

abbrev pub operation : Option Cause → Bool → Outcome
operation none sent = record { duration = pos 5; err = []; code = no_code; sent = sent }
operation (some c) sent = record {
  duration = pos 5;
  err = link c ∷ [];
  code = no_code;
  sent = sent;
}

-- A success, a connection that closed, a request that was not built, and one that the end cut short.
abbrev pub operations : List (Bool × Outcome)
operations =
    (true, operation none true)
    ∷ (true, operation (some eof) true)
    ∷ (true, operation (some other) false)
    ∷ (false, operation (some eof) true)
    ∷ []

missing : family_ids (λ (n : ℕ). none) (3 ∷ []) ≡ err 3
unfolding family_ids
missing = refl

record_each-Tallied_example :
    Tallied 1 2 0 (record_each families operations) 3 2 1 1 1
    × (values 0 true (record_each families operations) ≡ durations true operations)
    × (values 0 false (record_each families operations) ≡ durations false operations)
record_each-Tallied_example = record_each-Tallied families 1 2 0 operations refl refl refl
