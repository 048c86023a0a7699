-- ===== src/Protocol.antt =====
-- Errors and outcomes of the protocol modules (internal/protocol/errors.go, record.go). An error is
-- the chain that errors.Unwrap walks, outermost first. What a recorder does is the list of its calls.
pub mod Counted
mod Tests
use loadtool.Prelude.{
  ℕ, List, [], ◌∷◌, ◌++◌, Option, none, some, Bool, true, false, ◌&&◌, ◌||◌, not, if◌then◌else◌,
}
use loadtool.Prelude.Int.{ℤ}
use loadtool.Metrics.Families.Samples.{Call, trend, add, rate}
use loadtool.Prelude.Result.{Result, err, ok, ◌>>=◌, some_or}

-- ErrorCode; `no_code` is the empty string.
pub data Code : Type 0 where
  no_code dns dial tls timeout bad_protocol server closed invalid : Code

-- The errors that Classify looks for; of a *net.OpError, whether its operation is "dial".
pub data Cause : Type 0 where
  dns_error certificate unknown_authority host_name invalid_certificate record_header alert : Cause
  context_deadline os_deadline : Cause
  op_error : Bool → Cause
  eof unexpected_eof net_closed conn_reset conn_aborted broken_pipe other : Cause

-- One error of a chain; `net_timeout` is what Timeout says if it is a net.Error.
pub record Link : Type 0 where
  pub cause : Cause
  pub net_timeout : Option Bool

-- nil is the empty chain.
abbrev pub Error : Type 0
Error = List Link

-- errors.As and errors.Is: an error of the chain that is one of those.
abbrev pub any_link : (Cause → Bool) → Error → Bool
any_link p [] = false
any_link p (l ∷ e) = p l.cause || any_link p e

abbrev pub is_dns : Cause → Bool
is_dns dns_error = true
is_dns other_cause = false

abbrev pub is_tls : Cause → Bool
is_tls certificate = true
is_tls unknown_authority = true
is_tls host_name = true
is_tls invalid_certificate = true
is_tls record_header = true
is_tls alert = true
is_tls other_cause = false

abbrev pub is_deadline : Cause → Bool
is_deadline context_deadline = true
is_deadline os_deadline = true
is_deadline other_cause = false

abbrev pub is_closed : Cause → Bool
is_closed eof = true
is_closed unexpected_eof = true
is_closed net_closed = true
is_closed conn_reset = true
is_closed conn_aborted = true
is_closed broken_pipe = true
is_closed other_cause = false

-- errors.As(err, &netErr) && netErr.Timeout(): the first net.Error decides.
abbrev pub net_timed_out : Error → Bool
net_timed_out [] = false
net_timed_out (l ∷ e) = elim l.net_timeout [ none ↦ net_timed_out e | some t ↦ t ]

-- errors.As(err, &opErr) && opErr.Op == "dial": the first *net.OpError decides.
abbrev pub op_of : Cause → Option Bool
op_of (op_error is_dial) = some is_dial
op_of other_cause = none

abbrev pub is_dialling : Error → Bool
is_dialling [] = false
is_dialling (l ∷ e) = elim (op_of l.cause) [ none ↦ is_dialling e | some d ↦ d ]

unfoldable pub classify : Error → Code
classify [] = no_code
classify (l ∷ e) =
    if any_link is_dns (l ∷ e)
    then dns
    else if any_link is_tls (l ∷ e)
    then tls
    else if any_link is_deadline (l ∷ e) || net_timed_out (l ∷ e)
    then timeout
    else if is_dialling (l ∷ e)
    then dial
    else if any_link is_closed (l ∷ e)
    then closed
    else bad_protocol

-- A family's identifier, or NoFamily.
pub record Families : Type 0 where
  pub duration : Option ℕ
  pub count : Option ℕ
  pub failed : Option ℕ

pub record Outcome : Type 0 where
  pub duration : ℤ
  pub err : Error
  pub code : Code
  pub sent : Bool

abbrev pub is_set : Code → Bool
is_set no_code = false
is_set other_code = true

abbrev pub is_nil : Error → Bool
is_nil [] = true
is_nil (l ∷ e) = false

unfoldable pub code_of : Outcome → Code
code_of out =
    if is_set out.code || is_nil out.err
    then out.code
    else if out.sent
    then classify out.err
    else invalid

abbrev pub for_family : {A : Type 0} → Option ℕ → (ℕ → A) → List A
for_family none f = []
for_family (some id) f = f id ∷ []

-- Of the VU, whether it has a context that has not ended and a recorder.
unfoldable pub record_outcome : Bool → Families → Outcome → Code × List Call
record_outcome live f out = (
  code_of out,
  if live
      then (if out.sent
          then for_family f.duration (λ id. trend id out.duration (not (is_set (code_of out))))
          else [])
        ++ for_family f.count (λ id. add id 1)
        ++ for_family f.failed (λ id. rate id (is_set (code_of out)))
      else [],
)

-- FamilyIDs: the identifiers of names, or the first name that is missing. `find` is Families.ID.
unfoldable pub family_ids : {N : Type 0} → (N → Option ℕ) → List N → Result N (List ℕ)
family_ids find [] = ok []
family_ids find (n ∷ ns) = some_or n (find n) >>= λ id. family_ids find ns >>= λ ids. ok (id ∷ ids)

-- The calls of a sequence of operations, each with whether its VU's context was live.
unfoldable pub record_each : Families → List (Bool × Outcome) → List Call
record_each f [] = []
record_each f ((live, out) ∷ outs) = (record_outcome live f out).1 ++ record_each f outs
