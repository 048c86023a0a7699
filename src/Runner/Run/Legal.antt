-- ===== src/Runner/Run/Legal.antt =====
-- The order of a run's calls, as an automaton that reads them (the comment above Run in
-- internal/runner/runner.go): what may be called after what.
pub mod Started
pub mod Rules
pub mod Followed
use loadtool.Prelude.{
  ◌≡◌, ◌⊎◌, refl, sym, ap, ◌∙◌, ℕ, List, [], ◌∷◌, ◌++◌, length, Option, none, some, Bool, true,
  false, ◌&&◌, ◌==◌, if◌then◌else◌, some_inj,
}
use loadtool.Prelude.Int.{ℤ, leb_ℤ}
use loadtool.Runner.Run.{
  Call, load_script, start_modules, lifecycle_init, read_options, prepare_execs, setup, vu_init,
  load_phase, close_vu, teardown, close_lifecycle, close_idle, close_modules,
}

-- `alive` and `ended` hold the numbers of the VUs that are open, in the order of their creation.
pub data Phase : Type 0 where
  fresh scripted opened ready prepared ending torn_down lifecycle_closed over : Phase
  alive ended : List ℤ → Phase

abbrev pub same_id : ℤ → ℤ → Bool
same_id a b = leb_ℤ a b && leb_ℤ b a

-- Only the VU that was opened first may be closed next.
abbrev pub close_first : List ℤ → ℤ → Option Phase
close_first [] id = none
close_first (v ∷ vs) id = if same_id v id then some (ended vs) else none

abbrev pub tear : List ℤ → Option Phase
tear [] = some torn_down
tear (v ∷ vs) = none

abbrev pub next : Phase → Call → Option Phase
next fresh (load_script true) = some scripted
next fresh (load_script false) = some over
next scripted (start_modules true) = some opened
next scripted (start_modules false) = some over
next opened (lifecycle_init true) = some ready
next opened (lifecycle_init false) = some ending
next ready (read_options true) = some ready
next ready (read_options false) = some ending
next ready (prepare_execs true) = some prepared
next ready (prepare_execs false) = some ending
next ready close_modules = some over
next prepared (setup true) = some (alive [])
next prepared (setup false) = some torn_down
next (alive vs) (vu_init id true) = some (alive (vs ++ (id ∷ [])))
next (alive vs) (vu_init id false) = some (ended vs)
next (alive vs) (load_phase n) = if n == length vs then some (ended vs) else none
next (alive vs) (close_vu id) = close_first vs id
next (ended vs) (close_vu id) = close_first vs id
next (alive vs) (teardown clean) = tear vs
next (ended vs) (teardown clean) = tear vs
next torn_down close_lifecycle = some lifecycle_closed
next lifecycle_closed close_idle = some ending
next ending close_modules = some over
next p c = none

abbrev pub and_follow : Option Phase → (Phase → Option Phase) → Option Phase
and_follow none rest = none
and_follow (some p) rest = rest p

abbrev pub follow : Phase → List Call → Option Phase
follow p [] = some p
follow p (c ∷ cs) = and_follow (next p c) (λ q. follow q cs)

pub follow-append :
    (p q : Phase) (a b : List Call) → follow p a ≡ some q → follow p (a ++ b) ≡ follow q b
follow-append p q [] b h = let e = some_inj h in rw e
follow-append p q (c ∷ a) b h = first (next p c) h (λ r. follow-append r q a b)
  where
    first :
        (o : Option Phase)
        → and_follow o (λ r. follow r a) ≡ some q
        → ((r : Phase) → follow r a ≡ some q → follow r (a ++ b) ≡ follow q b)
        → and_follow o (λ r. follow r (a ++ b)) ≡ follow q b
    first none h rest = absurd (cc h)
    first (some r) h rest = rest r h
