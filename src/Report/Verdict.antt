-- ===== src/Report/Verdict.antt =====
-- The exit code and the reasons of a verdict, in closed form.
use Prim.Native.String.{String}
use text.Mathlib.Text.{◌==◌ as str_eq}
use loadtool.Prelude.{
  ℕ, ◌≡◌, refl, ap, sym, ◌∙◌, List, [], ◌∷◌, ◌++◌, Bool, true, false, ◌&&◌, ◌||◌, not, ◌==◌,
  if◌then◌else◌, arith, Bool-cases, inl, inr,
}
use loadtool.Report.{
  exit_passed, exit_failed, exit_thresholds_failed, Threshold, RunResult, judge_interrupted,
  judge_teardown, reason_of, judge_thresholds, verdict,
}

-- The reasons of the thresholds that failed, in their order.
abbrev pub failures : List Threshold → List String
failures [] = []
failures (t ∷ ts) = if t.passed then failures ts else reason_of t ∷ failures ts

abbrev pub all_passed : List Threshold → Bool
all_passed [] = true
all_passed (t ∷ ts) = t.passed && all_passed ts

abbrev pub broken : RunResult → Bool
broken r = r.interrupted || not (str_eq r.teardown_error "")

-- The reasons but for the thresholds'.
abbrev pub breakages : RunResult → List String
breakages r =
    (if r.interrupted then "interrupted" ∷ [] else [])
    ++ (if str_eq r.teardown_error "" then [] else r.teardown_error ∷ [])

append-nil : (xs : List String) → xs ++ [] ≡ xs
append-nil [] = refl
append-nil (x ∷ xs) = ap (λ ys. x ∷ ys) (append-nil xs)

append_assoc : (xs ys zs : List String) → (xs ++ ys) ++ zs ≡ xs ++ (ys ++ zs)
append_assoc [] ys zs = refl
append_assoc (x ∷ xs) ys zs = ap (λ ws. x ∷ ws) (append_assoc xs ys zs)

thresholds-reasons :
    (ts : List Threshold) (reasons : List String) (code : ℕ)
    → (judge_thresholds ts (reasons, code)).0 ≡ reasons ++ failures ts
unfolding judge_thresholds
thresholds-reasons [] reasons code = sym (append-nil reasons)
thresholds-reasons (t ∷ ts) reasons code = elim (Bool-cases t.passed) [
  | inl p ↦ rw p (thresholds-reasons ts reasons code)
  | inr p ↦ rw p (
      thresholds-reasons ts (reasons ++ (reason_of t ∷ [])) _
      ∙ append_assoc reasons (reason_of t ∷ []) (failures ts))
]

failed-code :
    (code : ℕ) (b : Bool)
    → (if (if code == exit_passed then exit_thresholds_failed else code) == exit_passed
        then if b then exit_passed else exit_thresholds_failed
        else if code == exit_passed
        then exit_thresholds_failed
        else code)
      ≡ (if code == exit_passed then exit_thresholds_failed else code)
failed-code code b = ground arith

-- A code that is not 0 stays; otherwise a failed threshold makes it 99.
thresholds-code :
    (ts : List Threshold) (reasons : List String) (code : ℕ)
    → (judge_thresholds ts (reasons, code)).1 ≡ (
        if code == exit_passed
        then if all_passed ts then exit_passed else exit_thresholds_failed
        else code)
unfolding judge_thresholds
thresholds-code [] reasons code = ground arith
thresholds-code (t ∷ ts) reasons code = elim (Bool-cases t.passed) [
  | inl p ↦ rw p (thresholds-code ts reasons code)
  | inr p ↦ rw p (
      thresholds-code ts (reasons ++ (reason_of t ∷ []))
        (if code == exit_passed then exit_thresholds_failed else code)
      ∙ failed-code code (all_passed ts))
]

-- What stands before the loop over the thresholds.
opening :
    (b : Bool) (e : String)
    → judge_teardown e (judge_interrupted b ([], exit_passed)) ≡ (
      (if b then "interrupted" ∷ [] else []) ++ (if str_eq e "" then [] else e ∷ []),
      if b || not (str_eq e "") then exit_failed else exit_passed,
    )
opening b e = elim (Bool-cases (str_eq e "")) [
  | inl p ↦ elim (Bool-cases b) [ inl q ↦ rw (p, q) | inr q ↦ rw (p, q) ]
  | inr p ↦ elim (Bool-cases b) [ inl q ↦ rw (p, q) | inr q ↦ rw (p, q) ]
]

final-code :
    (b a : Bool)
    → (if (if b then exit_failed else exit_passed) == exit_passed
        then if a then exit_passed else exit_thresholds_failed
        else if b
        then exit_failed
        else exit_passed)
      ≡ (if b then exit_failed else if a then exit_passed else exit_thresholds_failed)
final-code true a = refl
final-code false a = refl

final-passed :
    (b a : Bool)
    → ((if (if b then exit_failed else exit_passed) == exit_passed
          then if a then exit_passed else exit_thresholds_failed
          else if b
          then exit_failed
          else exit_passed)
        == exit_passed)
      ≡ (not b && a)
final-passed true a = refl
final-passed false true = refl
final-passed false false = refl

-- The reasons of a run that did not pass are, in this order, its interruption, its teardown's error
-- and its failed thresholds. The exit code is 1 if it was interrupted or its teardown failed;
-- otherwise it is 99 if a threshold failed, and 0 if none did. It passed exactly with exit code 0.
pub verdict-exact :
    (r : RunResult)
    → ((verdict r).reasons ≡ breakages r ++ failures r.thresholds)
      × ((verdict r).exit_code ≡ (
          if broken r
          then exit_failed
          else if all_passed r.thresholds
          then exit_passed
          else exit_thresholds_failed))
      × ((verdict r).passed ≡ (not (broken r) && all_passed r.thresholds))
unfolding verdict
verdict-exact r =
    let ts = r.thresholds in
    let code = if broken r then exit_failed else exit_passed in
    let e = opening r.interrupted r.teardown_error in
    let c = ap (λ j. (judge_thresholds ts j).1) e ∙ thresholds-code ts (breakages r) code in
    (
      ap (λ j. (judge_thresholds ts j).0) e ∙ thresholds-reasons ts (breakages r) code,
      c ∙ final-code (broken r) (all_passed ts),
      ap (λ n. n == exit_passed) c ∙ final-passed (broken r) (all_passed ts),
    )
