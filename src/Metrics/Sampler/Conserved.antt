-- ===== src/Metrics/Sampler/Conserved.antt =====
-- The points of a time series add up to what was recorded.
use loadtool.Prelude.{ℕ, ◌+◌, ◌%◌, ◌≤◌, ◌<◌, ◌⊎◌, ◌≡◌, List, [], ◌∷◌, map, All, sum, word}
use loadtool.Prelude.Float.{Float}
use loadtool.Metrics.Sampler.{Point, Sampler, Snapshot}

-- Between two states of a sampler, and the points made on the way. The requests of the points are
-- those counted in the last snapshot and not in the first, and their failures those taken over.
pub record Conserves (s : Sampler) (ps : List Point) (s' : Sampler) : Type 0 where
  pub requests : (sum s.prev + sum (map (λ (p : Point). p.requests) ps)) % word ≡ sum s'.prev % word
  pub failures :
      (s.prev_failed + sum (map (λ (p : Point). p.failed) ps)) % word ≡ s'.prev_failed % word
  pub clamped : All (λ (p : Point). p.failed ≤ p.requests) ps

-- From `n` on, the failures recorded do not decrease from one snapshot to the next, and stay a word.
abbrev pub Rising : ℕ → List Snapshot → Type 0
Rising n [] = Unit
Rising n (c ∷ cs) = (n ≤ c.failed) × (c.failed < word) × Rising c.failed cs

-- With `shown` failures shown before: the points show no failure that is not recorded in their
-- snapshots, and each shows all recorded failures that were not shown before, or only failures.
abbrev pub Shows : ℕ → List Snapshot → List Point → Type 0
Shows shown [] [] = Unit
Shows shown [] (p ∷ ps) = ⊥
Shows shown (c ∷ cs) [] = ⊥
Shows shown (c ∷ cs) (p ∷ ps) =
    (shown + p.failed ≤ c.failed)
    × ((shown + p.failed ≡ c.failed) ⊎ (p.failed ≡ p.requests))
    × Shows (shown + p.failed) cs ps
