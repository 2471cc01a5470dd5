-- ===== src/Pool/Refill/Induction.antt =====
-- Induction on the rounds of a batch of src/docker_backend.rs.
use ez_gh_actions.Base.{ℕ, zero, suc, ◌+◌, ◌≤◌, arith}
use ez_gh_actions.Base.Results.{Result, ok, err}
use ez_gh_actions.FailureLadder.{FailureLadderPolicy, PolicyError}
use ez_gh_actions.Pool.Attempt.{Surroundings, Batch, Round, continue, stop, abort, round}
use ez_gh_actions.Pool.Refill.{run_batch}

abbrev pub batch_of : Round → Batch
batch_of (continue s) = s
batch_of (stop s) = s
batch_of (abort e s) = s

module _ (policy : FailureLadderPolicy) (count : ℕ) (env : Surroundings)
    (I : ℕ → Batch → Type 0) where
  -- `I` after at most so many rounds
  abbrev pub Reaches : ℕ → Batch → Type 0
  Reaches most s = (n : ℕ) × (n ≤ most) × I n s

  -- one round, then the rest of the batch
  run_rest : ℕ → ℕ → Round → Result PolicyError Unit × Batch
  run_rest left k r = elim r [
    | continue s' ↦ run_batch policy count env left (k + 1) s'
    | stop s' ↦ (ok tt, s')
    | abort e s' ↦ (err e, s')
  ]

  run_rest-Reaches :
      (left k : ℕ) (r : Round)
      → I (k + 1) (batch_of r)
      → ((s' : Batch)
          → I (k + 1) s'
          → Reaches (k + 1 + left) (run_batch policy count env left (k + 1) s').1)
      → Reaches (k + suc left) (run_rest left k r).1
  unfolding run_rest
  run_rest-Reaches left k (continue s') i later = let (n, le, j) = later s' i in (n, omega arith, j)
  run_rest-Reaches left k (stop s') i later = (k + 1, omega arith, i)
  run_rest-Reaches left k (abort e s') i later = (k + 1, omega arith, i)

  -- What every round keeps holds after the batch, and each round counts once.
  pub run_batch-Reaches :
      ((k : ℕ) (s : Batch) → I k s → I (k + 1) (batch_of (round policy count env k s)))
      → (left k : ℕ) (s : Batch) → I k s
      → Reaches (k + left) (run_batch policy count env left k s).1
  unfolding run_batch run_rest
  run_batch-Reaches step zero k s i = (k, omega arith, i)
  run_batch-Reaches step (suc left) k s i =
      run_rest-Reaches left k (round policy count env k s) (step k s i)
        (λ s' j. run_batch-Reaches step left (k + 1) s' j)
