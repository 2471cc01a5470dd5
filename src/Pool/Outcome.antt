-- ===== src/Pool/Outcome.antt =====
-- `EnsureCountOutcome` (src/docker_backend.rs): what one reconciliation reports to its caller.
use ez_gh_actions.Base.{ℕ, Bool, ltb, Option, List, Text, some, none, []}
use ez_gh_actions.Pool.Pressure.{Refusal}
use ez_gh_actions.Pool.Attempt.{PauseReason}

-- why nothing is admitted: the refill's reasons, and those of the reconciliation itself
pub data EnsurePause : Type 0 where
  host_containment_failed : Text → EnsurePause
  host_disk_floor disk_floor : ℕ → EnsurePause
  host_disk_unmeasured : EnsurePause
  disk_unmeasured : ℕ → EnsurePause
  memory_refused : Refusal → EnsurePause
  refill_paused : PauseReason → EnsurePause

pub record EnsureCountOutcome : Type 0 where
  pub started : List Text
  pub missing : ℕ
  pub remaining_shortage : ℕ
  pub post_refill_readiness_error : Option Text
  pub post_refill_capacity_lost : List Text
  pub post_refill_slots_released : List Text
  pub start_failures : ℕ
  pub reclaimed : ℕ
  pub admission_paused_reason : Option EnsurePause

abbrev pub is_partial_failure : EnsureCountOutcome → Bool
is_partial_failure self = ltb 0 self.start_failures

unfoldable pub admission_paused_outcome : ℕ → EnsurePause → EnsureCountOutcome
admission_paused_outcome missing reason = record {
  started = [];
  missing = missing;
  remaining_shortage = missing;
  post_refill_readiness_error = none;
  post_refill_capacity_lost = [];
  post_refill_slots_released = [];
  start_failures = 0;
  reclaimed = 0;
  admission_paused_reason = some reason;
}

-- a count of the runners that are ready, and the containers that are gone
pub record ReadinessSummary : Type 0 where
  pub ready : ℕ
  pub absent : List Text
