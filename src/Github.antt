-- ===== src/Github.antt =====
-- What the daemon reads from GitHub (src/github.rs): runners, workflow runs, jobs, and the check that
-- a paginated listing is complete.
pub mod Snapshot
pub mod Retry
pub mod Backoff
mod Scenarios
use ez_gh_actions.Base.Texts.{lower}
use ez_gh_actions.Base.{
  ℕ, ◌+◌, Bool, true, false, not, ◌&&◌, ◌||◌, Option, none, some, List, [], ◌∷◌, ◌++◌, ◌==◌,
  if◌then◌else◌, length, any, leb, Text, text, text_eq,
}

pub record RunnerInfo : Type 0 where
  pub id : ℕ
  pub name : Text
  pub status : Text
  pub busy : Bool
  pub run_id : Option ℕ

pub record WorkflowRun : Type 0 where
  pub id : ℕ
  pub name : Text
  pub display_title : Text
  pub event : Text
  pub status : Text
  pub conclusion : Option Text
  pub created_at : Text
  pub run_started_at : Option Text
  pub updated_at : Text
  pub html_url : Text
  pub head_branch : Option Text
  pub head_sha : Text

pub record WorkflowJob : Type 0 where
  pub id : ℕ
  pub name : Text
  pub status : Text
  pub conclusion : Option Text
  pub created_at : Text
  pub started_at : Option Text
  pub completed_at : Option Text
  pub runner_id : Option ℕ
  pub runner_name : Option Text
  pub runner_group_id : Option ℕ
  pub runner_group_name : Option Text
  pub labels : List Text
  pub html_url : Option Text

-- one page of a listing; GitHub gives the count on the first page only
pub record RunnerList : Type 0 where
  pub total_count : Option ℕ
  pub runners : List RunnerInfo

pub data SnapshotOutcome : Type 0 where
  complete : SnapshotOutcome
  partial : ℕ → ℕ → SnapshotOutcome

unfoldable pub observed_runners : List RunnerList → ℕ
observed_runners [] = 0
observed_runners (p ∷ pages) = length p.runners + observed_runners pages

abbrev pub expected_runners : List RunnerList → Option ℕ
expected_runners [] = none
expected_runners (p ∷ pages) = p.total_count

unfoldable pub verify_snapshot_complete : List RunnerList → SnapshotOutcome
verify_snapshot_complete pages = elim (expected_runners pages) [
  | none ↦ complete
  | some t ↦ if t == observed_runners pages then complete else partial t (observed_runners pages)
]

unfoldable pub flatten : List RunnerList → List RunnerInfo
flatten [] = []
flatten (p ∷ pages) = p.runners ++ flatten pages

-- the end of `list_runners_core`: a partial snapshot is an error
unfoldable pub listed_runners : List RunnerList → Option (List RunnerInfo)
listed_runners pages = elim (verify_snapshot_complete pages) [
  | complete ↦ some (flatten pages)
  | partial expected observed ↦ none
]

-- `eq_ignore_ascii_case`
unfoldable pub eq_ignore_ascii_case : Text → Text → Bool
eq_ignore_ascii_case [] [] = true
eq_ignore_ascii_case (a ∷ s) (b ∷ t) = lower a == lower b && eq_ignore_ascii_case s t
eq_ignore_ascii_case _ _ = false

unfoldable pub runner_is_reclaimable : RunnerInfo → List ℕ → Bool
runner_is_reclaimable runner owned_ids =
    if any (λ id. id == runner.id) owned_ids
    then true
    else eq_ignore_ascii_case runner.status (text "offline") && not runner.busy
