-- ===== src/Monitor/Fetches.antt =====
-- The repositories that a tick of the monitor reads (src/queue_monitor.rs: `drive_with_fetcher`).
pub mod Repos
use ez_gh_actions.Base.{
  ℕ, Bool, false, ◌||◌, Option, none, some, List, [], ◌∷◌, ◌++◌, if◌then◌else◌, Text, text, text_eq,
  is_some,
}
use ez_gh_actions.Base.Integers.{ℤ}
use ez_gh_actions.Base.Results.{Result, ok, err}
use ez_gh_actions.Base.Texts.{text_lt}
use ez_gh_actions.Serve.Durations.{from_secs}
use ez_gh_actions.Github.Backoff.{RestBudgetProbe}
use ez_gh_actions.Monitor.Queue.{FleetRunnerStats, QueueSnapshot, InvariantSample}
use ez_gh_actions.Monitor.Reports.{Notification}
use ez_gh_actions.Monitor.State.{MonitorConfig, queue_repo}

abbrev pub serve_loop_time_budget : ℕ
serve_loop_time_budget = from_secs 75

abbrev pub job_enumeration_cap : ℕ
job_enumeration_cap = 50

abbrev pub monitored_repos : List Text
monitored_repos = text "jleechanorg/worldarchitect.ai" ∷ text "jleechanorg/ez-gh-actions" ∷ []

-- the clocks, GitHub and the outlets of a tick: `notify` and `append` give whether they succeed
pub record DriveReadings : Type 0 where
  pub qm_now : ℕ
  pub is_now : ℕ
  pub probe : RestBudgetProbe
  pub fetch_fleet : ℕ → Result Text FleetRunnerStats
  pub fetch_repo : Text → FleetRunnerStats → ℕ → ℕ → Result Text (QueueSnapshot × Bool)
  pub qm_checked_at : ℕ
  pub qm_unix_now : ℤ
  pub is_checked_at : ℕ
  pub is_unix_now : ℤ
  pub notify : Notification → Bool
  pub append : InvariantSample → Bool

-- `sort` and `dedup`
unfoldable pub insert_repo : Text → List Text → List Text
insert_repo repo [] = repo ∷ []
insert_repo repo (r ∷ rs) =
    let rest = insert_repo repo rs in
    if text_eq repo r then r ∷ rs else if text_lt repo r then repo ∷ r ∷ rs else r ∷ rest

unfoldable pub sort_repos : List Text → List Text
sort_repos [] = []
sort_repos (r ∷ rs) = insert_repo r (sort_repos rs)

unfoldable pub needed_repos : MonitorConfig → Bool → Bool → List Text
needed_repos cfg qm_due is_due = sort_repos (
    (if qm_due then elim (queue_repo cfg) [ none ↦ [] | some r ↦ r ∷ [] ] else [])
    ++ (if is_due then monitored_repos else []))

abbrev pub Snapshots : Type 0
Snapshots = List (Text × (QueueSnapshot × Bool))

abbrev with_fleet : FleetRunnerStats → QueueSnapshot → QueueSnapshot
with_fleet fleet s = if is_some s.fleet then s else record s { fleet = some fleet }

unfoldable pub fetch_repos :
    DriveReadings → FleetRunnerStats → ℕ → List Text → Result Text Snapshots
fetch_repos r fleet deadline [] = ok []
fetch_repos r fleet deadline (repo ∷ repos) =
    let rest = fetch_repos r fleet deadline repos in
    elim (r.fetch_repo repo fleet job_enumeration_cap deadline) [
      | err e ↦ err e
      | ok (snapshot, capped) ↦ elim rest [
        | err e ↦ err e
        | ok snapshots ↦ ok ((repo, (with_fleet fleet snapshot, capped)) ∷ snapshots)
      ]
    ]

unfoldable pub lookup : Text → Snapshots → Option (QueueSnapshot × Bool)
lookup repo [] = none
lookup repo ((r, s) ∷ snapshots) =
    let rest = lookup repo snapshots in if text_eq repo r then some s else rest

-- the snapshots of the repositories that were found, in their order, and whether one was capped
unfoldable pub monitored : List Text → Snapshots → List QueueSnapshot × Bool
monitored [] snapshots = ([], false)
monitored (repo ∷ repos) snapshots =
    let (found, any_capped) = monitored repos snapshots in
    elim (lookup repo snapshots) [
      | none ↦ (found, any_capped)
      | some (snapshot, capped) ↦ (snapshot ∷ found, capped || any_capped)
    ]
