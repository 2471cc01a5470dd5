-- ===== src/Monitor/Drive/Stamps.antt =====
-- When a tick counts as a check (src/queue_monitor.rs: `drive_with_fetcher`).
use ez_gh_actions.Base.{
  ℕ, ◌+◌, ◌<◌, Bool, true, some, ◌≡◌, ◌⊎◌, refl, ◌∙◌, if◌then◌else◌, arith, inl, inr, List, [], ◌∷◌,
  ◌&&◌, ◌||◌, any, is_some_and, Text, text_eq, text_eq_iff, Bool-cases,
}
use ez_gh_actions.Base.Results.{ok, Result-cases}
use ez_gh_actions.Monitor.Queue.{FleetRunnerStats, QueueSnapshot}
use ez_gh_actions.Monitor.State.{
  MonitorConfig, bump_floor_hit_counter, is_due, record_tail_sample, queue_repo,
}
use ez_gh_actions.Github.Backoff.{RestBudgetProbe, known, unknown}
use ez_gh_actions.Monitor.Fetches.{
  DriveReadings, Snapshots, fetch_repos, needed_repos, serve_loop_time_budget, job_enumeration_cap,
  monitored_repos,
}
use ez_gh_actions.Monitor.Fetches.Repos.{needed_repos_lem}
use ez_gh_actions.Monitor.Drive.{
  Drive, drive_with_fetcher, queue_tick, sampler_tick, consume, fetch,
}
use ez_gh_actions.Monitor.Drive.Budget.{IsDeferred, deferred, skipped}

-- the budget is above the floor, and the fleet and every repository of the due ticks were read
pub record IsFetched (cfg : MonitorConfig) (r : DriveReadings) (qm_due sampler_due : Bool)
    (loop_start : ℕ) : Type 0 where
  pub remaining : ℕ
  pub budget : r.probe ≡ known remaining
  pub above : cfg.rest_budget_floor < remaining
  pub fleet : FleetRunnerStats
  pub fleet_read : r.fetch_fleet (loop_start + serve_loop_time_budget) ≡ ok fleet
  pub snapshots : Snapshots
  pub repos_read :
      fetch_repos r fleet
        (loop_start + serve_loop_time_budget)
        (needed_repos cfg qm_due sampler_due)
      ≡ ok snapshots
  pub each_read :
      (repo : Text)
      → (qm_due && is_some_and (queue_repo cfg) (text_eq repo)
          || sampler_due && any (text_eq repo) monitored_repos)
        ≡ true
      → (answer : QueueSnapshot × Bool) × (r.fetch_repo repo fleet job_enumeration_cap
            (loop_start + serve_loop_time_budget)
          ≡ ok answer)

fetch_repos-read :
    (r : DriveReadings) (fleet : FleetRunnerStats) (deadline : ℕ) (repos : List Text) (repo : Text)
    {snapshots : Snapshots}
    → fetch_repos r fleet deadline repos ≡ ok snapshots
    → any (text_eq repo) repos ≡ true
    → (answer : QueueSnapshot × Bool) × (r.fetch_repo repo fleet job_enumeration_cap deadline
        ≡ ok answer)
unfolding fetch_repos
fetch_repos-read r fleet deadline [] repo h wanted = absurd (cc wanted)
fetch_repos-read r fleet deadline (first ∷ repos) repo h wanted =
    elim (Result-cases (r.fetch_repo first fleet job_enumeration_cap deadline)) [
      | inr (e, failed) ↦ absurd (ground (arith, failed, h))
      | inl (answer, read) ↦ elim (Result-cases (fetch_repos r fleet deadline repos)) [
        | inr (e, failed) ↦ absurd (ground (arith, read, failed, h))
        | inl (rest, read_all) ↦ elim (Bool-cases (text_eq repo first)) [
          | inl same ↦
              let same' : repo ≡ first = (text_eq_iff repo first).0 same in (answer, rw same' read)
          | inr other ↦
              fetch_repos-read r fleet deadline repos repo {snapshots = rest} read_all
                (ground (arith, other, wanted))
        ]
      ]
    ]

-- The monitor's check is stamped exactly if it is due, the sampler's only if it is due.
pub record IsStamped (r : DriveReadings) (qm_due sampler_due : Bool) (s s' : Drive) : Type 0 where
  pub qm_check : s'.qm.last_check ≡ (if qm_due then some r.qm_checked_at else s.qm.last_check)
  pub sampler_check :
      (s'.sampler ≡ s.sampler)
      ⊎ ((sampler_due ≡ true) × (s'.sampler.last_check ≡ some r.is_checked_at))

cleared : Drive → Drive
cleared s = record s {
  probes = s.probes + 1;
  qm = record s.qm { rest_budget_consecutive_floor_hits = 0; rest_budget_skip_ticks_remaining = 0 };
}

module _ (cfg : MonitorConfig) (r : DriveReadings) where
  queue_tick-stamps :
      (snapshots : Snapshots) (s : Drive)
      → ((queue_tick cfg r snapshots s).1.qm.last_check ≡ some r.qm_checked_at)
        × ((queue_tick cfg r snapshots s).1.sampler ≡ s.sampler)
  unfolding queue_tick record_tail_sample
  queue_tick-stamps snapshots s = ground arith

  sampler_tick-stamps :
      (fleet : FleetRunnerStats) (snapshots : Snapshots) (s : Drive)
      → ((sampler_tick cfg r fleet snapshots s).1.qm ≡ s.qm)
        × ((sampler_tick cfg r fleet snapshots s).1.sampler.last_check ≡ some r.is_checked_at)
  unfolding sampler_tick
  sampler_tick-stamps fleet snapshots s = ground arith

  consume-IsStamped :
      (qm_due sampler_due : Bool) (fleet : FleetRunnerStats) (snapshots : Snapshots) (s : Drive)
      → IsStamped r qm_due sampler_due s (consume cfg r qm_due sampler_due fleet snapshots s).1
  unfolding consume
  consume-IsStamped qm_due sampler_due fleet snapshots s =
      let s' = (queue_tick cfg r snapshots s).1 in
      record {
        qm_check = ground (
          arith,
          queue_tick-stamps snapshots s,
          sampler_tick-stamps fleet snapshots s,
          sampler_tick-stamps fleet snapshots s',
        );
        sampler_check = ground (
          arith,
          queue_tick-stamps snapshots s,
          sampler_tick-stamps fleet snapshots s,
          sampler_tick-stamps fleet snapshots s',
        );
      }

  fetch-cases :
      (qm_due sampler_due : Bool) (loop_start : ℕ) (s : Drive)
      → ((fetch cfg r qm_due sampler_due loop_start s).1 ≡ s)
        ⊎ ((fleet : FleetRunnerStats) × (snapshots : Snapshots) × (r.fetch_fleet
                (loop_start + serve_loop_time_budget)
              ≡ ok fleet)
            × (fetch_repos r fleet
                  (loop_start + serve_loop_time_budget)
                  (needed_repos cfg qm_due sampler_due)
                ≡ ok snapshots)
            × ((fetch cfg r qm_due sampler_due loop_start s).1
                ≡ (consume cfg r qm_due sampler_due fleet snapshots s).1))
  unfolding fetch
  fetch-cases qm_due sampler_due loop_start s =
      elim (Result-cases (r.fetch_fleet (loop_start + serve_loop_time_budget))) [
        | inr (e, failed) ↦ inl (ground arith)
        | inl (fleet, read) ↦
            elim (Result-cases (
              fetch_repos r fleet (loop_start + serve_loop_time_budget)
                (needed_repos cfg qm_due sampler_due))) [
                  | inr (e, failed) ↦ inl (ground arith)
                  | inl (snapshots, read_all) ↦ inr (fleet, snapshots, read, read_all, ground arith)
                ]
      ]

  -- the tick goes on to its fetches
  GoesOn : ℕ → ℕ → Drive → Type 0
  GoesOn remaining loop_start s =
      (cfg.rest_budget_floor < remaining)
      × ((drive_with_fetcher cfg r loop_start s).1
          ≡ (fetch cfg r
              (is_due cfg.qm_enabled cfg.qm_check_interval_seconds s.qm.last_check r.qm_now)
              (is_due cfg.is_enabled cfg.is_check_interval_seconds s.sampler.last_check r.is_now)
              loop_start (cleared s)).1)

  drive-known :
      (remaining loop_start : ℕ) (s : Drive)
      → r.probe ≡ known remaining
      → ((drive_with_fetcher cfg r loop_start s).1 ≡ s)
        ⊎ ((drive_with_fetcher cfg r loop_start s).1 ≡ record s { qm = skipped s.qm })
        ⊎ ((drive_with_fetcher cfg r loop_start s).1
            ≡ record s { probes = s.probes + 1; qm = bump_floor_hit_counter s.qm })
        ⊎ GoesOn remaining loop_start s
  unfolding drive_with_fetcher GoesOn cleared
  drive-known remaining loop_start s h = ground arith

  drive-unknown :
      (loop_start : ℕ) (s : Drive)
      → r.probe ≡ unknown
      → ((drive_with_fetcher cfg r loop_start s).1 ≡ s)
        ⊎ ((drive_with_fetcher cfg r loop_start s).1 ≡ record s { qm = skipped s.qm })
        ⊎ ((drive_with_fetcher cfg r loop_start s).1 ≡ record s { probes = s.probes + 1 })
  unfolding drive_with_fetcher
  drive-unknown loop_start s h = ground arith

low-IsDeferred :
    (s : Drive)
    → IsDeferred s (record s { probes = s.probes + 1; qm = bump_floor_hit_counter s.qm })
unfolding bump_floor_hit_counter
low-IsDeferred s = deferred s (bump_floor_hit_counter s.qm) (s.probes + 1) refl refl

fetched :
    (cfg : MonitorConfig) (r : DriveReadings) (remaining loop_start : ℕ) (s : Drive)
    → r.probe ≡ known remaining
    → GoesOn cfg r remaining loop_start s
    → let qm_due = is_due cfg.qm_enabled cfg.qm_check_interval_seconds s.qm.last_check r.qm_now in
      let sampler_due =
        is_due cfg.is_enabled cfg.is_check_interval_seconds s.sampler.last_check r.is_now in
      let s' = (drive_with_fetcher cfg r loop_start s).1 in
      IsDeferred s s'
      ⊎ (IsFetched cfg r qm_due sampler_due loop_start × IsStamped r qm_due sampler_due s s')
unfolding GoesOn cleared
fetched cfg r remaining loop_start s h (above, same) =
    let qm_due = is_due cfg.qm_enabled cfg.qm_check_interval_seconds s.qm.last_check r.qm_now in
    let sampler_due =
      is_due cfg.is_enabled cfg.is_check_interval_seconds s.sampler.last_check r.is_now in
    elim (fetch-cases cfg r qm_due sampler_due loop_start (cleared s)) [
      | inl failed ↦ inl (rw (same ∙ failed) (deferred s (cleared s).qm (s.probes + 1) refl refl))
      | inr (fleet, snapshots, read, read_all, consumed) ↦
          let stamped = consume-IsStamped cfg r qm_due sampler_due fleet snapshots (cleared s) in
          inr (
            record {
              remaining = remaining;
              budget = h;
              above = above;
              fleet = fleet;
              fleet_read = read;
              snapshots = snapshots;
              repos_read = read_all;
              each_read = λ repo wanted.
                  fetch_repos-read r fleet (loop_start + serve_loop_time_budget)
                    (needed_repos cfg qm_due sampler_due) repo {snapshots = snapshots} read_all
                    (rw ((needed_repos_lem cfg qm_due sampler_due repo).1) wanted);
            },
            rw (same ∙ consumed)
                (record { qm_check = stamped.qm_check; sampler_check = stamped.sampler_check }),
          )
    ]

-- A tick either stamps no check, notifies nobody and records no sample, or the budget was above its floor and
-- the fleet was read, and every repository that the due checks need: the monitor's own where its check is
-- due, and each monitored one where the sampler is due. Then the monitor's check is stamped
-- exactly if it was due, and the sampler's only if it was due.
pub drive-stamps :
    (cfg : MonitorConfig) (r : DriveReadings) (loop_start : ℕ) (s : Drive)
    → let qm_due = is_due cfg.qm_enabled cfg.qm_check_interval_seconds s.qm.last_check r.qm_now in
      let sampler_due =
        is_due cfg.is_enabled cfg.is_check_interval_seconds s.sampler.last_check r.is_now in
      let s' = (drive_with_fetcher cfg r loop_start s).1 in
      IsDeferred s s'
      ⊎ (IsFetched cfg r qm_due sampler_due loop_start × IsStamped r qm_due sampler_due s s')
drive-stamps cfg r loop_start s = by_probe r.probe refl
  where
    by_probe :
        (probe : RestBudgetProbe)
        → r.probe ≡ probe
        → let qm_due =
            is_due cfg.qm_enabled cfg.qm_check_interval_seconds s.qm.last_check r.qm_now in
          let sampler_due =
            is_due cfg.is_enabled cfg.is_check_interval_seconds s.sampler.last_check r.is_now in
          let s' = (drive_with_fetcher cfg r loop_start s).1 in
          IsDeferred s s'
          ⊎ (IsFetched cfg r qm_due sampler_due loop_start × IsStamped r qm_due sampler_due s s')
    by_probe unknown h = elim (drive-unknown cfg r loop_start s h) [
      | inl same ↦ inl (rw same (deferred s s.qm s.probes refl refl))
      | inr (inl paused) ↦ inl (rw paused (deferred s (skipped s.qm) s.probes refl refl))
      | inr (inr probed) ↦ inl (rw probed (deferred s s.qm (s.probes + 1) refl refl))
    ]
    by_probe (known remaining) h = elim (drive-known cfg r remaining loop_start s h) [
      | inl same ↦ inl (rw same (deferred s s.qm s.probes refl refl))
      | inr (inl paused) ↦ inl (rw paused (deferred s (skipped s.qm) s.probes refl refl))
      | inr (inr (inl low)) ↦ inl (rw low (low-IsDeferred s))
      | inr (inr (inr on)) ↦ fetched cfg r remaining loop_start s h on
    ]
