-- ===== src/Lib.antt =====
-- A model of ezgha, the daemon that keeps a pool of ephemeral GitHub Actions runners, and its laws.
--
-- The daemon's loop counts the runners it owns and starts the missing ones. A start takes a slot of the
-- pool, asks GitHub for a just-in-time registration and runs a container. Three stores on disk outlive the
-- process: the slot assignments, the quarantine of wedged slots, and the ledger of start failures. The
-- reaper cancels runs that hold a runner which is gone, and deletes its registration.
--
-- The modules and the code that they model:
--
--   Base, BtreeMap     the parts of Rust's standard library that the code uses: results, decimal texts, i64,
--                      and `BTreeMap<String, V>` as a list sorted by its keys. BtreeMap.Slots holds what
--                      the maps from slots have in common, since their keys are decimal texts.
--   FailureLadder      src/failure_ladder.rs: the circuits of the slots and of the fleet. Circuit and Fleet
--                      hold the laws of one operation, Ledger those of the map, Admission those of any
--                      run of the ledger, Storage `load` and `save`.
--   Quarantine         src/quarantine.rs: the table of wedged slots and `load_quarantine_for`.
--   Pool               src/docker_backend.rs: Slots models the slot file (`next_slot_excluding` and the
--                      changes of an assignment), Memory `admission_batch`, Attempt and Refill
--                      `start_missing_runners_with_starter`, Pressure and Gates the tests of memory and
--                      disks, Ensure `ensure_count_outcome`, which composes them, Outcome and Released what
--                      it reports, Drain what a shutdown deregisters. Refill.Ledger relates the refill to the runs
--                      of FailureLadder.Admission.
--   Serve              src/main.rs: Settling, Decisions and Recovery model the settling episodes, the
--                      decisions after a reconciliation and the restarts of the backend; Tick is one
--                      iteration of the serve loop, which composes them.
--   Reaper             src/reaper.rs: Plan models which jobs are taken for phantoms, Execute the execution
--                      of the plans through `ReaperApi`.
--   Timestamp          src/queue_monitor.rs: the times that GitHub gives, as seconds since the epoch.
--   Stale              src/docker_backend.rs: `release_stale_slots`. Entries models the pass over the slot file,
--                      Zombies the slots whose runner is wedged, Orphans the registrations that no slot needs,
--                      and Release the whole reconciliation.
--   Start              src/docker_backend.rs: `start_one_with_generate_at_slot`, the start of one runner in its
--                      slot, with the arguments of `docker run`.
--   Monitor            src/queue_monitor.rs: Queue models the statistics of a queue and the sample of the fleet,
--                      Reports what is alerted, State and Fetches the counters and reads of a tick, Drive
--                      the tick itself, and Scheduler the worker in the background.
--   Canary             src/canary.rs: the correlation of a run with its runner and the verdict; Poll is one canary.
--   Lima               src/lima_convergence.rs: the choice of a docker socket, the plan of a migration and the
--                      marker for its rollback.
--   Backend            src/backend.rs: the candidates of a host and the choice among them.
--   Alert              src/alert.rs: delivery with its cooldown, and the dead-man switch.
--   Github             src/github.rs: the listed data and the check that a listing is complete; Retry classifies a
--                      failed call of `gh`, Backoff retries it.
--
-- How code becomes a definition. A method that changes `self` returns the new value. A function that fails
-- returns a Result, whose error type has one constructor for each message that the code can give. What a
-- function asks of the world stands in a record of answers: `ReaperApi` for GitHub, `Surroundings` for a
-- refill, `EnsureReadings` for a reconciliation, `Readings` for an iteration of the serve loop, `Host` for
-- a restart or a start, `DriveReadings` for a tick of the monitor, `CanaryWorld` for a canary; the theorems quantify over them. Seconds since the epoch and `Instant`s are numbers; the latter
-- count nanoseconds. The operations of `u64` and `u32` that saturate or wrap do so here too; a sum that
-- the code's own bounds keep small is a plain sum. So are `stale_hours * 3600` of the queue monitor, whose hours the
-- configuration bounds, and the start objective of the canary, whose cast to i64 would wrap only from
-- 2^63 seconds on. The polling of the reaper and the retries of `gh` run
-- on the code's own count of attempts, and the start loop on the number of starts that it was admitted. Only
-- the canary polls on fuel: one poll more than its timeout has poll intervals is enough.
--
-- What is not modelled. Messages, log lines, metrics, and the calls that send an alert are left out,
-- apart from which message is given. Pressures are hundredths of a percent, the two decimals that the
-- kernel prints, in place of f64, and ages of jobs are whole seconds in place of minutes; what else
-- computes with f64, `effective_limits` and the quantiles of a queue, is left out. TOML and JSON are
-- parameters: a file is unreadable, malformed or yields a value. Running processes (docker, gh,
-- systemctl, colima), sockets, file systems beyond the answers to a start, signals and locks are answers of the world. The history files of the
-- monitor, its listings of jobs, the platform probe and the service installers are left out whole.
pub mod Alert
pub mod Backend
pub mod Base
pub mod BtreeMap
pub mod Canary
pub mod FailureLadder
pub mod Github
pub mod Lima
pub mod Monitor
pub mod Pool
pub mod Quarantine
pub mod Reaper
pub mod Serve
pub mod Stale
pub mod Start
pub mod Timestamp
