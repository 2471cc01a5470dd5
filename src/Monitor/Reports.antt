-- ===== src/Monitor/Reports.antt =====
-- What the monitor reports of a queue (src/queue_monitor.rs: `report_queue_health`), by the event and its
-- severity; the bodies of the messages are left out.
use ez_gh_actions.Base.{
  ℕ, ◌*◌, Bool, true, false, not, ◌||◌, Option, none, some, List, [], ◌∷◌, ◌++◌, ◌==◌,
  if◌then◌else◌, leb, ltb, min, u32_max, Text, text,
}
use ez_gh_actions.Monitor.Queue.{QueueStats, InvariantSample}

pub data Severity : Type 0 where
  info warning critical : Severity

pub record Notification : Type 0 where
  pub event : Text
  pub severity : Severity

unfoldable pub queue_alert_severity : ℕ → ℕ → Option Severity
queue_alert_severity consecutive_bad threshold =
    if ltb consecutive_bad threshold
    then none
    else if leb (min (threshold * 2) u32_max) consecutive_bad
    then some critical
    else some warning

abbrev notification : Text → Severity → List Notification
notification event severity = record { event = event; severity = severity } ∷ []

unfoldable pub report_stale_queue : QueueStats → List Notification
report_stale_queue stats =
    if stats.stale_queued == 0 then [] else notification (text "queue.stale.zombies") warning

unfoldable pub report_idle_runner_mismatch : QueueStats → List Notification
report_idle_runner_mismatch stats = if stats.fresh_queued == 0 then [] else elim stats.fleet [
  | none ↦ []
  | some fleet ↦
      if fleet.idle_count == 0
      then []
      else notification (text "queue.idle_runner_mismatch") critical
]

unfoldable pub report_busy_but_not_accepting_jobs : QueueStats → List Notification
report_busy_but_not_accepting_jobs stats = if not stats.tail_bad then [] else elim stats.fleet [
  | none ↦ []
  | some fleet ↦
      if ltb fleet.busy_count fleet.expected_total
      then []
      else notification (text "queue.starvation.busy_but_starving") critical
]

abbrev tail_event : Severity → Text
tail_event critical = text "queue.starvation.tail.critical"
tail_event _ = text "queue.starvation.tail"

unfoldable pub report_tail : QueueStats → ℕ → ℕ → List Notification
report_tail stats consecutive_bad threshold =
    if not stats.tail_bad then [] else elim (queue_alert_severity consecutive_bad threshold) [
      | none ↦ []
      | some severity ↦ notification (tail_event severity) severity
    ]

-- in the order of the calls, of which the first that fails ends the report
unfoldable pub report_queue_health : QueueStats → ℕ → ℕ → List Notification
report_queue_health stats consecutive_bad threshold =
    report_stale_queue stats
    ++ (report_idle_runner_mismatch stats
        ++ (report_busy_but_not_accepting_jobs stats
            ++ report_tail stats consecutive_bad threshold))

unfoldable pub alert_invariant_violation : InvariantSample → List Notification
alert_invariant_violation sample =
    if not sample.inv1 || not sample.inv2
    then notification (text "invariant.violation") critical
    else []

-- the notifications that are tried, and whether none of them failed
unfoldable pub notify_each : (Notification → Bool) → List Notification → List Notification × Bool
notify_each notify [] = ([], true)
notify_each notify (n ∷ ns) =
    let (tried, success) = notify_each notify ns in
    if notify n then (n ∷ tried, success) else (n ∷ [], false)
