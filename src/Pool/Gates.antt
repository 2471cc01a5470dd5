-- ===== src/Pool/Gates.antt =====
-- What `ensure_count_outcome` (src/docker_backend.rs) tests before it refills: disks and memory.
use ez_gh_actions.Base.{
  ℕ, ◌+◌, ◌*◌, ◌%◌, ◌^◌, Bool, true, false, Option, none, some, List, ltb, leb, if◌then◌else◌,
  saturating_add, Text,
}
use ez_gh_actions.Base.Results.{Result, ok, err}
use ez_gh_actions.Pool.Pressure.{
  Refusal, probe_failed, eval_admission, AdmissionPauseEpisode, admission_pause_alert_due,
  push_reading, saturating_mul,
}
use ez_gh_actions.Pool.Outcome.{
  EnsurePause, host_disk_floor, disk_floor, host_disk_unmeasured, disk_unmeasured,
}

pub record PoolConfig : Type 0 where
  pub count : ℕ
  pub name_prefix : Text
  pub min_free_disk_gb : ℕ
  pub memory_mb : ℕ
  pub host_reserve_mb : ℕ

-- the statics of the process: the latch, the strikes, the pressure window, the pause episode
pub record EnsureState : Type 0 where
  pub persistence_failed : Bool
  pub consecutive_disk_none : ℕ
  pub pressure_window : List (Option ℕ)
  pub pause_episode : Option AdmissionPauseEpisode

unfoldable pub host_disk : PoolConfig → Option ℕ → Option EnsurePause
host_disk cfg none = some host_disk_unmeasured
host_disk cfg (some free) =
    if ltb free cfg.min_free_disk_gb then some (host_disk_floor free) else none

abbrev pub disk_measure_strikes : ℕ
disk_measure_strikes = 2

-- a single failed measurement is let pass; the strikes are an `AtomicU32`
unfoldable pub docker_disk : PoolConfig → Option ℕ → ℕ → Option EnsurePause × ℕ
docker_disk cfg (some free) strikes =
    (if ltb free cfg.min_free_disk_gb then some (disk_floor free) else none, 0)
docker_disk cfg none strikes =
    let n = (strikes + 1) % 2 ^ 32 in
    (if leb disk_measure_strikes n then some (disk_unmeasured n) else none, n)

abbrev mebibytes : ℕ → ℕ
mebibytes n = saturating_mul n (1024 * 1024)

unfoldable pub memory_decision :
    PoolConfig → Result Text (ℕ × ℕ) → List (Option ℕ) → Result Refusal Unit × List (Option ℕ)
memory_decision cfg (ok (pressure, available)) window =
    eval_admission pressure available (mebibytes cfg.memory_mb) (mebibytes cfg.host_reserve_mb)
      window
memory_decision cfg (err e) window =
    (if ltb 0 cfg.host_reserve_mb then err probe_failed else ok tt, push_reading 0 window)

unfoldable pub has_headroom : PoolConfig → Result Text (ℕ × ℕ) → Bool
has_headroom cfg (err e) = false
has_headroom cfg (ok (pressure, available)) =
    leb
      (saturating_add (mebibytes cfg.host_reserve_mb) (saturating_mul (mebibytes cfg.memory_mb) 4))
      available

abbrev is_err : {E A : Type 0} → Result E A → Bool
is_err (ok a) = false
is_err (err e) = true

unfoldable pub memory_gate :
    PoolConfig → ℕ → Result Text (ℕ × ℕ) → EnsureState → Result Refusal Unit × EnsureState
memory_gate cfg now memory_pressure state =
    let (decision, window) = memory_decision cfg memory_pressure state.pressure_window in
    (
      decision,
      record state {
        pressure_window = window;
        pause_episode =
            (admission_pause_alert_due now (is_err decision) (has_headroom cfg memory_pressure)
              state.pause_episode).1;
      },
    )
