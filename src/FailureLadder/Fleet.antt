-- ===== src/FailureLadder/Fleet.antt =====
-- The fleet-wide admission pause of src/failure_ladder.rs: when it opens, and that it ends.
use ez_gh_actions.Base.{
  ℕ, ◌≤◌, ◌<◌, ◌≡◌, not, ◌&&◌, ◌||◌, arith, ltb, leb, if◌then◌else◌, u64_max, saturating_add,
}
use ez_gh_actions.Base.Results.{ok}
use ez_gh_actions.FailureLadder.{
  FailureLadderPolicy, FailureLadder, FailureLadderTransition, fleet_admission_is_paused,
  open_slot_count, expire, settle_failure, fleet_trips, record_failure, record_success,
}
use ez_gh_actions.FailureLadder.Circuit.{record_failure-inv}

pub paused-expire :
    (now t : ℕ) (l : FailureLadder)
    → now ≤ t
    → fleet_admission_is_paused (expire now l).1 t ≡ fleet_admission_is_paused l t
unfolding fleet_admission_is_paused expire
paused-expire now t l h = ground arith

-- A success neither opens nor cancels the pause.
pub record_success-paused :
    (slot now t : ℕ) (l : FailureLadder)
    → now ≤ t
    → fleet_admission_is_paused (record_success slot now l).1 t ≡ fleet_admission_is_paused l t
unfolding record_success
record_success-paused slot now t l h = unfold fleet_admission_is_paused in paused-expire now t l h

module _ (p : FailureLadderPolicy) (slot now : ℕ) where
  pub settle_failure-paused :
      (t : FailureLadderTransition) (l : FailureLadder) (at : ℕ)
      → fleet_admission_is_paused (settle_failure p slot now (t, l)).1 at ≡ (
          if (settle_failure p slot now (t, l)).0.fleet_opened
          then ltb at (saturating_add now p.fleet_cooldown_secs)
          else fleet_admission_is_paused l at)
  unfolding settle_failure fleet_admission_is_paused
  settle_failure-paused t l at = ground arith

  settle_failure-fleet_opened :
      (t : FailureLadderTransition) (l : FailureLadder)
      → (settle_failure p slot now (t, l)).0.fleet_opened ≡ (
          (settle_failure p slot now (t, l)).0.slot_opened
          && (not (fleet_admission_is_paused l now)
              && leb p.fleet_open_slots_threshold
                  (open_slot_count (settle_failure p slot now (t, l)).1 now)))
  unfolding settle_failure fleet_trips fleet_admission_is_paused open_slot_count
  settle_failure-fleet_opened t l = ground arith

  -- The pause opens exactly when this failure opened a slot's circuit, admission was not paused,
  -- and the open circuits reach the threshold; then it is in force.
  pub record_failure-fleet_opened :
      (l : FailureLadder) {r : FailureLadderTransition × FailureLadder}
      → now < u64_max
      → record_failure p slot now l ≡ ok r
      → (r.0.fleet_opened ≡ (
          r.0.slot_opened
          && (not (fleet_admission_is_paused l now)
              && leb p.fleet_open_slots_threshold (open_slot_count r.1 now))))
        × (fleet_admission_is_paused r.1 now
            ≡ (r.0.fleet_opened || fleet_admission_is_paused l now))
  record_failure-fleet_opened l {r} lt h =
      let (valid, run) = record_failure-inv p slot now l h in
      let positive : 0 < p.fleet_cooldown_secs = valid.fleet_cooldown_secs in
      let (t, l') = expire now l in
      rw (← run) (
        ground (arith, settle_failure-fleet_opened t l', paused-expire now now l),
        ground (arith, settle_failure-paused t l' now, paused-expire now now l),
      )
