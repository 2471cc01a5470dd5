-- ===== src/Stale/Zombies.antt =====
-- `reconcile_offline_busy_zombies` (src/docker_backend.rs): slots whose runner is offline and busy with
-- its container gone.
pub mod Loop
pub mod Budget
pub mod Held
pub mod Tables
use ez_gh_actions.Base.{
  ℕ, zero, suc, ◌+◌, ◌-◌, Bool, true, false, not, ◌&&◌, ◌||◌, Option, none, some, List, [], ◌∷◌,
  ◌==◌, ltb, if◌then◌else◌, is_some, min, u32_max, u64_max, Text, text, text_eq, starts_with,
}
use ez_gh_actions.Base.Texts.{contains_text, to_lowercase}
use ez_gh_actions.Base.Decimal.{parse_uint}
use ez_gh_actions.Base.Results.{Result, ok, err}
use ez_gh_actions.BtreeMap.{BtreeMap}
use ez_gh_actions.Github.{RunnerInfo, eq_ignore_ascii_case}
use ez_gh_actions.Quarantine.{
  QuarantineEntry, QuarantineTable, locked422, is_quarantined, slots, upsert, remove, get_mut,
}
use ez_gh_actions.Quarantine
use ez_gh_actions.Pool.Memory.{has}
use ez_gh_actions.Pool.Released.{runner_name_for}
use ez_gh_actions.Pool.Slots.{SlotAssignments, SlotError, release_slot_for}
use ez_gh_actions.Stale.{find_runner}

unfoldable pub is_runner_busy_lock_error : Text → Bool
is_runner_busy_lock_error error =
    contains_text (text "currently running a job") (to_lowercase error)

-- a wedged slot, its runner's id and name
pub record Wedged : Type 0 where
  pub slot : ℕ
  pub runner_id : ℕ
  pub runner_name : Text

-- the entry's slot, if its runner is offline and busy under the slot's name, and has no container
unfoldable pub wedged : List RunnerInfo → Text → List Text → Text → Text → Option Wedged
wedged live_runners runner_prefix local_container_names key id = elim (parse_uint u32_max key) [
  | none ↦ none
  | some slot ↦ elim (parse_uint u64_max id) [
    | none ↦ none
    | some rid ↦
        let expected_name = runner_name_for runner_prefix slot in
        if has local_container_names expected_name
        then none
        else elim (find_runner live_runners rid) [
          | none ↦ none
          | some runner ↦
              if text_eq runner.name expected_name
                && (eq_ignore_ascii_case runner.status (text "offline") && runner.busy)
              then some (record { slot = slot; runner_id = rid; runner_name = expected_name })
              else none
        ]
  ]
]

unfoldable pub offline_busy_owned_missing_container_slots :
    BtreeMap Text → List RunnerInfo → Text → List Text → List Wedged
offline_busy_owned_missing_container_slots [] live_runners runner_prefix local_container_names = []
offline_busy_owned_missing_container_slots ((key, id) ∷ entries) live_runners runner_prefix
      local_container_names =
    let rest =
      offline_busy_owned_missing_container_slots entries live_runners runner_prefix
        local_container_names in
    elim (wedged live_runners runner_prefix local_container_names key id) [
      | none ↦ rest
      | some w ↦ w ∷ rest
    ]

-- What the pass reads and calls. The answers, the clock and the slot file go by the removals that were asked
-- for so far, the latest first.
pub record ZombieReadings : Type 0 where
  pub assignments : SlotAssignments
  pub live_runners : List RunnerInfo
  pub runner_prefix : Text
  pub local_container_names : Option (List Text)
  pub max_attempts_per_tick : ℕ
  pub remove_runner : List ℕ → ℕ → Result Text Unit
  pub try_zombie_reclaim : List ℕ → RunnerInfo → Bool
  pub unix_now_secs : List ℕ → ℕ
  pub reads : List ℕ → Bool
  pub writes : List ℕ → Bool

-- the slot file, the table, the counts, and the ids that a removal and a self-heal was asked for
pub record Reconciling : Type 0 where
  pub slots : SlotAssignments
  pub quarantine : QuarantineTable
  pub reclaimed : ℕ
  pub attempts_this_tick : ℕ
  pub removals : List ℕ
  pub heals : List ℕ

-- before the pass
abbrev pub unreconciled : SlotAssignments → QuarantineTable → Reconciling
unreconciled file quarantine = record {
  slots = file;
  quarantine = quarantine;
  reclaimed = 0;
  attempts_this_tick = 0;
  removals = [];
  heals = [];
}

module _ (gh : ZombieReadings) where
  -- the release of a slot whose runner is gone; an error ends the pass
  unfoldable pub release : ℕ → Reconciling → Result SlotError Unit × Reconciling
  release slot s =
      let (result, slots) =
        release_slot_for (gh.reads s.removals) (gh.writes s.removals) slot s.slots in
      elim result [
        | err e ↦ (err e, record s { slots = slots })
        | ok _ ↦ (
          ok tt,
          record s {
            slots = slots;
            quarantine = (remove slot s.quarantine).0;
            reclaimed = s.reclaimed + 1;
          },
        )
      ]

  -- the self-heal, if the tick's budget allows one more
  unfoldable pub heal : ℕ → Reconciling → Bool × Reconciling
  heal runner_id s =
      if ltb s.attempts_this_tick gh.max_attempts_per_tick
      then (let s' = record s { attempts_this_tick = s.attempts_this_tick + 1 } in
          elim (find_runner gh.live_runners runner_id) [
            | none ↦ (false, s')
            | some runner ↦
                (gh.try_zombie_reclaim s.removals runner, record s' { heals = runner_id ∷ s.heals })
          ])
      else (false, s)

  unfoldable pub quarantine_slot : Wedged → ℕ → QuarantineTable → QuarantineTable
  quarantine_slot w now table = elim (Quarantine.get table w.slot) [
    | some _ ↦
        get_mut
          (λ e. record e {
            attempt_count = min (e.attempt_count + 1) u32_max;
            last_attempt_epoch_secs = now;
          })
          w.slot table
    | none ↦
        upsert
          (record {
            slot = w.slot;
            runner_id = w.runner_id;
            runner_name = w.runner_name;
            first_seen_epoch_secs = now;
            attempt_count = 1;
            last_attempt_epoch_secs = now;
            reason = locked422;
          })
          table
  ]

  -- the removal was refused because of a job
  unfoldable pub locked : Wedged → Reconciling → Result SlotError Unit × Reconciling
  locked w s =
      let (healed, s') = heal w.runner_id s in
      if healed then release w.slot s' else (
        ok tt,
        record s' { quarantine = quarantine_slot w (gh.unix_now_secs s'.removals) s'.quarantine },
      )

  -- a slot that is quarantined is left to the recovery
  unfoldable pub reconcile_slot : Wedged → Reconciling → Result SlotError Unit × Reconciling
  reconcile_slot w s =
      if is_quarantined s.quarantine w.slot
      then (ok tt, s)
      else (let s' = record s { removals = w.runner_id ∷ s.removals } in
          elim (gh.remove_runner s.removals w.runner_id) [
            | ok _ ↦ release w.slot s'
            | err e ↦ if is_runner_busy_lock_error e then locked w s' else (ok tt, s')
          ])

  -- whether GitHub has let go of a quarantined runner, which it lists or not
  unfoldable pub recoverable : Option RunnerInfo → Bool
  recoverable none = true
  recoverable (some r) = if eq_ignore_ascii_case r.status (text "online") then true else not r.busy

  unfoldable pub recover_entry :
      ℕ → QuarantineEntry → Reconciling → Result SlotError Unit × Reconciling
  recover_entry slot entry s =
      if not (recoverable (find_runner gh.live_runners entry.runner_id))
      then (ok tt, s)
      else (let s' = record s { removals = entry.runner_id ∷ s.removals } in
          elim (gh.remove_runner s.removals entry.runner_id) [
            | ok _ ↦ release slot s'
            | err e ↦
                if is_runner_busy_lock_error e
                then (
                  ok tt,
                  record s' {
                    quarantine =
                        get_mut
                          (λ e. record e { last_attempt_epoch_secs = gh.unix_now_secs s'.removals })
                          slot s'.quarantine;
                  },
                )
                else (ok tt, s')
          ])

  unfoldable pub recover_slot : ℕ → Reconciling → Result SlotError Unit × Reconciling
  recover_slot slot s = elim (Quarantine.get s.quarantine slot) [
    | none ↦ (ok tt, s)
    | some entry ↦ recover_entry slot entry s
  ]

  -- a loop that an error ends
  unfoldable pub each :
      {A : Type 0}
      → (A → Reconciling → Result SlotError Unit × Reconciling)
      → List A
      → Reconciling
      → Result SlotError Unit × Reconciling
  each step [] s = (ok tt, s)
  each step (x ∷ xs) s =
      let (result, s') = step x s in elim result [ err e ↦ (err e, s') | ok _ ↦ each step xs s' ]

  -- the recovery walks the slots that are quarantined when it begins
  unfoldable pub recover : Reconciling → Result SlotError Unit × Reconciling
  recover s = each recover_slot (slots s.quarantine) s

  -- both passes, where the containers could be listed
  unfoldable pub reconcile_listed : List Text → Reconciling → Result SlotError Unit × Reconciling
  reconcile_listed local_names s =
      let (result, s') =
        each reconcile_slot
          (offline_busy_owned_missing_container_slots gh.assignments.assignments gh.live_runners
            gh.runner_prefix local_names)
          s in
      elim result [ err e ↦ (err e, s') | ok _ ↦ recover s' ]

  unfoldable pub reconcile_offline_busy_zombies :
      SlotAssignments → QuarantineTable → Result SlotError Unit × Reconciling
  reconcile_offline_busy_zombies file quarantine = elim gh.local_container_names [
    | none ↦ (ok tt, unreconciled file quarantine)
    | some local_names ↦ reconcile_listed local_names (unreconciled file quarantine)
  ]
