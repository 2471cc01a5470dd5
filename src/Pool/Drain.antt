-- ===== src/Pool/Drain.antt =====
-- `drain_inflight_registrations_inner` (src/docker_backend.rs): what a shutdown deregisters.
pub mod Live
mod Scenarios
use ez_gh_actions.Base.{
  ℕ, ◌+◌, Bool, true, false, Option, none, some, List, [], ◌∷◌, leb, if◌then◌else◌, u32_max,
  u64_max, Text, text_eq,
}
use ez_gh_actions.Base.Decimal.{parse_uint}
use ez_gh_actions.Base.Results.{Result, ok, err}
use ez_gh_actions.BtreeMap.{BtreeMap}
use ez_gh_actions.Pool.Memory.{has}
use ez_gh_actions.Pool.Released.{runner_name_for}
use ez_gh_actions.Pool.Slots.{SlotAssignments, SlotError, release_slot_for}

pub record DrainSummary : Type 0 where
  pub reservations_released : ℕ
  pub registrations_deregistered : ℕ
  pub containers_preserved : ℕ
  pub deferred_to_reaper : ℕ

abbrev pub no_drain : DrainSummary
no_drain = record {
  reservations_released = 0;
  registrations_deregistered = 0;
  containers_preserved = 0;
  deferred_to_reaper = 0;
}

-- What the drain meets, by the number of the entry: the clock, whether GitHub removes a runner, and
-- whether the slot file can be read and written. `container_names` is none where the containers
-- cannot be listed.
pub record Exit : Type 0 where
  pub name_prefix : Text
  pub deadline : ℕ
  pub container_names : Option (List Text)
  pub clock : ℕ → ℕ
  pub remove_runner : ℕ → ℕ → Bool
  pub reads : ℕ → Bool
  pub writes : ℕ → Bool

-- the summary, the slot file, and the removals that were asked for: slot and runner id
pub record Drain : Type 0 where
  pub summary : DrainSummary
  pub slots : SlotAssignments
  pub calls : List (ℕ × ℕ)

-- what an entry of the slot file is
pub data Entry : Type 0 where
  not_a_slot unclear live : Entry
  reservation : ℕ → Entry
  orphan : ℕ → ℕ → Entry

unfoldable pub registration : Exit → ℕ → Text → Entry
registration exit slot id = elim (parse_uint u64_max id) [
  | none ↦ unclear
  | some runner_id ↦ elim exit.container_names [
    | none ↦ unclear
    | some names ↦
        if has names (runner_name_for exit.name_prefix slot) then live else orphan slot runner_id
  ]
]

unfoldable pub entry : Exit → Text → Text → Entry
entry exit key id = elim (parse_uint u32_max key) [
  | none ↦ not_a_slot
  | some slot ↦ if text_eq id [] then reservation slot else registration exit slot id
]

abbrev defer : Drain → Drain
defer s = record s {
  summary = record (s.summary) { deferred_to_reaper = s.summary.deferred_to_reaper + 1 };
}

unfoldable pub drain_reservation : Exit → ℕ → ℕ → Drain → Drain
drain_reservation exit k slot s =
    let (result, slots) = release_slot_for (exit.reads k) (exit.writes k) slot s.slots in
    elim result [
      | err _ ↦ record s { slots = slots }
      | ok _ ↦ record s {
        slots = slots;
        summary = record (s.summary) {
          reservations_released = s.summary.reservations_released + 1;
        };
      }
    ]

unfoldable pub drain_orphan : Exit → ℕ → ℕ → ℕ → Drain → Drain
drain_orphan exit k slot runner_id s =
    if leb exit.deadline (exit.clock k)
    then defer s
    else (let s' = record s { calls = (slot, runner_id) ∷ s.calls } in
        if exit.remove_runner k runner_id
        then record s' {
          slots = (release_slot_for (exit.reads k) (exit.writes k) slot s.slots).1;
          summary = record (s.summary) {
            registrations_deregistered = s.summary.registrations_deregistered + 1;
          };
        }
        else defer s')

unfoldable pub drain_entry : Exit → ℕ → Entry → Drain → Drain
drain_entry exit k not_a_slot s = s
drain_entry exit k unclear s = defer s
drain_entry exit k live s = record s {
  summary = record (s.summary) { containers_preserved = s.summary.containers_preserved + 1 };
}
drain_entry exit k (reservation slot) s = drain_reservation exit k slot s
drain_entry exit k (orphan slot runner_id) s = drain_orphan exit k slot runner_id s

-- the loop over the entries as they were read, from the `k`-th on
unfoldable pub drain_from : Exit → BtreeMap Text → ℕ → Drain → Drain
drain_from exit [] k s = s
drain_from exit ((key, id) ∷ entries) k s =
    drain_from exit entries (k + 1) (drain_entry exit k (entry exit key id) s)

-- `readable`: whether the slot file can be read at first
unfoldable pub drain_inflight_registrations_inner : Exit → Bool → SlotAssignments → Drain
drain_inflight_registrations_inner exit readable slots =
    let s : Drain = record { summary = no_drain; slots = slots; calls = [] } in
    if readable then drain_from exit slots.assignments 0 s else s
