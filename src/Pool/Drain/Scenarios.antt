-- ===== src/Pool/Drain/Scenarios.antt =====
-- Tests and instances for the drain of src/docker_backend.rs.
use ez_gh_actions.Base.{◌≡◌, refl, true, not, some, [], ◌∷◌, ◌==◌, all, arith, text, text_eq}
use ez_gh_actions.Base.Decimal.{to_string, parse_uint}
use ez_gh_actions.BtreeMap
use ez_gh_actions.Pool.Slots.{SlotAssignments, has_assignment, release_slot_for}
use ez_gh_actions.Pool.Released.{runner_name_for}
use ez_gh_actions.Pool.Drain.{
  Exit, registration, entry, drain_reservation, drain_orphan, drain_entry, drain_from,
  drain_inflight_registrations_inner,
}
use ez_gh_actions.Pool.Drain.Live.{drain-live}

-- slot 1 runs, slot 2 has lost its container, slot 3 is only reserved
abbrev three : SlotAssignments
three = record {
  assignments = (text "1", text "71") ∷ (text "2", text "72") ∷ (text "3", []) ∷ [];
  registered_at = [];
  container_started_at = [];
}

abbrev exit : Exit
exit = record {
  name_prefix = text "ez";
  deadline = 100;
  container_names = some (text "ez-1" ∷ []);
  clock = λ k. k;
  remove_runner = λ k id. true;
  reads = λ k. true;
  writes = λ k. true;
}

drain_code : Unit {0}
unfolding to_string parse_uint BtreeMap.get BtreeMap.remove text_eq has_assignment release_slot_for
    runner_name_for registration entry drain_reservation drain_orphan drain_entry drain_from
    drain_inflight_registrations_inner
drain_code = tt

drains :
    ((drain_inflight_registrations_inner exit true three).calls ≡ (2, 72) ∷ [])
    × ((drain_inflight_registrations_inner exit true three).slots.assignments
        ≡ (text "1", text "71") ∷ [])
    × ((drain_inflight_registrations_inner exit true three).summary.reservations_released ≡ 1)
unfolding drain_code
drains = (refl, refl, refl)

drain-live_example :
    (has_assignment (drain_inflight_registrations_inner exit true three).slots 1
      ≡ has_assignment three 1)
    × (all (λ call. not (call.0 == 1)) (drain_inflight_registrations_inner exit true three).calls
        ≡ true)
unfolding drain_code
drain-live_example =
    drain-live exit 1 true three
      (λ names listed.
        let same : text "ez-1" ∷ [] ≡ names = ground (arith, listed) in rw (← same) refl)
      (λ h. refl, (λ h. refl, (λ h. absurd (ground (arith, h)), tt)))
