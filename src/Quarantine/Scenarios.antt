-- ===== src/Quarantine/Scenarios.antt =====
-- Tests and instances for src/quarantine.rs.
use ez_gh_actions.Base.{ℕ, ◌≡◌, refl, none, [], ◌∷◌, arith, text, text_eq}
use ez_gh_actions.Base.Decimal.{to_string}
use ez_gh_actions.Base.Texts.{text_lt}
use ez_gh_actions.Base.Results.{ok}
use ez_gh_actions.BtreeMap
use ez_gh_actions.Quarantine.{
  QuarantineEntry, locked422, empty, slots, upsert, load_quarantine_for, contents,
}
use ez_gh_actions.Quarantine.Table.{Built, new, upserted}

abbrev entry : ℕ → QuarantineEntry
entry slot = record {
  slot = slot;
  runner_id = 42;
  runner_name = text "ez-runner-c-1";
  first_seen_epoch_secs = 100;
  attempt_count = 0;
  last_attempt_epoch_secs = 100;
  reason = locked422;
}

-- the map's order is that of the keys' texts: 10 stands before 2
slots_in_text_order :
    slots (upsert (entry 2) (upsert (entry 10) (upsert (entry 1) empty))) ≡ 1 ∷ 10 ∷ 2 ∷ []
unfolding slots upsert BtreeMap.insert BtreeMap.values text_eq text_lt to_string
slots_in_text_order = refl

blank_file : load_quarantine_for (λ raw. none) (contents (text " ")) ≡ ok empty
unfolding load_quarantine_for
blank_file = refl

two_slots : Built (upsert (entry 10) (upsert (entry 2) empty))
two_slots = upserted (entry 10) (upserted (entry 2) new (omega arith)) (omega arith)
