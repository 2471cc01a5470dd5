-- ===== src/Pool/Released.antt =====
-- `post_refill_released_slots` (src/docker_backend.rs): the slots that a batch's trailing release freed.
use ez_gh_actions.Base.{
  ℕ, zero, suc, ◌+◌, Bool, false, not, ◌&&◌, ◌||◌, Option, none, some, List, [], ◌∷◌, ◌++◌,
  if◌then◌else◌, is_some, all, leb, u64_max, Text, text_eq, strip_prefix,
}
use ez_gh_actions.Base.Texts.{text_lt}
use ez_gh_actions.Base.Decimal.{to_string, parse_uint}
use ez_gh_actions.Base.Results.{Result, ok, err}
use ez_gh_actions.BtreeMap
use ez_gh_actions.BtreeMap.Slots.{contains}
use ez_gh_actions.FailureLadder.{FailureLadder, fleet_admission_is_paused, excluded_slots}
use ez_gh_actions.FailureLadder.Storage.{LoadError}
use ez_gh_actions.Pool.Memory.{has}
use ez_gh_actions.Pool.Slots.{SlotAssignments}

unfoldable pub runner_name_for : Text → ℕ → Text
runner_name_for name_prefix slot = name_prefix ++ (b'-' ∷ to_string slot)

unfoldable pub runner_name_matches_prefix : Text → Text → Bool
runner_name_matches_prefix name_prefix name = elim (strip_prefix name_prefix name) [
  | none ↦ false
  | some rest ↦ elim (strip_prefix (b'-' ∷ []) rest) [
    | none ↦ false
    | some [] ↦ false
    | some suffix ↦ all (λ c. leb b'0' c && leb c b'9') suffix
  ]
]

-- `sort` on a vector of strings
abbrev pub insert_sorted : Text → List Text → List Text
insert_sorted x [] = x ∷ []
insert_sorted x (y ∷ ys) = if text_lt y x then y ∷ insert_sorted x ys else x ∷ y ∷ ys

unfoldable pub sort : List Text → List Text
sort [] = []
sort (x ∷ xs) = insert_sorted x (sort xs)

-- What the function reads again: the quarantine, the ledger, the clock, and the latch. The
-- quarantine and the ledger end it with an error where they cannot be loaded.
pub record Eligibility : Type 0 where
  pub quarantine : Result Text (List ℕ)
  pub ladder : Result LoadError FailureLadder
  pub now : ℕ

-- the same nonempty id before the batch and before the release, and none after it
unfoldable pub was_released : SlotAssignments → SlotAssignments → SlotAssignments → ℕ → Bool
was_released before_batch before_release after_release slot =
    elim (BtreeMap.get (to_string slot) before_batch.assignments) [
      | none ↦ false
      | some id ↦
          is_some (parse_uint u64_max id)
          && (elim (BtreeMap.get (to_string slot) before_release.assignments) [
            | none ↦ false
            | some id' ↦ text_eq id' id
          ]
              && not (is_some (BtreeMap.get (to_string slot) after_release.assignments)))
    ]

-- the loop over `slot..slot + left`
unfoldable pub released_from : Text → (ℕ → Bool) → List ℕ → List Text → ℕ → ℕ → List Text
released_from name_prefix released excluded names zero slot = []
released_from name_prefix released excluded names (suc left) slot =
    let rest = released_from name_prefix released excluded names left (slot + 1) in
    if released slot
      && (not (contains excluded slot) && not (has names (runner_name_for name_prefix slot)))
    then runner_name_for name_prefix slot ∷ rest
    else rest

-- an error is reported and taken for an empty result by the caller
unfoldable pub post_refill_released_slots :
    Text
    → ℕ
    → Eligibility
    → Bool
    → Option SlotAssignments
    → Option SlotAssignments
    → Option SlotAssignments
    → List ℕ
    → List Text
    → List Text
post_refill_released_slots name_prefix count eligibility latch (some before_batch)
      (some before_release) (some after_release) attempted names =
    elim eligibility.quarantine [
      | err e ↦ []
      | ok quarantine ↦ elim eligibility.ladder [
        | err e ↦ []
        | ok ladder ↦
            if latch || fleet_admission_is_paused ladder eligibility.now
            then []
            else sort (
                released_from name_prefix (was_released before_batch before_release after_release)
                  (attempted ++ (quarantine ++ excluded_slots ladder eligibility.now)) names count
                  1)
      ]
    ]
post_refill_released_slots name_prefix count eligibility latch _ _ _ attempted names = []
