-- ===== src/Stale/Entries/Verdicts.antt =====
-- The verdicts on the entries of the slot file (src/docker_backend.rs): which of them spare a slot.
use ez_gh_actions.Base.{
  ℕ, ◌≡◌, refl, ◌⊎◌, inl, inr, Bool, true, false, none, some, List, [], arith, ◌==◌, ==_iff,
  u32_max, u64_max, unwrap_or, Text, text_eq, Bool-cases, Option-cases,
}
use ez_gh_actions.Base.Decimal.{parse_uint}
use ez_gh_actions.BtreeMap
use ez_gh_actions.BtreeMap.{BtreeMap, AllEntries, weaken-AllEntries, get-remove}
use ez_gh_actions.Github.{RunnerInfo}
use ez_gh_actions.Pool.Memory.{has}
use ez_gh_actions.Pool.Released.{runner_name_for}
use ez_gh_actions.Pool.Slots.{slot_in_grace_window, empty_id_reservation_in_grace_window}
use ez_gh_actions.Stale.{
  LocalRunnerActivity, busy, idle, unknown, absent,
  started_container_activity_if_in_grace_with_state, retain_started_activity_after_grace_probe,
  find_runner,
}
use ez_gh_actions.Stale.Entries.{
  Observed, Verdict, skipped, kept, grace_skipped, reclaim, judge_empty, judge_activity,
  judge_missing, judge_live, judge_registered, judge,
}

-- whether a verdict frees slot `j`
abbrev pub reclaims : ℕ → Verdict → Bool
reclaims j skipped = false
reclaims j kept = false
reclaims j (grace_skipped slot) = false
reclaims j (reclaim slot rid last reason) = slot == j

-- the live runner with the recorded id, if there is one, has the slot's name
abbrev pub IsNamed : Observed → Text → ℕ → Type 0
IsNamed o id j =
    (rid : ℕ) (runner : RunnerInfo)
    → parse_uint u64_max id ≡ some rid
    → find_runner o.live_runners rid ≡ some runner
    → text_eq runner.name (runner_name_for o.runner_prefix j) ≡ true

-- an entry of slot `j` that is in its grace window all through the pass, with no started container
pub record IsFresh (o : Observed) (j : ℕ) (key id : Text) : Type 0 where
  pub in_grace : (k : ℕ) → slot_in_grace_window o.assignments key (o.clock k) ≡ true
  pub unstarted : BtreeMap.get key o.assignments.container_started_at ≡ none
  pub named : IsNamed o id j

-- a registration of slot `j` whose container is listed, and on each probe busy or not known idle
pub record IsActive (o : Observed) (j : ℕ) (key id : Text) : Type 0 where
  pub names : List Text
  pub listed : o.local_container_names ≡ some names
  pub present : has names (runner_name_for o.runner_prefix j) ≡ true
  pub registered : text_eq id [] ≡ false
  pub active :
      (k : ℕ)
      → (o.activity_probe k (runner_name_for o.runner_prefix j) ≡ busy)
        ⊎ (o.activity_probe k (runner_name_for o.runner_prefix j) ≡ unknown)
  pub named : IsNamed o id j

-- A registration of slot `j` at work, as far as can be seen: where the containers are listed, it is active;
-- where they are not, GitHub lists the recorded runner. The live runner has the slot's name.
pub record IsAtWork (o : Observed) (j : ℕ) (key id : Text) : Type 0 where
  pub registered : text_eq id [] ≡ false
  pub working :
      (names : List Text)
      → o.local_container_names ≡ some names
      → (has names (runner_name_for o.runner_prefix j) ≡ true)
        × ((k : ℕ)
            → (o.activity_probe k (runner_name_for o.runner_prefix j) ≡ busy)
              ⊎ (o.activity_probe k (runner_name_for o.runner_prefix j) ≡ unknown))
  pub known :
      o.local_container_names ≡ none
      → (rid : ℕ) → parse_uint u64_max id ≡ some rid
      → (runner : RunnerInfo) × (find_runner o.live_runners rid ≡ some runner)
  pub named : IsNamed o id j

-- an entry of slot `j` is fresh or active
abbrev pub IsShielded : Observed → ℕ → Text → Text → Type 0
IsShielded o j key id = parse_uint u32_max key ≡ some j → IsFresh o j key id ⊎ IsActive o j key id

abbrev pub with_grace : Observed → Observed
with_grace o = record o { grace_check = λ k self slot. slot_in_grace_window self slot (o.clock k) }

module _ (o : Observed) (j k : ℕ) (key id : Text) where
  judge_missing-fresh :
      (rid : ℕ) → IsFresh o j key id → reclaims j (judge_missing (with_grace o) k key j rid) ≡ false
  unfolding judge_missing started_container_activity_if_in_grace_with_state
      retain_started_activity_after_grace_probe
  judge_missing-fresh rid f = ground (arith, f.in_grace k, f.unstarted)

  judge_live-fresh :
      (rid : ℕ) (runner : RunnerInfo)
      → IsFresh o j key id
      → text_eq runner.name (runner_name_for o.runner_prefix j) ≡ true
      → reclaims j (judge_live (with_grace o) k key j rid runner) ≡ false
  unfolding judge_live started_container_activity_if_in_grace_with_state
      retain_started_activity_after_grace_probe
  judge_live-fresh rid runner f named = ground (arith, f.in_grace k, f.unstarted, named)

  judge_missing-active :
      (rid : ℕ)
      → IsActive o j key id
      → reclaims j (judge_missing (with_grace o) k key j rid) ≡ false
  unfolding judge_missing judge_activity started_container_activity_if_in_grace_with_state
      retain_started_activity_after_grace_probe
  judge_missing-active rid a = elim (a.active k) [
    | inl e ↦ ground (arith, a.listed, a.present, e)
    | inr e ↦ ground (arith, a.listed, a.present, e)
  ]

  judge_live-active :
      (rid : ℕ) (runner : RunnerInfo)
      → IsActive o j key id
      → text_eq runner.name (runner_name_for o.runner_prefix j) ≡ true
      → reclaims j (judge_live (with_grace o) k key j rid runner) ≡ false
  unfolding judge_live
  judge_live-active rid runner a named = ground (arith, a.listed, a.present, named)

  judge_registered-kept :
      IsNamed o id j
      → ((rid : ℕ) → reclaims j (judge_missing (with_grace o) k key j rid) ≡ false)
      → ((rid : ℕ) (runner : RunnerInfo)
          → text_eq runner.name (runner_name_for o.runner_prefix j) ≡ true
          → reclaims j (judge_live (with_grace o) k key j rid runner) ≡ false)
      → reclaims j (judge_registered (with_grace o) k key id j) ≡ false
  unfolding judge_registered
  judge_registered-kept named missing live = elim (Option-cases (parse_uint u64_max id)) [
    | inl e ↦ rw (e, judge_registered) refl
    | inr (rid, e) ↦ elim (Option-cases (find_runner o.live_runners rid)) [
      | inl e' ↦ rw (e, judge_registered) (rw e' (missing rid))
      | inr (runner, e') ↦
          rw (e, judge_registered) (rw e' (live rid runner (named rid runner e e')))
    ]
  ]

  -- an entry of another slot is no ground to free slot `j`
  judge_activity-other :
      (slot rid : ℕ) (activity : LocalRunnerActivity)
      → (slot == j) ≡ false
      → reclaims j (judge_activity (with_grace o) k slot rid activity) ≡ false
  unfolding judge_activity
  judge_activity-other slot rid busy other = refl
  judge_activity-other slot rid idle other = other
  judge_activity-other slot rid unknown other = refl
  judge_activity-other slot rid absent other = other

  judge_missing-other :
      (slot rid : ℕ)
      → (slot == j) ≡ false
      → reclaims j (judge_missing (with_grace o) k key slot rid) ≡ false
  unfolding judge_missing
  judge_missing-other slot rid other = ground (
    arith,
    other,
    judge_activity-other slot rid
        (unwrap_or
          (started_container_activity_if_in_grace_with_state o.assignments key
            (o.activity_probe k (runner_name_for o.runner_prefix slot))
            (slot_in_grace_window o.assignments key (o.clock k)))
          (o.activity_probe k (runner_name_for o.runner_prefix slot)))
        other,
  )

  judge_live-other :
      (slot rid : ℕ) (runner : RunnerInfo)
      → (slot == j) ≡ false
      → reclaims j (judge_live (with_grace o) k key slot rid runner) ≡ false
  unfolding judge_live
  judge_live-other slot rid runner other = ground (arith, other)

  judge-other :
      (slot : ℕ)
      → parse_uint u32_max key ≡ some slot
      → (slot == j) ≡ false
      → reclaims j (judge (with_grace o) k key id) ≡ false
  unfolding judge judge_empty judge_registered
  judge-other slot e other = elim (Bool-cases (text_eq id [])) [
    | inl bare ↦ rw (e, judge) (rw bare (ground (arith, other)))
    | inr given ↦ elim (Option-cases (parse_uint u64_max id)) [
      | inl none_id ↦ rw (e, judge) (rw given (rw (none_id, judge_registered) refl))
      | inr (rid, some_id) ↦ elim (Option-cases (find_runner o.live_runners rid)) [
        | inl lost ↦
            rw (e, judge)
              (rw given
                (rw (some_id, judge_registered) (rw lost (judge_missing-other slot rid other))))
        | inr (runner, found) ↦
            rw (e, judge)
              (rw given (
                rw (some_id, judge_registered) (rw found (judge_live-other slot rid runner other))))
      ]
    ]
  ]

  judge-fresh :
      parse_uint u32_max key ≡ some j
      → IsFresh o j key id
      → reclaims j (judge (with_grace o) k key id) ≡ false
  unfolding judge judge_empty empty_id_reservation_in_grace_window slot_in_grace_window
  judge-fresh e f = elim (Bool-cases (text_eq id [])) [
    | inl bare ↦ rw (e, judge) (rw bare (ground (arith, bare, f.in_grace k)))
    | inr given ↦
        rw (e, judge)
          (rw given (
            judge_registered-kept f.named (λ rid. judge_missing-fresh rid f)
              (λ rid runner. judge_live-fresh rid runner f)))
  ]

  judge-active :
      parse_uint u32_max key ≡ some j
      → IsActive o j key id
      → reclaims j (judge (with_grace o) k key id) ≡ false
  unfolding judge
  judge-active e a =
      rw (e, judge)
        (rw (a.registered) (
          judge_registered-kept a.named (λ rid. judge_missing-active rid a)
            (λ rid runner. judge_live-active rid runner a)))

  pub judge-shielded : IsShielded o j key id → reclaims j (judge (with_grace o) k key id) ≡ false
  unfolding judge
  judge-shielded shield = elim (Option-cases (parse_uint u32_max key)) [
    | inl e ↦ rw (e, judge) refl
    | inr (slot, e) ↦ elim (Bool-cases (slot == j)) [
      | inr other ↦ judge-other slot e other
      | inl same ↦
          let at_j : parse_uint u32_max key ≡ some j = rw (← (==_iff slot j).0 same) e in
          elim (shield at_j) [ inl f ↦ judge-fresh at_j f | inr a ↦ judge-active at_j a ]
    ]
  ]

  judge-unlisted :
      o.local_container_names ≡ none
      → parse_uint u32_max key ≡ some j
      → IsAtWork o j key id
      → reclaims j (judge (with_grace o) k key id) ≡ false
  unfolding judge judge_registered judge_live
  judge-unlisted unlisted e a = elim (Option-cases (parse_uint u64_max id)) [
    | inl e' ↦ rw (e, judge) (rw (a.registered) (rw (e', judge_registered) refl))
    | inr (rid, e') ↦
        let (runner, found) = a.known unlisted rid e' in
        rw (e, judge)
          (rw (a.registered) (
            rw (e', judge_registered)
              (rw found (ground (arith, unlisted, a.named rid runner e' found)))))
  ]

  -- an entry at work is no ground to free its slot, nor is an entry of another slot
  pub judge-IsAtWork :
      (parse_uint u32_max key ≡ some j → IsAtWork o j key id)
      → reclaims j (judge (with_grace o) k key id) ≡ false
  unfolding judge
  judge-IsAtWork at_work = elim (Option-cases o.local_container_names) [
    | inr (names, listed) ↦ judge-shielded (λ at_j.
        let a = at_work at_j in
        let (present, active) = a.working names listed in
        inr (record {
          names = names;
          listed = listed;
          present = present;
          registered = a.registered;
          active = active;
          named = a.named;
        }))
    | inl unlisted ↦ elim (Option-cases (parse_uint u32_max key)) [
      | inl e ↦ rw (e, judge) refl
      | inr (slot, e) ↦ elim (Bool-cases (slot == j)) [
        | inr other ↦ judge-other slot e other
        | inl same ↦
            let at_j : parse_uint u32_max key ≡ some j = rw (← (==_iff slot j).0 same) e in
            judge-unlisted unlisted at_j (at_work at_j)
      ]
    ]
  ]
