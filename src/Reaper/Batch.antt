-- ===== src/Reaper/Batch.antt =====
-- A batch of plans in src/reaper.rs deletes each runner at most once.
use ez_gh_actions.Base.{
  ℕ, ◌+◌, ◌≤◌, ◌≡◌, refl, inl, inr, Bool, false, List, [], ◌∷◌, arith, ◌==◌, ==_iff, if◌then◌else◌,
  any, Bool-cases, length,
}
use ez_gh_actions.Reaper.{ReaperPlan, Call, ReaperApi}
use ez_gh_actions.Reaper.Execute.{
  execute_reaper_plan_with_api, execute_from, execute_reaper_plans_with_api,
}
use ez_gh_actions.Reaper.Safety.{deletes, deletes-execute}

abbrev seen_id : ℕ → List ℕ → Bool
seen_id id seen = any (λ s. s == id) seen

deletes-execute_from :
    (api : ReaperApi) (n id : ℕ) (seen : List ℕ) (plans : List ReaperPlan) (h : List Call)
    → deletes id (execute_from api n seen plans h).1
      ≤ deletes id h + (if seen_id id seen then 0 else 1)
unfolding execute_from
deletes-execute_from api n id seen [] h = omega arith
deletes-execute_from api n id seen (plan ∷ plans) h =
    let h' = (execute_reaper_plan_with_api api plan n h).1 in
    let skip = deletes-execute_from api n id seen plans h in
    let go = deletes-execute_from api n id (plan.runner_id ∷ seen) plans h' in
    elim (Bool-cases (seen_id plan.runner_id seen)) [
      | inl e ↦ rw (e, execute_from) skip
      | inr e ↦
          rw (e, execute_from)
            (elim (Bool-cases (plan.runner_id == id)) [
              | inl q ↦
                  let same : plan.runner_id ≡ id = (==_iff plan.runner_id id).0 q in
                  let fresh : seen_id id seen ≡ false = rw same at e in
                  ground (arith, go, deletes-execute api plan n id h)
              | inr q ↦ ground (arith, go, deletes-execute api plan n id h)
            ])
    ]

length-execute_from :
    (api : ReaperApi) (n : ℕ) (seen : List ℕ) (plans : List ReaperPlan) (h : List Call)
    → length (execute_from api n seen plans h).0 ≡ length plans
unfolding execute_from
length-execute_from api n seen [] h = refl
length-execute_from api n seen (plan ∷ plans) h =
    let h' = (execute_reaper_plan_with_api api plan n h).1 in
    let skip = length-execute_from api n seen plans h in
    let go = length-execute_from api n (plan.runner_id ∷ seen) plans h' in
    elim (Bool-cases (seen_id plan.runner_id seen)) [
      | inl e ↦ rw (e, execute_from) (omega (arith, skip))
      | inr e ↦ rw (e, execute_from) (omega (arith, go))
    ]

-- However many plans of a batch name one runner, its deletion is asked for at most once; every plan
-- has its execution in the result.
pub batch_deletes_once :
    (api : ReaperApi) (plans : List ReaperPlan) (n id : ℕ) (h : List Call)
    → (deletes id (execute_reaper_plans_with_api api plans n h).1 ≤ deletes id h + 1)
      × (length (execute_reaper_plans_with_api api plans n h).0 ≡ length plans)
unfolding execute_reaper_plans_with_api
batch_deletes_once api plans n id h =
    (deletes-execute_from api n id [] plans h, length-execute_from api n [] plans h)
