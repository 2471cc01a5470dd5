-- ===== src/Github/Snapshot.antt =====
-- The completeness check of a paginated listing in src/github.rs.
use ez_gh_actions.Base.{
  ℕ, ◌≡◌, ◌≢◌, refl, ◌∙◌, none, some, List, [], ◌∷◌, arith, length, length-append,
}
use ez_gh_actions.Github.{
  RunnerInfo, RunnerList, observed_runners, verify_snapshot_complete, flatten, listed_runners,
}

length-flatten : (pages : List RunnerList) → length (flatten pages) ≡ observed_runners pages
unfolding flatten observed_runners
length-flatten [] = refl
length-flatten (p ∷ pages) =
    length-append p.runners (flatten pages) ∙ omega (arith, length-flatten pages)

-- A listing that is accepted has as many runners as the first page promises, if it promises a
-- number, and a listing with another number is refused.
listed_runners_lem :
    (p : RunnerList) (pages : List RunnerList) (t : ℕ)
    → p.total_count ≡ some t
    → ((runners : List RunnerInfo) → listed_runners (p ∷ pages) ≡ some runners → length runners ≡ t)
      × (length (flatten (p ∷ pages)) ≢ t → listed_runners (p ∷ pages) ≡ none)
unfolding listed_runners verify_snapshot_complete
listed_runners_lem p pages t e = (
  λ runners h. ground (arith, length-flatten (p ∷ pages)),
  λ h. ground (arith, length-flatten (p ∷ pages)),
)
