-- ===== src/Monitor/Fetches/Repos.antt =====
-- Which repositories a tick of the monitor reads (src/queue_monitor.rs: `drive_with_fetcher`).
use ez_gh_actions.Base.{
  Bool, true, false, ◌&&◌, ◌||◌, Option, none, some, is_some_and, List, [], ◌∷◌, ◌++◌, ◌≡◌, refl,
  any, if◌then◌else◌, Text, text_eq, text_eq_iff, arith, Bool-cases, inl, inr,
}
use ez_gh_actions.Base.Texts.{text_lt, text_lt_total}
use ez_gh_actions.Monitor.State.{MonitorConfig, queue_repo}
use ez_gh_actions.Monitor.Fetches.{insert_repo, sort_repos, needed_repos, monitored_repos}

-- each text before all that follow, so that none stands twice
abbrev pub StartsAfter : Text → List Text → Type 0
StartsAfter t [] = Unit
StartsAfter t (r ∷ rs) = text_lt t r ≡ true

abbrev pub IsAscending : List Text → Type 0
IsAscending [] = Unit
IsAscending (r ∷ rs) = StartsAfter r rs × IsAscending rs

insert_repo-StartsAfter :
    (t repo : Text) (rs : List Text)
    → text_lt t repo ≡ true
    → StartsAfter t rs
    → StartsAfter t (insert_repo repo rs)
unfolding insert_repo
insert_repo-StartsAfter t repo [] h k = h
insert_repo-StartsAfter t repo (r ∷ rs) h k = ground arith

insert_repo-IsAscending :
    (repo : Text) (rs : List Text) → IsAscending rs → IsAscending (insert_repo repo rs)
unfolding insert_repo
insert_repo-IsAscending repo [] h = (tt, tt)
insert_repo-IsAscending repo (r ∷ rs) (first, rest) = elim (Bool-cases (text_eq repo r)) [
  | inl same ↦ rw same (first, rest)
  | inr other ↦ elim (Bool-cases (text_lt repo r)) [
    | inl less ↦ rw (other, less) (less, (first, rest))
    | inr more ↦
        rw (other, more)
          (
            insert_repo-StartsAfter r repo rs (text_lt_total repo r other more) first,
            insert_repo-IsAscending repo rs rest,
          )
  ]
]

sort_repos-IsAscending : (rs : List Text) → IsAscending (sort_repos rs)
unfolding sort_repos
sort_repos-IsAscending [] = tt
sort_repos-IsAscending (r ∷ rs) =
    insert_repo-IsAscending r (sort_repos rs) (sort_repos-IsAscending rs)

insert_repo-any :
    (t repo : Text) (rs : List Text)
    → any (text_eq t) (insert_repo repo rs) ≡ (text_eq t repo || any (text_eq t) rs)
unfolding insert_repo
insert_repo-any t repo [] = refl
insert_repo-any t repo (r ∷ rs) =
    ground
      (arith, insert_repo-any t repo rs, text_eq_iff repo r, text_eq_iff t r, text_eq_iff t repo)

sort_repos-any : (t : Text) (rs : List Text) → any (text_eq t) (sort_repos rs) ≡ any (text_eq t) rs
unfolding sort_repos
sort_repos-any t [] = refl
sort_repos-any t (r ∷ rs) = ground (arith, insert_repo-any t r (sort_repos rs), sort_repos-any t rs)

any-append :
    (t : Text) (rs ss : List Text)
    → any (text_eq t) (rs ++ ss) ≡ (any (text_eq t) rs || any (text_eq t) ss)
any-append t [] ss = refl
any-append t (r ∷ rs) ss = ground (arith, any-append t rs ss)

or_or :
    (repo : Option Text) (others : List Text) (qm_due is_due : Bool) (t : Text)
    → (any (text_eq t) (if qm_due then elim repo [ none ↦ [] | some r ↦ r ∷ [] ] else [])
        || any (text_eq t) (if is_due then others else []))
      ≡ (qm_due && is_some_and repo (text_eq t) || is_due && any (text_eq t) others)
or_or repo others false false t = refl
or_or repo others false true t = refl
or_or none others true false t = refl
or_or none others true true t = refl
or_or (some r) others true false t = ground arith
or_or (some r) others true true t = ground arith

-- A tick asks for the repository of the monitor where its check is due, and for the monitored repositories
-- where the sampler is due, for no other, and for none twice even if the two overlap.
pub needed_repos_lem :
    (cfg : MonitorConfig) (qm_due is_due : Bool) (t : Text)
    → IsAscending (needed_repos cfg qm_due is_due)
      × (any (text_eq t) (needed_repos cfg qm_due is_due) ≡ (
          qm_due && is_some_and (queue_repo cfg) (text_eq t)
          || is_due && any (text_eq t) monitored_repos))
unfolding needed_repos
needed_repos_lem cfg qm_due is_due t =
    let qm = if qm_due then elim (queue_repo cfg) [ none ↦ [] | some r ↦ r ∷ [] ] else [] in
    let inv = if is_due then monitored_repos else [] in
    (
      sort_repos-IsAscending (qm ++ inv),
      rw (sort_repos-any t (qm ++ inv), any-append t qm inv)
          (or_or (queue_repo cfg) monitored_repos qm_due is_due t),
    )
