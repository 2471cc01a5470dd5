-- ===== src/Pool/Memory.antt =====
-- `admission_batch` (src/docker_backend.rs) on Linux: how many starts the memory of actions.slice permits.
pub mod Share
mod Scenarios
use ez_gh_actions.Base.{
  ℕ, ◌+◌, ◌-◌, ◌*◌, ◌/◌, Bool, true, false, not, ◌&&◌, ◌||◌, Option, none, some, List, [], ◌∷◌,
  ◌==◌, leb, ltb, if◌then◌else◌, any, all, min, u32_max, u64_max, Text, text, text_eq, starts_with,
  ends_with, trim_start,
}
use ez_gh_actions.Base.Results.{Result, ok, err, ◌>>=◌, ◌>>◌, bail_if}

-- one constructor for each error that admission can meet
pub data AdmissionError : Type 0 where
  no_home directory_not_created lock_not_opened lock_unavailable : AdmissionError
  limit_unreadable limit_not_finite invalid_runner_cap : AdmissionError
  listing_failed inspection_failed malformed_row unknown_or_duplicate_container : AdmissionError
  unbounded_container memory_sum_overflow inspection_incomplete : AdmissionError

pub record Consumer : Type 0 where
  pub id : Text
  pub cgroup_parent : Text
  pub memory : ℕ

-- `HashSet<String>::contains`
abbrev pub has : List Text → Text → Bool
has set x = any (λ y. text_eq y x) set

unfoldable pub counts_in_slice : Text → Bool
counts_in_slice cgroup_parent =
    let parent = trim_start b'/' cgroup_parent in
    text_eq parent (text "actions.slice")
    || (starts_with (text "actions.slice/") parent
        || (starts_with (text "actions-") parent && ends_with (text ".slice") parent))

-- one row's share of the sum
unfoldable pub add_consumer : Consumer → ℕ → Result AdmissionError ℕ
add_consumer row used =
    if counts_in_slice row.cgroup_parent
    then (if row.memory == 0
        then err unbounded_container
        else if leb (used + row.memory) u64_max
        then ok (used + row.memory)
        else err memory_sum_overflow)
    else ok used

-- the loop over the inspected rows; `none` is a row that cannot be parsed
unfoldable pub sum_consumers :
    List Text → List (Option Consumer) → List Text → ℕ → Result AdmissionError (List Text × ℕ)
sum_consumers ids [] seen used = ok (seen, used)
sum_consumers ids (none ∷ rows) seen used = err malformed_row
sum_consumers ids (some row ∷ rows) seen used =
    if not (has ids row.id) || has seen row.id
    then err unknown_or_duplicate_container
    else add_consumer row used >>= λ used'. sum_consumers ids rows (row.id ∷ seen) used'

-- `seen != ids`: every seen id is one of `ids`, so the sets differ where one is missing
unfoldable pub used_memory :
    List Text → Result AdmissionError (List (Option Consumer)) → Result AdmissionError ℕ
used_memory [] inspected = ok 0
used_memory (id ∷ ids) inspected = do
  rows ← inspected
  (seen, used) ← sum_consumers (id ∷ ids) rows [] 0
  bail_if (not (all (has seen) (id ∷ ids))) inspection_incomplete
  ok used

-- What admission finds on the host, in the order in which it looks. `inspected` is what
-- `docker inspect` says of the listed containers.
pub record NativeHost : Type 0 where
  pub is_macos_host : Bool
  pub daemon_is_vm_contained : Bool
  pub lock : Result AdmissionError Unit
  pub memory_max : Result AdmissionError ℕ
  pub memory_mb : ℕ
  pub listed : Result AdmissionError (List Text)
  pub inspected : Result AdmissionError (List (Option Consumer))

-- `checked_mul(1024 * 1024).filter(|cap| *cap > 0)`
unfoldable pub runner_cap : ℕ → Result AdmissionError ℕ
runner_cap memory_mb =
    if leb (memory_mb * (1024 * 1024)) u64_max && ltb 0 memory_mb
    then ok (memory_mb * (1024 * 1024))
    else err invalid_runner_cap

-- why fewer starts are admitted than are missing
pub record MemoryPause : Type 0 where
  pub slots : ℕ
  pub missing : ℕ
  pub used : ℕ
  pub new_cap : ℕ
  pub hard : ℕ

unfoldable pub share : ℕ → ℕ → ℕ → ℕ → ℕ × Option MemoryPause
share missing hard new_cap used =
    let slots = min missing (min ((hard - used) / new_cap) u32_max) in
    (
      slots,
      if ltb slots missing
          then some (record {
            slots = slots;
            missing = missing;
            used = used;
            new_cap = new_cap;
            hard = hard;
          })
          else none,
    )

unfoldable pub native_batch : ℕ → NativeHost → Result AdmissionError (ℕ × Option MemoryPause)
native_batch missing host = do
  host.lock
  hard ← host.memory_max
  new_cap ← runner_cap host.memory_mb
  ids ← host.listed
  used ← used_memory ids host.inspected
  ok (share missing hard new_cap used)

unfoldable pub admission_batch : ℕ → NativeHost → Result AdmissionError (ℕ × Option MemoryPause)
admission_batch missing host =
    if missing == 0 || (host.is_macos_host || host.daemon_is_vm_contained)
    then ok (missing, none)
    else native_batch missing host
