-- ===== src/Pool/Memory/Share.antt =====
-- The starts that `admission_batch` (src/docker_backend.rs) admits fit into the memory of actions.slice.
use ez_gh_actions.Base.{
  ℕ, ◌+◌, ◌≤◌, ◌≡◌, Option, none, some, List, [], ◌∷◌, arith, if◌then◌else◌, Text,
}
use ez_gh_actions.Base.Results.{Result, ok, err}
use ez_gh_actions.Pool.Memory.{
  AdmissionError, Consumer, counts_in_slice, NativeHost, MemoryPause, share, native_batch,
  admission_batch,
}

-- the caps of the rows that lie in actions.slice
abbrev pub total_caps : List (Option Consumer) → ℕ
total_caps [] = 0
total_caps (none ∷ rows) = total_caps rows
total_caps (some row ∷ rows) =
    (if counts_in_slice row.cgroup_parent then row.memory else 0) + total_caps rows

-- the caps of the listed containers that lie in actions.slice, where nothing is inspected if none is listed
abbrev pub listed_caps : List Text → Result AdmissionError (List (Option Consumer)) → ℕ
listed_caps [] inspected = 0
listed_caps (id ∷ ids) (ok rows) = total_caps rows
listed_caps (id ∷ ids) (err e) = 0

native_batch-le :
    (missing : ℕ) (host : NativeHost) {slots : ℕ} {paused : Option MemoryPause}
    → native_batch missing host ≡ ok (slots, paused)
    → slots ≤ missing
unfolding native_batch share
native_batch-le missing host h = ground (arith, h)

-- never more than are missing
pub admission_batch-le :
    (missing : ℕ) (host : NativeHost) {slots : ℕ} {paused : Option MemoryPause}
    → admission_batch missing host ≡ ok (slots, paused)
    → slots ≤ missing
unfolding admission_batch
admission_batch-le missing host {slots} {paused} h =
    ground (arith, h, native_batch-le missing host {slots = slots} {paused = paused})
