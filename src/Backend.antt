-- ===== src/Backend.antt =====
-- The choice of a backend against the isolation policy (src/backend.rs).
pub mod Policy
mod Scenarios
use ez_gh_actions.Base.{
  ℕ, Bool, true, false, not, ◌&&◌, List, [], ◌∷◌, ◌++◌, ltb, if◌then◌else◌, Text, text, text_eq,
}

pub data Backend : Type 0 where
  tart libvirt docker_sysbox docker : Backend

-- `IsolationLevel` of config.rs, which is ordered as it is listed
pub data IsolationLevel : Type 0 where
  container vm : IsolationLevel

abbrev pub rank : IsolationLevel → ℕ
rank container = 0
rank vm = 1

-- `<` of the derived order
abbrev pub weaker : IsolationLevel → IsolationLevel → Bool
weaker a b = ltb (rank a) (rank b)

unfoldable pub isolation : Backend → Bool → IsolationLevel
isolation tart daemon_in_vm = vm
isolation libvirt daemon_in_vm = vm
isolation docker_sysbox daemon_in_vm = if daemon_in_vm then vm else container
isolation docker daemon_in_vm = if daemon_in_vm then vm else container

unfoldable pub implemented : Backend → Bool
implemented docker_sysbox = true
implemented docker = true
implemented _ = false

-- the fields of `Platform` (src/platform.rs) that the choice reads
pub record Platform : Type 0 where
  pub os : Text
  pub has_tart : Bool
  pub kvm_usable : Bool
  pub has_virsh : Bool
  pub docker_ok : Bool
  pub sysbox_runtime : Bool
  pub daemon_in_vm : Bool

-- `if condition { out.push(backend) }`
abbrev when : Bool → Backend → List Backend
when condition backend = if condition then backend ∷ [] else []

unfoldable pub candidates : Platform → List Backend
candidates plat =
    when (text_eq plat.os (text "macos") && plat.has_tart) tart
    ++ (when (text_eq plat.os (text "linux") && (plat.kvm_usable && plat.has_virsh)) libvirt
        ++ (when (plat.docker_ok && plat.sysbox_runtime) docker_sysbox
            ++ when plat.docker_ok docker))

pub data Selection : Type 0 where
  chosen : Backend → List Backend → Selection
  policy_blocked : Backend → IsolationLevel → Selection
  nothing : Selection

-- the loop over the candidates, with those skipped so far
unfoldable pub select_from : Bool → IsolationLevel → List Backend → List Backend → Selection
select_from daemon_in_vm minimum skipped [] = nothing
select_from daemon_in_vm minimum skipped (backend ∷ cands) =
    let rest = select_from daemon_in_vm minimum (skipped ++ backend ∷ []) cands in
    if not (implemented backend)
    then rest
    else if weaker (isolation backend daemon_in_vm) minimum
    then policy_blocked backend minimum
    else chosen backend skipped

unfoldable pub select : Platform → IsolationLevel → Selection
select plat minimum = select_from plat.daemon_in_vm minimum [] (candidates plat)
