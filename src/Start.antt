-- ===== src/Start.antt =====
-- `start_one_with_generate_at_slot` (src/docker_backend.rs): the start of one runner in its slot.
pub mod Cleanup
mod Scenarios
use ez_gh_actions.Base.{
  ℕ, ◌+◌, Bool, true, false, not, ◌&&◌, Option, none, some, List, [], ◌∷◌, ◌++◌, if◌then◌else◌,
  Text, text, ends_with,
}
use ez_gh_actions.Base.Decimal.{to_string}
use ez_gh_actions.Base.Results.{Result, ok, err}
use ez_gh_actions.Pool.Attempt.{StartResult, runner_started, preflight_refused, start_failed}
use ez_gh_actions.Pool.Released.{runner_name_for}
use ez_gh_actions.Pool.Slots.{
  SlotAssignments, SlotError, record_slot_runner_id_for, record_container_started_for,
  release_slot_for,
}
use ez_gh_actions.Stale.Orphans.{owned_ids}

-- the part of the configuration that a start reads
pub record StartConfig : Type 0 where
  pub name_prefix : Text
  pub labels : List Text
  pub image : Text
  pub pids : ℕ
  pub cgroup_parent : Option Text
  pub sysbox : Bool
  pub wheelhouse_host_path : Option Text
  pub pip_cache_host_path : Option Text
  pub workspace_host_path : Option Text

-- What a start asks of the host, of GitHub and of docker. `docker_run` gives whether the command
-- succeeded, and its trimmed output; the slot file is read and written at most once for each of the
-- registration, the witness and the release.
pub record Host : Type 0 where
  pub host_containment : Result Text Unit
  pub effective_limits : Result Text (Text × ℕ)
  pub readable : Bool
  pub generate_jitconfig : Text → List Text → List ℕ → Result Text (Text × ℕ)
  pub cpu_controller : Bool
  pub is_dir : Text → Bool
  pub create_dir_all : Text → Bool
  pub docker_run : List Text → Result Text (Bool × Text)
  pub ancestry : Text → Result Text Unit
  pub recorded_at : ℕ
  pub started_at : ℕ
  pub record_reads : Bool
  pub record_writes : Bool
  pub witness_reads : Bool
  pub witness_writes : Bool
  pub release_reads : Bool
  pub release_writes : Bool

pub data StartError : Type 0 where
  containment_failed : Text → StartError
  limits_refused jit_refused : Text → StartError
  slots_unreadable cpus_require_cpu_controller : StartError
  record_failed : SlotError → StartError
  docker_failed docker_run_failed ancestry_failed : Text → StartError

-- the slot file, the runner ids that GitHub registered and was asked to remove, the argument lists of
-- `docker run`, the containers that `docker rm` was run for, and the directories that `remove_dir_all` was
-- called for; the latest first
pub record Launch : Type 0 where
  pub slots : SlotAssignments
  pub registered : List ℕ
  pub removed : List ℕ
  pub runs : List (List Text)
  pub rms : List Text
  pub wiped : List Text

abbrev flag : Text → Text → List Text
flag name value = name ∷ value ∷ []

abbrev mount : Text → Text → List Text
mount from to = flag (text "-v") (from ++ to)

-- the limits, the labels and the hardening of every container
unfoldable pub limit_args : StartConfig → Text → ℕ → Text → ℕ → List Text
limit_args cfg name runner_id cpus memory_mb =
    text "run" ∷ text "-d" ∷ text "--rm" ∷ []
    ++ (flag (text "--name") name
        ++ (flag (text "--label") (text "ezgha=managed")
            ++ (flag (text "--label") (text "ezgha.runner_id=" ++ to_string runner_id)
                ++ (flag (text "--memory") (to_string memory_mb ++ text "m")
                    ++ (flag (text "--memory-swap") (to_string memory_mb ++ text "m")
                        ++ (flag (text "--cpus") cpus
                            ++ (flag (text "--pids-limit") (to_string cfg.pids)
                                ++ flag (text "--security-opt") (text "no-new-privileges"))))))))

unfoldable pub runtime_args : StartConfig → List Text
runtime_args cfg =
    (elim cfg.cgroup_parent [ none ↦ [] | some parent ↦ flag (text "--cgroup-parent") parent ])
    ++ (if cfg.sysbox then flag (text "--runtime") (text "sysbox-runc") else [])

unfoldable pub cache_args : Host → StartConfig → List Text
cache_args host cfg =
    (elim cfg.wheelhouse_host_path [
      | none ↦ []
      | some path ↦
          if host.is_dir path
          then mount path (text ":/opt/wheelhouse:ro")
            ++ flag (text "-e") (text "PIP_FIND_LINKS=/opt/wheelhouse")
          else []
    ])
    ++ (elim cfg.pip_cache_host_path [
      | none ↦ []
      | some path ↦
          if host.is_dir path
          then mount path (text ":/home/runner/.cache/pip")
            ++ flag (text "-e") (text "PIP_CACHE_DIR=/home/runner/.cache/pip")
          else []
    ])

-- `Path::join` of a file name
abbrev join : Text → Text → Text
join root name = if ends_with (text "/") root then root ++ name else root ++ (b'/' ∷ name)

unfoldable pub workspace_args : Host → StartConfig → Text → List Text
workspace_args host cfg name = elim cfg.workspace_host_path [
  | none ↦ []
  | some root ↦
      let workspace = join root name in
      if host.is_dir root && host.create_dir_all workspace
      then mount workspace (text ":/home/runner/_work")
        ++ flag (text "-e") (text "EZGHA_VIRTIOFS_WORKSPACE=1")
      else []
]

-- the runner's workspace is wiped before each start, whether or not this succeeds
unfoldable pub workspace_wiped : Host → StartConfig → Text → List Text
workspace_wiped host cfg name = elim cfg.workspace_host_path [
  | none ↦ []
  | some root ↦ if host.is_dir root then join root name ∷ [] else []
]

unfoldable pub run_args : Host → StartConfig → Text → ℕ → Text → ℕ → Text → List Text
run_args host cfg name runner_id cpus memory_mb jit =
    limit_args cfg name runner_id cpus memory_mb
    ++ (runtime_args cfg
        ++ (cache_args host cfg
            ++ (workspace_args host cfg name
                ++ (cfg.image ∷ text "./run.sh" ∷ text "--jitconfig" ∷ jit ∷ []))))

module _ (host : Host) (cfg : StartConfig) (slot : ℕ) where
  -- the registration is removed and the slot is freed, whether or not these succeed
  unfoldable pub give_back : ℕ → Launch → Launch
  give_back runner_id s = record s {
    slots = (release_slot_for host.release_reads host.release_writes slot s.slots).1;
    removed = runner_id ∷ s.removed;
  }

  abbrev name : Text
  name = runner_name_for cfg.name_prefix slot

  -- docker has started the container; a witness that cannot be recorded is a warning
  unfoldable pub after_run : ℕ → Text → Launch → Result StartError (Text × Text) × Launch
  after_run runner_id container_id s =
      let s' = record s {
        slots =
            (record_container_started_for host.witness_reads host.witness_writes slot runner_id
              host.started_at s.slots).1;
      } in
      elim (host.ancestry container_id) [
        | err e ↦ (err (ancestry_failed e), give_back runner_id (record s' { rms = name ∷ s'.rms }))
        | ok _ ↦ (ok (container_id, name), s')
      ]

  unfoldable pub run_container :
      Text → ℕ → Text → ℕ → Launch → Result StartError (Text × Text) × Launch
  run_container cpus memory_mb jit runner_id s =
      if not host.cpu_controller
      then (err cpus_require_cpu_controller, s)
      else (let args = run_args host cfg name runner_id cpus memory_mb jit in
          let s' = record s {
            runs = args ∷ s.runs;
            wiped = workspace_wiped host cfg name ++ s.wiped;
          } in
          elim (host.docker_run args) [
            | err e ↦ (err (docker_failed e), give_back runner_id s')
            | ok (success, output) ↦
                if success
                then after_run runner_id output s'
                else (err (docker_run_failed output), give_back runner_id s')
          ])

  unfoldable pub register : Text → ℕ → Launch → Result StartError (Text × Text) × Launch
  register cpus memory_mb s =
      elim (host.generate_jitconfig name cfg.labels (owned_ids s.slots.assignments)) [
        | err e ↦ (
          err (jit_refused e),
          record s {
            slots = (release_slot_for host.release_reads host.release_writes slot s.slots).1;
          },
        )
        | ok (jit, runner_id) ↦
            let (result, slots) =
              record_slot_runner_id_for host.record_reads host.record_writes slot runner_id
                host.recorded_at s.slots in
            let s' = record s { slots = slots; registered = runner_id ∷ s.registered } in
            elim result [
              | err e ↦ (err (record_failed e), s')
              | ok _ ↦ run_container cpus memory_mb jit runner_id s'
            ]
      ]

  unfoldable pub start_one_with_generate_at_slot :
      SlotAssignments → Result StartError (Text × Text) × Launch
  start_one_with_generate_at_slot file =
      let s : Launch = record {
        slots = file;
        registered = [];
        removed = [];
        runs = [];
        rms = [];
        wiped = [];
      } in
      elim host.host_containment [
        | err e ↦ (err (containment_failed e), s)
        | ok _ ↦ elim host.effective_limits [
          | err e ↦ (err (limits_refused e), s)
          | ok (cpus, memory_mb) ↦
              let s' = record s { rms = name ∷ [] } in
              if not host.readable then (err slots_unreadable, s') else register cpus memory_mb s'
        ]
      ]

-- how the refill sees the end of a start: `AdmissionPreflightError` or another error, by its text
unfoldable pub start_result : (StartError → Text) → Result StartError (Text × Text) → StartResult
start_result print (ok (container_id, name)) = runner_started name
start_result print (err (limits_refused e)) = preflight_refused e
start_result print (err (jit_refused e)) = preflight_refused e
start_result print (err e) = start_failed (print e)
