-- ===== src/Start/Scenarios.antt =====
-- Tests and an instance for the start of one runner (src/docker_backend.rs).
use ez_gh_actions.Base.{ℕ, ◌≡◌, refl, true, false, none, some, List, [], ◌∷◌, Text, text, text_eq}
use ez_gh_actions.Base.Decimal.{to_string, parse_uint}
use ez_gh_actions.Base.Results.{Result, ok, err}
use ez_gh_actions.BtreeMap
use ez_gh_actions.Pool.Released.{runner_name_for}
use ez_gh_actions.Pool.Slots.{
  SlotAssignments, record_slot_runner_id_for, record_container_started_for, mark_started,
  release_slot_for,
}
use ez_gh_actions.Stale.Orphans.{owned_ids}
use ez_gh_actions.Start.{
  StartConfig, Host, StartError, cpus_require_cpu_controller, docker_failed, cache_args, give_back,
  after_run, run_container, register, start_one_with_generate_at_slot,
}
use ez_gh_actions.Start.Cleanup.{IsClean, start-IsClean}

abbrev cfg : StartConfig
cfg = record {
  name_prefix = text "ez";
  labels = text "self-hosted" ∷ [];
  image = text "img";
  pids = 512;
  cgroup_parent = none;
  sysbox = false;
  wheelhouse_host_path = some (text "/w");
  pip_cache_host_path = none;
  workspace_host_path = none;
}

abbrev healthy : Host
healthy = record {
  host_containment = ok tt;
  effective_limits = ok (text "2.00", 4096);
  readable = true;
  generate_jitconfig = λ name labels owned. ok (text "jit", 7);
  cpu_controller = true;
  is_dir = λ path. true;
  create_dir_all = λ path. true;
  docker_run = λ args. ok (true, text "c0");
  ancestry = λ id. ok tt;
  recorded_at = 100;
  started_at = 101;
  record_reads = true;
  record_writes = true;
  witness_reads = true;
  witness_writes = true;
  release_reads = true;
  release_writes = true;
}

-- the slot file is that of a slot just reserved
abbrev reserved : SlotAssignments
reserved = record {
  assignments = (text "2", []) ∷ [];
  registered_at = (text "2", 99) ∷ [];
  container_started_at = [];
}

abbrev result_of : Host → Result StartError (Text × Text) × List ℕ × List ℕ
result_of host =
    let (result, s) = start_one_with_generate_at_slot host cfg 2 reserved in
    (result, s.registered, s.removed)

starts :
    (result_of healthy ≡ (ok (text "c0", text "ez-2"), 7 ∷ [], []))
    × (result_of (record healthy { docker_run = λ args. err (text "daemon") })
        ≡ (err (docker_failed (text "daemon")), 7 ∷ [], 7 ∷ []))
    × (result_of (record healthy { cpu_controller = false })
        ≡ (err cpus_require_cpu_controller, 7 ∷ [], []))
    × ((start_one_with_generate_at_slot healthy cfg 2 reserved).1.slots.container_started_at
        ≡ (text "2", 101) ∷ [])
    × (cache_args healthy cfg
        ≡ text "-v"
          ∷ text "/w:/opt/wheelhouse:ro"
          ∷ text "-e"
          ∷ text "PIP_FIND_LINKS=/opt/wheelhouse"
          ∷ [])
unfolding start_one_with_generate_at_slot register run_container after_run give_back owned_ids
    runner_name_for record_slot_runner_id_for record_container_started_for mark_started
    release_slot_for to_string parse_uint text_eq BtreeMap.get BtreeMap.insert BtreeMap.remove
    cache_args
starts = (refl, refl, refl, refl, refl)

start-IsClean_example :
    IsClean healthy 2 reserved (start_one_with_generate_at_slot healthy cfg 2 reserved)
start-IsClean_example = start-IsClean healthy cfg 2 reserved refl refl
