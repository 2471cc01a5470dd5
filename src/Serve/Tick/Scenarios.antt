-- ===== src/Serve/Tick/Scenarios.antt =====
-- An iteration of the serve loop of src/main.rs over a reconciliation of src/docker_backend.rs.
use ez_gh_actions.Base.{◌≤◌, ◌≡◌, ◌⊎◌, refl, true, false, none, List, [], ◌∷◌, length, Text, text}
use ez_gh_actions.Base.Results.{ok, err}
use ez_gh_actions.Pool.Outcome.{ReadinessSummary}
use ez_gh_actions.FailureLadder.{default_policy, empty}
use ez_gh_actions.Pool.Slots.{no_assignments}
use ez_gh_actions.Pool.Attempt.{start_failed}
use ez_gh_actions.Pool.Released.{runner_name_matches_prefix}
use ez_gh_actions.Pool.Gates.{PoolConfig, EnsureState}
use ez_gh_actions.Pool.Ensure.{
  EnsureReadings, owned, full_outcome, ensure_listed, ensure_count_outcome,
}
use ez_gh_actions.Serve.Tick.Credit.{iteration-deadman_credit}
use ez_gh_actions.Serve.Scenarios.{serve_code, six, reads, short_by, at_rest}

-- a pool whose two runners are there
abbrev two_there : EnsureReadings
two_there = record {
  host_containment = ok tt;
  reclaimed = 0;
  containers = ok (text "ez-1" ∷ text "ez-2" ∷ []);
  host_free_disk_gb = none;
  free_disk_gb = none;
  memory_pressure = err [];
  now = 0;
  start = record {
    persistence_failed = false;
    loaded = ok empty;
    now = 0;
    persists = true;
    missing = 0;
    host = record {
      is_macos_host = false;
      daemon_is_vm_contained = true;
      lock = ok tt;
      memory_max = ok 0;
      memory_mb = 2048;
      listed = ok [];
      inspected = ok [];
    };
    slots = no_assignments;
  };
  surroundings = record {
    shutdown = λ _. false;
    quarantined = λ _. [];
    reads = λ _. true;
    writes = λ _. true;
    starter = λ k slot slots. (start_failed [], slots);
    persists = λ _. true;
    clock = λ n. n;
  };
  before_batch = none;
  before_release = none;
  quarantine_readable = true;
  release_succeeded = true;
  after_release = none;
  containers_after = err [];
  eligibility = record { quarantine = ok []; ladder = ok empty; now = 0 };
  readiness_after = err [];
}

abbrev two_slots : PoolConfig
two_slots = record {
  count = 2;
  name_prefix = text "ez";
  min_free_disk_gb = 10;
  memory_mb = 2048;
  host_reserve_mb = 0;
}

abbrev rested : EnsureState
rested = record {
  persistence_failed = false;
  consecutive_disk_none = 0;
  pressure_window = [];
  pause_episode = none;
}

iteration-deadman_credit_example :
    ((before : List Text) × (two_there.containers ≡ ok before)
      × (2 ≤ length (owned two_slots before)))
    ⊎ ((summary : ReadinessSummary) × (two_there.readiness_after ≡ ok summary)
        × (2 ≤ summary.ready))
unfolding serve_code ensure_count_outcome ensure_listed full_outcome runner_name_matches_prefix
iteration-deadman_credit_example =
    iteration-deadman_credit six (reads 10 (err []) (short_by 0)) at_rest default_policy two_slots
      two_there rested refl refl
