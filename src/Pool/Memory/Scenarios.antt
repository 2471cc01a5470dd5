-- ===== src/Pool/Memory/Scenarios.antt =====
-- Tests and instances for the memory admission of src/docker_backend.rs.
use ez_gh_actions.Base.{
  ℕ, ◌≡◌, refl, false, Option, some, List, [], ◌∷◌, text, text_eq, ends_with, trim_start,
}
use ez_gh_actions.Base.Results.{ok, err}
use ez_gh_actions.Pool.Memory.{
  NativeHost, Consumer, counts_in_slice, add_consumer, sum_consumers, used_memory, runner_cap,
  share, native_batch, admission_batch,
}

memory_code : Unit {0}
unfolding counts_in_slice ends_with trim_start text_eq add_consumer sum_consumers used_memory
    runner_cap share native_batch admission_batch
memory_code = tt

abbrev consumers : List (Option Consumer)
consumers =
    some (record { id = text "a"; cgroup_parent = text "/actions.slice"; memory = 2147483648 })
    ∷ some (record { id = text "b"; cgroup_parent = text "system.slice"; memory = 0 })
    ∷ []

-- one runner of 2048 MiB under a limit of 8192 MiB, and a container outside the slice
abbrev native : NativeHost
native = record {
  is_macos_host = false;
  daemon_is_vm_contained = false;
  lock = ok tt;
  memory_max = ok 8589934592;
  memory_mb = 2048;
  listed = ok (text "a" ∷ text "b" ∷ []);
  inspected = ok consumers;
}

three_fit : elim (admission_batch 5 native) as (λ _. ℕ) [ ok (slots, _) ↦ slots | err _ ↦ 0 ] ≡ 3
unfolding memory_code
three_fit = refl
