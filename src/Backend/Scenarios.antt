-- ===== src/Backend/Scenarios.antt =====
-- Tests and instances for src/backend.rs.
use ez_gh_actions.Base.{◌≡◌, refl, true, false, [], ◌∷◌, text, text_eq}
use ez_gh_actions.Backend.{
  docker, libvirt, container, vm, isolation, implemented, Platform, candidates, chosen,
  policy_blocked, select_from, select,
}
use ez_gh_actions.Backend.Policy.{Obeys, select-Obeys}

-- a Linux host with KVM and plain Docker
abbrev linux : Platform
linux = record {
  os = text "linux";
  has_tart = false;
  kvm_usable = true;
  has_virsh = true;
  docker_ok = true;
  sysbox_runtime = false;
  daemon_in_vm = false;
}

skips_libvirt :
    (select linux container ≡ chosen docker (libvirt ∷ []))
    × (select linux vm ≡ policy_blocked docker vm)
unfolding select select_from candidates isolation implemented text_eq
skips_libvirt = (refl, refl)

select-Obeys_example : Obeys false container (candidates linux) (select linux container)
select-Obeys_example = select-Obeys linux container
