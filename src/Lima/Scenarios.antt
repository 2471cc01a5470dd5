-- ===== src/Lima/Scenarios.antt =====
-- Tests and instances for the convergence of src/lima_convergence.rs.
use ez_gh_actions.Base.{
  true, false, none, some, [], ◌∷◌, ◌≡◌, ◌⊎◌, refl, or_else, Text, text, text_eq,
}
use ez_gh_actions.Base.Results.{ok}
use ez_gh_actions.Lima.{
  BackupMarkerEntry, MarkerFile, stored, write_temp, MigrationPlan, DualLimaProbe,
  write_backup_marker, backup_entry_for, migration_plan, path_eq, components, preferred_socket,
}
use ez_gh_actions.Lima.Rollback.{
  entry_for, last_for, entries_of, is_ok, write_backup_marker_lem, plan-rollback,
}

abbrev probe : DualLimaProbe
probe = record {
  canonical = some (record {
    name = text "colima";
    lima_home = text "/c";
    vm_dir = text "/c/colima";
    docker_socket = some (text "/c/docker.sock");
    socket_alive = true;
  });
  legacy =
      record {
        name = text "colima";
        lima_home = text "/l";
        vm_dir = text "/l/colima";
        docker_socket = some (text "/l/docker.sock");
        socket_alive = true;
      }
      ∷ [];
}

abbrev plan : MigrationPlan
plan = record {
  from_socket = text "/l//docker.sock";
  to_socket = text "/c/docker.sock";
  job_drain_required = true;
  backup_marker = text "/m";
}

canonical_is_preferred : preferred_socket probe ≡ some (text "/c/docker.sock")
unfolding preferred_socket
canonical_is_preferred = refl

drain_is_planned : migration_plan (λ _. true) (text "/m") probe (text "/l//docker.sock") ≡ some plan
unfolding migration_plan path_eq components text_eq
drain_is_planned = refl

abbrev old : MarkerFile
old = stored (
    record { context = text "lima"; previous_socket = text "/x"; migrated_at_unix = 1 }
    ∷ record { context = text "other"; previous_socket = text "/y"; migrated_at_unix = 2 }
    ∷ [])

it_is_written :
    (write_backup_marker none (backup_entry_for (text "lima") 3 plan ∷ []) old).0 ≡ ok tt
unfolding write_backup_marker
it_is_written = refl

plan-rollback_example :
    let (result, file') =
      write_backup_marker none (backup_entry_for (text "lima") 3 plan ∷ []) old in
    (e : BackupMarkerEntry) × (entry_for (text "lima") (entries_of file') ≡ some e)
    × (e.previous_socket ≡ text "/l//docker.sock")
plan-rollback_example =
    plan-rollback (λ _. true) (text "/m") (text "lima") (text "/l//docker.sock") 3 probe plan none
      old drain_is_planned it_is_written

write_backup_marker_lem_example :
    let entries = backup_entry_for (text "lima") 3 plan ∷ [] in
    let (result, file') = write_backup_marker (some write_temp) entries old in
    ((is_ok result ≡ false) × (file' ≡ old))
    ⊎ ((result ≡ ok tt)
        × ((context : Text)
            → entry_for context (entries_of file')
              ≡ or_else (last_for context entries) (entry_for context (entries_of old))))
write_backup_marker_lem_example =
    write_backup_marker_lem (some write_temp) (backup_entry_for (text "lima") 3 plan ∷ []) old
