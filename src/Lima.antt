-- ===== src/Lima.antt =====
-- The convergence of two Lima homes (src/lima_convergence.rs): which docker socket is used, the plan of a
-- migration, and the marker from which it can be rolled back. Paths are absolute.
pub mod Rollback
mod Scenarios
use ez_gh_actions.Base.{
  ℕ, Bool, true, false, not, ◌&&◌, ◌||◌, Option, none, some, List, [], ◌∷◌, ◌++◌, ◌==◌,
  if◌then◌else◌, any, find, is_some, is_some_and, unwrap_or, Text, text, text_eq, strip_prefix,
}
use ez_gh_actions.Base.Results.{Result, ok, err}
use ez_gh_actions.Github.Retry.{trim_left, trim_right}

pub record LimaInstance : Type 0 where
  pub name : Text
  pub lima_home : Text
  pub vm_dir : Text
  pub docker_socket : Option Text
  pub socket_alive : Bool

pub record DualLimaProbe : Type 0 where
  pub canonical : Option LimaInstance
  pub legacy : List LimaInstance

pub record CurrentSocketResolution : Type 0 where
  pub socket : Text
  pub source : Text
  pub backup_provenance_verified : Bool

pub record MigrationPlan : Type 0 where
  pub from_socket : Text
  pub to_socket : Text
  pub job_drain_required : Bool
  pub backup_marker : Text

pub record BackupMarkerEntry : Type 0 where
  pub context : Text
  pub previous_socket : Text
  pub migrated_at_unix : ℕ

-- the components of a path, without empty ones and `.`
unfoldable pub components : Text → Text → List Text
components current [] =
    if text_eq current [] || text_eq current (text ".") then [] else current ∷ []
components current (c ∷ s) =
    let inside = components (current ++ c ∷ []) s in
    let after = components [] s in
    if not (c == b'/')
    then inside
    else if text_eq current [] || text_eq current (text ".")
    then after
    else current ∷ after

abbrev same_parts : List Text → List Text → Bool
same_parts [] [] = true
same_parts (p ∷ ps) (q ∷ qs) = text_eq p q && same_parts ps qs
same_parts _ _ = false

-- the equality of `Path`
unfoldable pub path_eq : Text → Text → Bool
path_eq a b = same_parts (components [] a) (components [] b)

unfoldable pub strip_unix_socket_scheme : Text → Text
strip_unix_socket_scheme raw =
    let trimmed = trim_right (trim_left raw) in
    unwrap_or (strip_prefix (text "unix://") trimmed) trimmed

-- `context_socket` is what docker says of the named context
unfoldable pub resolve_current_socket_from_context :
    Option Text → Option Text → Option Text → CurrentSocketResolution
resolve_current_socket_from_context (some socket) docker_host context_socket = record {
  socket = strip_unix_socket_scheme socket;
  source = text "explicit-current-socket";
  backup_provenance_verified = true;
}
resolve_current_socket_from_context none docker_host (some socket) = record {
  socket = socket;
  source = text "named-unix-context";
  backup_provenance_verified = true;
}
resolve_current_socket_from_context none (some []) none = record {
  socket = text "/var/run/docker.sock";
  source = text "default-socket-fallback";
  backup_provenance_verified = false;
}
resolve_current_socket_from_context none (some (c ∷ socket)) none = record {
  socket = strip_unix_socket_scheme (c ∷ socket);
  source = text "ambient-docker-host-fallback";
  backup_provenance_verified = false;
}
resolve_current_socket_from_context none none none = record {
  socket = text "/var/run/docker.sock";
  source = text "default-socket-fallback";
  backup_provenance_verified = false;
}

unfoldable pub needs_convergence : DualLimaProbe → Bool
needs_convergence self = is_some self.canonical && elim self.legacy [ [] ↦ false | _ ∷ _ ↦ true ]

unfoldable pub legacy_socket : List LimaInstance → Option Text
legacy_socket legacy = elim (find (λ (inst : LimaInstance). inst.socket_alive) legacy) [
  | none ↦ none
  | some inst ↦ inst.docker_socket
]

unfoldable pub preferred_socket : DualLimaProbe → Option Text
preferred_socket probe = elim probe.canonical [
  | none ↦ legacy_socket probe.legacy
  | some canon ↦ elim canon.docker_socket [
    | none ↦ legacy_socket probe.legacy
    | some sock ↦ if canon.socket_alive then some sock else legacy_socket probe.legacy
  ]
]

-- `alive` is `is_socket_alive`
unfoldable pub migration_plan : (Text → Bool) → Text → DualLimaProbe → Text → Option MigrationPlan
migration_plan alive backup_marker_path probe current_socket = elim probe.canonical [
  | none ↦ none
  | some canon ↦ elim canon.docker_socket [
    | none ↦ none
    | some canonical_socket ↦
        if not (alive canonical_socket) || path_eq canonical_socket current_socket
        then none
        else some (record {
          from_socket = current_socket;
          to_socket = canonical_socket;
          job_drain_required =
              any
                (λ (inst : LimaInstance).
                  is_some_and inst.docker_socket (λ s. path_eq s current_socket))
                probe.legacy;
          backup_marker = backup_marker_path;
        })
  ]
]

unfoldable pub backup_entry_for : Text → ℕ → MigrationPlan → BackupMarkerEntry
backup_entry_for context now plan = record {
  context = context;
  previous_socket = plan.from_socket;
  migrated_at_unix = now;
}

unfoldable pub retain_others : Text → List BackupMarkerEntry → List BackupMarkerEntry
retain_others context [] = []
retain_others context (e ∷ es) =
    let rest = retain_others context es in if text_eq e.context context then rest else e ∷ rest

unfoldable pub merge : List BackupMarkerEntry → List BackupMarkerEntry → List BackupMarkerEntry
merge existing [] = existing
merge existing (e ∷ entries) = merge (retain_others e.context existing ++ e ∷ []) entries

pub data MarkerFile : Type 0 where
  missing malformed : MarkerFile
  stored : List BackupMarkerEntry → MarkerFile

pub data MarkerStep : Type 0 where
  create_dir read write_temp rename_temp : MarkerStep

pub data MarkerError : Type 0 where
  step_failed : MarkerStep → MarkerError
  invalid_data : MarkerError

-- the step that fails, if one does, and the marker
unfoldable pub write_backup_marker :
    Option MarkerStep → List BackupMarkerEntry → MarkerFile → Result MarkerError Unit × MarkerFile
write_backup_marker (some create_dir) entries file = (err (step_failed create_dir), file)
write_backup_marker (some read) entries (stored es) = (err (step_failed read), stored es)
write_backup_marker (some read) entries malformed = (err (step_failed read), malformed)
write_backup_marker (some read) entries missing = (ok tt, stored (merge [] entries))
write_backup_marker (some step) entries malformed = (err invalid_data, malformed)
write_backup_marker (some step) entries file = (err (step_failed step), file)
write_backup_marker none entries missing = (ok tt, stored (merge [] entries))
write_backup_marker none entries malformed = (err invalid_data, malformed)
write_backup_marker none entries (stored es) = (ok tt, stored (merge es entries))
