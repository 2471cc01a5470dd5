-- ===== src/Lima/Rollback.antt =====
-- The rollback of a migration (src/lima_convergence.rs: `write_backup_marker`).
use ez_gh_actions.Base.{
  ℕ, Bool, true, false, Option, none, some, List, [], ◌∷◌, ◌++◌, ◌≡◌, ◌⊎◌, refl, ◌∙◌, if◌then◌else◌,
  or_else, Text, text_eq, text_eq_iff, text_eq_refl, arith, inl, inr,
}
use ez_gh_actions.Base.Results.{Result, ok, err}
use ez_gh_actions.Lima.{
  BackupMarkerEntry, MarkerFile, missing, malformed, stored, MarkerStep, MarkerError, create_dir,
  read, write_temp, rename_temp, MigrationPlan, DualLimaProbe, retain_others, merge,
  write_backup_marker, backup_entry_for, migration_plan,
}

-- the entry for a context, the first one
unfoldable pub entry_for : Text → List BackupMarkerEntry → Option BackupMarkerEntry
entry_for context [] = none
entry_for context (e ∷ es) =
    let rest = entry_for context es in if text_eq e.context context then some e else rest

-- the entry for a context that is written last
unfoldable pub last_for : Text → List BackupMarkerEntry → Option BackupMarkerEntry
last_for context [] = none
last_for context (e ∷ es) =
    let rest = last_for context es in
    or_else rest (if text_eq e.context context then some e else none)

abbrev pub entries_of : MarkerFile → List BackupMarkerEntry
entries_of missing = []
entries_of malformed = []
entries_of (stored es) = es

abbrev pub is_ok : Result MarkerError Unit → Bool
is_ok (ok _) = true
is_ok (err _) = false

replace-entry_for :
    (context : Text) (e : BackupMarkerEntry) (es : List BackupMarkerEntry)
    → entry_for context (retain_others e.context es ++ e ∷ [])
      ≡ (if text_eq e.context context then some e else entry_for context es)
unfolding entry_for retain_others
replace-entry_for context e [] = refl
replace-entry_for context e (x ∷ es) = ground (
  arith,
  replace-entry_for context e es,
  text_eq_iff x.context e.context,
  text_eq_iff x.context context,
  text_eq_iff e.context context,
)

merge-entry_for :
    (context : Text) (existing entries : List BackupMarkerEntry)
    → entry_for context (merge existing entries)
      ≡ or_else (last_for context entries) (entry_for context existing)
unfolding merge last_for
merge-entry_for context existing [] = refl
merge-entry_for context existing (e ∷ entries) = ground (
  arith,
  merge-entry_for context (retain_others e.context existing ++ e ∷ []) entries,
  replace-entry_for context e existing,
)

-- Writing the marker either fails and leaves the file as it was, or succeeds, and then the last entry written
-- for each context is the one to be read back, and the entry of every other context is still there.
pub write_backup_marker_lem :
    (fault : Option MarkerStep) (entries : List BackupMarkerEntry) (file : MarkerFile)
    → let (result, file') = write_backup_marker fault entries file in
      ((is_ok result ≡ false) × (file' ≡ file))
      ⊎ ((result ≡ ok tt)
          × ((context : Text)
              → entry_for context (entries_of file')
                ≡ or_else (last_for context entries) (entry_for context (entries_of file))))
unfolding write_backup_marker
write_backup_marker_lem none entries missing = inr (refl, λ c. merge-entry_for c [] entries)
write_backup_marker_lem none entries malformed = inl (refl, refl)
write_backup_marker_lem none entries (stored es) = inr (refl, λ c. merge-entry_for c es entries)
write_backup_marker_lem (some create_dir) entries file = inl (refl, refl)
write_backup_marker_lem (some read) entries missing = inr (refl, λ c. merge-entry_for c [] entries)
write_backup_marker_lem (some read) entries malformed = inl (refl, refl)
write_backup_marker_lem (some read) entries (stored es) = inl (refl, refl)
write_backup_marker_lem (some write_temp) entries missing = inl (refl, refl)
write_backup_marker_lem (some write_temp) entries malformed = inl (refl, refl)
write_backup_marker_lem (some write_temp) entries (stored es) = inl (refl, refl)
write_backup_marker_lem (some rename_temp) entries missing = inl (refl, refl)
write_backup_marker_lem (some rename_temp) entries malformed = inl (refl, refl)
write_backup_marker_lem (some rename_temp) entries (stored es) = inl (refl, refl)

only-entry_for :
    (context : Text) (e : BackupMarkerEntry) (es : List BackupMarkerEntry)
    → e.context ≡ context
    → or_else (last_for context (e ∷ [])) (entry_for context es) ≡ some e
unfolding last_for
only-entry_for context e es h = ground (arith, text_eq_refl context)

plan-from_socket :
    (alive : Text → Bool) (marker_path current : Text) (probe : DualLimaProbe)
    (plan : MigrationPlan)
    → migration_plan alive marker_path probe current ≡ some plan
    → plan.from_socket ≡ current
unfolding migration_plan
plan-from_socket alive marker_path current probe plan h = ground arith

-- A migration that is planned, and whose marker has been written, can be rolled back: the marker names for
-- the context the socket that was in use.
pub plan-rollback :
    (alive : Text → Bool) (marker_path context current : Text) (now : ℕ) (probe : DualLimaProbe)
    (plan : MigrationPlan) (fault : Option MarkerStep) (file : MarkerFile)
    → migration_plan alive marker_path probe current ≡ some plan
    → let (result, file') =
        write_backup_marker fault (backup_entry_for context now plan ∷ []) file in
      result ≡ ok tt
      → (e : BackupMarkerEntry) × (entry_for context (entries_of file') ≡ some e)
        × (e.previous_socket ≡ current)
unfolding backup_entry_for
plan-rollback alive marker_path context current now probe plan fault file planned written =
    elim (write_backup_marker_lem fault (backup_entry_for context now plan ∷ []) file) [
      | inl (failed, same) ↦ absurd (ground arith)
      | inr (done, kept) ↦ (
        backup_entry_for context now plan,
        kept context
            ∙ only-entry_for context (backup_entry_for context now plan) (entries_of file) refl,
        plan-from_socket alive marker_path current probe plan planned,
      )
    ]
