-- ===== src/FailureLadder/Storage.antt =====
-- `load` and `save` of src/failure_ladder.rs: the ledger on disk. The TOML text of a ledger is the
-- `toml` crate's, a parameter here.
use ez_gh_actions.Base.{
  ◌≡◌, refl, ◌⊎◌, inl, inr, Option, none, some, u32_max, is_some, all, Text, if◌then◌else◌,
}
use ez_gh_actions.Base.Decimal.{parse_uint}
use ez_gh_actions.Base.Results.{Result, ok, err, ◌>>◌}
use ez_gh_actions.BtreeMap
use ez_gh_actions.BtreeMap.{BtreeMap, AllKeys}
use ez_gh_actions.FailureLadder.{FailureLadder, empty}
use ez_gh_actions.BtreeMap.Slots.{AllKeys-parse}
use ez_gh_actions.FailureLadder.Ledger.{IsWellFormed}

-- what reading the path gives: `exists()` is false, `read_to_string` fails, or a text
pub data FileRead : Type 0 where
  missing unreadable : FileRead
  contents : Text → FileRead

pub data LoadError : Type 0 where
  read_failed parse_failed invalid_slot_key : LoadError

unfoldable pub validate_persisted : FailureLadder → Result LoadError Unit
validate_persisted self =
    if all (λ key. is_some (parse_uint u32_max key)) (BtreeMap.keys self.slots)
    then ok tt
    else err invalid_slot_key

-- the step of `save` that fails
pub data SaveStep : Type 0 where
  create_dir serialize open_tmp write_tmp sync_tmp rename_tmp open_dir sync_dir : SaveStep

-- the ledger's path and its temporary sibling, as their contents
pub record Disk : Type 0 where
  pub file : FileRead
  pub tmp : FileRead

-- The crate's `to_string_pretty` and `from_str` at the type of the ledger.
module _ (to_toml : FailureLadder → Text) (from_toml : Text → Option FailureLadder) where
  unfoldable pub load : FileRead → Result LoadError FailureLadder
  load missing = ok empty
  load unreadable = err read_failed
  load (contents raw) = elim (from_toml raw) [
    | none ↦ err parse_failed
    | some state ↦ validate_persisted state >> ok state
  ]

  -- `fault` is the step that fails, if one does; a write that fails leaves `torn` behind. A rename
  -- replaces the path's contents and removes the sibling.
  unfoldable pub save : Option SaveStep → Text → FailureLadder → Disk → Result SaveStep Unit × Disk
  save (some create_dir) torn self disk = (err create_dir, disk)
  save (some serialize) torn self disk = (err serialize, disk)
  save (some open_tmp) torn self disk = (err open_tmp, disk)
  save (some write_tmp) torn self disk = (err write_tmp, record disk { tmp = contents torn })
  save (some sync_tmp) torn self disk =
      (err sync_tmp, record disk { tmp = contents (to_toml self) })
  save (some rename_tmp) torn self disk =
      (err rename_tmp, record disk { tmp = contents (to_toml self) })
  save (some open_dir) torn self disk =
      (err open_dir, record { file = contents (to_toml self); tmp = missing })
  save (some sync_dir) torn self disk =
      (err sync_dir, record { file = contents (to_toml self); tmp = missing })
  save none torn self disk = (ok tt, record { file = contents (to_toml self); tmp = missing })

  -- The saved text parses back, and its keys are slots.
  pub load-saved :
      (l : FailureLadder)
      → from_toml (to_toml l) ≡ some l
      → IsWellFormed l
      → load (contents (to_toml l)) ≡ ok l
  unfolding load validate_persisted
  load-saved l roundtrip w = rw (roundtrip, load) (rw (AllKeys-parse l.slots w.slots.keyed))

  -- Whatever step of a save fails, the path afterwards loads as it did before or as the new ledger,
  -- never as a mixture, and a save that reports success loads as the new ledger.
  pub load-save :
      (fault : Option SaveStep) (torn : Text) (l : FailureLadder) (disk : Disk)
      → from_toml (to_toml l) ≡ some l
      → IsWellFormed l
      → let (result, disk') = save fault torn l disk in
        ((load disk'.file ≡ load disk.file) ⊎ (load disk'.file ≡ ok l))
        × (result ≡ ok tt → load disk'.file ≡ ok l)
  unfolding save
  load-save none torn l disk roundtrip w =
      (inr (load-saved l roundtrip w), λ h. load-saved l roundtrip w)
  load-save (some open_dir) torn l disk roundtrip w = (inr (load-saved l roundtrip w), λ h. cc)
  load-save (some sync_dir) torn l disk roundtrip w = (inr (load-saved l roundtrip w), λ h. cc)
  load-save (some _) torn l disk roundtrip w = (inl refl, λ h. cc)
