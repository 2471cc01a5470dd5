-- ===== src/Quarantine.antt =====
-- The table of slots whose registration is wedged (src/quarantine.rs).
pub mod Table
pub mod Lookup
mod Scenarios
use ez_gh_actions.Base.{
  ℕ, ◌-◌, Bool, true, false, Option, none, some, List, [], ◌∷◌, if◌then◌else◌, is_some, map,
  map_option, Text, text_eq, all, leb, ◌&&◌, ◌||◌, ◌==◌,
}
use ez_gh_actions.Base.Decimal.{to_string}
use ez_gh_actions.Base.Results.{Result, ok, err}
use ez_gh_actions.BtreeMap
use ez_gh_actions.BtreeMap.{BtreeMap}
use ez_gh_actions.BtreeMap.Slots.{slots_where}

pub data QuarantineReason : Type 0 where
  locked422 : QuarantineReason

pub record QuarantineEntry : Type 0 where
  pub slot : ℕ
  pub runner_id : ℕ
  pub runner_name : Text
  pub first_seen_epoch_secs : ℕ
  pub attempt_count : ℕ
  pub last_attempt_epoch_secs : ℕ
  pub reason : QuarantineReason

pub record QuarantineTable : Type 0 where
  pub entries : BtreeMap QuarantineEntry

abbrev pub empty : QuarantineTable
empty = record { entries = [] }

unfoldable pub is_quarantined : QuarantineTable → ℕ → Bool
is_quarantined self slot = is_some (BtreeMap.get (to_string slot) self.entries)

unfoldable pub is_empty : QuarantineTable → Bool
is_empty self = elim self.entries [ [] ↦ true | _ ↦ false ]

unfoldable pub get : QuarantineTable → ℕ → Option QuarantineEntry
get self slot = BtreeMap.get (to_string slot) self.entries

-- the entries' slots, in the order of the map
unfoldable pub slots : QuarantineTable → List ℕ
slots self = map (λ e. e.slot) (BtreeMap.values self.entries)

-- the key is the entry's own slot
unfoldable pub upsert : QuarantineEntry → QuarantineTable → QuarantineTable
upsert entry self = record { entries = BtreeMap.insert (to_string entry.slot) entry self.entries }

unfoldable pub remove : ℕ → QuarantineTable → QuarantineTable × Option QuarantineEntry
remove slot self = (
  record { entries = BtreeMap.remove (to_string slot) self.entries },
  BtreeMap.get (to_string slot) self.entries,
)

-- what the caller writes through `get_mut`: the entry, if there is one, after `f`
unfoldable pub get_mut : (QuarantineEntry → QuarantineEntry) → ℕ → QuarantineTable → QuarantineTable
get_mut f slot self = elim (BtreeMap.get (to_string slot) self.entries) [
  | none ↦ self
  | some entry ↦ record { entries = BtreeMap.insert (to_string slot) (f entry) self.entries }
]

unfoldable pub excluded_slots : QuarantineTable → List ℕ
excluded_slots self = slots_where (λ _. true) self.entries

unfoldable pub quarantine_age_secs : QuarantineEntry → ℕ → ℕ
quarantine_age_secs entry now = now - entry.first_seen_epoch_secs

-- `str::trim` leaves nothing: white space of one, two and three bytes
abbrev space1 : ℕ → Bool
space1 a = (leb 9 a && leb a 13) || a == 32

abbrev space2 : ℕ → ℕ → Bool
space2 a b = a == 0xc2 && (b == 0x85 || b == 0xa0)

abbrev space3 : ℕ → ℕ → ℕ → Bool
space3 a b c =
    (a == 0xe1 && (b == 0x9a && c == 0x80))
    || ((a == 0xe2
          && (b == 0x80 && ((leb 0x80 c && leb c 0x8a) || (c == 0xa8 || (c == 0xa9 || c == 0xaf)))))
        || ((a == 0xe2 && (b == 0x81 && c == 0x9f)) || (a == 0xe3 && (b == 0x80 && c == 0x80))))

is_blank : Text → Bool
is_blank [] = true
is_blank (a ∷ []) = space1 a
is_blank (a ∷ b ∷ []) = let rest = is_blank (b ∷ []) in if space1 a then rest else space2 a b
is_blank (a ∷ b ∷ c ∷ s) =
    let after1 = is_blank (b ∷ c ∷ s) in
    let after2 = is_blank (c ∷ s) in
    let after3 = is_blank s in
    if space1 a
    then after1
    else if space2 a b
    then after2
    else if space3 a b c
    then after3
    else false

-- what reading the path gives: `exists()` is false, `read_to_string` fails, or a text
pub data FileRead : Type 0 where
  missing unreadable : FileRead
  contents : Text → FileRead

pub data LoadError : Type 0 where
  read_failed parse_failed : LoadError

-- `from_toml` is the `toml` crate's parser at the type of the table
unfoldable pub load_quarantine_for :
    (Text → Option QuarantineTable) → FileRead → Result LoadError QuarantineTable
unfolding is_blank
load_quarantine_for from_toml missing = ok empty
load_quarantine_for from_toml unreadable = err read_failed
load_quarantine_for from_toml (contents raw) =
    if is_blank raw
    then ok empty
    else elim (from_toml raw) [ none ↦ err parse_failed | some parsed ↦ ok parsed ]
