-- ===== src/Capability/Registry.antt =====
-- src/evoci/capability/registry.py: the rows of the database and the directories of the packages. A call
-- that may fail at the file system or in SQLite is told whether it does, and its transaction is all or
-- nothing.
pub mod Staging
pub mod Moves
pub mod Install
pub mod Counts
use evo_ci.Prelude.Dict
use evo_ci.Prelude.{
  ℕ, ◌+◌, String, Option, none, some, List, [], ◌∷◌, ◌++◌, Bool, true, false, not, ◌==◌,
  if◌then◌else◌, Outcome, ok, raise, Raised, key_error, capability_registry_error, map, keep, ◌⧺◌,
  is_some,
}
use evo_ci.Prelude.Sorted.{sorted_set}
use evo_ci.Capability.Models.{
  SkillManifest, SkillCandidate, RegisteredSkill, SkillStats, SkillMemoryEntry,
}

-- A package's files, each at its path.
abbrev pub Package : Type 0
Package = List (String × String)

-- The directory of one skill: whether it is there, its packages (`package` is `current`), and `memory.md` as its blocks.
pub record SkillRoot : Type 0 where
  pub is_there : Bool
  pub current : Option Package
  pub previous : Option Package
  pub old_previous : Option Package
  pub memory : Option (List SkillMemoryEntry)

-- A row of `skills`, whose column `enabled` goes before that of its manifest.
pub record SkillRow : Type 0 where
  pub enabled : Bool
  pub manifest : SkillManifest
  pub package_path : String

-- What `applied_operations` holds for a key.
pub data OperationResult : Type 0 where
  for_skill : String → OperationResult
  other_result : OperationResult

pub record Registry : Type 0 where
  pub skills : List (String × SkillRow)
  pub fts : List (String × String)
  pub skill_stats : List (String × SkillStats)
  pub operations : List (String × OperationResult)
  pub root : String → SkillRoot

-- The outside: where packages lie, SHA-256, the ids that `_slug` makes, the errors of the validator, and
-- the clock.
pub record Host : Type 0 where
  pub path_of : String → String
  pub sha256 : String → String
  pub slug : String → Outcome String
  pub validate : Package → SkillManifest → List String
  pub now : String

abbrev pub Call : Type 0 → Type 0
Call A = Registry × Outcome A

abbrev registered : SkillRow → RegisteredSkill
registered row = record {
  manifest = record (row.manifest) { enabled = row.enabled };
  package_path = row.package_path;
}

abbrev pub skill_at : Option SkillRow → Option RegisteredSkill
skill_at none = none
skill_at (some row) = some (registered row)

unfoldable pub get : Registry → String → Option RegisteredSkill
get r id = skill_at (Dict.lookup id r.skills)

abbrev pub enabled_ids : List (String × SkillRow) → List String
enabled_ids rows = map (λ row. row.0) (keep (λ row. row.1.enabled) rows)

-- `list(enabled_only=True)`, by id
unfoldable pub list_enabled : Registry → List String
list_enabled r = sorted_set (enabled_ids r.skills)

unfoldable pub set_enabled : String → Bool → Registry → Call (Unit {0})
set_enabled id enabled r = elim (Dict.lookup id r.skills) [
  | none ↦ (r, raise (key_error ("unknown skill: " ⧺ id)))
  | some row ↦ (
    record r {
      skills =
          Dict.insert id
            (record row {
              enabled = enabled;
              manifest = record (row.manifest) { enabled = enabled };
            })
            r.skills;
    },
    ok tt,
  )
]

unfoldable pub operation_result : Registry → String → Option OperationResult
operation_result r key = Dict.lookup key r.operations

-- `if operation_key`: no key and an empty one are the same.
abbrev pub keyed : Option String → Option String
keyed none = none
keyed (some k) = if k == "" then none else some k

-- `INSERT OR IGNORE INTO applied_operations`
abbrev pub note_operation : Option String → OperationResult → Registry → Registry
note_operation none result r = r
note_operation (some key) result r =
    if is_some (Dict.lookup key r.operations)
    then r
    else record r { operations = Dict.insert key result r.operations }

-- `record_operation`: whether the key was new
unfoldable pub record_operation : String → OperationResult → Registry → Registry × Bool
record_operation key result r =
    (note_operation (some key) result r, not (is_some (Dict.lookup key r.operations)))

abbrev pub referenced : String → Option RegisteredSkill → Outcome RegisteredSkill
referenced key none =
    raise (capability_registry_error ("operation " ⧺ key ⧺ " references a missing skill"))
referenced key (some skill) = ok skill

-- A skill that an earlier call of the same key made: none where the key is new.
abbrev pub prior_skill :
    Registry → String → Option OperationResult → Option (Outcome RegisteredSkill)
prior_skill r key none = none
prior_skill r key (some other_result) =
    some (raise (capability_registry_error ("operation " ⧺ key ⧺ " has an invalid stored result")))
prior_skill r key (some (for_skill id)) = some (referenced key (get r id))

unfoldable pub prior : Registry → Option String → Option (Outcome RegisteredSkill)
prior r none = none
prior r (some key) = prior_skill r key (operation_result r key)
