-- ===== src/Tools/Worker.antt =====
-- src/evoci/tools/registry.py, `create_worker_registry`: the tools of a worker that reach its skills and its
-- memories, and the copies of the workspace in which its commands run. Symbolic links are not modelled.
pub mod Gate
pub mod Memories
mod Samples
use evo_ci.Prelude.Dict
use evo_ci.Prelude.{
  ℕ, ◌+◌, String, Option, none, some, List, [], ◌∷◌, ◌++◌, Bool, true, false, not, ◌&&◌, ◌||◌, ◌==◌,
  ltb, leb, min, if◌then◌else◌, Outcome, ok, raise, ◌>>=◌, ◌>>◌, raise_if, Raised, key_error,
  policy_violation, any, all, contains, is_some, is_empty, length, map, keep, truthy, ◌⧺◌, first,
}
use evo_ci.Tools.Paths.{codes, parts, join, is_absolute}
use evo_ci.Tools.Policy.{WorkerCapabilities}
use evo_ci.Tools.Registry.{add}
use evo_ci.Capability.Models.{SkillFile, SkillManifest, RegisteredSkill, SkillMemoryEntry}
use evo_ci.Capability.Registry.{Package, Registry, get, list_enabled}
use evo_ci.Capability.Registry.Counts.{record_retrieval, read_skill_memory}
use evo_ci.Memory.Store.{Store}
use evo_ci.Agents.ToolLoop.Pages.{take, drop}

-- What stays the same for a worker: `visible_memories` are the ids of its catalog with their namespaces.
pub record Worker : Type 0 where
  pub capabilities : WorkerCapabilities
  pub allowed_skill_refs : Option (List String)
  pub visible_memories : List (String × String)
  pub memory_repository : Option String
  pub sha256 : String → String

-- What its tools change. A disposable copy of the workspace is there or not.
pub record WorkerState : Type 0 where
  pub available_skill_ids : List String
  pub activated_skill_ids : List String
  pub disposable : Bool
  pub workspace_revision : ℕ
  pub skills : Registry
  pub memories : Store

abbrev available_ids : Option (List String) → Registry → List String
available_ids none r = list_enabled r
available_ids (some ids) r = ids

unfoldable pub start_worker : Worker → Registry → Store → WorkerState
start_worker w r m = record {
  available_skill_ids = available_ids w.allowed_skill_refs r;
  activated_skill_ids = [];
  disposable = false;
  workspace_revision = 0;
  skills = r;
  memories = m;
}

unfoldable pub invalidate_snapshots : WorkerState → WorkerState
invalidate_snapshots s = record s {
  workspace_revision = s.workspace_revision + 1;
  disposable = false;
}

unfoldable pub disposable_workspace : WorkerState → WorkerState
disposable_workspace s = record s { disposable = true }

-- `run_bounded_command`, with the outcome of the runner
unfoldable pub run_bounded_command :
    {A : Type 0} → Worker → Bool → Outcome A → WorkerState → WorkerState × Outcome A
run_bounded_command w network result s =
    if network && not w.capabilities.network
    then (s, raise (policy_violation "worker does not have network permission"))
    else (elim result [
      | raise e ↦ (s, raise e)
      | ok a ↦ (if w.capabilities.write_files then invalidate_snapshots s else s, ok a)
    ])

unfoldable pub require_available : String → WorkerState → Outcome (Unit {0})
require_available id s =
    raise_if (not (contains s.available_skill_ids id))
      (policy_violation ("skill " ⧺ id ⧺ " is not in the current catalog"))

unfoldable pub require_activated : String → WorkerState → Outcome (Unit {0})
require_activated id s =
    require_available id s
    >> raise_if (not (contains s.activated_skill_ids id)) (
        policy_violation (
          "Skill " ⧺ id
          ⧺ " must be loaded with load_skill before accessing its resources or scripts."))

abbrev enabled_or : String → String → RegisteredSkill → Outcome RegisteredSkill
enabled_or id reason skill =
    raise_if (not skill.manifest.enabled) (policy_violation reason) >> ok skill

abbrev found_skill : String → String → Option RegisteredSkill → Outcome RegisteredSkill
found_skill id reason none = raise (key_error ("unknown skill: " ⧺ id))
found_skill id reason (some skill) = enabled_or id reason skill

-- The skill, if it is there and enabled
unfoldable pub enabled_skill : String → String → WorkerState → Outcome RegisteredSkill
enabled_skill id reason s = found_skill id reason (get s.skills id)

abbrev unsafe_part : String → Bool
unsafe_part path = is_absolute path || any (λ p. p == "..") (parts path) || is_empty (parts path)

abbrev file_of : Option Package → String → Option String
file_of none path = none
file_of (some package_files) path = Dict.lookup (join (parts path)) package_files

abbrev present : Option String → Outcome String
present none = raise (policy_violation "skill resource is missing or escaped the package")
present (some content) = ok content

-- `_resolve_skill_package_file`, and the text of the file
unfoldable pub package_file : Option Package → String → Outcome String
package_file files path =
    raise_if (unsafe_part path) (policy_violation ("unsafe skill resource path: " ⧺ path))
    >> present (file_of files path)

-- `declared[path]`: of the entries for one path, the last one counts.
unfoldable pub declared : String → List SkillFile → Option String
declared path [] = none
declared path (f ∷ fs) = elim (declared path fs) [
  | some sha ↦ some sha
  | none ↦ if f.path == path then some f.sha256 else none
]

abbrev is_declared : String → Option String → Outcome String
is_declared reason none = raise (policy_violation reason)
is_declared reason (some sha) = ok sha

-- The text of a declared file whose digest is the declared one
unfoldable pub checked_file :
    Worker → WorkerState → RegisteredSkill → String → String → Outcome String
checked_file w s skill path reason =
    is_declared reason (declared path skill.manifest.files) >>= λ sha.
    package_file ((s.skills.root skill.manifest.skill_id).current) path >>= λ content.
    raise_if (not (w.sha256 content == sha))
      (policy_violation ("skill resource hash mismatch: " ⧺ path))
    >> ok content

abbrev pub procedure_limit : ℕ
procedure_limit = 16000

-- What follows a procedure that was cut, as code points: a newline and "...[truncated]".
abbrev cut_mark : List ℕ
cut_mark = 10 ∷ codes "...[truncated]"

abbrev pub shown_procedure : List ℕ → List ℕ
shown_procedure text =
    if ltb procedure_limit (length text) then take procedure_limit text ++ cut_mark else text

pub record LoadedSkill : Type 0 where
  pub skill_id : String
  pub procedure : List ℕ
  pub usage_memory : List SkillMemoryEntry
  pub resources : List String

pub data LoadResult : Type 0 where
  already_loaded : String → LoadResult
  loaded : LoadedSkill → LoadResult

abbrev resources_of : RegisteredSkill → List String
resources_of skill =
    keep (λ path. not (path == "SKILL.md")) (map (λ (f : SkillFile). f.path) skill.manifest.files)

abbrev pub activated_state : String → WorkerState → WorkerState
activated_state id s = record s { activated_skill_ids = add id s.activated_skill_ids }

abbrev pub loaded_skill : WorkerState → String → RegisteredSkill → String → LoadResult
loaded_skill s id skill content = loaded (record {
  skill_id = skill.manifest.skill_id;
  procedure = shown_procedure (codes content);
  usage_memory = read_skill_memory id 8 4000 s.skills;
  resources = resources_of skill;
})

-- `record_retrieval`, whose transaction may fail: the skill is activated by then.
abbrev pub recorded :
    String → String → WorkerState → LoadResult → Option Raised → WorkerState × Outcome LoadResult
recorded id now s result (some e) = (activated_state id s, raise e)
recorded id now s result none = (
  record (activated_state id s) { skills = (record_retrieval (id ∷ []) true none now s.skills).0 },
  ok result,
)

abbrev pub activate :
    Option Raised
    → String
    → String
    → WorkerState
    → RegisteredSkill
    → Outcome String
    → WorkerState × Outcome LoadResult
activate locked id now s skill (raise e) = (s, raise e)
activate locked id now s skill (ok content) =
    recorded id now s (loaded_skill s id skill content) locked

abbrev pub load_found :
    Worker
    → Option Raised
    → String
    → String
    → WorkerState
    → Outcome RegisteredSkill
    → WorkerState × Outcome LoadResult
load_found w locked id now s (raise e) = (s, raise e)
load_found w locked id now s (ok skill) =
    activate locked id now s skill
      (checked_file w s skill "SKILL.md" "SKILL.md is not declared in the skill manifest")

abbrev pub load_listed :
    Worker
    → Option Raised
    → String
    → String
    → WorkerState
    → Outcome (Unit {0})
    → WorkerState × Outcome LoadResult
load_listed w locked id now s (raise e) = (s, raise e)
load_listed w locked id now s (ok u) =
    if contains s.activated_skill_ids id
    then (s, ok (already_loaded id))
    else load_found w locked id now s (enabled_skill id "only enabled skills may be loaded" s)

-- `locked` is what the transaction of `record_retrieval` raises, if it does.
unfoldable pub load_skill :
    Worker → Option Raised → String → String → WorkerState → WorkerState × Outcome LoadResult
load_skill w locked id now s = load_listed w locked id now s (require_available id s)

pub record Resource : Type 0 where
  pub content : List ℕ
  pub total : ℕ
  pub truncated : Bool

unfoldable pub read_skill_resource :
    Worker → String → String → ℕ → ℕ → WorkerState → Outcome Resource
read_skill_resource w id path offset limit s =
    require_activated id s
    >> enabled_skill id "only enabled skill resources may be read" s
    >>= λ skill.
        checked_file w s skill path "resource is not declared in the skill manifest" >>= λ content.
        let text = codes content in
        ok (record {
          content = take limit (drop offset text);
          total = length text;
          truncated = ltb (offset + limit) (length text) || ltb 0 offset;
        })
