-- ===== src/Tools/Worker/Samples.antt =====
-- A worker whose catalog has one skill, and what it reads of it.
use evo_ci.Prelude.{
  ◌≡◌, refl, String, none, some, [], ◌∷◌, true, false, ok, raise, policy_violation, contains,
  os_error,
}
use evo_ci.Tools.Paths.{codes, parts, split, join}
use evo_ci.Tools.Policy.{worker_investigate_capabilities}
use evo_ci.Capability.Models.{SkillFile, RegisteredSkill}
use evo_ci.Capability.Registry.{Registry, SkillRoot, get, list_enabled}
use evo_ci.Capability.Registry.Counts.{record_retrieval, read_skill_memory, selected_entries}
use evo_ci.Prelude.Dict
use evo_ci.Prelude.{truthy}
use evo_ci.Memory.Models.{MemoryHit, LongTermMemory}
use evo_ci.Memory.Store.{Store, get_memory_hit}
use evo_ci.Tools.Worker.Memories.{MemoryPage, page, read_memory, read_memory-guarded}
use evo_ci.Agents.ToolLoop.Pages.{take, drop}
use evo_ci.Tools.Worker.{
  Worker, WorkerState, start_worker, require_available, require_activated, enabled_skill,
  package_file, declared, checked_file, load_skill, already_loaded, Resource, read_skill_resource,
}
use evo_ci.Tools.Worker.Gate.{Intact, Loads, read_skill_resource-guarded, load_skill-Loads}

unfoldable program : Unit {0}
unfolding parts split join get list_enabled record_retrieval read_skill_memory selected_entries take
    drop start_worker require_available require_activated enabled_skill package_file declared
    checked_file load_skill read_skill_resource
program = tt

abbrev skill_file : String → String → SkillFile
skill_file path sha = record { path = path; sha256 = sha; executable = false }

abbrev lint : RegisteredSkill
lint = record {
  manifest = record {
    skill_id = "lint";
    name = "lint";
    description = "lints";
    triggers = [];
    task_families = [];
    permissions = record {
      read_workspace = true;
      write_workspace = false;
      execute = false;
      network = false;
    };
    source_run_ids = [];
    enabled = true;
    files = skill_file "SKILL.md" "how" ∷ skill_file "references/r.md" "reference" ∷ [];
    created_at = "t";
    updated_at = "t";
  };
  package_path = "lint";
}

abbrev lint_root : SkillRoot
lint_root = record {
  is_there = true;
  current = some (("SKILL.md", "how") ∷ ("references/r.md", "reference") ∷ []);
  previous = none;
  old_previous = none;
  memory = none;
}

abbrev registry : Registry
registry = record {
  skills =
      ("lint", record { enabled = true; manifest = lint.manifest; package_path = "lint" }) ∷ [];
  fts = [];
  skill_stats = [];
  operations = [];
  root = λ id. lint_root;
}

abbrev no_memories : Store
no_memories = record { episodes = []; long_term = []; operations = [] }

abbrev worker : Worker
worker = record {
  capabilities = worker_investigate_capabilities;
  allowed_skill_refs = some ("lint" ∷ []);
  visible_memories = [];
  memory_repository = none;
  sha256 = λ s. s;
}

abbrev begun : WorkerState
begun = start_worker worker registry no_memories

abbrev after_load : WorkerState
after_load = (load_skill worker none "lint" "t" begun).0

-- Before the skill is loaded, its resources are out of reach.
refused_before :
    read_skill_resource worker "lint" "references/r.md" 3 4 begun
    ≡ raise (
        policy_violation
          "Skill lint must be loaded with load_skill before accessing its resources or scripts.")
unfolding program
refused_before = refl

abbrev part : Resource
part = record { content = codes "eren"; total = 9; truncated = true }

read_after :
    read_skill_resource worker "lint" "references/r.md" 3 4 after_load
    ≡ ok (record part { content = codes "eren" })
unfolding program
read_after = refl

read_skill_resource-guarded_example :
    (contains after_load.available_skill_ids "lint" ≡ true)
    × (contains after_load.activated_skill_ids "lint" ≡ true)
    × ((skill : RegisteredSkill) × (get after_load.skills "lint" ≡ some skill)
        × (skill.manifest.enabled ≡ true)
        × ((content : String) × Intact worker after_load skill "references/r.md" content
            × (part.content ≡ take 4 (drop 3 (codes content)))))
read_skill_resource-guarded_example =
    read_skill_resource-guarded worker "lint" "references/r.md" 3 4 after_load part read_after

load_skill-Loads_example : Loads none "lint" begun (load_skill worker none "lint" "t" begun)
load_skill-Loads_example = load_skill-Loads worker none "lint" "t" begun

-- A load whose record fails activates the skill: the next load gives no procedure.
abbrev half_loaded : WorkerState
half_loaded = (load_skill worker (some (os_error "database is locked")) "lint" "t" begun).0

no_procedure : (load_skill worker none "lint" "t" half_loaded).1 ≡ ok (already_loaded "lint")
unfolding program
no_procedure = refl

abbrev tox : LongTermMemory
tox = record {
  id = "m1";
  repository = "o/r";
  content = "uses tox";
  confidence = 7;
  source_run_ids = "r1" ∷ [];
  created_at = "t";
  updated_at = "t";
  last_accessed_at = none;
}

abbrev reader : Worker
reader = record worker {
  visible_memories = ("m1", "repo:o/r") ∷ [];
  memory_repository = some "o/r";
}

abbrev reading : WorkerState
reading = record begun {
  memories = record no_memories {
    long_term = ("m1", record { memory = tox; archived = false }) ∷ [];
  };
}

abbrev last_page : MemoryPage
last_page = record {
  namespace = "repo:o/r";
  content = codes "tox";
  total_chars = 8;
  next_offset = none;
}

read_page : read_memory reader "m1" 5 4 reading ≡ ok last_page
unfolding program read_memory get_memory_hit
read_page = refl

read_memory-guarded_example :
    (name : String) × (truthy reader.memory_repository ≡ some name)
    × (hit : MemoryHit) × (get_memory_hit "m1" name reading.memories ≡ some hit)
    × (Dict.lookup "m1" reader.visible_memories ≡ some hit.namespace)
    × (last_page ≡ page 5 4 hit)
read_memory-guarded_example = read_memory-guarded reader "m1" 5 4 reading last_page read_page
