-- ===== src/Capability/Samples.antt =====
-- A registry with one skill, an update that fails in the transaction, and one that does not.
use evo_ci.Prelude.{
  ◌≤◌, ◌≡◌, refl, ◌⊎◌, String, none, some, List, [], ◌∷◌, ◌++◌, Bool, true, false, ok, os_error,
  length, is_some, arith,
}
use evo_ci.Tools.Paths.{parts, split, join}
use evo_ci.Tools.Scope.{from_keys}
use evo_ci.Capability.Models.{
  SkillCandidate, RegisteredSkill, SkillPermissions, SkillMemoryEntry, success,
}
use evo_ci.Capability.Registry.{Registry, Host, get, keyed, prior, operation_result}
use evo_ci.Capability.Registry.Staging.{
  safe_relative, under_prefix, categorized, files_to_write, write_files, make_manifest,
  write_staging, kept_of,
}
use evo_ci.Capability.Registry.Moves.{Faults, moves, put_back, prepare, clear, no_root}
use evo_ci.Capability.Registry.Install.{
  fts_content, with_rows, upsert_rows, install_update, install_new, create_skill, update_skill,
}
use evo_ci.Capability.Registry.Install.Atomic.{Atomically, Recovers}
use evo_ci.Capability.Registry.Install.Whole.{update_skill-Atomically}
use evo_ci.Capability.Registry.Install.Create.{IsRoot, TakesBack, create_skill-Atomically}
use evo_ci.Capability.Registry.Counts.{record_use, record_retrieval, selected_entries}
use evo_ci.Capability.Registry.Counts.Fits.{total, selected_entries_bounds}
use evo_ci.Capability.Registry.Counts.Tally.{AddsUp, record_use_lem}

unfoldable program : Unit {0}
unfolding parts split join from_keys get prior operation_result safe_relative under_prefix
    categorized files_to_write write_files make_manifest write_staging kept_of fts_content with_rows
    upsert_rows moves put_back prepare clear install_update install_new create_skill update_skill
    record_use record_retrieval selected_entries
program = tt

abbrev permissions : SkillPermissions
permissions = record {
  read_workspace = true;
  write_workspace = false;
  execute = true;
  network = false;
}

abbrev candidate : String → SkillCandidate
candidate name = record {
  name = name;
  description = "lints";
  triggers = [];
  task_families = [];
  skill_md = "---";
  scripts = record { path = "scripts/lint.py"; content = "run"; executable = true } ∷ [];
  references = [];
  templates = [];
  tests = [];
  source_run_ids = "r1" ∷ [];
  permissions = permissions;
}

abbrev host : Host
host = record {
  path_of = λ id. id;
  sha256 = λ s. s;
  slug = λ s. ok s;
  validate = λ staged m. [];
  now = "now";
}

abbrev no_faults : Faults
no_faults = record {
  make_root = none;
  write_memory = none;
  make_readonly = none;
  move_previous = none;
  move_current = none;
  move_staging = none;
  transaction = none;
  left_package = none;
  left_root = false;
  restore_current = none;
  restore_previous = none;
  remove_memory = none;
}

abbrev locked : Faults
locked = record no_faults { transaction = some (os_error "database is locked") }

abbrev no_skills : Registry
no_skills = record {
  skills = [];
  fts = [];
  skill_stats = [];
  operations = [];
  root = λ id. no_root;
}

abbrev created : Registry
created = (create_skill host no_faults (candidate "lint") none (some "op1") no_skills).0

abbrev the_skill : RegisteredSkill
the_skill = record {
  manifest =
      make_manifest host (candidate "lint") "lint"
        (record { created_at = none; source_run_ids = none; enabled = true })
        (record { path = "SKILL.md"; content = "---"; executable = false }
          ∷ (candidate "lint").scripts);
  package_path = "lint";
}

create_skill-Atomically_example :
    Atomically
      (TakesBack no_faults)
      host
      "lint"
      true
      none
      no_skills
      (create_skill host no_faults (candidate "lint") none (some "op1") no_skills)
create_skill-Atomically_example =
    create_skill-Atomically host no_faults (candidate "lint") none (some "op1") no_skills "lint"
      no_root_there new_key refl
  where
    no_root_there : IsRoot no_root
    no_root_there h = refl

    new_key : prior no_skills (keyed (some "op1")) ≡ none
    new_key = unfold prior operation_result in refl

-- The transaction fails after the packages were moved: everything is put back.
update_skill-Atomically_example :
    Atomically
      (Recovers locked)
      host
      "lint"
      the_skill.manifest.enabled
      (created.root "lint").current
      created
      (update_skill host locked "lint" (candidate "lint") (some "op2") created)
update_skill-Atomically_example =
    update_skill-Atomically host locked "lint" (candidate "lint") (some "op2") created the_skill
      clean new_key found
  where
    clean : is_some (created.root "lint").old_previous ≡ false
    clean = unfold program in refl

    new_key : prior created (keyed (some "op2")) ≡ none
    new_key = unfold program in refl

    found : get created "lint" ≡ some the_skill
    found = unfold program in refl

-- The recovery of that update does its work.
locked-Recovers : Recovers locked
locked-Recovers = (refl, refl, refl, refl, refl)

abbrev entry : String → SkillMemoryEntry
entry id = record {
  run_id = id;
  repository = "repo";
  task_summary = "task";
  outcome = success;
  lesson = "lesson";
  created_at = "now";
}

abbrev entries : List SkillMemoryEntry
entries = entry "a" ∷ entry "b" ∷ entry "c" ∷ []

selected_entries_bounds_example :
    ((older : List SkillMemoryEntry) × (entries ≡ older ++ selected_entries 8 100 entries))
    × (1 ≤ 8 → length (selected_entries 8 100 entries) ≤ 8)
    × ((total (selected_entries 8 100 entries) ≤ 100)
        ⊎ (length (selected_entries 8 100 entries) ≡ 1))
    × (1 ≤ 3 → 1 ≤ length (selected_entries 8 100 entries))
selected_entries_bounds_example = selected_entries_bounds 8 100 entries

two_of_three : selected_entries 8 100 entries ≡ entry "b" ∷ entry "c" ∷ []
unfolding program
two_of_three = refl

abbrev counted_once : Registry
counted_once = (record_use "lint" true false (some "use1") "now" created).0

created-AddsUp : AddsUp created.skill_stats
unfolding program
created-AddsUp = ((refl, omega arith), tt)

record_use_lem_example :
    AddsUp counted_once.skill_stats
    × ((id : String) (success patched : Bool) (now : String)
        → record_use id success patched (some "use1") now counted_once ≡ (counted_once, false))
    × ((ids : List String) (selected : Bool) (now : String)
        → record_retrieval ids selected (some "use1") now counted_once ≡ (counted_once, false))
record_use_lem_example = record_use_lem "lint" true false "use1" "now" created refl created-AddsUp
