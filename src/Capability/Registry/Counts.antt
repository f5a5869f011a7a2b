-- ===== src/Capability/Registry/Counts.antt =====
-- src/evoci/capability/registry.py: the counts of a skill's use, and its memory. `memory.md` is kept as its
-- blocks, one for each run, and a marker is looked up by the run that it names.
pub mod Fits
pub mod Tally
use mathlib.Core.List.{reverse}
use evo_ci.Prelude.Dict
use evo_ci.Prelude.{
  ℕ, zero, suc, ◌+◌, String, Option, none, some, List, [], ◌∷◌, ◌++◌, Bool, true, false, not, ◌&&◌,
  ◌==◌, ltb, if◌then◌else◌, any, is_some, length, or_else,
}
use evo_ci.Tools.Paths.{codes}
use evo_ci.Capability.Models.{SkillStats, SkillMemoryEntry}
use evo_ci.Capability.Registry.{
  Registry, SkillRoot, OperationResult, other_result, get, keyed, note_operation,
}
use evo_ci.Capability.Registry.Install.{set_root}

-- `UPDATE … WHERE skill_id = ?`
abbrev pub update_row :
    (SkillStats → SkillStats) → String → List (String × SkillStats) → List (String × SkillStats)
update_row f id [] = []
update_row f id ((j, s) ∷ rows) =
    let rest = update_row f id rows in if j == id then (j, f s) ∷ rest else (j, s) ∷ rest

abbrev pub is_applied : Registry → Option String → Bool
is_applied r none = false
is_applied r (some key) = is_some (Dict.lookup key r.operations)

abbrev pub bump : Bool → String → SkillStats → SkillStats
bump selected now s =
    if selected
    then record s { selected_count = s.selected_count + 1; updated_at = now }
    else record s { retrieval_count = s.retrieval_count + 1; updated_at = now }

abbrev pub update_rows :
    (SkillStats → SkillStats)
    → List String
    → List (String × SkillStats)
    → List (String × SkillStats)
update_rows f [] rows = rows
update_rows f (id ∷ ids) rows = update_rows f ids (update_row f id rows)

-- A count that a key guards: not applied twice.
abbrev pub counted :
    Option String
    → (List (String × SkillStats) → List (String × SkillStats))
    → Registry
    → Registry × Bool
counted key change r =
    if is_applied r key
    then (r, false)
    else (note_operation key other_result (record r { skill_stats = change r.skill_stats }), true)

unfoldable pub record_retrieval :
    List String → Bool → Option String → String → Registry → Registry × Bool
record_retrieval ids selected key now = counted (keyed key) (update_rows (bump selected now) ids)

abbrev pub one_if : Bool → ℕ
one_if true = 1
one_if false = 0

abbrev pub used : Bool → Bool → String → SkillStats → SkillStats
used success patched now s = record s {
  use_count = s.use_count + 1;
  success_count = s.success_count + one_if success;
  failure_count = s.failure_count + one_if (not success);
  patch_count = s.patch_count + one_if patched;
  last_used_at = some now;
  updated_at = now;
}

unfoldable pub record_use :
    String → Bool → Bool → Option String → String → Registry → Registry × Bool
record_use id success patched key now =
    counted (keyed key) (update_row (used success patched now) id)

-- Whether the entry was added: only to a skill that has a package, and once for a run.
abbrev pub is_of_run : String → SkillMemoryEntry → Bool
is_of_run run_id e = e.run_id == run_id

unfoldable pub append_skill_memory : String → SkillMemoryEntry → Registry → Registry × Bool
append_skill_memory id e r =
    let d = r.root id in
    let entries = or_else d.memory [] in
    if not (is_some d.current)
    then (r, false)
    else if any (is_of_run e.run_id) entries
    then (r, false)
    else (set_root id (record d { memory = some (entries ++ e ∷ []) }) r, true)

abbrev pub first_entries : ℕ → List SkillMemoryEntry → List SkillMemoryEntry
first_entries zero es = []
first_entries (suc n) [] = []
first_entries (suc n) (e ∷ es) = e ∷ first_entries n es

-- `entries[-limit:]`, from the newest; a slice from -0 is the whole list.
abbrev pub newest : ℕ → List SkillMemoryEntry → List SkillMemoryEntry
newest zero es = reverse es
newest (suc n) es = first_entries (suc n) (reverse es)

abbrev pub entry_size : SkillMemoryEntry → ℕ
entry_size e = length (codes e.lesson) + length (codes e.task_summary) + 32

-- Entries from the newest, while they fit; the first is taken whatever its size.
abbrev pub fitting : ℕ → ℕ → Bool → List SkillMemoryEntry → List SkillMemoryEntry
fitting max_chars chars taken [] = []
fitting max_chars chars taken (e ∷ es) =
    let rest = fitting max_chars (chars + entry_size e) true es in
    if taken && ltb max_chars (chars + entry_size e) then [] else e ∷ rest

unfoldable pub selected_entries : ℕ → ℕ → List SkillMemoryEntry → List SkillMemoryEntry
selected_entries limit max_chars entries =
    reverse (fitting max_chars 0 false (newest limit entries))

unfoldable pub read_skill_memory : String → ℕ → ℕ → Registry → List SkillMemoryEntry
read_skill_memory id limit max_chars r =
    if is_some (get r id)
    then selected_entries limit max_chars (or_else (r.root id).memory [])
    else []
