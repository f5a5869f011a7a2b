-- ===== src/Memory/Store.antt =====
-- src/evoci/memory/store.py: episodes, long-term memories and operation keys. Which rows a full-text query
-- matches, in the order of their rank, is an argument.
pub mod Content
pub mod Merging
use evo_ci.Prelude.Dict
use evo_ci.Prelude.{
  ℕ, zero, suc, String, Option, none, some, List, [], ◌∷◌, ◌++◌, Bool, true, false, not, ◌&&◌, ◌||◌,
  ◌==◌, leb, if◌then◌else◌, any, first, keep, is_some, map, ◌⧺◌, contains, eqb,
}
use evo_ci.Tools.Paths.{codes, begins}
use evo_ci.Tools.Scope.{from_keys}
use evo_ci.Memory.Models.{Episode, LongTermMemory, MemoryHit}
use evo_ci.Memory.Store.Content.{episode_content}

pub record StoredMemory : Type 0 where
  pub memory : LongTermMemory
  pub archived : Bool

-- The tables, in the order of insertion; `operations` holds the keys alone.
pub record Store : Type 0 where
  pub episodes : List Episode
  pub long_term : List (String × StoredMemory)
  pub operations : List String

abbrev pub clashes : Episode → Episode → Bool
clashes e x = x.id == e.id || x.run_id == e.run_id

-- `INSERT OR IGNORE`: `id` and `run_id` are unique.
unfoldable pub add_episode : Episode → Store → Store
add_episode e s =
    if any (clashes e) s.episodes then s else record s { episodes = s.episodes ++ e ∷ [] }

unfoldable pub get_episode : String → Store → Option Episode
get_episode run_id s = first (λ e. e.run_id == run_id) s.episodes

unfoldable pub hit_of_episode : Episode → MemoryHit
hit_of_episode e = record {
  memory_id = e.id;
  namespace = "episode:" ⧺ e.repo;
  content = codes (episode_content e);
}

abbrev pub hit_of_memory : LongTermMemory → MemoryHit
hit_of_memory m = record {
  memory_id = m.id;
  namespace = "repo:" ⧺ m.repository;
  content = codes m.content;
}

abbrev pub is_visible : String → StoredMemory → Bool
is_visible repository m = m.memory.repository == repository && not m.archived

abbrev visible_hit : String → Option StoredMemory → Option MemoryHit
visible_hit repository none = none
visible_hit repository (some m) =
    if is_visible repository m then some (hit_of_memory m.memory) else none

abbrev episode_hit : Option Episode → Option MemoryHit
episode_hit none = none
episode_hit (some e) = some (hit_of_episode e)

unfoldable pub get_memory_hit : String → String → Store → Option MemoryHit
get_memory_hit id repository s =
    if repository == ""
    then none
    else if begins (codes "episode:") (codes id)
    then episode_hit (first (λ e. e.id == id) s.episodes)
    else visible_hit repository (Dict.lookup id s.long_term)

-- Whether the key was new
unfoldable pub record_operation : String → Store → Store × Bool
record_operation key s =
    if contains s.operations key
    then (s, false)
    else (record s { operations = key ∷ s.operations }, true)

abbrev pub larger : ℕ → ℕ → ℕ
larger a b = if leb a b then b else a

-- An existing memory keeps its content and times of creation and access, and gains runs and confidence.
abbrev pub merged : String → LongTermMemory → LongTermMemory → LongTermMemory
merged now current memory = record current {
  source_run_ids = from_keys [] (current.source_run_ids ++ memory.source_run_ids);
  confidence = larger current.confidence memory.confidence;
  updated_at = now;
}

abbrev pub stored : String → LongTermMemory → Option StoredMemory → StoredMemory
stored now memory none = record { memory = memory; archived = false }
stored now memory (some current) = record {
  memory = merged now current.memory memory;
  archived = false;
}

abbrev pub add_operation : Option String → Store → Store
add_operation none s = s
add_operation (some key) s = record s { operations = key ∷ s.operations }

abbrev pub is_applied : Option String → Store → Bool
is_applied none s = false
is_applied (some key) s = contains s.operations key

abbrev pub keyed : Option String → Option String
keyed none = none
keyed (some k) = if k == "" then none else some k

-- Whether a memory was created; a key is applied once.
unfoldable pub add_long_term : LongTermMemory → Option String → String → Store → Store × Bool
add_long_term memory key now s =
    let current = Dict.lookup memory.id s.long_term in
    if is_applied (keyed key) s then (s, false) else (
      add_operation (keyed key)
          (record s { long_term = Dict.insert memory.id (stored now memory current) s.long_term }),
      not (is_some current),
    )

unfoldable pub archive : String → Store → Store
archive id s = elim (Dict.lookup id s.long_term) [
  | none ↦ s
  | some m ↦ record s { long_term = Dict.insert id (record m { archived = true }) s.long_term }
]

abbrev pub take {ℓ} : {A : Type ℓ} → ℕ → List A → List A
take zero xs = []
take (suc n) [] = []
take (suc n) (x ∷ xs) = x ∷ take n xs

abbrev visible_hits : String → Store → List String → List MemoryHit
visible_hits repository s [] = []
visible_hits repository s (id ∷ ids) =
    let rest = visible_hits repository s ids in
    elim (visible_hit repository (Dict.lookup id s.long_term)) [ none ↦ rest | some h ↦ h ∷ rest ]

-- The hits of a query that is not empty; the times of access that the search writes are not kept.
unfoldable pub search_long_term : List String → String → ℕ → Store → List MemoryHit
search_long_term matches repository limit s =
    if repository == "" then [] else take limit (visible_hits repository s matches)

-- Episodes of the repository first, among equals the successful first, and then by rank.
abbrev pub ordered : String → List Episode → List Episode
ordered repo es =
    keep (λ e. e.repo == repo && e.success) es
    ++ (keep (λ e. e.repo == repo && not e.success) es
        ++ (keep (λ e. not (e.repo == repo) && e.success) es
            ++ keep (λ e. not (e.repo == repo) && not e.success) es))

unfoldable pub search_episodes : List Episode → String → ℕ → List MemoryHit
search_episodes matches repo limit = map hit_of_episode (take limit (ordered repo matches))

abbrev pub same_failure : String → String → Episode → Bool
same_failure repo fingerprint e = e.repo == repo && e.failure_fingerprint == fingerprint

abbrev option_list {ℓ} : {A : Type ℓ} → Option A → List A
option_list none = []
option_list (some a) = a ∷ []

-- The last failure and the last success of the same failure; `newest` are the episodes by their time.
unfoldable pub search_episodes_by_fingerprint : List Episode → String → String → ℕ → List MemoryHit
search_episodes_by_fingerprint newest repo fingerprint limit =
    let matching = keep (same_failure repo fingerprint) newest in
    if fingerprint == ""
    then []
    else map hit_of_episode (
        take limit (
          option_list (first (λ e. not e.success) matching)
          ++ option_list (first (λ e. e.success) matching)))
