-- ===== src/Memory/Samples.antt =====
-- A store with one episode and one memory.
use evo_ci.Prelude.Dict
use evo_ci.Prelude.{
  ◌≤◌, ◌≡◌, refl, String, none, some, List, [], ◌∷◌, ◌++◌, Bool, true, false, ◌||◌, ◌==◌, any,
  is_some, contains,
}
use evo_ci.Domain.Results.{repair}
use evo_ci.Memory.Models.{Episode, LongTermMemory, MemoryHit}
use evo_ci.Memory.Store.{Store, StoredMemory, add_long_term, add_episode, get_episode, clashes}
use evo_ci.Memory.Store.Content.{episode_content, success_parts, failure_parts, marked}
use evo_ci.Memory.Store.Merging.{Keeps, runs_of, add_long_term_lem, add_episode_lem}
use evo_ci.Memory.Retrieval.{
  retrieve, chars, memory_ids, deduplicated, selected, truncate_preserving_outcome, prefix,
}
use evo_ci.Memory.Retrieval.Budget.{IsDistinct, retrieve_bounds}

abbrev memory : String → LongTermMemory
memory run = record {
  id = "m1";
  repository = "o/r";
  content = "uses tox";
  confidence = 7;
  source_run_ids = run ∷ [];
  created_at = "t1";
  updated_at = "t1";
  last_accessed_at = none;
}

abbrev episode : String → Bool → Episode
episode run success = record {
  id = run;
  run_id = run;
  repo = "o/r";
  failure_summary = "tests fail";
  root_cause = some "typo";
  successful_fix_summary = none;
  hypotheses_attempted = [];
  verification_failures = [];
  failure_reason = none;
  success = success;
  failure_fingerprint = "f";
  failure_class = repair;
  failure_stage = some "verify";
  attempted_fix_summaries = "renamed it" ∷ [];
  attempted_files = [];
  external_failure_details = [];
  created_at = "t1";
}

abbrev store : Store
store = record {
  episodes = episode "r1" true ∷ [];
  long_term = ("m1", record { memory = memory "r1"; archived = true }) ∷ [];
  operations = [];
}

abbrev after : Store
after = (add_long_term (memory "r2") (some "op") "t2" store).0

add_long_term_lem_example :
    ((m : StoredMemory) × (Dict.lookup "m1" after.long_term ≡ some m)
      × (m.archived ≡ false)
      × Keeps (memory "r2") (Dict.lookup "m1" store.long_term) m.memory
      × ((run : String)
          → contains m.memory.source_run_ids run ≡ (
              contains (runs_of (Dict.lookup "m1" store.long_term)) run
              || contains ("r2" ∷ []) run)))
    × ((id : String)
        → "m1" == id ≡ false
        → Dict.lookup id after.long_term ≡ Dict.lookup id store.long_term)
    × ((memory2 : LongTermMemory) (now2 : String)
        → add_long_term memory2 (some "op") now2 after ≡ (after, false))
add_long_term_lem_example = add_long_term_lem (memory "r2") "op" "t2" store refl refl

add_episode_lem_example :
    ((run_id : String) (x : Episode)
      → get_episode run_id store ≡ some x
      → get_episode run_id (add_episode (episode "r2" false) store) ≡ some x)
    × (is_some (get_episode "r2" store) ≡ true → add_episode (episode "r2" false) store ≡ store)
    × (any (clashes (episode "r2" false)) store.episodes ≡ false
        → get_episode "r2" (add_episode (episode "r2" false) store) ≡ some (episode "r2" false))
add_episode_lem_example = add_episode_lem (episode "r2" false) store

-- A failed episode names its cause as a hypothesis, and its fix as one that failed.
failed_content :
    episode_content (episode "r2" false)
    ≡ "OUTCOME=failed\nFAILURE_CLASS=repair\ntests fail\nFAILURE_STAGE=verify\nATTEMPTED_FIXES=renamed it (failed/unconfirmed)\nHYPOTHESIS (unverified): typo"
unfolding episode_content failure_parts success_parts marked
failed_content = refl

abbrev hit : String → MemoryHit
hit id = record { memory_id = id; namespace = "repo:o/r"; content = 1 ∷ 2 ∷ 3 ∷ [] }

abbrev found : List MemoryHit
found = hit "a" ∷ hit "b" ∷ hit "a" ∷ hit "c" ∷ []

-- The second hit is cut, and the third finds no room.
five_characters : chars (retrieve (λ h. h) 5 found).0 ≡ 5
unfolding retrieve deduplicated selected truncate_preserving_outcome prefix
five_characters = refl

retrieve_bounds_example :
    let (hits, telemetry) = retrieve (λ h. h) 5 found in
    (chars hits ≤ 5)
    × (telemetry.context_chars ≡ chars hits)
    × IsDistinct (memory_ids hits)
    × ((rest : List String) × (telemetry.retrieved_ids ≡ memory_ids hits ++ rest))
    × IsDistinct telemetry.retrieved_ids
    × ((id : String) → contains telemetry.retrieved_ids id ≡ contains (memory_ids found) id)
retrieve_bounds_example = retrieve_bounds (λ h. h) 5 found (λ h. refl)
