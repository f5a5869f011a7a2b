-- ===== src/Graph/Nodes/Bootstrap.antt =====
-- src/evoci/graph/builder.py: `bootstrap` and `retrieve_context`.
use evo_ci.Prelude.{
  ℕ, String, Option, none, some, List, [], ◌∷◌, ◌++◌, Bool, true, not, ◌||◌, eqb, if◌then◌else◌,
  raise, legacy_orchestration_error,
}
use evo_ci.Runtime.Events.{
  run_started, memory_retrieved, memory_selected, skill_retrieved, text, number, texts,
}
use evo_ci.Graph.State.{World, Graph, Status, running}
use evo_ci.Graph.State.Effects.{Node, return, emit_event}

abbrev pub orchestration_schema_version : ℕ
orchestration_schema_version = 3

abbrev accepts_schema : Option ℕ → Bool
accepts_schema none = true
accepts_schema (some n) = eqb n orchestration_schema_version

abbrev pub old_checkpoint : String
old_checkpoint =
    "Old graph checkpoint detected. Start a new run or campaign; supervisor-worker orchestration does not migrate previous checkpoints."

-- `INSERT OR IGNORE` of the row of a run
abbrev create_row : Option Status → Option Status
create_row none = some running
create_row (some s) = some s

-- Lists that the graph joins by a reducer stay as they are, since the node adds nothing to them.
unfoldable pub bootstrap : Node
unfolding emit_event
bootstrap g =
    let s = g.state in
    let w = g.world in
    if not (accepts_schema s.schema_version) || s.is_legacy
    then (g, raise (legacy_orchestration_error old_checkpoint))
    else return (record g {
      state = record s {
        schema_version = some orchestration_schema_version;
        phase = "bootstrap";
        status = running;
      };
      world =
          emit_event s.run_id run_started none none "" (("task", text s.task_id) ∷ [])
            (record w { run_status = create_row w.run_status });
    })

-- What the memory retriever answers, where there is one.
pub record Retrieval : Type 0 where
  pub hits : List String
  pub retrieved_ids : List String
  pub selected_ids : List String

-- What the capability retriever answers, where there is one.
pub record Catalog : Type 0 where
  pub entries : List String
  pub omitted_count : ℕ
  pub context_chars : ℕ

abbrev note_memories : String → Retrieval → World → World
note_memories run_id r w =
    emit_event run_id memory_selected none none ""
      (("memory_ids", texts r.selected_ids) ∷ ("audience", text "supervisor") ∷ [])
      (emit_event run_id memory_retrieved none none "" (("memory_ids", texts r.retrieved_ids) ∷ [])
        w)

abbrev note_skills : String → Catalog → World → World
note_skills run_id c w =
    emit_event run_id skill_retrieved none none ""
      (("skills", texts c.entries)
        ∷ ("omitted_count", number c.omitted_count)
        ∷ ("context_chars", number c.context_chars)
        ∷ ("audience", text "supervisor")
        ∷ [])
      w

abbrev with_memories : Option Retrieval → Graph → Graph
with_memories none g = record g {
  state = record g.state {
    selected_memory_ids = g.state.selected_memory_ids ++ g.state.retrieved_memories;
  };
}
with_memories (some r) g = record {
  state = record g.state {
    retrieved_memories = r.hits;
    selected_memory_ids = g.state.selected_memory_ids ++ r.selected_ids;
  };
  world = note_memories g.state.run_id r g.world;
}

abbrev with_catalog : Option Catalog → Graph → Graph
with_catalog none g = g
with_catalog (some c) g = record {
  state = record g.state { skill_catalog = c.entries };
  world = note_skills g.state.run_id c g.world;
}

unfoldable pub retrieve_context : Option Retrieval → Option Catalog → Node
unfolding emit_event
retrieve_context memories catalog g =
    let g' = with_catalog catalog (with_memories memories g) in
    return (record g' { state = record g'.state { phase = "retrieve_context" } })
