-- ===== src/Graph/Nodes/Worker.antt =====
-- src/evoci/graph/builder.py: `worker`, with `fixer_output_from_edits` of graph/integration.py.
use evo_ci.Prelude.{
  String, Option, none, some, List, [], ◌∷◌, ◌++◌, Bool, true, false, not, ◌&&◌, ◌==◌, leb, or_text,
  or_else, if◌then◌else◌, Outcome, ok, raise, type_error, keep, contains, map, length, is_empty,
  show, ◌⧺◌,
}
use evo_ci.Runtime.Events.{
  EventType, RunEvent, Value, evidence_created, memory_used, skill_used, agent_completed, is_type,
  text, texts, number, payload_get,
}
use evo_ci.Tools.Patch.{FileEdit}
use evo_ci.Domain.Commands.{VerificationCommandSpec}
use evo_ci.Domain.Tasks.{WorkerTask, WorkerKind, investigate, repair}
use evo_ci.Domain.Results.{
  FailureClass, budget, model, WorkerTaskStatus, completed, blocked, budget_exhausted, EvidenceItem,
  WorkerExecutionResult, Risk, low, medium, FixerOutput, make_fixer_output,
}
use evo_ci.Prelude.Sorted.{sorted_set}
use evo_ci.Graph.State.{EvoCiState, World, Graph}
use evo_ci.Graph.State.Effects.{Node, return, emit_event}
use evo_ci.Graph.Nodes.Supervise.{answered, exhausted, gateway, Call, after_call}
use evo_ci.Graph.Nodes.Prepare.{give_up}

-- the text in `run.risk`
pub data RawRisk : Type 0 where
  empty unknown : RawRisk
  known : Risk → RawRisk

pub record WorkerRun : Type 0 where
  pub result : WorkerExecutionResult
  pub edits : List FileEdit
  pub commands_run : List String
  pub verification_plan : List VerificationCommandSpec
  pub risk : RawRisk

unfoldable pub resolved_risk : RawRisk → List FileEdit → Risk
resolved_risk empty edits = if leb (length edits) 4 then low else medium
resolved_risk unknown edits = medium
resolved_risk (known r) edits = r

abbrev edit_paths : List FileEdit → List String
edit_paths edits = map (λ e. e.path) edits

unfoldable pub fixer_output_from_edits : WorkerRun → Outcome FixerOutput
unfolding make_fixer_output resolved_risk
fixer_output_from_edits r =
    make_fixer_output
      (record {
        summary = r.result.summary;
        changed_files = edit_paths r.edits;
        commands_run = r.commands_run;
        risk = resolved_risk r.risk r.edits;
        verification_plan = r.verification_plan;
      })
      r.edits

-- where `save_patch_artifact` writes, below the state directory
abbrev pub artifact_ref : EvoCiState → WorkerTask → String
artifact_ref s t =
    "artifacts/" ⧺ s.run_id ⧺ "/batch-" ⧺ show s.supervisor_batch ⧺ "/" ⧺ t.task_id ⧺ "/patch.json"

abbrev skill_ids : Option Value → List String
skill_ids (some (text s)) = s ∷ []
skill_ids (some (texts ss)) = ss
skill_ids _ = []

abbrev same_invocation : String → Option String → Bool
same_invocation invocation none = false
same_invocation invocation (some i) = i == invocation

-- The skills whose use an event of this invocation has recorded.
unfoldable pub already_used : String → List RunEvent → List String
already_used invocation [] = []
already_used invocation (e ∷ es) =
    let rest = already_used invocation es in
    if is_type e.type skill_used && same_invocation invocation e.invocation_id
    then skill_ids (payload_get e "skill_id") ++ (skill_ids (payload_get e "skills") ++ rest)
    else rest

abbrev note_some :
    EventType → String → String → String → String → String → List String → World → World
note_some type run_id agent invocation discriminator key ids w =
    if is_empty ids
    then w
    else emit_event run_id type (some agent) (some invocation) discriminator ((key, texts ids) ∷ [])
        w

-- `_attribution`: claimed ids count only if the worker's context had them.
unfoldable pub used_memories : EvoCiState → WorkerExecutionResult → List String
used_memories s r = sorted_set (keep (contains r.used_memory_ids) s.worker_memories)

unfoldable pub used_skills : EvoCiState → WorkerExecutionResult → List String
used_skills s r = keep (contains s.recommended_skills) r.used_skill_refs

unfoldable pub attribute :
    String → String → String → EvoCiState → WorkerExecutionResult → World → World
unfolding emit_event used_memories used_skills already_used
attribute agent invocation discriminator s r w =
    let missing =
      keep (λ id. not (contains (already_used invocation w.events) id)) (used_skills s r) in
    note_some skill_used s.run_id agent invocation discriminator "skills" missing (
      note_some memory_used s.run_id agent invocation discriminator "memory_ids" (used_memories s r)
        w)

-- The result that is stored: the artifact and the edited paths replace the worker's own account.
unfoldable pub stored_result : EvoCiState → WorkerTask → WorkerRun → WorkerExecutionResult
stored_result s t r = record r.result {
  patch_artifact_ref = if is_empty r.edits then none else some (artifact_ref s t);
  changed_files = if is_empty r.edits then r.result.changed_files else edit_paths r.edits;
  base_revision = or_text r.result.base_revision (some (or_else s.worker_baseline_id ""));
  snapshot_id = or_text r.result.snapshot_id (some (or_else s.worker_baseline_id ""));
}

abbrev is_exhausted : WorkerTaskStatus → Bool
is_exhausted budget_exhausted = true
is_exhausted _ = false

abbrev budget_update : String → EvoCiState → EvoCiState
budget_update summary s = record (give_up budget "worker" summary s) {
  failure_classes = s.failure_classes ++ budget ∷ [];
  budget_failures = s.budget_failures ++ summary ∷ [];
}

abbrev note_evidence : String → String → String → List EvidenceItem → World → World
note_evidence run_id agent invocation [] w = w
note_evidence run_id agent invocation (e ∷ es) w = note_evidence run_id agent invocation es (
    emit_event run_id evidence_created (some agent) (some invocation) e.id
      (("evidence", text e.id) ∷ []) w)

abbrev status_text : WorkerTaskStatus → String
status_text completed = "completed"
status_text blocked = "blocked"
status_text budget_exhausted = "budget_exhausted"

abbrev kind_text : WorkerKind → String
kind_text investigate = "investigate"
kind_text repair = "repair"

abbrev agent_of : WorkerTask → String
agent_of t = "worker:" ⧺ t.task_id

abbrev worker_invocation : EvoCiState → WorkerTask → String
worker_invocation s t = "worker:" ⧺ show s.supervisor_batch ⧺ ":" ⧺ t.task_id

-- The update of a worker that returned; `output` is the fixer output of its edits, if it made any.
-- The attribution looks at the events before those of this update.
unfoldable pub worker_update : WorkerTask → WorkerRun → Option FixerOutput → Graph → Graph
unfolding emit_event stored_result attribute
worker_update t r output g =
    let s = g.state in
    let result = stored_result s t r in
    let joined = record s {
      evidence = s.evidence ++ result.evidence;
      completed_task_ids = s.completed_task_ids ++ t.task_id ∷ [];
      worker_results = s.worker_results ++ result ∷ [];
      fixer_output = elim output [ none ↦ s.fixer_output | some o ↦ some o ];
      used_memory_ids = s.used_memory_ids ++ used_memories s result;
      used_skill_refs = s.used_skill_refs ++ used_skills s result;
    } in
    record {
      state =
          if is_exhausted result.status && is_empty r.edits
          then budget_update result.summary joined
          else joined;
      world =
          emit_event s.run_id agent_completed (some (agent_of t)) (some (worker_invocation s t))
            t.task_id
            (("status", text (status_text result.status))
              ∷ ("kind", text (kind_text t.kind))
              ∷ ("evidence_count", number (length result.evidence))
              ∷ ("changed_files", texts result.changed_files)
              ∷ [])
            (note_evidence s.run_id (agent_of t) (worker_invocation s t) result.evidence
              (attribute (agent_of t) (worker_invocation s t) t.task_id s result g.world));
    }

abbrev no_result : WorkerTask → WorkerTaskStatus → String → WorkerExecutionResult
no_result t status summary = record {
  task_id = t.task_id;
  status = status;
  summary = summary;
  evidence = [];
  base_revision = none;
  snapshot_id = none;
  patch_artifact_ref = none;
  changed_files = [];
  used_memory_ids = [];
  used_skill_refs = [];
}

-- The update of a call that raised.
unfoldable pub worker_failed :
    WorkerTask → WorkerTaskStatus → FailureClass → String → EvoCiState → EvoCiState
worker_failed t status class m s = record s {
  completed_task_ids = s.completed_task_ids ++ t.task_id ∷ [];
  worker_results = s.worker_results ++ no_result t status m ∷ [];
  budget_failures = s.budget_failures ++ m ∷ [];
  failure_classes = s.failure_classes ++ class ∷ [];
}

unfoldable pub worker_ran : WorkerTask → WorkerRun → Node
unfolding worker_update fixer_output_from_edits
worker_ran t r g =
    if is_empty r.edits
    then return (worker_update t r none g)
    else (elim (fixer_output_from_edits r) [
      | raise e ↦ (g, raise e)
      | ok output ↦ return (worker_update t r (some output) g)
    ])

unfoldable pub worker : Call WorkerRun → Node
unfolding worker_failed worker_ran
worker call g = elim g.state.worker_task [
  | none ↦ (g, raise (type_error "worker_task is required"))
  | some t ↦
      let g' = record g { world = after_call call g.world } in
      elim call.answer [
        | answered r ↦ worker_ran t r g'
        | exhausted m ↦
            return (record g' { state = worker_failed t budget_exhausted budget m g'.state })
        | gateway m by_timeout ↦ return (record g' {
          state = give_up model "worker" m (worker_failed t blocked model m g'.state);
        })
      ]
]
