-- ===== src/Graph/Nodes/Prepare.antt =====
-- src/evoci/graph/builder.py: `prepare_task`.
use evo_ci.Prelude.{
  String, Option, none, some, List, [], ◌∷◌, ◌++◌, not, ◌==◌, ltb, or_string, truthy, if◌then◌else◌,
  ok, raise, task_schedule_error, keep, contains, first, ◌⧺◌,
}
use evo_ci.Runtime.Budget.{remaining_model_calls, remaining_tool_calls}
use evo_ci.Domain.Tasks.{SupervisorDecision, WorkerTask, is_dispatch}
use evo_ci.Domain.Results.{FailureClass, budget, repair, infrastructure, FailedCandidateRef}
use evo_ci.Graph.Scheduler.{validate_single_task}
use evo_ci.Graph.State.{EvoCiState, Graph, failed, Setting}
use evo_ci.Graph.State.Effects.{Node, return, save_batch_snapshot, set_snapshot}

abbrev pub model_message : String
model_message = "run-level model-call budget exhausted"

abbrev pub give_up : FailureClass → String → String → EvoCiState → EvoCiState
give_up class stage reason s = record s {
  status = failed;
  failure_class = some class;
  failure_stage = some stage;
  failure_reason = some reason;
}

-- `_slice_memories` and `_slice_skills`, on ids
abbrev pub slice_memories : EvoCiState → WorkerTask → List String
slice_memories s t = keep (contains t.fact_refs) s.retrieved_memories

abbrev pub slice_skills : EvoCiState → WorkerTask → List String
slice_skills s t = keep (contains t.recommended_skill_refs) s.skill_catalog

abbrev artifact_of : Option FailedCandidateRef → Option String
artifact_of none = none
artifact_of (some c) = some c.artifact_ref

-- The artifact of the candidate that the task resumes, if the run has it.
unfoldable pub resume_ref : List FailedCandidateRef → Option String → Option String
resume_ref candidates wanted = elim (truthy wanted) [
  | none ↦ none
  | some id ↦ artifact_of (first (λ c. c.candidate_id == id) candidates)
]

-- The dispatch is refused: the supervisor is asked again while batches are left.
unfoldable pub reject_dispatch : Setting → String → EvoCiState → EvoCiState
reject_dispatch c reason s =
    if ltb s.supervisor_batch c.max_supervisor_batches
    then record s {
      phase = "prepare_task";
      decision_history = s.decision_history ++ ("harness rejected dispatch: " ⧺ reason) ∷ [];
      batch_conflict = some reason;
      worker_task = none;
    }
    else give_up repair "prepare_task" reason s

unfoldable pub prepared : WorkerTask → String → EvoCiState → EvoCiState
unfolding resume_ref
prepared t snapshot_id s = record s {
  phase = "prepare_task";
  worker_task = some t;
  worker_memories = slice_memories s t;
  recommended_skills = slice_skills s t;
  worker_baseline_id = some snapshot_id;
  batch_snapshot_path = some s.supervisor_batch;
  batch_snapshot_id = some snapshot_id;
  resume_artifact_ref = resume_ref s.failed_candidates t.resume_candidate_id;
  batch_conflict = none;
  approved = none;
}

-- The snapshot of the batch: one that is there is used again, else the workspace is copied, which may
-- fail with `copy_error`.
unfoldable pub take_snapshot : Setting → Option String → WorkerTask → Graph → Graph
unfolding prepared
take_snapshot c copy_error t g =
    let s = g.state in
    let w = g.world in
    let saved = save_batch_snapshot w.files in
    elim (w.snapshots s.supervisor_batch) [
      | some old ↦ record g {
        state = prepared t (or_string s.batch_snapshot_id (c.workspace_snapshot_id old)) s;
      }
      | none ↦ elim copy_error [
        | some error ↦ record g {
          state = give_up infrastructure "prepare_task" ("parent snapshot failed: " ⧺ error) s;
        }
        | none ↦ record {
          state = prepared t (c.workspace_snapshot_id saved) s;
          world = record w { snapshots = set_snapshot s.supervisor_batch saved w.snapshots };
        }
      ]
    ]

-- Only a `TaskScheduleError` is caught.
unfoldable pub schedule : Setting → Option String → SupervisorDecision → Node
unfolding reject_dispatch take_snapshot
schedule c copy_error d g =
    let b = g.world.budget in
    elim (validate_single_task d.tasks g.state.completed_task_ids (remaining_model_calls b)
      (remaining_tool_calls b)) [
        | ok t ↦ return (take_snapshot c copy_error t g)
        | raise (task_schedule_error m) ↦ return (record g { state = reject_dispatch c m g.state })
        | raise e ↦ (g, raise e)
      ]

abbrev no_calls : EvoCiState → EvoCiState
no_calls s = record (give_up budget "worker" model_message s) {
  failure_classes = s.failure_classes ++ budget ∷ [];
  budget_failures = s.budget_failures ++ model_message ∷ [];
}

abbrev not_dispatched : Graph → Graph
not_dispatched g = record g {
  state = give_up repair "prepare_task" "supervisor did not dispatch a task" g.state;
}

unfoldable pub prepare_task : Setting → Option String → Node
unfolding schedule
prepare_task c copy_error g = elim g.state.decision [
  | none ↦ return (not_dispatched g)
  | some d ↦
      if not (is_dispatch d.action)
      then return (not_dispatched g)
      else if ltb (remaining_model_calls g.world.budget) 2
      then return (record g { state = no_calls g.state })
      else schedule c copy_error d g
]
