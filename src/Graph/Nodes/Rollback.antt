-- ===== src/Graph/Nodes/Rollback.antt =====
-- src/evoci/graph/builder.py: `rollback`.
pub mod Exact
use evo_ci.Prelude.{
  String, Option, none, some, List, [], ◌∷◌, ◌++◌, Bool, true, false, not, ◌&&◌, ◌==◌, or_else,
  or_text, truthy, is_some, if◌then◌else◌, Outcome, ok, raise, message, integration_error, last?,
  any, show, ◌⧺◌,
}
use evo_ci.Runtime.Events.{tool_call, tool_result, text, flag}
use evo_ci.Tools.Filesystem.{Files}
use evo_ci.Tools.Patch.Restore.{restore_attempt_writes}
use evo_ci.Domain.Results.{infrastructure, FailedCandidateRef, WorkerExecutionResult}
use evo_ci.Graph.State.{EvoCiState, World, failed, Setting}
use evo_ci.Graph.State.Effects.{Node, return, emit_event}
use evo_ci.Graph.State.Restore.{Restoring, restore_batch_snapshot}

abbrev rollback_id : EvoCiState → String
rollback_id s = "rollback:" ⧺ show s.supervisor_batch

abbrev pub candidate_id : EvoCiState → WorkerExecutionResult → String
candidate_id s r = s.run_id ⧺ ":" ⧺ r.task_id ⧺ ":" ⧺ show s.supervisor_batch

abbrev candidate : EvoCiState → WorkerExecutionResult → String → FailedCandidateRef
candidate s r ref = record {
  candidate_id = candidate_id s r;
  task_id = r.task_id;
  batch = s.supervisor_batch;
  baseline_snapshot_id = or_else r.base_revision "";
  artifact_ref = ref;
  changed_files = r.changed_files;
}

-- The failed candidates with that of the latest result, once.
unfoldable pub failed_candidates_after : EvoCiState → List FailedCandidateRef
failed_candidates_after s = elim (last? s.worker_results) [
  | none ↦ s.failed_candidates
  | some r ↦ elim (truthy r.patch_artifact_ref) [
    | none ↦ s.failed_candidates
    | some ref ↦
        if any (λ f. f.candidate_id == candidate_id s r) s.failed_candidates
        then s.failed_candidates
        else s.failed_candidates ++ candidate s r ref ∷ []
  ]
]

abbrev pub apply_failed : EvoCiState → Bool
apply_failed s = s.phase == "apply_candidate" && not (is_some s.verification)

abbrev restore_writes :
    Setting → EvoCiState → List (String × Option String) → Files → Files × Outcome (Unit {0})
restore_writes c s written files =
    let (files', done) = restore_attempt_writes c.root s.attempt_baseline written files in
    elim done [ ok _ ↦ (files', ok tt) | raise x ↦ (files', raise x) ]

abbrev pub restore_snapshot : Restoring → Option Files → Files → Files × Outcome (Unit {0})
restore_snapshot r none files = (files, raise (integration_error "batch snapshot missing"))
restore_snapshot r (some snapshot) files = restore_batch_snapshot r snapshot files

-- What `verify` restores as well, when it raises.
abbrev pub restore_from : Setting → Restoring → EvoCiState → World → Files × Outcome (Unit {0})
restore_from c r s w = elim s.batch_snapshot_path [
  | some n ↦ restore_snapshot r (w.snapshots n) w.files
  | none ↦ elim s.attempt_written [
    | some written ↦ restore_writes c s written w.files
    | none ↦ (w.files, ok tt)
  ]
]

-- An apply that failed undoes its own writes; any other candidate goes back to the batch snapshot.
unfoldable pub restored_files :
    Setting → Restoring → EvoCiState → World → Files × Outcome (Unit {0})
unfolding restore_batch_snapshot restore_attempt_writes
restored_files c r s w =
    if apply_failed s && is_some s.attempt_written
    then restore_writes c s (or_else s.attempt_written []) w.files
    else restore_from c r s w

abbrev rollback_failed : String → EvoCiState → EvoCiState
rollback_failed reason s = record s {
  phase = "rollback";
  status = failed;
  failure_class = some infrastructure;
  failure_stage = some "rollback";
  failure_reason = some ("rollback failed: " ⧺ reason);
}

-- A pass that the governance scan refused is not shown to the next batch.
abbrev forget_verification : EvoCiState → EvoCiState
forget_verification s =
    if is_some (truthy s.batch_conflict)
    then record s { verification = none; verification_snapshot_id = none; review = none }
    else s

abbrev phase_or : EvoCiState → Option String
phase_or s = or_text s.failure_stage (or_text (some s.phase) (some "verify"))

unfoldable pub rolled_back : String → EvoCiState → EvoCiState
unfolding failed_candidates_after
rolled_back snapshot_id s = record (forget_verification s) {
  phase = "rollback";
  failed_candidates = failed_candidates_after s;
  integrated_snapshot_id = some snapshot_id;
  failure_reason = or_text s.failure_reason s.batch_conflict;
  failure_stage = phase_or s;
  batch_conflict = none;
}

abbrev note_result : EvoCiState → Bool → World → World
note_result s success w =
    emit_event s.run_id tool_result (some "harness") none (rollback_id s)
      (("call_id", text (rollback_id s))
        ∷ ("tool_name", text "rollback")
        ∷ ("success", flag success)
        ∷ [])
      w

-- The rollback's own tool call is marked "cleanup", so that no budget counts it.
abbrev pub note_call : EvoCiState → World → World
note_call s w =
    emit_event s.run_id tool_call (some "harness") none (rollback_id s)
      (("call_id", text (rollback_id s))
        ∷ ("tool_name", text "rollback")
        ∷ ("budget_scope", text "cleanup")
        ∷ [])
      w

unfoldable pub rollback : Setting → Restoring → Node
unfolding restored_files rolled_back emit_event
rollback c r g =
    let s = g.state in
    let called = note_call s g.world in
    let (files, done) = restored_files c r s called in
    let w = record called { files = files } in
    elim done [
      | raise x ↦
          return (record { state = rollback_failed (message x) s; world = note_result s false w })
      | ok _ ↦ return (record {
        state = rolled_back (c.workspace_snapshot_id files) s;
        world = note_result s true w;
      })
    ]
