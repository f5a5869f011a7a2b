-- ===== src/Graph/Edges/Samples.antt =====
-- A small repository, and a run of the graph on it that repairs it in one batch.
mod Repaired
use evo_ci.Prelude.{
  ℕ, zero, suc, ◌≤◌, ◌≡◌, ◌≢◌, refl, String, Option, none, some, List, [], ◌∷◌, Bool, true, false,
  ok, ℤ, pos, if◌then◌else◌, ◌*◌, ◌+◌,
}
use evo_ci.Runtime.Budget.{RunRepairBudget, recovered}
use evo_ci.Tools.Filesystem.{Files, Place, file, same_place, read_text_or_none}
use evo_ci.Tools.Patch.{FileEdit}
use evo_ci.Domain.Commands.{words}
use evo_ci.Domain.Tasks.{WorkerTask, repair, SupervisorDecision, dispatch}
use evo_ci.Domain.Results.{WorkerExecutionResult, completed}
use evo_ci.Verification.Service.{CommandRun}
use evo_ci.Graph.State.{EvoCiState, World, Graph, Setting, Status, running, success}
use evo_ci.Graph.Nodes.Bootstrap.{bootstrap, retrieve_context}
use evo_ci.Graph.Nodes.Supervise.{Answer, answered, gateway, Call, supervise, formal_success}
use evo_ci.Graph.Nodes.Prepare.{prepare_task}
use evo_ci.Graph.Nodes.Worker.{WorkerRun, empty, worker}
use evo_ci.Graph.Nodes.Approval.{approval}
use evo_ci.Graph.Nodes.Apply.{apply_candidate}
use evo_ci.Graph.Nodes.Verify.{
  Verifying, verify, planned_commands, verify_planned, conclude, by_harness, judged, verdict_update,
  status_update,
}
use evo_ci.Graph.Nodes.Terminal.{finalize}
use evo_ci.Graph.State.Restore.{Restoring}
use evo_ci.Graph.Edges.{
  At, bootstrap_node, retrieve_context_node, supervise_node, prepare_task_node, worker_node,
  approval_node, apply_candidate_node, verify_node, finalize_node, end_node, Answers, run_node,
  next_node, Step, step, Run, start, more, after_supervise, after_prepare, after_worker,
  after_approval, after_apply, after_verify,
}
use evo_ci.Graph.Edges.Bound.{Run-length}
use evo_ci.Graph.Edges.Success.{Run-formal_success}
use evo_ci.Runtime.Budget.{remaining_model_calls, remaining_tool_calls, consume_tool_call}
use evo_ci.Runtime.Recorder.{emit, make_event}
use evo_ci.Graph.Scheduler.{validate_single_task, check_task, normalize_task}
use evo_ci.Tools.Scope.{
  normalize_write_scope, normalize_write_path, assert_write_path_allowed, normalize_all,
}
use evo_ci.Tools.Paths.{parts, split, join, resolve, collapse, below, strip}
use evo_ci.Graph.Routing.{requires_approval, distinct, contains_workspace_review_bypass}
use evo_ci.Tools.Filesystem.{
  write_at, write_file, make_parents, read_text_or_none, mode_or_none, unlink,
}
use evo_ci.Tools.Patch.{
  intended_content, check_digest, snapshot_edit_baseline, snapshot_onto, snapshot_one,
}
use evo_ci.Tools.Patch.Apply.{apply_edit, apply_at, write_edit, delete_at}
use evo_ci.Graph.Nodes.Apply.{
  attempt, make_plan, plan_source, finish, planned, validate_edits_against_scope,
}
use evo_ci.Graph.Nodes.Apply.Loop.{apply_loop, apply_one, write_charged, file_text}
use evo_ci.Graph.Nodes.Prepare.{schedule, take_snapshot, prepared, resume_ref}
use evo_ci.Graph.Nodes.Worker.{
  worker_ran, worker_update, fixer_output_from_edits, attribute, used_memories, used_skills,
  stored_result, resolved_risk,
}
use evo_ci.Domain.Results.{make_fixer_output, make_review}
use evo_ci.Graph.State.Effects.{emit_event, save_batch_snapshot}
use evo_ci.Verification.Plan.{build_verification_plan, add_commands}
use evo_ci.Verification.Service.{run_planned, executed_plan, execute, charge}
use evo_ci.Verification.Evaluate.{evaluate_verification, chosen_verdict}
use evo_ci.Domain.Commands.{
  make_verification, normalize_completeness, verify_success_contract, make_spec,
  parse_verification_command, normalize_repo_cwd,
}
use evo_ci.Graph.Nodes.Verify.{note_callbacks, note_callback}
use evo_ci.Graph.Nodes.Supervise.{decided}
use evo_ci.Graph.Outcome.{persist_terminal, resolve_failure_class}
use evo_ci.Prelude.{show}

abbrev pub workspace : Files
workspace p = if same_place p ("app.py" ∷ []) then some (file "old" 420) else none

abbrev text_of : Option String → String
text_of none = ""
text_of (some s) = s

-- The fingerprint of a workspace is the text of its file here.
abbrev pub setting : Setting
unfolding read_text_or_none
setting = record {
  root = [];
  max_supervisor_batches = 2;
  patch_hash_strict = true;
  defer_success_learning = false;
  digest = λ s. s;
  workspace_snapshot_id = λ fs. text_of (read_text_or_none fs ("app.py" ∷ []));
}

abbrev pub fresh : EvoCiState
fresh = record {
  schema_version = none;
  is_legacy = false;
  run_id = "run";
  task_id = "task";
  failed_commands = words ("pytest" ∷ []) ∷ [];
  phase = "bootstrap";
  supervisor_batch = 0;
  decision = none;
  decision_history = [];
  worker_task = none;
  completed_task_ids = [];
  worker_results = [];
  evidence = [];
  budget_failures = [];
  batch_snapshot_path = none;
  batch_snapshot_id = none;
  integrated_snapshot_id = none;
  verification_snapshot_id = none;
  worker_baseline_id = none;
  worker_memories = [];
  recommended_skills = [];
  resume_artifact_ref = none;
  previous_attempt_summary = none;
  fixer_output = none;
  verification = none;
  verification_history = [];
  review = none;
  approved = none;
  attempt_baseline = [];
  attempt_written = none;
  failed_candidates = [];
  batch_conflict = none;
  retrieved_memories = [];
  skill_catalog = [];
  selected_memory_ids = [];
  used_memory_ids = [];
  used_skill_refs = [];
  recommended_skill_ids = [];
  status = running;
  failure_reason = none;
  failure_class = none;
  failure_classes = [];
  failure_stage = none;
  learning_deferred = false;
}

abbrev pub begun : Graph
unfolding recovered
begun = record {
  state = fresh;
  world = record {
    files = workspace;
    snapshots = λ n. none;
    plans = [];
    budget = recovered 10 10 [];
    events = [];
    run_status = none;
  };
}

abbrev pub fix : WorkerTask
fix = record {
  task_id = "fix";
  kind = repair;
  objective = "repair app.py";
  read_scope = [];
  write_scope = "app.py" ∷ [];
  depends_on = [];
  fact_refs = [];
  recommended_skill_refs = [];
  budget = none;
  resume_candidate_id = none;
}

abbrev pub new_text : FileEdit
new_text = record { path = "app.py"; content = some "new"; delete = false; expected_sha256 = none }

abbrev work_run : WorkerRun
work_run = record {
  result = record {
    task_id = "fix";
    status = completed;
    summary = "done";
    evidence = [];
    base_revision = none;
    snapshot_id = none;
    patch_artifact_ref = none;
    changed_files = [];
    used_memory_ids = [];
    used_skill_refs = [];
  };
  edits = new_text ∷ [];
  commands_run = [];
  verification_plan = [];
  risk = empty;
}

abbrev pub call_with : {A : Type 0} → A → Call A
unfolding recovered
call_with a = record { answer = answered a; budget_after = recovered 10 10 []; recorded = [] }

abbrev pub no_faults : Restoring
no_faults = record {
  present = "app.py" ∷ [];
  saved = "app.py" ∷ [];
  remove_fault = λ name. none;
  copy_fault = λ name. none;
}

abbrev pub answers : Answers
answers = record {
  retrieval = none;
  catalog = none;
  first_decision = call_with (record {
    action = dispatch;
    reasoning_summary = "one fix";
    tasks = fix ∷ [];
    stop_reason = none;
  });
  retry_decision = record {
    answer = gateway "timeout" true;
    budget_after = recovered 10 10 [];
    recorded = [];
  };
  copy_error = none;
  work = call_with work_run;
  human = true;
  verifying = record {
    cwd_error = λ p. none;
    runner = λ n p. CommandRun.completed (pos 0) "" "" false;
    count_message = λ m n. "";
    copy_error = none;
    cancelled = none;
    official = none;
    git = record { diff_lines = none; untracked = none };
    restoring = no_faults;
  };
  restoring = no_faults;
}
