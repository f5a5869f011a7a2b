-- ===== src/Graph/Edges/Samples/Repaired.antt =====
-- The run of the graph that repairs the sample repository in one batch, node by node.
use evo_ci.Prelude.{◌*◌, ◌+◌, ◌≤◌, ◌≡◌, refl, true}
use evo_ci.Tools.Filesystem.{read_text_or_none}
use evo_ci.Graph.State.{Graph, success}
use evo_ci.Graph.Nodes.Bootstrap.{bootstrap, retrieve_context}
use evo_ci.Graph.Nodes.Supervise.{supervise, formal_success}
use evo_ci.Graph.Nodes.Prepare.{prepare_task}
use evo_ci.Graph.Nodes.Worker.{worker}
use evo_ci.Graph.Nodes.Approval.{approval}
use evo_ci.Graph.Nodes.Apply.{apply_candidate}
use evo_ci.Graph.Nodes.Verify.{
  verify, planned_commands, verify_planned, conclude, by_harness, judged, verdict_update,
  status_update,
}
use evo_ci.Graph.Nodes.Terminal.{finalize}
use evo_ci.Graph.Edges.{
  At, bootstrap_node, retrieve_context_node, supervise_node, prepare_task_node, worker_node,
  approval_node, apply_candidate_node, verify_node, finalize_node, end_node, run_node, next_node,
  Step, step, Run, start, more, after_supervise, after_prepare, after_worker, after_approval,
  after_apply, after_verify,
}
use evo_ci.Graph.Edges.Bound.{Run-length}
use evo_ci.Graph.Edges.Success.{Run-formal_success}
use evo_ci.Runtime.Budget.{remaining_model_calls, remaining_tool_calls, consume_tool_call}
use evo_ci.Runtime.Recorder.{emit, make_event}
use evo_ci.Graph.Scheduler.{validate_single_task, check_task, normalize_task}
use evo_ci.Tools.Scope.{
  normalize_write_scope, normalize_write_path, assert_write_path_allowed, normalize_all,
}
use evo_ci.Tools.Paths.{parts, split, join, resolve, collapse, below, strip}
use evo_ci.Graph.Routing.{requires_approval, distinct, contains_workspace_review_bypass}
use evo_ci.Tools.Filesystem.{
  write_at, write_file, make_parents, read_text_or_none, newlines, mode_or_none, unlink,
}
use evo_ci.Tools.Patch.{
  intended_content, check_digest, snapshot_edit_baseline, snapshot_onto, snapshot_one,
}
use evo_ci.Tools.Patch.Apply.{apply_edit, apply_at, write_edit, delete_at}
use evo_ci.Graph.Nodes.Apply.{
  attempt, make_plan, plan_source, finish, planned, validate_edits_against_scope,
}
use evo_ci.Graph.Nodes.Apply.Loop.{apply_loop, apply_one, write_charged, file_text}
use evo_ci.Graph.Nodes.Prepare.{schedule, take_snapshot, prepared, resume_ref}
use evo_ci.Graph.Nodes.Worker.{
  worker_ran, worker_update, fixer_output_from_edits, attribute, used_memories, used_skills,
  stored_result, resolved_risk,
}
use evo_ci.Domain.Results.{make_fixer_output, make_review}
use evo_ci.Graph.State.Effects.{emit_event, save_batch_snapshot}
use evo_ci.Verification.Plan.{build_verification_plan, add_commands}
use evo_ci.Verification.Service.{run_planned, executed_plan, execute, charge}
use evo_ci.Verification.Evaluate.{evaluate_verification, chosen_verdict}
use evo_ci.Domain.Commands.{
  make_verification, normalize_completeness, verify_success_contract, make_spec,
  parse_verification_command, normalize_repo_cwd,
}
use evo_ci.Graph.Nodes.Verify.{note_callbacks, note_callback}
use evo_ci.Graph.Nodes.Supervise.{decided}
use evo_ci.Graph.Outcome.{persist_terminal, resolve_failure_class}
use evo_ci.Prelude.{show}
use evo_ci.Graph.Edges.Samples.{setting, answers, begun}

-- what the sample needs to run
program : Unit {0}
unfolding run_node next_node bootstrap retrieve_context supervise prepare_task worker approval
    apply_candidate verify planned_commands verify_planned conclude by_harness judged verdict_update
    status_update finalize formal_success after_supervise after_prepare after_worker after_approval
    after_apply after_verify begun remaining_model_calls remaining_tool_calls consume_tool_call emit
    make_event validate_single_task check_task normalize_task normalize_write_scope
    normalize_write_path assert_write_path_allowed normalize_all parts split join resolve collapse
    below strip requires_approval distinct contains_workspace_review_bypass write_at write_file
    make_parents read_text_or_none newlines mode_or_none unlink intended_content check_digest
    snapshot_edit_baseline snapshot_onto snapshot_one apply_edit apply_at write_edit delete_at
    attempt make_plan plan_source finish planned validate_edits_against_scope apply_loop apply_one
    write_charged file_text schedule take_snapshot prepared resume_ref worker_ran worker_update
    fixer_output_from_edits attribute used_memories used_skills stored_result resolved_risk
    make_fixer_output make_review emit_event save_batch_snapshot build_verification_plan
    add_commands run_planned executed_plan execute charge evaluate_verification chosen_verdict
    make_verification normalize_completeness verify_success_contract make_spec
    parse_verification_command normalize_repo_cwd note_callbacks note_callback decided
    persist_terminal resolve_failure_class show
program = tt

abbrev next : At → Graph → Graph
unfolding program
next at g = (run_node setting answers at g).0

abbrev g1 : Graph
g1 = next bootstrap_node begun

abbrev g2 : Graph
g2 = next retrieve_context_node g1

abbrev g3 : Graph
g3 = next supervise_node g2

abbrev g4 : Graph
g4 = next prepare_task_node g3

abbrev g5 : Graph
g5 = next worker_node g4

abbrev g6 : Graph
g6 = next approval_node g5

abbrev g7 : Graph
g7 = next apply_candidate_node g6

abbrev g8 : Graph
g8 = next verify_node g7

abbrev g9 : Graph
g9 = next finalize_node g8

ran_1 : Step setting bootstrap_node begun retrieve_context_node g1
unfolding program
ran_1 = step answers g1 (λ h. cc) refl

ran_2 : Step setting retrieve_context_node g1 supervise_node g2
unfolding program
ran_2 = step answers g2 (λ h. cc) refl

ran_3 : Step setting supervise_node g2 prepare_task_node g3
unfolding program
ran_3 = step answers g3 (λ h. cc) refl

ran_4 : Step setting prepare_task_node g3 worker_node g4
unfolding program
ran_4 = step answers g4 (λ h. cc) refl

ran_5 : Step setting worker_node g4 approval_node g5
unfolding program
ran_5 = step answers g5 (λ h. cc) refl

ran_6 : Step setting approval_node g5 apply_candidate_node g6
unfolding program
ran_6 = step answers g6 (λ h. cc) refl

ran_7 : Step setting apply_candidate_node g6 verify_node g7
unfolding program
ran_7 = step answers g7 (λ h. cc) refl

ran_8 : Step setting verify_node g7 finalize_node g8
unfolding program
ran_8 = step answers g8 (λ h. cc) refl

ran_9 : Step setting finalize_node g8 end_node g9
unfolding program
ran_9 = step answers g9 (λ h. cc) refl

succeeded : g9.state.status ≡ success
unfolding program
succeeded = refl

repaired : Run setting bootstrap_node begun 9 end_node g9
repaired =
    more
      (more
        (more (more (more (more (more (more (more start ran_1) ran_2) ran_3) ran_4) ran_5) ran_6)
          ran_7)
        ran_8)
      ran_9

Run-length_example : 9 ≤ setting.max_supervisor_batches * 11 + 10
Run-length_example = Run-length setting begun repaired

Run-formal_success_example : formal_success setting g9 ≡ true
Run-formal_success_example = Run-formal_success setting begun repaired succeeded
