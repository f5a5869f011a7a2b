-- ===== src/Graph/Nodes/Verify.antt =====
-- src/evoci/graph/builder.py: `verify`. The subprocesses, the official verifier of a benchmark and git
-- answer by arguments; the official verifier is src/evoci/benchmark/docker.py.
use evo_ci.Prelude.{
  ℕ, String, Option, none, some, List, [], ◌∷◌, ◌++◌, Bool, true, false, not, ◌&&◌, or_string,
  if◌then◌else◌, Outcome, ok, raise, Raised, message, is_empty, map, first, show, show_int, any,
  ◌⧺◌,
}
use evo_ci.Runtime.Events.{
  verification_started, verification_completed, tool_call, tool_result, attempt_failed, text,
  number, flag, texts,
}
use evo_ci.Runtime.Budget.{RunRepairBudget, consume_tool_call}
use evo_ci.Tools.Patch.Restore.{restore_attempt_writes}
use evo_ci.Domain.Commands.{
  RawCommand, spec, VerificationCommandResult, VerificationResult, VerificationStatus,
  IncompleteCause, execution, harness, passed, incomplete, unavailable, infra_error, inconclusive,
  verify_success_contract,
}
use evo_ci.Domain.Results.{FixerOutput, FailureClass, budget, repair, infrastructure, make_review}
use evo_ci.Verification.Plan.{PlannedCommand, is_mandatory, build_verification_plan}
use evo_ci.Verification.Evaluate.{is_failure}
use evo_ci.Verification.Service.{CommandRun, Callback, on_start, on_done, run_planned}
use evo_ci.Graph.Routing.{GitReport, contains_workspace_review_bypass}
use evo_ci.Graph.State.{EvoCiState, World, Graph, failed, Setting}
use evo_ci.Graph.State.Effects.{Node, return, emit_event}
use evo_ci.Graph.State.Restore.{Restoring, restore_batch_snapshot}
use evo_ci.Graph.Nodes.Rollback.{restore_from}

-- What the outside does during one verification. `cancelled` is an exception that reaches the node from
-- the verification itself; `official` is the verdict of the official verifier, where there is one.
pub record Verifying : Type 0 where
  pub cwd_error : PlannedCommand → Option String
  pub runner : ℕ → PlannedCommand → CommandRun
  pub count_message : ℕ → ℕ → String
  pub copy_error : Option String
  pub cancelled : Option Raised
  pub official : Option VerificationResult
  pub git : GitReport
  pub restoring : Restoring

abbrev supplementary_of : Option FixerOutput → List RawCommand
supplementary_of none = []
supplementary_of (some o) = map spec o.proposal.verification_plan

abbrev call_of : ℕ → ℕ → String
call_of batch index = "verify:" ⧺ show batch ⧺ ":" ⧺ show index

-- `on_command_start` and `on_command_done`
unfoldable pub note_callback : String → ℕ → Callback → World → World
unfolding emit_event
note_callback run_id batch (on_start index p) =
    emit_event run_id tool_call (some "harness") none (call_of batch index) (
      ("call_id", text (call_of batch index))
      ∷ ("tool_name", text "run_test")
      ∷ ("argv", texts p.command)
      ∷ ("cwd", text p.cwd)
      ∷ [])
note_callback run_id batch (on_done index r) =
    emit_event run_id tool_result (some "harness") none (call_of batch index) (
      ("call_id", text (call_of batch index))
      ∷ ("tool_name", text "run_test")
      ∷ ("success", flag (r.executed && not (is_failure r)))
      ∷ [])

unfoldable pub note_callbacks : String → ℕ → List Callback → World → World
unfolding note_callback
note_callbacks run_id batch [] w = w
note_callbacks run_id batch (c ∷ cs) w =
    note_callbacks run_id batch cs (note_callback run_id batch c w)

-- The verification, and the world with its charges and its events.
abbrev pub Verified : Type 0
Verified = World × Outcome VerificationResult

abbrev pub with_budget : Option RunRepairBudget → World → World
with_budget none w = w
with_budget (some b) w = record w { budget = b }

unfoldable pub by_harness : Verifying → EvoCiState → List PlannedCommand → World → Verified
unfolding note_callbacks run_planned
by_harness v s planned w =
    elim (run_planned v.cwd_error v.runner v.count_message v.copy_error planned (some w.budget)) [
      | raise x ↦ (w, raise x)
      | ok report ↦ (
        note_callbacks s.run_id s.supervisor_batch report.callbacks (with_budget report.budget w),
        ok report.verification,
      )
    ]

abbrev out_of_calls : String → VerificationResult
out_of_calls reason = record {
  passed = false;
  status = incomplete;
  commands = [];
  expected_count = 1;
  executed_count = 0;
  incomplete_reason = some reason;
  incomplete_cause = some IncompleteCause.budget;
  oracle_source = harness;
}

abbrev official_call : ℕ → String
official_call batch = "verify:" ⧺ show batch ⧺ ":official"

-- The verdict of the official verifier passes the check of its own constructor.
unfoldable pub by_official : EvoCiState → VerificationResult → World → Verified
unfolding emit_event
by_official s verdict w =
    let id = official_call s.supervisor_batch in
    let (b, charged) = consume_tool_call w.budget in
    let paid = record w { budget = b } in
    elim charged [
      | raise x ↦ (paid, ok (out_of_calls (message x)))
      | ok _ ↦ (
        emit_event s.run_id tool_result (some "harness") none id
            (("call_id", text id)
              ∷ ("tool_name", text "verify_official_candidate")
              ∷ ("success", flag verdict.passed)
              ∷ [])
            (emit_event s.run_id tool_call (some "harness") none id
              (("call_id", text id) ∷ ("tool_name", text "verify_official_candidate") ∷ []) paid),
        verify_success_contract verdict,
      )
    ]

-- The restoration of the `except BaseException` block, before the exception goes on; if the restoration raises
-- itself, its own exception does.
unfoldable pub restore_on_error : Setting → Restoring → EvoCiState → World → Raised → World × Raised
unfolding restore_batch_snapshot restore_attempt_writes
restore_on_error c r s w x =
    let (files, done) = restore_from c r s w in
    elim done [ ok _ ↦ (record w { files = files }, x) | raise y ↦ (record w { files = files }, y) ]

abbrev exit_text : VerificationCommandResult → String
exit_text r = or_string (some r.stderr) ("exit code " ⧺ show_int r.exit_code)

-- The text of the first executed command that failed.
unfoldable pub failed_output : List VerificationCommandResult → String
failed_output rs = elim (first (λ r. r.executed && is_failure r) rs) [
  | none ↦ "verification did not produce a verified success"
  | some r ↦ exit_text r
]

unfoldable pub failure_text : VerificationResult → String
unfolding failed_output
failure_text v = or_string v.incomplete_reason (failed_output v.commands)

-- `"; ".join(blockers)`
abbrev joined : List String → String
joined [] = ""
joined (b ∷ []) = b
joined (b ∷ c ∷ bs) = b ⧺ "; " ⧺ joined (c ∷ bs)

-- The candidate passed its commands, and the final diff looks like a bypass of them.
unfoldable pub blocked_update : ℕ → String → List String → VerificationResult → Graph → Graph
blocked_update batch snapshot_id blockers v g =
    let s = g.state in
    record {
      state = record s {
        phase = "verify";
        verification = some v;
        verification_history = s.verification_history ++ v ∷ [];
        verification_snapshot_id = some snapshot_id;
        review = some (make_review false true blockers);
        batch_conflict = some (joined blockers);
        previous_attempt_summary = some (joined blockers);
        failure_reason = some (joined blockers);
        failure_stage = some "verify";
      };
      world =
          emit_event s.run_id attempt_failed none none ("governance:" ⧺ show batch)
            (("kind", text "review_rejected")
              ∷ ("reason", text (joined blockers))
              ∷ ("iteration", number batch)
              ∷ [])
            g.world;
    }

abbrev fail_verify : FailureClass → Option String → EvoCiState → EvoCiState
fail_verify class reason s = record s {
  status = failed;
  failure_class = some class;
  failure_stage = some "verify";
  failure_reason = reason;
}

abbrev fail_incomplete : Option IncompleteCause → Option String → EvoCiState → EvoCiState
fail_incomplete (some IncompleteCause.budget) reason s =
    let text = or_string reason "run-level tool-call budget exhausted" in
    record (fail_verify budget (some text) s) {
      failure_classes = s.failure_classes ++ budget ∷ [];
      budget_failures = s.budget_failures ++ text ∷ [];
    }
fail_incomplete (some execution) reason s =
    fail_verify infrastructure (some (or_string reason "verification command could not start")) s
fail_incomplete none reason s = record s {
  failure_reason = some (or_string reason "verification failed");
  failure_stage = some "verify";
}

-- The `status_update` and the `failure_reason` of a verdict.
unfoldable pub status_update : VerificationResult → EvoCiState → EvoCiState
status_update v s = elim v.status [
  | incomplete ↦ fail_incomplete v.incomplete_cause v.incomplete_reason s
  | infra_error ↦ fail_verify infrastructure (some (or_string v.incomplete_reason "infra_error")) s
  | inconclusive ↦
      fail_verify infrastructure (some (or_string v.incomplete_reason "inconclusive")) s
  | unavailable ↦ fail_verify repair v.incomplete_reason s
  | passed ↦ record s { failure_reason = none }
  | VerificationStatus.failed ↦ record s {
    failure_reason = some (or_string v.incomplete_reason "verification failed");
    failure_stage = some "verify";
  }
]

abbrev is_environment : VerificationStatus → Bool
is_environment infra_error = true
is_environment inconclusive = true
is_environment _ = false

abbrev note_failure : ℕ → VerificationResult → String → World → World
note_failure batch v run_id w =
    if not v.passed && not (is_environment v.status)
    then emit_event run_id attempt_failed none none ("verification:" ⧺ show batch)
        (("kind", text "verification_failure")
          ∷ ("reason", text (failure_text v))
          ∷ ("iteration", number batch)
          ∷ [])
        w
    else w

unfoldable pub verdict_update : ℕ → String → VerificationResult → Graph → Graph
verdict_update batch snapshot_id v g =
    let s = g.state in
    record {
      state = status_update v (record s {
        phase = "verify";
        verification = some v;
        verification_history = s.verification_history ++ v ∷ [];
        verification_snapshot_id = some snapshot_id;
        review = if v.passed then some (make_review true true []) else none;
        previous_attempt_summary =
            if v.passed then s.previous_attempt_summary else some (failure_text v);
      });
      world =
          emit_event s.run_id verification_completed none none (show batch)
            (("passed", flag v.passed) ∷ ("snapshot_id", text snapshot_id) ∷ [])
            (note_failure batch v s.run_id g.world);
    }

abbrev oracle_text : Option VerificationResult → List PlannedCommand → String
oracle_text (some v) planned = "official_image"
oracle_text none planned = if any is_mandatory planned then "harness" else "none"

abbrev pub begin : Setting → Verifying → List PlannedCommand → Graph → Graph
begin c v planned g = record g {
  world =
      emit_event g.state.run_id verification_started none none (show g.state.supervisor_batch)
        (("oracle_source", text (oracle_text v.official planned))
          ∷ ("snapshot_id", text (c.workspace_snapshot_id g.world.files))
          ∷ [])
        g.world;
}

abbrev pub verified_with :
    Option Raised
    → Option VerificationResult
    → Verifying
    → EvoCiState
    → List PlannedCommand
    → World
    → Verified
verified_with (some x) official v s planned w = (w, raise x)
verified_with none none v s planned w = by_harness v s planned w
verified_with none (some r) v s planned w = by_official s r w

abbrev pub verified_by : Verifying → EvoCiState → List PlannedCommand → World → Verified
verified_by v = verified_with v.cancelled v.official v

unfoldable pub judged : Verifying → String → VerificationResult → Graph → Graph
judged v snapshot_id r g =
    let batch = g.state.supervisor_batch in
    let blockers = contains_workspace_review_bypass v.git in
    if r.passed && not (is_empty blockers)
    then blocked_update batch snapshot_id blockers r g
    else verdict_update batch snapshot_id r g

unfoldable pub conclude : Setting → Verifying → Graph → Verified → Graph × Outcome (Unit {0})
conclude c v g (w, raise x) =
    let (w', y) = restore_on_error c v.restoring g.state w x in (record g { world = w' }, raise y)
conclude c v g (w, ok r) =
    return (judged v (c.workspace_snapshot_id g.world.files) r (record g { world = w }))

-- The fingerprint is that of the files before the commands run; they run in a copy of the workspace.
unfoldable pub verify_planned : Setting → Verifying → List PlannedCommand → Node
verify_planned c v planned g =
    conclude c v g (verified_by v g.state planned (begin c v planned g).world)

-- The plan; the official verifier brings its own command.
unfoldable pub planned_commands :
    Option VerificationResult → EvoCiState → Outcome (List PlannedCommand)
planned_commands (some r) s = ok []
planned_commands none s =
    build_verification_plan s.failed_commands (supplementary_of s.fixer_output)

abbrev pub verify_if_planned : Setting → Verifying → Outcome (List PlannedCommand) → Node
verify_if_planned c v (raise x) g = (g, raise x)
verify_if_planned c v (ok planned) g = verify_planned c v planned g

unfoldable pub verify : Setting → Verifying → Node
verify c v g = verify_if_planned c v (planned_commands v.official g.state) g
