-- ===== src/Verification/Samples.antt =====
-- Small plans, and what their verification reports.
use evo_ci.Prelude.{
  ℕ, ◌+◌, ◌≡◌, refl, arith, String, Option, some, none, List, [], ◌∷◌, true, false, ok, any, count,
  pos,
}
use evo_ci.Runtime.Budget.{RunRepairBudget, consume_tool_call}
use evo_ci.Prelude.{all, ◌++◌, All}
use evo_ci.Tools.Paths.{parts, split, join, strip}
use evo_ci.Verification.Plan.Order.{
  HasDistinctKeys, IsPlanned, is_supplementary, build_verification_plan_lem,
}
use evo_ci.Domain.Commands.{
  RawCommand, words, mapping, parse_verification_command, make_spec, normalize_repo_cwd,
}
use evo_ci.Verification.Plan.{build_verification_plan, add_commands}
use evo_ci.Domain.Commands.{
  mandatory, supplementary, VerificationCommandResult, VerificationResult, is_passed,
  normalize_completeness, make_verification, verify_success_contract,
}
use evo_ci.Verification.Plan.{PlannedCommand, is_mandatory}
use evo_ci.Verification.Evaluate.{Inputs, evaluate_verification, chosen_verdict}
use evo_ci.Verification.Evaluate.Verdict.{passes, evaluate_verification_exact}
use evo_ci.Verification.Service.{
  CommandRun, completed, Report, run_planned, executed_plan, execute, charge, skipped, ran,
}
use evo_ci.Verification.Service.Contract.{AllSucceed, run_planned_sound}
use evo_ci.Verification.Service.Charges.{spent, is_start, run_planned_complete, run_planned-spent}

abbrev tests : PlannedCommand
tests = record { command = "pytest" ∷ "-q" ∷ []; source = mandatory; cwd = "." }

abbrev lint : PlannedCommand
lint = record { command = "ruff" ∷ "check" ∷ []; source = supplementary; cwd = "." }

abbrev plan : List PlannedCommand
plan = tests ∷ lint ∷ []

abbrev at_hand : PlannedCommand → Option String
at_hand p = none

abbrev fine : ℕ → PlannedCommand → CommandRun
fine i p = completed (pos 0) "1 passed" "" false

abbrev no_text : ℕ → ℕ → String
no_text m n = ""

abbrev budget_of : ℕ → RunRepairBudget
budget_of n = record {
  max_model_calls = 5;
  max_tool_calls = n;
  model_calls = 0;
  tool_calls = 1;
  model_message = "model calls are spent";
  tool_message = "tool calls are spent";
}

abbrev verified : Report → VerificationResult
verified r = r.verification

-- what the samples need to run
program : Unit {0}
unfolding run_planned executed_plan execute charge consume_tool_call evaluate_verification
    chosen_verdict make_verification normalize_completeness verify_success_contract
program = tt

abbrev report_of : ℕ → Option Report
unfolding program
report_of n = elim (run_planned at_hand fine no_text none plan (some (budget_of n))) [
  | ok r ↦ some r
  | _ ↦ none
]

abbrev report : Report
unfolding program
report = elim (report_of 4) [
  | some r ↦ r
  | none ↦ record {
    verification = record {
      passed = false;
      status = evo_ci.Domain.Commands.VerificationStatus.failed;
      commands = [];
      expected_count = 0;
      executed_count = 0;
      incomplete_reason = none;
      incomplete_cause = none;
      oracle_source = evo_ci.Domain.Commands.harness;
    };
    budget = none;
    callbacks = [];
  }
]

report_runs : run_planned at_hand fine no_text none plan (some (budget_of 4)) ≡ ok report
unfolding program
report_runs = refl

report_passes : report.verification.passed ≡ true
unfolding program
report_passes = refl

run_planned_sound_example : (any is_mandatory plan ≡ true) × AllSucceed fine 0 plan
run_planned_sound_example =
    run_planned_sound at_hand fine no_text none plan (some (budget_of 4)) report report_runs
      report_passes

run_planned_complete_example :
    (r : Report) × (run_planned at_hand fine no_text none plan (some (budget_of 4)) ≡ ok r)
    × (r.verification.passed ≡ true)
run_planned_complete_example =
    run_planned_complete at_hand fine no_text plan (some (budget_of 4)) refl (refl, (refl, tt))
      (unfold program in ground arith) (refl, (refl, tt))

run_planned-spent_example :
    spent report.budget ≡ (budget_of 4).tool_calls + count is_start report.callbacks
run_planned-spent_example =
    run_planned-spent at_hand fine no_text none plan (budget_of 4) report report_runs

abbrev outcomes : List VerificationCommandResult
outcomes = ran tests (pos 0) "" "" false ∷ skipped "" "tool calls are spent" lint ∷ []

abbrev asked : Inputs
asked = record {
  expected_count = 2;
  has_harness_oracle = true;
  incomplete_reason = some "tool calls are spent";
  incomplete_cause = none;
  baseline_environment_reason = none;
  count_message = "executed 1 of 2 required checks";
}

evaluate_verification_exact_example :
    (v : VerificationResult) × (evaluate_verification outcomes asked ≡ ok v)
    × (v.passed ≡ passes outcomes asked)
    × (is_passed v.status ≡ passes outcomes asked)
evaluate_verification_exact_example = evaluate_verification_exact outcomes asked

abbrev asked_of_harness : List RawCommand
asked_of_harness = words ("pytest" ∷ []) ∷ []

abbrev asked_by_agent : List RawCommand
asked_by_agent = words ("pytest" ∷ []) ∷ mapping ("ruff" ∷ []) (some "lib") ∷ []

abbrev built : List PlannedCommand
built =
    record { command = "pytest" ∷ []; source = mandatory; cwd = "." }
    ∷ record { command = "ruff" ∷ []; source = supplementary; cwd = "lib" }
    ∷ []

asked_builds : build_verification_plan asked_of_harness asked_by_agent ≡ ok built
unfolding build_verification_plan add_commands parse_verification_command make_spec
    normalize_repo_cwd parts split join strip
asked_builds = refl

build_verification_plan_lem_example :
    HasDistinctKeys built
    × ((harness agent : List PlannedCommand) × (built ≡ harness ++ agent)
        × (all is_mandatory harness ≡ true)
        × (all is_supplementary agent ≡ true)
        × All (IsPlanned mandatory harness) asked_of_harness
        × All (IsPlanned supplementary built) asked_by_agent)
build_verification_plan_lem_example =
    build_verification_plan_lem asked_of_harness asked_by_agent built asked_builds
