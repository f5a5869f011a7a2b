-- ===== src/Verification/Service.antt =====
-- src/evoci/verification/service.py: `VerificationService.run`. The subprocess that runs a command and
-- the copy of the workspace are parameters, and so is the text that counts the checks; the callbacks are recorded in the order of their calls.
pub mod Contract
pub mod Charges
use evo_ci.Prelude.{
  ℕ, suc, ◌+◌, ℤ, minus_one, String, Option, none, some, List, [], ◌∷◌, ◌++◌, Bool, true, false,
  ◌||◌, not, if◌then◌else◌, Outcome, ok, raise, ◌>>=◌, any, map, length, is_empty, is_zero, message,
  count,
}
use evo_ci.Runtime.Budget.{RunRepairBudget, consume_tool_call}
use evo_ci.Domain.Commands.{
  RawCommand, VerificationCommandResult, VerificationResult, IncompleteCause, budget, execution,
}
use evo_ci.Verification.Plan.{PlannedCommand, is_mandatory, build_verification_plan}
use evo_ci.Verification.Evaluate.{is_executed, is_failure, Inputs, evaluate_verification}

-- What `runner.run` does for a command: it completes, or raises one of the errors that the loop
-- catches, with the text `f"{type(exc).__name__}: {exc}"`.
pub data CommandRun : Type 0 where
  completed : (exit_code : ℤ) (stdout stderr : String) (timed_out : Bool) → CommandRun
  not_started : (reason : String) → CommandRun

pub data Callback : Type 0 where
  on_start : ℕ → PlannedCommand → Callback
  on_done : ℕ → VerificationCommandResult → Callback

abbrev pub skipped : String → String → PlannedCommand → VerificationCommandResult
skipped stderr reason p = record {
  command = p.command;
  exit_code = minus_one;
  stdout = "";
  stderr = stderr;
  timed_out = false;
  source = p.source;
  executed = false;
  skip_reason = some reason;
  cwd = p.cwd;
}

abbrev pub ran : PlannedCommand → ℤ → String → String → Bool → VerificationCommandResult
ran p exit_code stdout stderr timed_out = record {
  command = p.command;
  exit_code = exit_code;
  stdout = stdout;
  stderr = stderr;
  timed_out = timed_out;
  source = p.source;
  executed = true;
  skip_reason = none;
  cwd = p.cwd;
}

-- The variables that `execute` leaves behind.
pub record Execution : Type 0 where
  pub results : List VerificationCommandResult
  pub incomplete_reason : Option String
  pub incomplete_cause : Option IncompleteCause
  pub budget : Option RunRepairBudget
  pub callbacks : List Callback

abbrev pub stopped :
    List VerificationCommandResult
    → Option String
    → Option IncompleteCause
    → Option RunRepairBudget
    → List Callback
    → Execution
stopped results reason cause b callbacks = record {
  results = results;
  incomplete_reason = reason;
  incomplete_cause = cause;
  budget = b;
  callbacks = callbacks;
}

-- `budget.consume_tool_call()` where there is a budget
unfoldable pub charge : Option RunRepairBudget → Option RunRepairBudget × Outcome (Unit {0})
charge none = (none, ok tt)
charge (some b) = let (b', done) = consume_tool_call b in (some b', done)

-- Puts one command before what the loop does after it.
abbrev pub before : VerificationCommandResult → List Callback → Execution → Execution
before r callbacks rest = record rest {
  results = r ∷ rest.results;
  callbacks = callbacks ++ rest.callbacks;
}

-- The verification, the budget that is left, and the callbacks in their order.
pub record Report : Type 0 where
  pub verification : VerificationResult
  pub budget : Option RunRepairBudget
  pub callbacks : List Callback

abbrev inputs : ℕ → Bool → Option String → Option IncompleteCause → String → Inputs
inputs expected oracle reason cause text = record {
  expected_count = expected;
  has_harness_oracle = oracle;
  incomplete_reason = reason;
  incomplete_cause = cause;
  baseline_environment_reason = none;
  count_message = text;
}

module _ (cwd_error : PlannedCommand → Option String)
    (runner : ℕ → PlannedCommand → CommandRun) where
  -- The `for` loop from the command at `index`. `cwd_error` is the exception of the boundary check,
  -- which the loop does not catch: the caller does.
  unfoldable pub execute : ℕ → List PlannedCommand → Option RunRepairBudget → Execution
  unfolding charge
  execute index [] b = stopped [] none none b []
  execute index (p ∷ ps) b = elim (cwd_error p) [
    | some error ↦ stopped [] (some error) (some execution) b []
    | none ↦
        let (b', charged) = charge b in
        elim charged [
          | raise e ↦
              stopped (map (skipped "" (message e)) (p ∷ ps)) (some (message e)) (some budget) b' []
          | ok _ ↦ elim (runner index p) [
            | not_started reason ↦
                let r = skipped reason reason p in
                stopped (r ∷ map (skipped "" reason) ps) (some reason) (some execution) b'
                  (on_start index p ∷ on_done index r ∷ [])
            | completed exit_code stdout stderr timed_out ↦
                let r = ran p exit_code stdout stderr timed_out in
                let calls = on_start index p ∷ on_done index r ∷ [] in
                if is_failure r
                then stopped (r ∷ map (skipped "" "earlier check failed") ps) none none b' calls
                else before r calls (execute (index + 1) ps b')
          ]
        ]
  ]

  -- The block around `execute`: `copy_error` is the exception of the isolated copy, if it fails. An
  -- exception that leaves no results marks every command as skipped.
  unfoldable pub executed_plan :
      Option String → List PlannedCommand → Option RunRepairBudget → Execution
  unfolding execute
  executed_plan (some error) planned b =
      stopped (map (skipped error error) planned) (some error) (some execution) b []
  executed_plan none planned b =
      let e = execute 0 planned b in
      elim e.incomplete_reason [
        | none ↦ e
        | some error ↦
            if is_empty e.results
            then record e { results = map (skipped error error) planned }
            else e
      ]

  -- What `run` needs from outside: `isolate` is off where `copy_error` is none and the runner works in
  -- the workspace itself.
  unfoldable pub run_planned :
      (count_message : ℕ → ℕ → String)
      → Option String
      → List PlannedCommand
      → Option RunRepairBudget
      → Outcome Report
  run_planned count_message copy_error planned b =
      if any is_mandatory planned
      then (let e = executed_plan copy_error planned b in
          do
            v ← evaluate_verification e.results (
                inputs (length planned) true e.incomplete_reason e.incomplete_cause
                  (count_message (count is_executed e.results) (length planned)))
            ok (record { verification = v; budget = e.budget; callbacks = e.callbacks }))
      else (do
        v ←
            evaluate_verification (map (skipped "" "no harness oracle") planned)
              (inputs 0 false none none (count_message 0 0))
        ok (record { verification = v; budget = b; callbacks = [] }))

  unfoldable pub run :
      (count_message : ℕ → ℕ → String)
      → Option String
      → (oracles extra : List RawCommand) → Option RunRepairBudget
      → Outcome Report
  run count_message copy_error oracles extra b = do
    planned ← build_verification_plan oracles extra
    run_planned count_message copy_error planned b
