-- ===== src/Verification/Service/Contract.antt =====
-- A verification of src/evoci/verification/service.py passes only if the whole plan ran and passed.
use evo_ci.Prelude.{
  ℕ, ◌+◌, ◌≤◌, ◌≡◌, refl, String, Option, some, none, List, [], ◌∷◌, Bool, true, false, not, ◌&&◌,
  ok, arith, any, map, count, length, is_zero, Bool-cases, inl, inr, sym, ◌∙◌, if◌then◌else◌,
}
use evo_ci.Runtime.Budget.{RunRepairBudget}
use evo_ci.Domain.Commands.{is_passed}
use evo_ci.Verification.Plan.{PlannedCommand, is_mandatory}
use evo_ci.Verification.Evaluate.{is_executed, Inputs}
use evo_ci.Verification.Evaluate.Verdict.{is_executed_failure, passes, evaluate_verification_exact}
use evo_ci.Verification.Service.{
  CommandRun, completed, not_started, skipped, Execution, charge, execute, executed_plan, Report,
  run_planned, inputs,
}

-- The command ran to its end, with exit code 0 and within its time.
abbrev pub succeeds : CommandRun → Bool
succeeds (completed exit_code stdout stderr timed_out) = is_zero exit_code && not timed_out
succeeds (not_started reason) = false

abbrev pub AllSucceed : (ℕ → PlannedCommand → CommandRun) → ℕ → List PlannedCommand → Type 0
AllSucceed runner i [] = Unit
AllSucceed runner i (p ∷ ps) = (succeeds (runner i p) ≡ true) × AllSucceed runner (i + 1) ps

count-skipped :
    (s t : String) (ps : List PlannedCommand) → count is_executed (map (skipped s t) ps) ≡ 0
count-skipped s t [] = refl
count-skipped s t (p ∷ ps) = count-skipped s t ps

module _ (cwd_error : PlannedCommand → Option String)
    (runner : ℕ → PlannedCommand → CommandRun) where
  -- Where no executed command failed and no command is left out, each of them succeeded.
  execute-AllSucceed :
      (i : ℕ) (ps : List PlannedCommand) (b : Option RunRepairBudget)
      → any is_executed_failure (execute cwd_error runner i ps b).results ≡ false
      → length ps ≤ count is_executed (execute cwd_error runner i ps b).results
      → AllSucceed runner i ps
  unfolding execute
  execute-AllSucceed i [] b fine full = tt
  execute-AllSucceed i (p ∷ ps) b fine full =
      grind (arith, count-skipped, execute-AllSucceed (i + 1) ps (charge b).0)

  executed_plan-AllSucceed :
      (copy_error : Option String) (ps : List PlannedCommand) (b : Option RunRepairBudget)
      → let e = executed_plan cwd_error runner copy_error ps b in
        any is_executed_failure e.results ≡ false
        → length ps ≤ count is_executed e.results
        → AllSucceed runner 0 ps
  unfolding executed_plan
  executed_plan-AllSucceed (some error) [] b fine full = tt
  executed_plan-AllSucceed (some error) (p ∷ ps) b fine full =
      absurd (omega (arith, count-skipped error error (p ∷ ps)))
  executed_plan-AllSucceed none [] b fine full = tt
  executed_plan-AllSucceed none (p ∷ ps) b fine full =
      grind (arith, count-skipped, execute-AllSucceed 0 (p ∷ ps) b)

  module _ (count_message : ℕ → ℕ → String) (copy_error : Option String) where
    abbrev after : List PlannedCommand → Option RunRepairBudget → Execution
    after planned b = executed_plan cwd_error runner copy_error planned b

    -- The inputs that a plan with a harness check is judged by.
    abbrev judged_by : List PlannedCommand → Option RunRepairBudget → Inputs
    judged_by planned b =
        let e = after planned b in
        inputs (length planned) true e.incomplete_reason e.incomplete_cause
          (count_message (count is_executed e.results) (length planned))

    -- A run always reports, and says "passed" by the results of its execution alone.
    pub run_planned_lem :
        (planned : List PlannedCommand) (b : Option RunRepairBudget)
        → (r : Report) × (run_planned cwd_error runner count_message copy_error planned b ≡ ok r)
          × (r.verification.passed ≡ (
              any is_mandatory planned && passes (after planned b).results (judged_by planned b)))
          × (is_passed r.verification.status ≡ r.verification.passed)
          × (r.budget ≡ (if any is_mandatory planned then (after planned b).budget else b))
          × (r.callbacks ≡ (if any is_mandatory planned then (after planned b).callbacks else []))
    unfolding run_planned
    run_planned_lem planned b = elim (Bool-cases (any is_mandatory planned)) [
      | inl has ↦
          let e = after planned b in
          let (v, built, told, status) =
            evaluate_verification_exact e.results (judged_by planned b) in
          (
            record { verification = v; budget = e.budget; callbacks = e.callbacks },
            rw (has, built),
            rw has told,
            status ∙ sym told,
            rw has,
            rw has,
          )
      | inr lacks ↦
          let (v, built, told, status) =
            evaluate_verification_exact (map (skipped "" "no harness oracle") planned)
              (inputs 0 false none none (count_message 0 0)) in
          (
            record { verification = v; budget = b; callbacks = [] },
            rw (lacks, built),
            rw lacks told,
            status ∙ sym told,
            rw lacks,
            rw lacks,
          )
    ]

    -- A verification that passed has a harness check in its plan, and every command of the plan, the
    -- harness's and the agent's, ran to its end in the order of the plan with exit code 0 and in time. No
    -- skipped command, budget, or failed copy can lead to a pass.
    pub run_planned_sound :
        (planned : List PlannedCommand) (b : Option RunRepairBudget) (r : Report)
        → run_planned cwd_error runner count_message copy_error planned b ≡ ok r
        → r.verification.passed ≡ true
        → (any is_mandatory planned ≡ true) × AllSucceed runner 0 planned
    run_planned_sound planned b r h told =
        let (r', runs, says, _, _, _) = run_planned_lem planned b in
        let judged : (any is_mandatory planned
              && passes (after planned b).results (judged_by planned b))
            ≡ true =
          cc (h, runs, says, told) in
        (ground arith, executed_plan-AllSucceed copy_error planned b (ground arith) (ground arith))
