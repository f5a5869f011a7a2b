-- ===== src/Verification/Service/Charges.antt =====
-- What a verification of src/evoci/verification/service.py costs, and when it passes.
use evo_ci.Prelude.{
  ℕ, suc, ◌+◌, ◌≤◌, ◌≡◌, refl, String, Option, some, none, List, [], ◌∷◌, Bool, true, false, ok,
  raise, arith, any, count, length, All, ◌∙◌, leb, ◌⊎◌, inl, inr, Raised, repair_budget_exhausted,
  Bool-cases, if◌then◌else◌,
}
use evo_ci.Runtime.Budget.{RunRepairBudget, consume_tool_call}
use evo_ci.Verification.Plan.{PlannedCommand, is_mandatory}
use evo_ci.Verification.Evaluate.{is_executed}
use evo_ci.Verification.Evaluate.Verdict.{is_executed_failure}
use evo_ci.Verification.Service.{
  CommandRun, Callback, on_start, on_done, charge, execute, executed_plan, Report, run_planned,
}
use evo_ci.Verification.Service.Contract.{AllSucceed, run_planned_lem}

abbrev pub is_start : Callback → Bool
is_start (on_start i p) = true
is_start (on_done i r) = false

-- The tool calls that the budget has been charged, 0 without a budget.
abbrev pub spent : Option RunRepairBudget → ℕ
spent none = 0
spent (some b) = b.tool_calls

-- The budget has room for `n` calls.
abbrev pub Affords : Option RunRepairBudget → ℕ → Type 0
Affords none n = Unit
Affords (some b) n = b.tool_calls + n ≤ b.max_tool_calls

charge-Affords :
    (b : Option RunRepairBudget) (n : ℕ)
    → Affords b (suc n)
    → ((charge b).1 ≡ ok tt) × Affords (charge b).0 n
unfolding charge
charge-Affords none n h = (refl, tt)
charge-Affords (some b) n h = unfold consume_tool_call in (ground arith, ground arith)

consume_cases :
    (b : RunRepairBudget)
    → ((consume_tool_call b).1 ≡ ok tt) × ((consume_tool_call b).0.tool_calls ≡ b.tool_calls + 1)
      ⊎ ((x : Raised) × ((consume_tool_call b).1 ≡ raise x)
          × ((consume_tool_call b).0.tool_calls ≡ b.tool_calls))
unfolding consume_tool_call
consume_cases b = elim (Bool-cases (leb b.max_tool_calls b.tool_calls)) [
  | inl full ↦ inr (repair_budget_exhausted b.tool_message, rw full, rw full)
  | inr room ↦ inl (rw room, rw room)
]

charge-spent :
    (b : RunRepairBudget)
    → (b' : RunRepairBudget) × ((charge (some b)).0 ≡ some b')
      × (((charge (some b)).1 ≡ ok tt) × (b'.tool_calls ≡ b.tool_calls + 1)
          ⊎ ((x : Raised) × ((charge (some b)).1 ≡ raise x) × (b'.tool_calls ≡ b.tool_calls)))
unfolding charge
charge-spent b = ((consume_tool_call b).0, refl, consume_cases b)

module _ (cwd_error : PlannedCommand → Option String)
    (runner : ℕ → PlannedCommand → CommandRun) where
  -- Where every command succeeds and the budget lasts, every command is executed.
  execute-full :
      (i : ℕ) (ps : List PlannedCommand) (b : Option RunRepairBudget)
      → All (λ p. cwd_error p ≡ none) ps
      → Affords b (length ps)
      → AllSucceed runner i ps
      → let e = execute cwd_error runner i ps b in
        (any is_executed_failure e.results ≡ false)
        × (count is_executed e.results ≡ length ps)
        × (e.incomplete_reason ≡ none)
  unfolding execute
  execute-full i [] b places room good = (refl, refl, refl)
  execute-full i (p ∷ ps) b places room good = ground (
    arith,
    charge-Affords b (length ps) room,
    execute-full (i + 1) ps (charge b).0 places.1 (charge-Affords b (length ps) room).1 good.1,
  )

  -- Each command that is started has been charged one tool call before, and nothing else is charged.
  execute-spent :
      (i : ℕ) (ps : List PlannedCommand) (b : RunRepairBudget)
      → let e = execute cwd_error runner i ps (some b) in
        spent e.budget ≡ b.tool_calls + count is_start e.callbacks
  unfolding execute
  execute-spent i [] b = omega arith
  execute-spent i (p ∷ ps) b =
      let (b', same, cases) = charge-spent b in
      ground (arith, same, cases, execute-spent (i + 1) ps b')

  executed_plan-spent :
      (copy_error : Option String) (ps : List PlannedCommand) (b : RunRepairBudget)
      → let e = executed_plan cwd_error runner copy_error ps (some b) in
        spent e.budget ≡ b.tool_calls + count is_start e.callbacks
  unfolding executed_plan
  executed_plan-spent (some error) ps b = omega arith
  executed_plan-spent none ps b = ground (arith, execute-spent 0 ps b)

  spent-if :
      (copy_error : Option String) (ps : List PlannedCommand) (b : RunRepairBudget) (test : Bool)
      → let e = executed_plan cwd_error runner copy_error ps (some b) in
        spent (if test then e.budget else some b)
        ≡ b.tool_calls + count is_start (if test then e.callbacks else [])
  spent-if copy_error ps b true = executed_plan-spent copy_error ps b
  spent-if copy_error ps b false = omega arith

  module _ (count_message : ℕ → ℕ → String) where
    -- A plan with a harness check passes if every command succeeds, the directories are there, the copy
    -- works, and the budget has room for every command.
    pub run_planned_complete :
        (planned : List PlannedCommand) (b : Option RunRepairBudget)
        → any is_mandatory planned ≡ true
        → All (λ p. cwd_error p ≡ none) planned
        → Affords b (length planned)
        → AllSucceed runner 0 planned
        → (r : Report) × (run_planned cwd_error runner count_message none planned b ≡ ok r)
          × (r.verification.passed ≡ true)
    run_planned_complete planned b has places room good =
        let (fine, full, reason) = execute-full 0 planned b places room good in
        let (r, runs, says, _, _, _) =
          run_planned_lem cwd_error runner count_message none planned b in
        (r, runs, says ∙ (unfold executed_plan in ground (arith, has, fine, full, reason)))

    -- The budget of the run is charged one tool call for each command that is started, and nothing for
    -- a command that is skipped.
    pub run_planned-spent :
        (copy_error : Option String) (planned : List PlannedCommand) (b : RunRepairBudget)
        (r : Report)
        → run_planned cwd_error runner count_message copy_error planned (some b) ≡ ok r
        → spent r.budget ≡ b.tool_calls + count is_start r.callbacks
    run_planned-spent copy_error planned b r h =
        let (r', runs, _, _, left, calls) =
          run_planned_lem cwd_error runner count_message copy_error planned (some b) in
        let same : r ≡ r' = cc (h, runs) in
        rw (same, left, calls) (spent-if copy_error planned b (any is_mandatory planned))
