-- ===== src/Runtime/Budget.antt =====
-- src/evoci/runtime/budget.py: the model-call and tool-call budgets of a run and of a task. A method
-- gives the object back beside its outcome, since what a raise leaves behind matters to the caller.
pub mod Recovery
pub mod Bounds
use evo_ci.Prelude.Dict
use evo_ci.Prelude.{
  ℕ, suc, ◌+◌, ◌-◌, ◌≤◌, String, Option, none, some, List, [], ◌∷◌, Bool, true, false, not, ◌&&◌,
  ltb, leb, eqb, min, if◌then◌else◌, Outcome, ok, raise, Raised, repair_budget_exhausted, count,
}
use evo_ci.Runtime.Events.{RunEvent, model_call, tool_call, is_type, payload_is}

abbrev pub finalization_model_calls : ℕ
finalization_model_calls = 1

unfoldable pub action_call_capacity : ℕ → ℕ → Option ℕ → ℕ
action_call_capacity max_actions remaining task_model_calls =
    if ltb remaining (1 + finalization_model_calls)
    then 0
    else (let capacity = min max_actions (remaining - finalization_model_calls) in
        elim task_model_calls [
          | none ↦ capacity
          | some task ↦ min capacity (task - finalization_model_calls)
        ])

pub record RunRepairBudget : Type 0 where
  pub max_model_calls : ℕ
  pub max_tool_calls : ℕ
  pub model_calls : ℕ
  pub tool_calls : ℕ
  pub model_message : String
  pub tool_message : String

-- `self` after the call, and what it returned or raised
abbrev pub Method : Type 0
Method = RunRepairBudget → RunRepairBudget × Outcome (Unit {0})

unfoldable pub consume_model_call : Method
consume_model_call b =
    if leb b.max_model_calls b.model_calls
    then (b, raise (repair_budget_exhausted b.model_message))
    else (record b { model_calls = b.model_calls + 1 }, ok tt)

unfoldable pub consume_tool_call : Method
consume_tool_call b =
    if leb b.max_tool_calls b.tool_calls
    then (b, raise (repair_budget_exhausted b.tool_message))
    else (record b { tool_calls = b.tool_calls + 1 }, ok tt)

unfoldable pub remaining_model_calls : RunRepairBudget → ℕ
remaining_model_calls b = b.max_model_calls - b.model_calls

unfoldable pub remaining_tool_calls : RunRepairBudget → ℕ
remaining_tool_calls b = b.max_tool_calls - b.tool_calls

-- A non-positive count returns at once; a count is a natural number here.
unfoldable pub ensure_tool_calls : ℕ → RunRepairBudget → Outcome (Unit {0})
ensure_tool_calls n b =
    if eqb n 0
    then ok tt
    else if ltb b.max_tool_calls (b.tool_calls + n)
    then raise (repair_budget_exhausted b.tool_message)
    else ok tt

-- `CombinedBudget`: the budgets in the order of the constructor's arguments, none of them twice.
-- The first that raises ends the loop; those before it have been charged.
unfoldable pub combined : Method → List RunRepairBudget → List RunRepairBudget × Outcome (Unit {0})
combined consume [] = ([], ok tt)
combined consume (b ∷ bs) =
    let later = combined consume bs in
    let (b', done) = consume b in
    elim done [ ok _ ↦ (b' ∷ later.0, later.1) | raise e ↦ (b' ∷ bs, raise e) ]

-- The events that a rebuilt budget counts.
abbrev pub counts_model_call : RunEvent → Bool
counts_model_call e = is_type e.type model_call && not (payload_is e "budget_scope" "post_run")

abbrev pub counts_tool_call : RunEvent → Bool
counts_tool_call e =
    is_type e.type tool_call
    && (not (payload_is e "budget_scope" "post_run") && not (payload_is e "budget_scope" "cleanup"))

pub record RunBudgetManager : Type 0 where
  pub max_model_calls : ℕ
  pub max_tool_calls : ℕ
  pub budgets : List (String × RunRepairBudget)

abbrev pub run_message : String
run_message = "run-level model-call budget exhausted"

abbrev pub run_tool_message : String
run_tool_message = "run-level tool-call budget exhausted"

-- The budget that `for_run` makes for a run whose events are `events`.
unfoldable pub recovered : ℕ → ℕ → List RunEvent → RunRepairBudget
recovered max_model max_tool events = record {
  max_model_calls = max_model;
  max_tool_calls = max_tool;
  model_calls = count counts_model_call events;
  tool_calls = count counts_tool_call events;
  model_message = run_message;
  tool_message = run_tool_message;
}

-- `events` is what the recorder holds for the run, and empty without a recorder.
unfoldable pub for_run :
    String → List RunEvent → RunBudgetManager → RunBudgetManager × RunRepairBudget
unfolding recovered
for_run run_id events m =
    let fresh = recovered m.max_model_calls m.max_tool_calls events in
    elim (Dict.lookup run_id m.budgets) [
      | some b ↦ (m, b)
      | none ↦ (record m { budgets = Dict.insert run_id fresh m.budgets }, fresh)
    ]
