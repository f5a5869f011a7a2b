-- ===== src/Agents/ToolLoop/Run.antt =====
-- src/evoci/agents/tool_loop.py, `BoundedToolAgent.run`: the limits of a loop, and the loop as a whole.
use evo_ci.Prelude.{
  ℕ, ◌+◌, ◌-◌, ◌>>=◌, String, Option, none, some, List, [], ◌∷◌, false, ◌||◌, ◌==◌, ltb, min,
  if◌then◌else◌, Outcome, ok, raise, repair_budget_exhausted, value_error,
}
use evo_ci.Runtime.Events.{RunEvent}
use evo_ci.Runtime.Budget.{RunRepairBudget, finalization_model_calls, remaining_model_calls}
use evo_ci.Tools.Paths.{strip}
use evo_ci.Tools.Registry.{ToolRegistry}
use evo_ci.Agents.ToolLoop.Pages.{Shared, Page, with_reader, shared}
use evo_ci.Agents.ToolLoop.Calls.{system, user, Site, LoopState}
use evo_ci.Agents.ToolLoop.Answers.{Stage}
use evo_ci.Agents.ToolLoop.Turns.{Final, Gateway, turns, final_answer, credited}

-- The agent, and the arguments of `run` beside the gateway and the tools.
pub record BoundedToolAgent : Type 0 where
  pub max_iterations : ℕ
  pub max_tool_calls : ℕ

pub record Request : Type 0 where
  pub run_id : String
  pub agent_id : String
  pub invocation_id : String
  pub system_prompt : String
  pub task_prompt : String
  pub run_budget : Option RunRepairBudget
  pub extra_budget : Option RunRepairBudget

unfoldable pub make_agent : ℕ → ℕ → Outcome BoundedToolAgent
make_agent iterations tools =
    if ltb iterations 1 || ltb tools 1
    then raise (value_error "tool-loop budgets must be positive")
    else ok (record { max_iterations = iterations; max_tool_calls = tools })

abbrev pub budgets_from : Option RunRepairBudget → Option RunRepairBudget → List RunRepairBudget
budgets_from none none = []
budgets_from none (some b) = b ∷ []
budgets_from (some r) none = r ∷ []
budgets_from (some r) (some b) = r ∷ b ∷ []

abbrev pub budgets_of : Request → List RunRepairBudget
budgets_of q = budgets_from q.run_budget q.extra_budget

-- `action_limit` and `max_tools` as the budget of the task leaves them
abbrev pub task_limits : BoundedToolAgent → Option RunRepairBudget → ℕ × ℕ
task_limits a none = (a.max_iterations, a.max_tool_calls)
task_limits a (some b) = (
  min a.max_iterations (b.max_model_calls - finalization_model_calls),
  min a.max_tool_calls b.max_tool_calls,
)

abbrev pub run_limits : Option RunRepairBudget → ℕ × ℕ → Outcome (ℕ × ℕ)
run_limits none (actions, tools) = ok (actions, tools)
run_limits (some r) (actions, tools) =
    if ltb (remaining_model_calls r) (1 + finalization_model_calls)
    then raise (repair_budget_exhausted "run-level model-call budget exhausted")
    else ok (min actions (remaining_model_calls r - finalization_model_calls), tools)

abbrev pub positive_limits : ℕ × ℕ → Outcome (ℕ × ℕ)
positive_limits (actions, tools) =
    if ltb actions 1 || ltb tools 1
    then raise (repair_budget_exhausted "task-level model-call budget exhausted")
    else ok (actions, tools)

-- The turns and the tool calls that the loop may make.
unfoldable pub limits : BoundedToolAgent → Request → Outcome (ℕ × ℕ)
limits a q = run_limits q.run_budget (task_limits a q.extra_budget) >>= positive_limits

abbrev pub site_of : Request → ℕ → Site
site_of q max_tools = record {
  run_id = q.run_id;
  agent_id = q.agent_id;
  invocation_id = q.invocation_id;
  max_tools = max_tools;
}

module _ {S : Type 0} where
  abbrev pub start : Request → List RunEvent → ToolRegistry (Shared S) → LoopState S
  start q events tools = record {
    messages = system q.system_prompt ∷ user q.task_prompt ∷ [];
    tool_count = 0;
    used_skills = [];
    selected_skills = [];
    should_finalize = false;
    budgets = budgets_of q;
    events = events;
    tools = tools;
  }

module _ {S O : Type 0} where
  -- An exception in a turn leaves the loop before the final call.
  abbrev pub finished :
      Gateway O → (S → List String) → Site → Stage S → LoopState S × Outcome (Final O)
  finished g activated s (st, raise e) = (st, raise e)
  finished g activated s (st, ok u) = credited activated s (final_answer g s st)

  abbrev pub looped :
      Gateway O
      → (S → List String)
      → Request
      → LoopState S
      → Outcome (ℕ × ℕ)
      → LoopState S × Outcome (Final O)
  looped g activated q st (raise e) = (st, raise e)
  looped g activated q st (ok (actions, max_tools)) =
      let s = site_of q max_tools in finished g activated s (turns g s actions 1 st)

  unfoldable pub run :
      (Page → List ℕ)
      → Gateway O
      → (S → List String)
      → BoundedToolAgent
      → Request
      → List RunEvent
      → ToolRegistry S
      → LoopState S × Outcome (Final O)
  run render g activated a q events tools =
      let st = start q events (with_reader render (shared tools)) in
      if strip q.invocation_id == ""
      then (
        start q events (shared tools),
        raise (value_error "invocation_id must be a stable non-empty identifier"),
      )
      else looped g activated q st (limits a q)
