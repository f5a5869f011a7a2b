-- ===== src/Agents/Samples.antt =====
-- A small agent with two tools and a scripted gateway, and what its loop does.
use evo_ci.Prelude.Dict
use evo_ci.Prelude.{
  ℕ, ◌≡◌, refl, ◌≤◌, String, none, some, List, [], ◌∷◌, true, false, ok, raise, Outcome, os_error,
  Raised, length, arith, contains, any, ◌&&◌, ◌||◌,
}
use evo_ci.Runtime.Budget.{
  RunRepairBudget, combined, consume_model_call, consume_tool_call, remaining_model_calls,
}
use evo_ci.Runtime.Events.{text}
use evo_ci.Runtime.Recorder.{emit, make_event}
use evo_ci.Runtime.Recorder.Once.{has_id}
use evo_ci.Tools.Paths.{strip}
use evo_ci.Prelude.Sorted.{sorted_set}
use evo_ci.Tools.Policy.{worker_investigate_capabilities}
use evo_ci.Tools.Registry.{
  ToolSpec, ToolRegistry, ToolResult, plain, ainvoke, resolve_tool, record_changed_paths, register,
  validated, available, changed_paths, mapping,
}
use evo_ci.Tools.Registry.Gate.{ainvoke-available}
use evo_ci.Tools.Registry.Changes.{counts, names_path, record_changed_paths-adds}
use evo_ci.Agents.ToolLoop.Pages.{Page, Shared, read_tool_result, with_reader, shared, take}
use evo_ci.Agents.ToolLoop.Pages.Whole.{read_on, read_on-whole}
use evo_ci.Agents.ToolLoop.Calls.{
  ToolCallRequest, ToolLoopMessage, LoopState, load_skill_id, skill_ref_from_arguments,
  result_success,
}
use evo_ci.Agents.ToolLoop.Answers.{
  charge, note_load, note_script, conclude, answer_call, answer_calls,
}
use evo_ci.Agents.ToolLoop.Turns.{Gateway, Final, turn, turns, final_answer, credited, closing}
use evo_ci.Agents.ToolLoop.Run.{BoundedToolAgent, Request, limits, run, start, site_of, budgets_of}
use evo_ci.Agents.ToolLoop.Protocol.{replay, is_complete}
use evo_ci.Agents.ToolLoop.Protocol.Strict.{strict, run-strict}
use evo_ci.Agents.ToolLoop.Spending.{Spends}
use evo_ci.Agents.ToolLoop.Spending.Whole.{run-Spends, final_answer-reserved}
use evo_ci.Agents.ToolLoop.Credit.{method_use_id, credited-refs}

unfoldable program : Unit {0}
unfolding read_tool_result take with_reader load_skill_id skill_ref_from_arguments result_success
    charge note_load note_script conclude answer_call answer_calls turn turns final_answer credited
    limits run ainvoke resolve_tool record_changed_paths register emit make_event combined
    consume_model_call consume_tool_call remaining_model_calls replay is_complete
program = tt

abbrev short_text : List ℕ
short_text = 104 ∷ 105 ∷ []

-- Whose state is the list of loaded skills.
abbrev load_skill : ToolSpec (List String)
load_skill = record {
  capability = "read_files";
  function = λ s a. ("lint" ∷ s, ok (record { payload = plain; json = short_text }));
  args_model = none;
}

abbrev broken : ToolSpec (List String)
broken = record {
  capability = "search_code";
  function = λ s a. (s, raise (os_error "gone"));
  args_model = none;
}

abbrev tools : ToolRegistry (List String)
tools = record {
  capabilities = worker_investigate_capabilities;
  tool_allowlist = none;
  tools = ("load_skill", load_skill) ∷ ("search_code", broken) ∷ [];
  changed = [];
  state = [];
}

abbrev call : String → String → ToolCallRequest
call id name = record { call_id = id; name = name; arguments = ("skill_id", text "lint") ∷ [] }

abbrev calls : List ToolCallRequest
calls = call "a" "load_skill" ∷ call "b" "search_code" ∷ call "c" "unknown" ∷ []

-- It asks for three calls, and claims two skills at the end.
abbrev gateway : Gateway (List ToolLoopMessage)
gateway = record {
  next_action = λ i ms. ok (record { content = "look"; tool_calls = calls });
  finalize = λ ms. ok (record { used_skill_refs = some ("lint" ∷ "other" ∷ []); body = ms });
}

abbrev agent : BoundedToolAgent
agent = record { max_iterations = 4; max_tool_calls = 2 }

abbrev budget : ℕ → RunRepairBudget
budget used = record {
  max_model_calls = 9;
  max_tool_calls = 5;
  model_calls = used;
  tool_calls = 0;
  model_message = "model";
  tool_message = "tool";
}

abbrev request : Request
request = record {
  run_id = "r";
  agent_id = "worker";
  invocation_id = "i";
  system_prompt = "system";
  task_prompt = "task";
  run_budget = some (budget 6);
  extra_budget = some (budget 0);
}

abbrev render : Page → List ℕ
render page = page.content

-- The third call comes after the limit; all three are answered, and one turn and one final call are charged.
run_answers :
    let after = run render gateway (λ s. s) agent request [] tools in
    (after.1 ≡ ok (record { used_skill_refs = some ("lint" ∷ []); body = after.0.messages }))
    × (after.0.budgets
        ≡ record (budget 8) { tool_calls = 2 } ∷ record (budget 2) { tool_calls = 2 } ∷ [])
    × (is_complete after.0.messages ≡ true)
    × (length after.0.messages ≡ 6)
unfolding program strip sorted_set
run_answers = (refl, refl, refl, refl)

run-strict_example :
    run render gateway (λ s. s) agent request [] tools
    ≡ run render (strict gateway) (λ s. s) agent request [] tools
run-strict_example = run-strict render gateway (λ s. s) agent request [] tools

limits_found : limits agent request ≡ ok (2, 2)
unfolding program
limits_found = refl

run-Spends_example :
    (1 ≤ 2)
    × (2 ≤ 4)
    × (2 ≤ 2)
    × Spends 3 2 (budgets_of request) (run render gateway (λ s. s) agent request [] tools).0.budgets
run-Spends_example = run-Spends render gateway (λ s. s) agent request [] tools 2 2 limits_found

abbrev begun : ToolRegistry (Shared (List String))
begun = with_reader render (shared tools)

unfoldable after_turns : LoopState (List String)
after_turns = (turns gateway (site_of request 2) 2 1 (start request [] begun)).0

turns_end : turns gateway (site_of request 2) 2 1 (start request [] begun) ≡ (after_turns, ok tt)
unfolding program after_turns
turns_end = refl

fresh_budget : (b : RunRepairBudget) → request.extra_budget ≡ some b → b.model_calls ≡ 0
fresh_budget b e = ground arith

final_answer-reserved_example :
    (final_answer gateway (site_of request 2) after_turns).1
    ≡ gateway.finalize (closing after_turns).messages
final_answer-reserved_example =
    final_answer-reserved gateway agent request 2 2 [] begun after_turns limits_found fresh_budget
      turns_end

abbrev claim : Final ℕ
claim = record { used_skill_refs = some ("lint" ∷ "other" ∷ []); body = 0 }

abbrev credit : LoopState (List String) × Outcome (Final ℕ)
credit = credited (λ s. s) (site_of request 2) (after_turns, ok claim)

credited-refs_example :
    (refs : List String) × (credit.1 ≡ ok (record claim { used_skill_refs = some refs }))
    × ((skill : String)
        → contains refs skill ≡ (
            contains ("lint" ∷ "other" ∷ []) skill
              && (contains after_turns.tools.state.inner skill
                  || contains after_turns.selected_skills skill)
            || contains after_turns.used_skills skill))
    × ((skill : String)
        → contains refs skill ≡ true
        → contains after_turns.used_skills skill ≡ false
        → any (has_id (method_use_id (site_of request 2) skill)) credit.0.events ≡ true)
credited-refs_example =
    credited-refs (λ s. s) (site_of request 2) after_turns claim ("lint" ∷ "other" ∷ []) refl

abbrev cache : List (String × List ℕ)
cache = ("a", 1 ∷ 2 ∷ 3 ∷ 4 ∷ 5 ∷ []) ∷ []

read_on-whole_example : read_on 6 cache "a" 2 0 ≡ ok (1 ∷ 2 ∷ 3 ∷ 4 ∷ 5 ∷ [])
read_on-whole_example = read_on-whole 2 "a" (1 ∷ 2 ∷ 3 ∷ 4 ∷ 5 ∷ []) cache (omega arith) refl

ainvoke-available_example :
    (contains (available tools) "search_code" ≡ false
      → (e : Raised) × (ainvoke "search_code" [] tools ≡ (tools, raise e)))
    × (contains (available tools) "search_code" ≡ true
        → (spec : ToolSpec (List String)) × (Dict.lookup "search_code" tools.tools ≡ some spec)
          × (resolve_tool tools "search_code" [] ≡ validated spec [])
          × ((e : Raised)
              → validated spec [] ≡ raise e
              → ainvoke "search_code" [] tools ≡ (tools, raise e)))
ainvoke-available_example = ainvoke-available tools "search_code" [] (refl, (refl, tt))

abbrev written : ToolResult
written = record {
  payload = mapping (record {
    exit_code = none;
    timed_out = false;
    stderr = none;
    created_files = some ("src/new.py" ∷ "" ∷ []);
    modified_files = none;
    deleted_files = none;
  });
  json = [];
}

record_changed_paths-adds_example :
    contains (changed_paths (record_changed_paths "create_file" written tools)) "src/new.py" ≡ (
      contains (changed_paths tools) "src/new.py"
      || (counts tools.capabilities "create_file" written.payload
          && names_path written.payload "src/new.py"))
record_changed_paths-adds_example =
    record_changed_paths-adds tools "create_file" written "src/new.py"
