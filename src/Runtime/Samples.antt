-- ===== src/Runtime/Samples.antt =====
-- Small budgets, and what they allow.
use evo_ci.Prelude.{
  ℕ, ◌+◌, ◌≡◌, ◌≤◌, ◌<◌, refl, some, [], ◌∷◌, ok, raise, repair_budget_exhausted, arith,
}
use evo_ci.Prelude.{any, true, ◌++◌, none, List}
use evo_ci.Prelude.{false, some}
use evo_ci.Runtime.Budget.{recovered, consume_model_call}
use evo_ci.Runtime.Budget.Recovery.{recovered-emit}
use evo_ci.Runtime.Events.{tool_call, model_call, is_type, payload_is, RunEvent, run_started}
use evo_ci.Runtime.Recorder.{make_event, emit}
use evo_ci.Runtime.Recorder.Once.{IsOnce, has_id, emit_lem}
use evo_ci.Runtime.Budget.{
  RunRepairBudget, consume_tool_call, remaining_model_calls, remaining_tool_calls,
  ensure_tool_calls, combined, action_call_capacity,
}
use evo_ci.Runtime.Budget.Bounds.{
  IsWithin, consume_tool_call_exact, ensure_tool_calls-reserves, tool_calls_in_a_row, Charges,
  combined_exact, action_call_capacity_bounds,
}

abbrev of_run : RunRepairBudget
of_run = record {
  max_model_calls = 8;
  max_tool_calls = 5;
  model_calls = 3;
  tool_calls = 2;
  model_message = "run-level model-call budget exhausted";
  tool_message = "run-level tool-call budget exhausted";
}

abbrev of_task : RunRepairBudget
of_task = record of_run { max_tool_calls = 2 }

of_run-IsWithin : IsWithin of_run
of_run-IsWithin = record { model = omega arith; tool = omega arith }

of_task-IsWithin : IsWithin of_task
of_task-IsWithin = record { model = omega arith; tool = omega arith }

consume_tool_call_exact_example :
    (0 < remaining_tool_calls of_task
      → ((consume_tool_call of_task).1 ≡ ok tt)
        × (remaining_tool_calls (consume_tool_call of_task).0 + 1 ≡ remaining_tool_calls of_task)
        × (remaining_model_calls (consume_tool_call of_task).0 ≡ remaining_model_calls of_task))
    × (remaining_tool_calls of_task ≡ 0
        → consume_tool_call of_task
          ≡ (of_task, raise (repair_budget_exhausted of_task.tool_message)))
consume_tool_call_exact_example = consume_tool_call_exact of_task

three_fit : ensure_tool_calls 3 of_run ≡ ok tt
unfolding ensure_tool_calls
three_fit = refl

ensure_tool_calls-reserves_example :
    (tool_calls_in_a_row 3 of_run).tool_calls ≡ of_run.tool_calls + 3
ensure_tool_calls-reserves_example = ensure_tool_calls-reserves 3 of_run of_run-IsWithin three_fit

-- The budget of the task is spent: that of the run is charged, and a third one is not reached.
combined_exact_example :
    Charges consume_tool_call
      (of_run ∷ of_task ∷ of_run ∷ [])
      (combined consume_tool_call (of_run ∷ of_task ∷ of_run ∷ []))
combined_exact_example = combined_exact consume_tool_call (of_run ∷ of_task ∷ of_run ∷ [])

stopped_at_task : combined consume_tool_call (of_run ∷ of_task ∷ of_run ∷ []) ≡ (
  record of_run { tool_calls = 3 } ∷ of_task ∷ of_run ∷ [],
  raise (repair_budget_exhausted "run-level tool-call budget exhausted"),
)
unfolding combined consume_tool_call
stopped_at_task = refl

action_call_capacity_bounds_example :
    let turns = action_call_capacity 6 5 (some 3) in
    (turns ≤ 6)
    × (0 < turns → turns + 1 ≤ 5)
    × ((t : ℕ) → some 3 ≡ some t → 0 < turns → turns + 1 ≤ t)
action_call_capacity_bounds_example = action_call_capacity_bounds 6 5 (some 3)

abbrev started : RunEvent
unfolding make_event
started = make_event "run" run_started none none "0" []

none_twice : IsOnce []
none_twice id = omega arith

emit_lem_example :
    IsOnce (emit started [])
    × (any (has_id started.event_id) (emit started []) ≡ true)
    × (emit started (emit started []) ≡ emit started [])
    × ((later : List RunEvent) × (emit started [] ≡ [] ++ later))
emit_lem_example = emit_lem started [] none_twice

abbrev edit_call : RunEvent
unfolding make_event
edit_call = make_event "run" tool_call (some "worker:fix") none "apply:1:fix:app.py" []

edit_call_new : any (has_id edit_call.event_id) (started ∷ []) ≡ false
unfolding edit_call started
edit_call_new = refl

recovered-emit_example :
    let before = recovered 8 5 (started ∷ []) in
    let after = recovered 8 5 (emit edit_call (started ∷ [])) in
    (edit_call.type ≡ tool_call
      → payload_is edit_call "budget_scope" "post_run" ≡ false
      → payload_is edit_call "budget_scope" "cleanup" ≡ false
      → before.tool_calls < 5
      → after ≡ (consume_tool_call before).0)
    × (edit_call.type ≡ model_call
        → payload_is edit_call "budget_scope" "post_run" ≡ false
        → before.model_calls < 8
        → after ≡ (consume_model_call before).0)
    × (edit_call.type ≡ tool_call
        → payload_is edit_call "budget_scope" "cleanup" ≡ true
        → after ≡ before)
    × (payload_is edit_call "budget_scope" "post_run" ≡ true → after ≡ before)
    × (is_type edit_call.type tool_call ≡ false
        → is_type edit_call.type model_call ≡ false
        → after ≡ before)
recovered-emit_example = recovered-emit 8 5 edit_call (started ∷ []) edit_call_new
