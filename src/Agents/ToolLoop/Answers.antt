-- ===== src/Agents/ToolLoop/Answers.antt =====
-- src/evoci/agents/tool_loop.py: the answer to the tool calls of one assistant message. The payload
-- of an event leaves out the arguments and the result of a call, and the time it took.
use evo_ci.Prelude.Dict
use evo_ci.Prelude.{
  ℕ, ◌+◌, String, Option, none, some, List, [], ◌∷◌, ◌++◌, true, not, ◌||◌, ◌==◌, ltb,
  if◌then◌else◌, Outcome, ok, raise, is_tool_error, contains, is_some, truthy, length, ◌⧺◌, show,
  map, or_else, ℤ,
}
use evo_ci.Runtime.Events.{
  EventType, Value, null, text, number, integer, flag, texts, optional, tool_call, tool_result,
  skill_selected, skill_used, skill_invocation_rejected, attempt_failed,
}
use evo_ci.Runtime.Recorder.{make_event, emit}
use evo_ci.Runtime.Budget.{Method, combined, consume_tool_call}
use evo_ci.Tools.Paths.{codes}
use evo_ci.Tools.Registry.{Fields, ToolResult, ainvoke, add}
use evo_ci.Agents.ToolLoop.Pages.{take}
use evo_ci.Agents.ToolLoop.Calls.{
  ToolCallRequest, MessageResult, whole, absent, projected, answer, exhausted, ToolLoopMessage,
  tool, Site, LoopState, preview_chars, error_chars, load_skill_id, skill_ref_from_arguments,
  Attempt, fields_of, result_success, failed_attempt,
}

-- A stage of `run`: the state it leaves, and whether it raised.
abbrev pub Stage : Type 0 → Type 0
Stage S = LoopState S × Outcome (Unit {0})

abbrev optional_integer : Option ℤ → Value
optional_integer none = null
optional_integer (some x) = integer x

-- The text that is cached, and its preview: "…" is code point 8230.
abbrev is_large : Attempt → Option (List ℕ)
is_large a = elim a.result [
  | none ↦ none
  | some r ↦ if ltb preview_chars (length r.json) then some r.json else none
]

abbrev pub clipped_error : List ℕ → List ℕ
clipped_error e = if ltb error_chars (length e) then take error_chars e ++ 8230 ∷ [] else e

abbrev pub message_error : Option String → Option (List ℕ)
message_error none = none
message_error (some e) = some (clipped_error (codes e))

abbrev pub message_result : String → Attempt → MessageResult
message_result id a = elim (is_large a) [
  | some json ↦ projected id (length json) (take preview_chars json)
  | none ↦ (elim a.result [ none ↦ absent | some r ↦ whole r ])
]

abbrev path_fields : Option Fields → List (String × Value)
path_fields none = []
path_fields (some f) =
    ("created_files", texts (or_else f.created_files []))
    ∷ ("modified_files", texts (or_else f.modified_files []))
    ∷ []

abbrev result_fields : Attempt → Option Fields
result_fields a = elim a.result [ none ↦ none | some r ↦ fields_of r.payload ]

abbrev pub tool_call_payload : ℕ → ToolCallRequest → List (String × Value)
tool_call_payload iteration c =
    ("call_id", text c.call_id) ∷ ("tool_name", text c.name) ∷ ("iteration", number iteration) ∷ []

abbrev pub tool_result_payload : ℕ → ToolCallRequest → Attempt → List (String × Value)
tool_result_payload iteration c a =
    ("call_id", text c.call_id)
    ∷ ("tool_name", text c.name)
    ∷ ("success", flag a.success)
    ∷ ("exit_code", optional_integer a.exit_code)
    ∷ ("error", optional a.error)
    ∷ ("iteration", number iteration)
    ∷ path_fields (result_fields a)

-- The tool messages of the calls that are not run.
abbrev pub refusals : List ToolCallRequest → List ToolLoopMessage
refusals calls = map (λ c. tool c.call_id exhausted) calls

module _ {S : Type 0} where
  infixl 5 ◌then_do◌
  -- The next stage, unless this one raised.
  abbrev pub ◌then_do◌ : Stage S → (LoopState S → Stage S) → Stage S
  (st, ok u) then_do next = next st
  (st, raise e) then_do next = (st, raise e)

  abbrev pub log : Site → EventType → String → List (String × Value) → LoopState S → LoopState S
  log s type key payload st = record st {
    events =
        emit (make_event s.run_id type (some s.agent_id) (some s.invocation_id) key payload)
          st.events;
  }

  abbrev pub say : ToolLoopMessage → LoopState S → LoopState S
  say m st = record st { messages = st.messages ++ m ∷ [] }

  -- `budget.consume_…()`, where no budget charges nothing
  unfoldable pub charge : Method → LoopState S → Stage S
  charge consume st =
      let (budgets, done) = combined consume st.budgets in (record st { budgets = budgets }, done)

  abbrev rejected_invocation :
      Site → String → Option String → Option Value → Option String → LoopState S → LoopState S
  rejected_invocation s id skill resource error st =
      log s skill_invocation_rejected id
        (("skill_id", optional skill)
          ∷ ("resource", or_else resource null)
          ∷ ("reason", optional error)
          ∷ [])
        st

  abbrev selected : Site → Option String → LoopState S → LoopState S
  selected s none st = st
  selected s (some skill) st =
      if contains st.selected_skills skill
      then st
      else log s skill_selected ("select:" ⧺ skill) (("skills", texts (skill ∷ [])) ∷ [])
          (record st { selected_skills = skill ∷ st.selected_skills })

  -- What a call of `load_skill` leaves; its rejection names no resource.
  unfoldable pub note_load : Site → ToolCallRequest → Attempt → LoopState S → LoopState S
  note_load s c a st =
      if not (c.name == "load_skill")
      then st
      else if a.rejected || not a.success
      then log s skill_invocation_rejected c.call_id
          (("skill_id", optional (load_skill_id c.arguments)) ∷ ("reason", optional a.error) ∷ [])
          st
      else selected s (truthy (load_skill_id c.arguments)) st

  abbrev script_used : Site → ToolCallRequest → Attempt → Option String → LoopState S → LoopState S
  script_used s c a none st = st
  script_used s c a (some skill) st =
      log s skill_used c.call_id
        (("skill_id", text skill)
          ∷ ("usage_kind", text "script")
          ∷ ("resource", or_else (Dict.lookup "script_name" c.arguments) null)
          ∷ ("success", flag a.success)
          ∷ [])
        (record st { used_skills = add skill st.used_skills })

  unfoldable pub note_script : Site → ToolCallRequest → Attempt → LoopState S → LoopState S
  note_script s c a st =
      if not (c.name == "run_skill_script")
      then st
      else if a.rejected || not (is_some a.result)
      then rejected_invocation s c.call_id (skill_ref_from_arguments c.arguments)
          (Dict.lookup "script_name" c.arguments) a.error st
      else script_used s c a (skill_ref_from_arguments c.arguments) st

  abbrev remember : String → Option (List ℕ) → LoopState S → LoopState S
  remember id none st = st
  remember id (some json) st =
      let tools = st.tools in
      let shared = tools.state in
      record st {
        tools = record tools {
          state = record shared { cached = Dict.insert id json shared.cached };
        };
      }

  -- The events, the sets of skills and the tool message that follow a call.
  unfoldable pub conclude : Site → ℕ → ToolCallRequest → Attempt → LoopState S → LoopState S
  conclude s iteration c a st =
      say (tool c.call_id (answer a.success (message_result c.call_id a) (message_error a.error))) (
        remember c.call_id (is_large a) (
          note_script s c a
            (note_load s c a (log s tool_result c.call_id (tool_result_payload iteration c a) st))))

  -- An exception that the loop does not catch leaves it without a tool message.
  abbrev pub settled : Site → ℕ → ToolCallRequest → LoopState S → Outcome ToolResult → Stage S
  settled s iteration c st (ok r) = (conclude s iteration c (result_success r) st, ok tt)
  settled s iteration c st (raise e) =
      if is_tool_error e
      then (conclude s iteration c (failed_attempt c.name e) st, ok tt)
      else (st, raise e)

  -- One call that the limit allows: it is charged, announced, run and answered.
  unfoldable pub answer_call : Site → ℕ → ToolCallRequest → LoopState S → Stage S
  answer_call s iteration c st = charge consume_tool_call st then_do λ paid.
      let announced = log s tool_call c.call_id (tool_call_payload iteration c) paid in
      let (tools, result) = ainvoke c.name c.arguments announced.tools in
      settled s iteration c (record announced { tools = tools }) result

  abbrev pub stop_calls : Site → ℕ → List ToolCallRequest → LoopState S → LoopState S
  stop_calls s iteration calls st =
      record (log s attempt_failed ("tool-budget:" ⧺ show iteration)
        (("kind", text "tool_failure")
          ∷ ("agent_id", text s.agent_id)
          ∷ ("reason", text "leaf tool-call budget exhausted")
          ∷ ("iteration", number iteration)
          ∷ [])
        (record st { messages = st.messages ++ refusals calls })) { should_finalize = true }

  -- `for idx, call in enumerate(response.tool_calls)`
  unfoldable pub answer_calls : Site → ℕ → List ToolCallRequest → LoopState S → Stage S
  answer_calls s iteration [] st = (st, ok tt)
  answer_calls s iteration (c ∷ cs) st =
      let counted = record st { tool_count = st.tool_count + 1 } in
      let rest = answer_calls s iteration cs in
      if ltb s.max_tools counted.tool_count
      then (stop_calls s iteration (c ∷ cs) counted, ok tt)
      else answer_call s iteration c counted then_do rest
