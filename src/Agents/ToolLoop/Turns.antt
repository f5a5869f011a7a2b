-- ===== src/Agents/ToolLoop/Turns.antt =====
-- src/evoci/agents/tool_loop.py, `BoundedToolAgent.run`: the turns of the model, the final answer, and
-- the skills that it may claim. The gateway is a parameter: what it answers to a list of messages.
use evo_ci.Prelude.{
  ℕ, zero, suc, ◌+◌, String, Option, none, some, List, [], ◌∷◌, ◌++◌, true, not, ◌||◌,
  if◌then◌else◌, Outcome, ok, raise, contains, ◌⧺◌, show, keep,
}
use evo_ci.Prelude.Sorted.{sorted_set}
use evo_ci.Runtime.Events.{Value, null, text, number, model_call, skill_used}
use evo_ci.Runtime.Budget.{consume_model_call}
use evo_ci.Agents.ToolLoop.Calls.{
  ToolCallRequest, ToolLoopMessage, user, assistant, Site, LoopState, described,
}
use evo_ci.Agents.ToolLoop.Answers.{Stage, ◌then_do◌, log, say, charge, answer_calls}

pub record ToolModelResponse : Type 0 where
  pub content : String
  pub tool_calls : List ToolCallRequest

-- The final answer: the skills it claims, where its schema has the field, and the rest of it.
pub record Final (O : Type 0) : Type 0 where
  pub used_skill_refs : Option (List String)
  pub body : O

-- The model's answers, or the exception that ends the call.
pub record Gateway (O : Type 0) : Type 0 where
  pub next_action : ℕ → List ToolLoopMessage → Outcome ToolModelResponse
  pub finalize : List ToolLoopMessage → Outcome (Final O)

abbrev turn_key : ℕ → String
turn_key iteration = "tool-turn:" ⧺ show iteration

abbrev pub exhausted_note : String
exhausted_note =
    "The leaf iteration budget is exhausted. Synthesize the best supported final output."

abbrev pub method_payload : String → List (String × Value)
method_payload skill =
    ("skill_id", text skill)
    ∷ ("usage_kind", text "procedure")
    ∷ ("resource", null)
    ∷ ("success", null)
    ∷ []

module _ {S : Type 0} where
  abbrev pub note_turn : Site → ℕ → List (String × Value) → LoopState S → LoopState S
  note_turn s iteration more st =
      log s model_call (turn_key iteration)
        (("phase", text "tool_loop") ∷ ("iteration", number iteration) ∷ more) st

  abbrev pub calls_of : Site → ℕ → List ToolCallRequest → LoopState S → Stage S
  calls_of s iteration [] st = (record st { should_finalize = true }, ok tt)
  calls_of s iteration (c ∷ cs) st = answer_calls s iteration (c ∷ cs) st

  -- What follows the model's answer. The counts of its tokens are not kept.
  abbrev pub replied : Site → ℕ → LoopState S → Outcome ToolModelResponse → Stage S
  replied s iteration st (raise e) =
      (note_turn s iteration (("error", text (described e)) ∷ []) st, raise e)
  replied s iteration st (ok response) =
      calls_of s iteration response.tool_calls
        (say (assistant response.content response.tool_calls) (note_turn s iteration [] st))

  abbrev pub unless_done : (LoopState S → Stage S) → LoopState S → Stage S
  unless_done more st = if st.should_finalize then (st, ok tt) else more st

  abbrev pub closing : LoopState S → LoopState S
  closing st = if st.should_finalize then st else say (user exhausted_note) st

  abbrev pub note_final : Site → List (String × Value) → LoopState S → LoopState S
  note_final s more st =
      log s model_call "structured-final" (("phase", text "structured_final") ∷ more) st

  -- `valid_claimed`: the claimed skills that were activated or selected in this run
  abbrev pub valid_claims : (S → List String) → LoopState S → List String → List String
  valid_claims activated st claimed =
      keep
        (λ skill.
          contains (activated st.tools.state.inner) skill || contains st.selected_skills skill)
        claimed

  abbrev pub note_method : Site → String → LoopState S → LoopState S
  note_method s skill st = log s skill_used ("method-use:" ⧺ skill) (method_payload skill) st

  abbrev pub note_methods : Site → List String → LoopState S → LoopState S
  note_methods s [] st = st
  note_methods s (skill ∷ more) st = note_methods s more (note_method s skill st)

module _ {S O : Type 0} where
  -- One turn of the model.
  unfoldable pub turn : Gateway O → Site → ℕ → LoopState S → Stage S
  turn g s iteration st = charge consume_model_call st then_do λ paid.
      replied s iteration paid (g.next_action iteration paid.messages)

  -- `for iteration in range(1, action_limit + 1)`, with the number of turns left
  unfoldable pub turns : Gateway O → Site → ℕ → ℕ → LoopState S → Stage S
  turns g s zero iteration st = (st, ok tt)
  turns g s (suc left) iteration st =
      turn g s iteration st then_do unless_done (turns g s left (iteration + 1))

  abbrev pub noted_final : Site → LoopState S → Outcome (Final O) → LoopState S × Outcome (Final O)
  noted_final s st (raise e) = (note_final s (("error", text (described e)) ∷ []) st, raise e)
  noted_final s st (ok result) = (note_final s [] st, ok result)

  abbrev pub asked : Gateway O → Site → Stage S → LoopState S × Outcome (Final O)
  asked g s (st, raise e) = noted_final s st (raise e)
  asked g s (st, ok u) = noted_final s st (g.finalize st.messages)

  -- The final call, charged like the others.
  unfoldable pub final_answer : Gateway O → Site → LoopState S → LoopState S × Outcome (Final O)
  final_answer g s st = asked g s (charge consume_model_call (closing st))

  -- The claims of an answer whose schema has none are left alone.
  abbrev pub credited_to :
      (S → List String)
      → Site
      → LoopState S
      → Final O
      → Option (List String)
      → LoopState S × Outcome (Final O)
  credited_to activated s st result none = (st, ok result)
  credited_to activated s st result (some claimed) =
      let claims = valid_claims activated st claimed in
      (
        note_methods s (sorted_set (keep (λ skill. not (contains st.used_skills skill)) claims)) st,
        ok (record result { used_skill_refs = some (sorted_set (claims ++ st.used_skills)) }),
      )

  unfoldable pub credited :
      (S → List String) → Site → LoopState S × Outcome (Final O) → LoopState S × Outcome (Final O)
  credited activated s (st, raise e) = (st, raise e)
  credited activated s (st, ok result) = credited_to activated s st result result.used_skill_refs
