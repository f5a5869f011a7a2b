-- ===== src/Agents/ToolLoop/Stages.antt =====
-- What the stages of src/evoci/agents/tool_loop.py leave alone, and how a fact passes from one stage to
-- the next.
use evo_ci.Prelude.{
  ℕ, ◌≡◌, refl, [], ◌∷◌, ◌++◌, Bool, true, false, Outcome, ok, raise, arith, Raised, is_tool_error,
  sym, ◌∙◌, if◌then◌else◌,
}
use evo_ci.Runtime.Budget.{Method, combined, consume_tool_call}
use evo_ci.Runtime.Events.{tool_call, tool_result}
use evo_ci.Tools.Registry.{ToolResult, ainvoke}
use evo_ci.Agents.ToolLoop.Calls.{
  ToolCallRequest, tool, ToolContent, Site, LoopState, Attempt, answer, failed_attempt,
  result_success,
}
use evo_ci.Agents.ToolLoop.Turns.{unless_done}
use evo_ci.Agents.ToolLoop.Answers.{
  Stage, ◌then_do◌, charge, note_load, note_script, conclude, answer_call, log, settled,
  tool_result_payload, tool_call_payload, message_result, message_error,
}

module _ {S : Type 0} where
  -- A fact about the state, where the stage did not raise.
  abbrev pub After : (LoopState S → Type 0) → Stage S → Type 0
  After P (st, ok u) = P st
  After P (st, raise e) = Unit

  pub then_do-After :
      (P Q : LoopState S → Type 0) (m : Stage S) (next : LoopState S → Stage S)
      → After P m
      → ((st : LoopState S) → P st → After Q (next st))
      → After Q (m then_do next)
  then_do-After P Q (st, ok u) next h later = later st h
  then_do-After P Q (st, raise e) next h later = tt

  pub then_do-cong :
      (P : LoopState S → Type 0) (m : Stage S) (f g : LoopState S → Stage S)
      → After P m
      → ((st : LoopState S) → P st → f st ≡ g st)
      → (m then_do f) ≡ (m then_do g)
  then_do-cong P (st, ok u) f g h same = same st h
  then_do-cong P (st, raise e) f g h same = refl

  -- The parts of the state that the notes about skills do not touch.
  pub record SameTalk (st st' : LoopState S) : Type 0 where
    pub messages : st'.messages ≡ st.messages
    pub count : st'.tool_count ≡ st.tool_count
    pub budgets : st'.budgets ≡ st.budgets
    pub done : st'.should_finalize ≡ st.should_finalize

  -- Charging touches the budgets alone.
  pub charge-same :
      (consume : Method) (st : LoopState S)
      → After
          (SameTalk (record st { budgets = (combined consume st.budgets).0 }))
          (charge consume st)
  unfolding charge
  charge-same consume st = either ((combined consume st.budgets).1)
    where
      either :
          (done : Outcome Unit)
          → After
              (SameTalk (record st { budgets = (combined consume st.budgets).0 }))
              (record st { budgets = (combined consume st.budgets).0 }, done)
      either (ok u) = record { messages = refl; count = refl; budgets = refl; done = refl }
      either (raise e) = tt

  pub note_load-same :
      (s : Site) (c : ToolCallRequest) (a : Attempt) (st : LoopState S)
      → SameTalk st (note_load s c a st)
  unfolding note_load
  note_load-same s c a st = ground arith

  pub note_script-same :
      (s : Site) (c : ToolCallRequest) (a : Attempt) (st : LoopState S)
      → SameTalk st (note_script s c a st)
  unfolding note_script
  note_script-same s c a st = ground arith

  -- A call that was run: one message more, and nothing else of this changes.
  pub record Answered (c : ToolCallRequest) (st st' : LoopState S) : Type 0 where
    pub content : ToolContent
    pub messages : st'.messages ≡ st.messages ++ tool c.call_id content ∷ []
    pub count : st'.tool_count ≡ st.tool_count
    pub budgets : st'.budgets ≡ st.budgets
    pub done : st'.should_finalize ≡ st.should_finalize

  pub conclude-Answered :
      (s : Site) (i : ℕ) (c : ToolCallRequest) (a : Attempt) (st : LoopState S)
      → Answered c st (conclude s i c a st)
  unfolding conclude
  conclude-Answered s i c a st =
      let logged = log s tool_result c.call_id (tool_result_payload i c a) st in
      let loaded = note_load-same s c a logged in
      let noted = note_script-same s c a (note_load s c a logged) in
      record {
        content = answer a.success (message_result c.call_id a) (message_error a.error);
        messages = ground (arith, loaded.messages, noted.messages);
        count = ground (arith, loaded.count, noted.count);
        budgets = ground (arith, loaded.budgets, noted.budgets);
        done = ground (arith, loaded.done, noted.done);
      }

  if-After :
      (P : LoopState S → Type 0) (b : Bool) (m : Stage S) (st : LoopState S) (e : Raised)
      → After P m
      → After P (if b then m else (st, raise e))
  if-After P true m st e h = h
  if-After P false m st e h = tt

  since :
      (c : ToolCallRequest) (before st st' : LoopState S)
      → SameTalk before st
      → Answered c st st'
      → Answered c before st'
  since c before st st' same h = record {
    content = h.content;
    messages = rw (sym same.messages) h.messages;
    count = h.count ∙ same.count;
    budgets = h.budgets ∙ same.budgets;
    done = h.done ∙ same.done;
  }

  settled-Answered :
      (s : Site) (i : ℕ) (c : ToolCallRequest) (st : LoopState S) (r : Outcome ToolResult)
      → After (Answered c st) (settled s i c st r)
  settled-Answered s i c st (ok r) = conclude-Answered s i c (result_success r) st
  settled-Answered s i c st (raise e) =
      if-After (Answered c st) (is_tool_error e) _ st e
        (conclude-Answered s i c (failed_attempt c.name e) st)

  pub imp-After :
      (P Q : LoopState S → Type 0) (m : Stage S)
      → ((st : LoopState S) → P st → Q st)
      → After P m
      → After Q m
  imp-After P Q (st, ok u) f h = f st h
  imp-After P Q (st, raise e) f h = tt

  -- What a call leaves: the budgets are those that the charge leaves.
  pub answer_call-Answered :
      (s : Site) (i : ℕ) (c : ToolCallRequest) (st : LoopState S)
      → After
          (Answered c (record st { budgets = (combined consume_tool_call st.budgets).0 }))
          (answer_call s i c st)
  unfolding answer_call
  answer_call-Answered s i c st =
      let charged = record st { budgets = (combined consume_tool_call st.budgets).0 } in
      then_do-After (λ paid. SameTalk charged paid) (Answered c charged)
        (charge consume_tool_call st) _ (charge-same consume_tool_call st)
        (λ paid same.
          let announced = log s tool_call c.call_id (tool_call_payload i c) paid in
          let (tools, result) = ainvoke c.name c.arguments announced.tools in
          let invoked = record announced { tools = tools } in
          imp-After (Answered c invoked) (Answered c charged) (settled s i c invoked result)
            (λ st' h.
              since c charged invoked st'
                (record {
                  messages = same.messages;
                  count = same.count;
                  budgets = same.budgets;
                  done = same.done;
                })
                h)
            (settled-Answered s i c invoked result))

  pub either-After :
      (P : LoopState S → Type 0) (b : Bool) (m n : Stage S)
      → (b ≡ true → After P m)
      → (b ≡ false → After P n)
      → After P (if b then m else n)
  either-After P true m n h k = h refl
  either-After P false m n h k = k refl

  pub unless_done-After :
      (P : LoopState S → Type 0) (more : LoopState S → Stage S) (st : LoopState S)
      → P st
      → (P st → After P (more st))
      → After P (unless_done more st)
  unless_done-After P more st h k =
      either-After P st.should_finalize (st, ok tt) (more st) (λ e. h) (λ e. k h)

pub if-cong {ℓ} :
    {A : Type ℓ} (b : Bool) (x y z : A) → y ≡ z → (if b then x else y) ≡ (if b then x else z)
if-cong true x y z h = refl
if-cong false x y z h = h
