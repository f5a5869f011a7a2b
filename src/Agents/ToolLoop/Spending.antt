-- ===== src/Agents/ToolLoop/Spending.antt =====
-- What a loop of src/evoci/agents/tool_loop.py charges to the budgets of the run and of the task.
pub mod Limits
pub mod Whole
use evo_ci.Prelude.{
  ℕ, zero, suc, ◌+◌, ◌-◌, ◌≤◌, ◌≡◌, refl, sym, ◌∙◌, String, Option, none, some, List, [], ◌∷◌, ◌++◌,
  Bool, true, false, Outcome, ok, raise, arith, if◌then◌else◌, ltb, min, Bool-cases, inl, inr, ◌⊎◌,
  All, ◌<◌, Raised, is_tool_error,
}
use evo_ci.Runtime.Budget.{
  RunRepairBudget, Method, combined, consume_tool_call, consume_model_call, remaining_model_calls,
}
use mathlib.Core.Path.{subst}
use native.Mathlib.Nat.{add-zero}
use evo_ci.Tools.Registry.{ToolRegistry, ToolResult, ainvoke}
use evo_ci.Agents.ToolLoop.Pages.{Page, with_reader, shared}
use evo_ci.Runtime.Events.{RunEvent, tool_call}
use evo_ci.Agents.ToolLoop.Calls.{
  failed_attempt, result_success, assistant, ToolCallRequest, ToolLoopMessage, Site, LoopState,
}
use evo_ci.Agents.ToolLoop.Answers.{
  Stage, ◌then_do◌, charge, answer_call, answer_calls, settled, log, tool_call_payload, say,
}
use evo_ci.Agents.ToolLoop.Turns.{
  Gateway, ToolModelResponse, Final, turn, turns, replied, calls_of, note_turn, unless_done,
  closing, final_answer, asked,
}
use evo_ci.Agents.ToolLoop.Run.{
  BoundedToolAgent, Request, run, start, looped, finished, limits, site_of, budgets_of,
}
use evo_ci.Agents.ToolLoop.Stages.{
  After, then_do-After, conclude-Answered, Answered, SameTalk, charge-same,
}

-- The same budgets, with at most `k` model calls and `t` tool calls more.
abbrev pub Spends : ℕ → ℕ → List RunRepairBudget → List RunRepairBudget → Type 0
Spends k t [] [] = Unit
Spends k t (b ∷ bs) (c ∷ cs) =
    (c.model_calls ≤ b.model_calls + k)
    × (c.tool_calls ≤ b.tool_calls + t)
    × (c.max_model_calls ≡ b.max_model_calls)
    × (c.max_tool_calls ≡ b.max_tool_calls)
    × Spends k t bs cs
Spends k t [] (c ∷ cs) = 1 ≤ 0
Spends k t (b ∷ bs) [] = 1 ≤ 0

pub Spends-refl : (bs : List RunRepairBudget) → Spends 0 0 bs bs
Spends-refl [] = tt
Spends-refl (b ∷ bs) = (omega arith, omega arith, refl, refl, Spends-refl bs)

pub Spends-more :
    (k t k' t' : ℕ) (bs cs : List RunRepairBudget)
    → k ≤ k'
    → t ≤ t'
    → Spends k t bs cs
    → Spends k' t' bs cs
Spends-more k t k' t' [] [] p q h = tt
Spends-more k t k' t' (b ∷ bs) (c ∷ cs) p q (m, n, e, f, h) =
    (omega arith, omega arith, e, f, Spends-more k t k' t' bs cs p q h)
Spends-more k t k' t' [] (c ∷ cs) p q h = h
Spends-more k t k' t' (b ∷ bs) [] p q h = h

-- One charge of one budget.
abbrev pub Charges : ℕ → ℕ → Method → Type 0
Charges k t consume =
    (c : RunRepairBudget)
    → let c' = (consume c).0 in
      (c'.model_calls ≤ c.model_calls + k)
      × (c'.tool_calls ≤ c.tool_calls + t)
      × (c'.max_model_calls ≡ c.max_model_calls)
      × (c'.max_tool_calls ≡ c.max_tool_calls)

-- Charging several budgets: the first is charged, and the others too unless it raised.
combined-either :
    (P : List RunRepairBudget → Type 0) (consume : Method) (c : RunRepairBudget)
    (cs : List RunRepairBudget)
    → P ((consume c).0 ∷ (combined consume cs).0)
    → P ((consume c).0 ∷ cs)
    → P (combined consume (c ∷ cs)).0
unfolding combined
combined-either P consume c cs all first =
    elim ((consume c).1)
      as (λ (done : Outcome (Unit {0})).
        P
          (elim done as (λ x. List RunRepairBudget × Outcome {0} (Unit {0})) [
            | ok u ↦ ((consume c).0 ∷ (combined consume cs).0, (combined consume cs).1)
            | raise e ↦ ((consume c).0 ∷ cs, raise e)
          ]).0) [ ok u ↦ all | raise e ↦ first ]

pub combined-Spends :
    (consume : Method) (x y k t : ℕ)
    → Charges x y consume
    → (bs cs : List RunRepairBudget) → Spends k t bs cs
    → Spends (k + x) (t + y) bs (combined consume cs).0
unfolding combined
combined-Spends consume x y k t one [] [] h = tt
combined-Spends consume x y k t one (b ∷ bs) (c ∷ cs) (m, n, e, f, h) =
    let (m', n', e', f') = one c in
    combined-either (Spends (k + x) (t + y) (b ∷ bs)) consume c cs
      (omega arith, omega arith, e' ∙ e, f' ∙ f, combined-Spends consume x y k t one bs cs h)
      (
        omega arith,
        omega arith,
        e' ∙ e,
        f' ∙ f,
        Spends-more k t (k + x) (t + y) bs cs (omega arith) (omega arith) h,
      )
combined-Spends consume x y k t one [] (c ∷ cs) h = ground arith
combined-Spends consume x y k t one (b ∷ bs) [] h = h

pub consume_model_call-Charges : Charges 1 0 consume_model_call
unfolding consume_model_call
consume_model_call-Charges c = ground arith

consume_tool_call-Charges : Charges 0 1 consume_tool_call
unfolding consume_tool_call
consume_tool_call-Charges c = ground arith

module _ {S : Type 0} where
  -- A fact about the state, whether the stage raised or not.
  abbrev pub Always : (LoopState S → Type 0) → Stage S → Type 0
  Always P m = P m.0

  pub then_do-Always :
      (P Q : LoopState S → Type 0) (m : Stage S) (next : LoopState S → Stage S)
      → Always P m
      → ((st : LoopState S) → P st → Q st)
      → ((st : LoopState S) → P st → Always Q (next st))
      → Always Q (m then_do next)
  then_do-Always P Q (st, ok u) next h stop later = later st h
  then_do-Always P Q (st, raise e) next h stop later = stop st h

  pub if-Always :
      (P : LoopState S → Type 0) (b : Bool) (m n : Stage S)
      → (b ≡ true → Always P m)
      → (b ≡ false → Always P n)
      → Always P (if b then m else n)
  if-Always P true m n h k = h refl
  if-Always P false m n h k = k refl

  abbrev Keeps : LoopState S → LoopState S → Type 0
  Keeps before st = (st.budgets ≡ before.budgets) × (st.tool_count ≡ before.tool_count)

  settled-Keeps :
      (s : Site) (i : ℕ) (c : ToolCallRequest) (st : LoopState S) (r : Outcome ToolResult)
      → Always (Keeps st) (settled s i c st r)
  settled-Keeps s i c st (ok r) =
      let h = conclude-Answered s i c (result_success r) st in (h.budgets, h.count)
  settled-Keeps s i c st (raise e) =
      if-Always (Keeps st) (is_tool_error e) _ _
        (λ _. let h = conclude-Answered s i c (failed_attempt c.name e) st in (h.budgets, h.count))
        (λ _. (refl, refl))

  answer_call-Keeps :
      (s : Site) (i : ℕ) (c : ToolCallRequest) (st : LoopState S)
      → Always
          (Keeps (record st { budgets = (combined consume_tool_call st.budgets).0 }))
          (answer_call s i c st)
  unfolding answer_call charge
  answer_call-Keeps s i c st =
      let before = record st { budgets = (combined consume_tool_call st.budgets).0 } in
      then_do-Always (Keeps before) (Keeps before) (charge consume_tool_call st) _ (refl, refl)
        (λ paid same. same)
        (λ paid same.
          let announced = log s tool_call c.call_id (tool_call_payload i c) paid in
          let (tools, result) = ainvoke c.name c.arguments announced.tools in
          let h = settled-Keeps s i c (record announced { tools = tools }) result in
          (h.0 ∙ same.0, h.1 ∙ same.1))

  -- The charges of a loop that started with `bs`, after `k` turns.
  abbrev pub Spent : List RunRepairBudget → ℕ → ℕ → LoopState S → Type 0
  Spent bs max_tools k st = Spends k (min st.tool_count max_tools) bs st.budgets

  answer_calls-Spent :
      (s : Site) (i k : ℕ) (calls : List ToolCallRequest) (bs : List RunRepairBudget)
      (st : LoopState S)
      → Spent bs s.max_tools k st
      → Always (Spent bs s.max_tools k) (answer_calls s i calls st)
  unfolding answer_calls
  answer_calls-Spent s i k [] bs st h = h
  answer_calls-Spent s i k (c ∷ cs) bs st h =
      let counted = record st { tool_count = st.tool_count + 1 } in
      if-Always (Spent bs s.max_tools k) (ltb s.max_tools (st.tool_count + 1)) _ _
        (λ over.
          Spends-more k (min st.tool_count s.max_tools) k (min (st.tool_count + 1) s.max_tools) bs
            st.budgets (omega arith) (omega arith) h)
        (λ within.
          then_do-Always (Spent bs s.max_tools k) (Spent bs s.max_tools k)
            (answer_call s i c counted) (answer_calls s i cs)
            (let (b, n) = answer_call-Keeps s i c counted in
              rw (b, n)
                (Spends-more (k + 0) (min st.tool_count s.max_tools + 1) k
                  (min (st.tool_count + 1) s.max_tools) bs _ (omega arith) (ground arith)
                  (combined-Spends consume_tool_call 0 1 k (min st.tool_count s.max_tools)
                    consume_tool_call-Charges bs st.budgets h)))
            (λ st' w. w) (λ st' w. answer_calls-Spent s i k cs bs st' w))

  pub replied-Spent :
      (s : Site) (i k : ℕ) (bs : List RunRepairBudget) (st : LoopState S)
      (r : Outcome ToolModelResponse)
      → Spent bs s.max_tools k st
      → Always (Spent bs s.max_tools k) (replied s i st r)
  replied-Spent s i k bs st (raise e) h = h
  replied-Spent s i k bs st (ok response) h = called response.tool_calls
    where
      called :
          (calls : List ToolCallRequest)
          → Always (Spent bs s.max_tools k) (
              calls_of s i calls
                (say (assistant response.content response.tool_calls) (note_turn s i [] st)))
      called [] = h
      called (c ∷ cs) = answer_calls-Spent s i k (c ∷ cs) bs _ h

  pub charge-Spent :
      (k m : ℕ) (bs : List RunRepairBudget) (st : LoopState S)
      → Spent bs m k st
      → Always (Spent bs m (k + 1)) (charge consume_model_call st)
  unfolding charge
  charge-Spent k m bs st h =
      Spends-more (k + 1) (min st.tool_count m + 0) (k + 1) (min st.tool_count m) bs _ (omega arith)
        (omega arith)
        (combined-Spends consume_model_call 1 0 k (min st.tool_count m) consume_model_call-Charges
          bs st.budgets h)
