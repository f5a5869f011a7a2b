-- ===== src/Agents/ToolLoop/Spending/Whole.antt =====
-- What a whole run of src/evoci/agents/tool_loop.py charges, and the call that is left for its end.
use evo_ci.Prelude.{
  ℕ, ◌+◌, ◌≤◌, ◌≡◌, refl, ◌∙◌, String, Option, none, some, List, [], ◌∷◌, Outcome, ok, raise, arith,
  if-both, ap, All, ◌==◌,
}
use evo_ci.Runtime.Budget.{RunRepairBudget, combined, consume_model_call}
use mathlib.Core.Path.{subst}
use native.Mathlib.Nat.{zero-add}
use evo_ci.Tools.Paths.{strip}
use evo_ci.Tools.Registry.{ToolRegistry}
use evo_ci.Agents.ToolLoop.Pages.{Page, Shared, with_reader, shared}
use evo_ci.Runtime.Events.{RunEvent}
use evo_ci.Agents.ToolLoop.Calls.{user, Site, LoopState}
use evo_ci.Agents.ToolLoop.Answers.{Stage, charge, say}
use evo_ci.Agents.ToolLoop.Turns.{
  Gateway, Final, turns, closing, final_answer, asked, noted_final, exhausted_note,
}
use evo_ci.Agents.ToolLoop.Run.{
  BoundedToolAgent, Request, run, start, limits, site_of, budgets_of, budgets_from,
}
use evo_ci.Agents.ToolLoop.Spending.{Spends, Spends-refl, Spends-more, Spent, Always}
use evo_ci.Agents.ToolLoop.Spending.Limits.{turns-Spent, finished-Spends, limits_bounds}

module _ {S O : Type 0} where
  pub turns-begun :
      (g : Gateway O) (q : Request) (n m : ℕ) (events : List RunEvent)
      (tools : ToolRegistry (Shared S))
      → Always (Spent (budgets_of q) m n) (turns g (site_of q m) n 1 (start q events tools))
  turns-begun g q n m events tools =
      let st = start q events tools in
      subst (λ k. Always (Spent (budgets_of q) m k) (turns g (site_of q m) n 1 st)) (zero-add n)
        (turns-Spent g (site_of q m) n 1 0 (budgets_of q) st (
          Spends-more 0 0 0 _ (budgets_of q) (budgets_of q) (omega arith) (omega arith)
            (Spends-refl (budgets_of q))))

  -- A run that gets the limits `n` and `m` has a turn to make, keeps to the agent's own limits, and
  -- charges each of its budgets at most `n` turns, one final call, and `m` tool calls, however the model,
  -- the tools or an exception end it.
  pub run-Spends :
      (render : Page → List ℕ) (g : Gateway O) (activated : S → List String) (a : BoundedToolAgent)
      (q : Request) (events : List RunEvent) (tools : ToolRegistry S) (n m : ℕ)
      → limits a q ≡ ok (n, m)
      → (1 ≤ n)
        × (n ≤ a.max_iterations)
        × (m ≤ a.max_tool_calls)
        × Spends (n + 1) m (budgets_of q) (run render g activated a q events tools).0.budgets
  unfolding run
  run-Spends render g activated a q events tools n m h =
      let (i, j, k, l, r, t) = limits_bounds a q n m h in
      (
        i,
        k,
        l,
        if-both
            (λ (x : LoopState S × Outcome (Final O)). Spends (n + 1) m (budgets_of q) x.0.budgets)
            (strip q.invocation_id == "") _ _
            (Spends-more 0 0 (n + 1) m (budgets_of q) (budgets_of q) (omega arith) (omega arith)
              (Spends-refl (budgets_of q)))
            (rw h (
              finished-Spends g activated (site_of q m) n (budgets_of q) _
                (turns-begun g q n m events (with_reader render (shared tools))))),
      )

-- Every budget has room for `k` model calls more.
abbrev Room : ℕ → List RunRepairBudget → Type 0
Room k bs = All (λ b. b.model_calls + k ≤ b.max_model_calls) bs

left-Room :
    (k t : ℕ) (bs cs : List RunRepairBudget) → Spends k t bs cs → Room (k + 1) bs → Room 1 cs
left-Room k t [] [] h r = tt
left-Room k t (b ∷ bs) (c ∷ cs) (m, n, e, f, h) (x, r) = (omega arith, left-Room k t bs cs h r)
left-Room k t [] (c ∷ cs) h r = ground arith
left-Room k t (b ∷ bs) [] h r = ground arith

charged : (cs : List RunRepairBudget) → Room 1 cs → (combined consume_model_call cs).1 ≡ ok tt
unfolding combined consume_model_call
charged [] r = refl
charged (c ∷ cs) (x, r) = ground (arith, charged cs r)

begun-Room :
    (k : ℕ) (r e : Option RunRepairBudget)
    → ((b : RunRepairBudget) → r ≡ some b → b.model_calls + k ≤ b.max_model_calls)
    → ((b : RunRepairBudget) → e ≡ some b → b.model_calls + k ≤ b.max_model_calls)
    → Room k (budgets_from r e)
begun-Room k none none h j = tt
begun-Room k none (some b) h j = (j b refl, tt)
begun-Room k (some c) none h j = (h c refl, tt)
begun-Room k (some c) (some b) h j = (h c refl, (j b refl, tt))

module _ {S : Type 0} where
  charge_ok : (st : LoopState S) → Room 1 st.budgets → (charge consume_model_call st).1 ≡ ok tt
  unfolding charge
  charge_ok st r = charged st.budgets r

  charge-messages : (st : LoopState S) → (charge consume_model_call st).0.messages ≡ st.messages
  unfolding charge
  charge-messages st = refl

  closing-Room : (st : LoopState S) → Room 1 st.budgets → Room 1 (closing st).budgets
  closing-Room st r =
      if-both (λ (x : LoopState S). Room 1 x.budgets) st.should_finalize st
        (say (user exhausted_note) st) r r

module _ {S O : Type 0} where
  asked-ok :
      (g : Gateway O) (s : Site) (m : Stage S)
      → m.1 ≡ ok tt
      → (asked g s m).1 ≡ g.finalize m.0.messages
  asked-ok g s (st, raise e) h = ground arith
  asked-ok g s (st, ok u) h = noted (g.finalize st.messages)
    where
      noted : (r : Outcome (Final O)) → (noted_final s st r).1 ≡ r
      noted (ok result) = refl
      noted (raise e) = refl

  -- The limits leave one model call for the end: where the budget of the task is fresh, and the turns
  -- end without an exception, the outcome of the final call is the gateway's, never an exhausted budget.
  pub final_answer-reserved :
      (g : Gateway O) (a : BoundedToolAgent) (q : Request) (n m : ℕ) (events : List RunEvent)
      (tools : ToolRegistry (Shared S)) (st : LoopState S)
      → limits a q ≡ ok (n, m)
      → ((b : RunRepairBudget) → q.extra_budget ≡ some b → b.model_calls ≡ 0)
      → turns g (site_of q m) n 1 (start q events tools) ≡ (st, ok tt)
      → (final_answer g (site_of q m) st).1 ≡ g.finalize (closing st).messages
  unfolding final_answer
  final_answer-reserved g a q n m events tools st allowed fresh ended =
      let (i, j, k, l, of_run, of_task) = limits_bounds a q n m allowed in
      let spent = turns-begun g q n m events tools in
      let now : Spent (budgets_of q) m n st = rw⁻¹ (ap (λ (x : Stage S). x.0) ended) spent in
      let room = left-Room n _ (budgets_of q) st.budgets now (
        begun-Room (n + 1) q.run_budget q.extra_budget of_run
          (λ b e. let (c, d) = of_task b e in omega (arith, fresh b e))) in
      asked-ok g (site_of q m) (charge consume_model_call (closing st))
        (charge_ok (closing st) (closing-Room st room))
      ∙ ap g.finalize (charge-messages (closing st))
