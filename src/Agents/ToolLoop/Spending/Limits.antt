-- ===== src/Agents/ToolLoop/Spending/Limits.antt =====
-- What a whole run of src/evoci/agents/tool_loop.py charges, and the model call that is left for its end.
use evo_ci.Prelude.{
  ℕ, zero, suc, ◌+◌, ◌≤◌, ◌≡◌, refl, String, Option, none, some, List, [], ◌∷◌, Bool, true, false,
  Outcome, ok, raise, arith, if◌then◌else◌, keep, contains, not, ◌>>=◌,
}
use evo_ci.Runtime.Budget.{RunRepairBudget, consume_model_call, remaining_model_calls}
use mathlib.Core.Path.{subst}
use native.Mathlib.Nat.{add-zero}
use evo_ci.Prelude.Sorted.{sorted_set}
use evo_ci.Agents.ToolLoop.Calls.{user, Site, LoopState}
use evo_ci.Agents.ToolLoop.Answers.{Stage, charge, say}
use evo_ci.Agents.ToolLoop.Turns.{
  Gateway, Final, turn, turns, closing, final_answer, asked, noted_final, note_methods,
  valid_claims, exhausted_note, credited, credited_to,
}
use evo_ci.Agents.ToolLoop.Run.{
  BoundedToolAgent, Request, finished, limits, run_limits, task_limits, positive_limits,
}
use evo_ci.Agents.ToolLoop.Spending.{
  Spends, Spends-more, Spent, Always, then_do-Always, if-Always, charge-Spent, replied-Spent,
}

module _ {S : Type 0} where
  note_methods-budgets :
      (s : Site) (skills : List String) (st : LoopState S)
      → (note_methods s skills st).budgets ≡ st.budgets
  note_methods-budgets s [] st = refl
  note_methods-budgets s (x ∷ xs) st = note_methods-budgets s xs _

  closing-budgets :
      (k m : ℕ) (bs : List RunRepairBudget) (st : LoopState S)
      → Spent bs m k st
      → Spent bs m k (closing st)
  closing-budgets k m bs st h = closed st.should_finalize
    where
      closed : (b : Bool) → Spent bs m k (if b then st else say (user exhausted_note) st)
      closed true = h
      closed false = h

module _ {S O : Type 0} where
  turn-Spent :
      (g : Gateway O) (s : Site) (i k : ℕ) (bs : List RunRepairBudget) (st : LoopState S)
      → Spent bs s.max_tools k st
      → Always (Spent bs s.max_tools (k + 1)) (turn g s i st)
  unfolding turn
  turn-Spent g s i k bs st h =
      let P = Spent bs s.max_tools (k + 1) in
      then_do-Always P P (charge consume_model_call st) _ (charge-Spent k s.max_tools bs st h)
        (λ paid w. w)
        (λ paid w. replied-Spent s i (k + 1) bs paid (g.next_action i paid.messages) w)

  pub turns-Spent :
      (g : Gateway O) (s : Site) (n i k : ℕ) (bs : List RunRepairBudget) (st : LoopState S)
      → Spent bs s.max_tools k st
      → Always (Spent bs s.max_tools (k + n)) (turns g s n i st)
  unfolding turns
  turns-Spent g s zero i k bs st h = rw (add-zero k) h
  turns-Spent g s (suc n) i k bs st h =
      let P = Spent bs s.max_tools (k + suc n) in
      then_do-Always (Spent bs s.max_tools (k + 1)) P (turn g s i st) _ (turn-Spent g s i k bs st h)
        (λ st' w. later st' w)
        (λ st' w.
          if-Always P st'.should_finalize (st', ok tt) (turns g s n (i + 1) st') (λ _. later st' w)
            (λ _.
              subst (λ m. Always (Spent bs s.max_tools m) (turns g s n (i + 1) st')) (omega arith)
                (turns-Spent g s n (i + 1) (k + 1) bs st' w)))
    where
      later :
          (st' : LoopState S)
          → Spent bs s.max_tools (k + 1) st'
          → Spent bs s.max_tools (k + suc n) st'
      later st' w = Spends-more (k + 1) _ (k + suc n) _ bs st'.budgets (omega arith) (omega arith) w

  asked-budgets : (g : Gateway O) (s : Site) (m : Stage S) → (asked g s m).0.budgets ≡ m.0.budgets
  asked-budgets g s (st, raise e) = refl
  asked-budgets g s (st, ok u) = noted (g.finalize st.messages)
    where
      noted : (r : Outcome (Final O)) → (noted_final s st r).0.budgets ≡ st.budgets
      noted (ok result) = refl
      noted (raise e) = refl

  credited-budgets :
      (activated : S → List String) (s : Site) (m : LoopState S × Outcome (Final O))
      → (credited activated s m).0.budgets ≡ m.0.budgets
  unfolding credited
  credited-budgets activated s (st, raise e) = refl
  credited-budgets activated s (st, ok result) = named result.used_skill_refs
    where
      named :
          (claimed : Option (List String))
          → (credited_to activated s st result claimed).0.budgets ≡ st.budgets
      named none = refl
      named (some claimed) =
          note_methods-budgets s
            (sorted_set (
              keep (λ skill. not (contains st.used_skills skill))
                (valid_claims activated st claimed)))
            st

  pub finished-Spends :
      (g : Gateway O) (activated : S → List String) (s : Site) (k : ℕ) (bs : List RunRepairBudget)
      (m : Stage S)
      → Always (Spent bs s.max_tools k) m
      → Spends (k + 1) s.max_tools bs (finished g activated s m).0.budgets
  unfolding final_answer
  finished-Spends g activated s k bs (st, raise e) h =
      Spends-more k _ (k + 1) s.max_tools bs st.budgets (omega arith) (omega arith) h
  finished-Spends g activated s k bs (st, ok u) h =
      rw
        (
          credited-budgets activated s (asked g s (charge consume_model_call (closing st))),
          asked-budgets g s (charge consume_model_call (closing st)),
        )
        (Spends-more (k + 1) _ (k + 1) s.max_tools bs _ (omega arith) (omega arith)
          (charge-Spent k s.max_tools bs (closing st) (closing-budgets k s.max_tools bs st h)))

run_limits_bounds :
    (r : Option RunRepairBudget) (x y n m : ℕ)
    → (run_limits r (x, y) >>= positive_limits) ≡ ok (n, m)
    → (1 ≤ n)
      × (1 ≤ m)
      × (n ≤ x)
      × (m ≡ y)
      × ((b : RunRepairBudget) → r ≡ some b → b.model_calls + (n + 1) ≤ b.max_model_calls)
unfolding remaining_model_calls
run_limits_bounds none x y n m h =
    (ground arith, ground arith, ground arith, ground arith, λ b e. ground arith)
run_limits_bounds (some r) x y n m h =
    (ground arith, ground arith, ground arith, ground arith, λ b e. ground arith)

task_limits_bounds :
    (a : BoundedToolAgent) (o : Option RunRepairBudget)
    → let (x, y) = task_limits a o in
      (x ≤ a.max_iterations)
      × (y ≤ a.max_tool_calls)
      × ((b : RunRepairBudget)
          → o ≡ some b
          → 1 ≤ x
          → (x + 1 ≤ b.max_model_calls) × (y ≤ b.max_tool_calls))
task_limits_bounds a none = (omega arith, omega arith, λ b e p. ground arith)
task_limits_bounds a (some r) = (ground arith, ground arith, λ b e p. ground arith)

-- The limits that a run is given: within those of the agent, of its task and of its run.
pub limits_bounds :
    (a : BoundedToolAgent) (q : Request) (n m : ℕ)
    → limits a q ≡ ok (n, m)
    → (1 ≤ n)
      × (1 ≤ m)
      × (n ≤ a.max_iterations)
      × (m ≤ a.max_tool_calls)
      × ((r : RunRepairBudget)
          → q.run_budget ≡ some r
          → r.model_calls + (n + 1) ≤ r.max_model_calls)
      × ((b : RunRepairBudget)
          → q.extra_budget ≡ some b
          → (n + 1 ≤ b.max_model_calls) × (m ≤ b.max_tool_calls))
unfolding limits
limits_bounds a q n m h =
    let (x, y) = task_limits a q.extra_budget in
    let (i, j, k, l, r) = run_limits_bounds q.run_budget x y n m h in
    let (u, v, t) = task_limits_bounds a q.extra_budget in
    (
      i,
      j,
      omega arith,
      omega arith,
      r,
      λ b e. let (c, d) = t b e (omega arith) in (omega arith, omega arith),
    )
