-- ===== src/Runtime/Budget/Bounds.antt =====
-- What the budgets of src/evoci/runtime/budget.py never exceed, and what they leave unchanged.
use mathlib.Core.Path.{subst}
use evo_ci.Prelude.{
  sym, ℕ, zero, suc, ◌+◌, ◌≤◌, ◌<◌, ◌≡◌, Option, none, some, List, [], ◌∷◌, All, ok, raise, arith,
  repair_budget_exhausted, Outcome, Outcome-cases, Raised, inl, inr, ◌⊎◌, ◌++◌, map, ap, refl,
}
use evo_ci.Runtime.Budget.{
  RunRepairBudget, Method, consume_model_call, consume_tool_call, remaining_model_calls,
  remaining_tool_calls, ensure_tool_calls, combined, action_call_capacity,
}

pub record IsWithin (b : RunRepairBudget) : Type 0 where
  pub model : b.model_calls ≤ b.max_model_calls
  pub tool : b.tool_calls ≤ b.max_tool_calls

pub consume_model_call-IsWithin :
    (b : RunRepairBudget) → IsWithin b → IsWithin (consume_model_call b).0
unfolding consume_model_call
consume_model_call-IsWithin b h = ground arith

pub consume_tool_call-IsWithin :
    (b : RunRepairBudget) → IsWithin b → IsWithin (consume_tool_call b).0
unfolding consume_tool_call
consume_tool_call-IsWithin b h = ground arith

-- A tool call is charged exactly when some are left: then the remaining count falls by one and the
-- model calls stay; otherwise the call raises RepairBudgetExhausted and nothing changes.
pub consume_tool_call_exact :
    (b : RunRepairBudget)
    → (0 < remaining_tool_calls b
        → ((consume_tool_call b).1 ≡ ok tt)
          × (remaining_tool_calls (consume_tool_call b).0 + 1 ≡ remaining_tool_calls b)
          × (remaining_model_calls (consume_tool_call b).0 ≡ remaining_model_calls b))
      × (remaining_tool_calls b ≡ 0
          → consume_tool_call b ≡ (b, raise (repair_budget_exhausted b.tool_message)))
unfolding consume_tool_call remaining_tool_calls remaining_model_calls
consume_tool_call_exact b = (λ h. ground arith, λ h. ground arith)

pub consume_model_call_exact :
    (b : RunRepairBudget)
    → (0 < remaining_model_calls b
        → ((consume_model_call b).1 ≡ ok tt)
          × (remaining_model_calls (consume_model_call b).0 + 1 ≡ remaining_model_calls b)
          × (remaining_tool_calls (consume_model_call b).0 ≡ remaining_tool_calls b))
      × (remaining_model_calls b ≡ 0
          → consume_model_call b ≡ (b, raise (repair_budget_exhausted b.model_message)))
unfolding consume_model_call remaining_tool_calls remaining_model_calls
consume_model_call_exact b = (λ h. ground arith, λ h. ground arith)

-- `n` tool calls in a row.
abbrev pub tool_calls_in_a_row : ℕ → RunRepairBudget → RunRepairBudget
tool_calls_in_a_row zero b = b
tool_calls_in_a_row (suc n) b = tool_calls_in_a_row n (consume_tool_call b).0

-- The reservation check: where it passes for `n` calls, the next `n` tool calls are all charged.
pub ensure_tool_calls-reserves :
    (n : ℕ) (b : RunRepairBudget)
    → IsWithin b
    → ensure_tool_calls n b ≡ ok tt
    → (tool_calls_in_a_row n b).tool_calls ≡ b.tool_calls + n
unfolding ensure_tool_calls
ensure_tool_calls-reserves zero b w h = omega arith
ensure_tool_calls-reserves (suc n) b w h = ground (
  arith,
  charged,
  ensure_tool_calls-reserves n (consume_tool_call b).0 (consume_tool_call-IsWithin b w),
)
  where
    charged :
        ((consume_tool_call b).0.tool_calls ≡ b.tool_calls + 1)
        × ((consume_tool_call b).0.max_tool_calls ≡ b.max_tool_calls)
    charged = unfold consume_tool_call in ground arith

-- What one call makes of a budget.
abbrev pub charged : Method → RunRepairBudget → RunRepairBudget
charged consume b = (consume b).0

abbrev pub Passes : Method → RunRepairBudget → Type 0
Passes consume b = (consume b).1 ≡ ok tt

-- All budgets charged; or those up to the first that raises, and its exception.
abbrev pub Charges :
    Method → List RunRepairBudget → List RunRepairBudget × Outcome (Unit {0}) → Type 0
Charges consume bs (after, done) =
    ((done ≡ ok tt) × All (Passes consume) bs × (after ≡ map (charged consume) bs))
    ⊎ ((before : List RunRepairBudget) × (b : RunRepairBudget) × (rest : List RunRepairBudget)
        × (e : Raised) × (bs ≡ before ++ b ∷ rest)
        × All (Passes consume) before
        × ((consume b).1 ≡ raise e)
        × (done ≡ raise e)
        × (after ≡ map (charged consume) before ++ charged consume b ∷ rest))

combined-goes :
    (consume : Method) (b : RunRepairBudget) (bs : List RunRepairBudget) (u : Unit {0})
    → (consume b).1 ≡ ok u
    → let later = combined consume bs in
      combined consume (b ∷ bs) ≡ (charged consume b ∷ later.0, later.1)
unfolding combined
combined-goes consume b bs u h = rw (h, combined) refl

combined-stops :
    (consume : Method) (b : RunRepairBudget) (bs : List RunRepairBudget) (e : Raised)
    → (consume b).1 ≡ raise e
    → combined consume (b ∷ bs) ≡ (charged consume b ∷ bs, raise e)
unfolding combined
combined-stops consume b bs e h = rw (h, combined) refl

more-Charges :
    (consume : Method) (b : RunRepairBudget) (bs : List RunRepairBudget)
    (x : List RunRepairBudget × Outcome (Unit {0}))
    → Passes consume b
    → Charges consume bs x
    → Charges consume (b ∷ bs) (charged consume b ∷ x.0, x.1)
more-Charges consume b bs x passes (inl (done, all, after)) =
    inl (done, (passes, all), ap (λ xs. charged consume b ∷ xs) after)
more-Charges consume b bs x passes (inr (before, c, rest, e, is, all, raises, done, after)) = inr (
  b ∷ before,
  c,
  rest,
  e,
  ap (λ xs. b ∷ xs) is,
  (passes, all),
  raises,
  done,
  ap (λ xs. charged consume b ∷ xs) after,
)

-- A combined call charges every budget and returns, where each of them allows it; or the first that does not stops
-- it: those before it are charged, it is as its own call leaves it, those after it are not touched, and its exception
-- is raised.
pub combined_exact :
    (consume : Method) (bs : List RunRepairBudget) → Charges consume bs (combined consume bs)
unfolding combined
combined_exact consume [] = inl (refl, tt, refl)
combined_exact consume (b ∷ bs) = elim (Outcome-cases (consume b).1) [
  | inr (e, raises) ↦
      subst (Charges consume (b ∷ bs)) (sym (combined-stops consume b bs e raises))
        (inr ([], b, bs, e, refl, tt, raises, refl, refl))
  | inl (u, passes) ↦
      subst (Charges consume (b ∷ bs)) (sym (combined-goes consume b bs u passes))
        (more-Charges consume b bs (combined consume bs) passes (combined_exact consume bs))
]

-- The turns that fit leave one model call for the final answer, in the run and in the task, and
-- are at most the turns asked for.
pub action_call_capacity_bounds :
    (max_actions remaining : ℕ) (task : Option ℕ)
    → let turns = action_call_capacity max_actions remaining task in
      (turns ≤ max_actions)
      × (0 < turns → turns + 1 ≤ remaining)
      × ((t : ℕ) → task ≡ some t → 0 < turns → turns + 1 ≤ t)
unfolding action_call_capacity
action_call_capacity_bounds m r none = (ground arith, λ h. ground arith, λ t e h. ground arith)
action_call_capacity_bounds m r (some t) = (ground arith, λ h. ground arith, λ u e h. ground arith)
