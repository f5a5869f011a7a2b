-- ===== src/Graph/Scheduler/Accepts.antt =====
-- src/evoci/graph/scheduler.py: which dispatches the harness accepts, and what it hands to the worker.
use mathlib.Core.Path.{subst}
use evo_ci.Prelude.{
  ℕ, ◌≤◌, ◌≡◌, refl, String, Option, none, some, List, [], ◌∷◌, true, false, ok, arith, contains,
  is_empty, >>=-ok, ap, ◌∙◌,
}
use evo_ci.Domain.Tasks.{WorkerTask, TaskBudget, is_investigate}
use evo_ci.Graph.Scheduler.{normalize_task, check_task, validate_single_task}

abbrev pub Fits : ℕ → (TaskBudget → ℕ) → Option TaskBudget → Type 0
Fits remaining calls none = Unit
Fits remaining calls (some b) = calls b ≤ remaining

-- A task that may run: its name is new, it depends on nothing, it writes exactly if it is a repair, and its
-- own budget fits what the run has left.
pub record MayRun (known : List String) (model tool : ℕ) (t : WorkerTask) : Type 0 where
  pub new : contains known t.task_id ≡ false
  pub independent : is_empty t.depends_on ≡ true
  pub writes : is_empty t.write_scope ≡ is_investigate t.kind
  pub fits_model : Fits model (λ b. b.max_model_calls) t.budget
  pub fits_tool : Fits tool (λ b. b.max_tool_calls) t.budget

check_task_exact :
    (known : List String) (model tool : ℕ) (t : WorkerTask)
    → (check_task known model tool t ≡ ok tt → MayRun known model tool t)
      × (MayRun known model tool t → check_task known model tool t ≡ ok tt)
unfolding check_task
check_task_exact known model tool t = (
  λ h. record {
    new = ground (arith, h);
    independent = ground (arith, h);
    writes = ground (arith, h);
    fits_model = ground (arith, h);
    fits_tool = ground (arith, h);
  },
  λ (h : MayRun known model tool t).
      ground (arith, h.new, h.independent, h.writes, h.fits_model, h.fits_tool),
)

alone :
    (raw : WorkerTask) (known : List String) (model tool : ℕ) (t : WorkerTask)
    → (validate_single_task (raw ∷ []) known model tool ≡ ok t
        → (normalize_task raw ≡ ok t) × MayRun known model tool t)
      × (normalize_task raw ≡ ok t
          → MayRun known model tool t
          → validate_single_task (raw ∷ []) known model tool ≡ ok t)
unfolding validate_single_task
alone raw known model tool t = (
  λ h.
      let (u, checked, normal) = >>=-ok (normalize_task raw) _ h in
      let (_, same, passed) = >>=-ok (check_task known model tool u) _ checked in
      let named : u ≡ t = cc same in
      (
        normal ∙ ap ok named,
        subst (MayRun known model tool) named ((check_task_exact known model tool u).0 passed),
      ),
  λ normal may. rw (normal, (check_task_exact known model tool t).1 may) refl,
)

-- A dispatch is accepted exactly if it is one task whose scopes normalise and which may run: its name is new
-- in the run, it depends on nothing, it declares a write scope if it is a repair and none otherwise, and its
-- own budget fits what the run has left. The worker is handed the normalised task.
pub validate_single_task_exact :
    (tasks : List WorkerTask) (known : List String) (model tool : ℕ) (t : WorkerTask)
    → (validate_single_task tasks known model tool ≡ ok t
        → (raw : WorkerTask) × (tasks ≡ raw ∷ [])
          × (normalize_task raw ≡ ok t)
          × MayRun known model tool t)
      × ((raw : WorkerTask)
          → tasks ≡ raw ∷ []
          → normalize_task raw ≡ ok t
          → MayRun known model tool t
          → validate_single_task tasks known model tool ≡ ok t)
unfolding validate_single_task
validate_single_task_exact [] known model tool t = (λ h. cc, λ raw e normal may. cc)
validate_single_task_exact (raw ∷ []) known model tool t = (
  λ h. let (normal, may) = (alone raw known model tool t).0 h in (raw, refl, normal, may),
  λ r e normal may.
      let same : raw ≡ r = cc e in
      (alone raw known model tool t).1 (ap normalize_task same ∙ normal) may,
)
validate_single_task_exact (raw ∷ other ∷ tasks) known model tool t =
    (λ h. cc, λ r e normal may. cc)
