-- ===== src/Graph/Scheduler.antt =====
-- src/evoci/graph/scheduler.py: the harness checks of a dispatch.
pub mod Accepts
use evo_ci.Prelude.{
  ℕ, String, Option, none, some, List, [], ◌∷◌, Bool, true, false, not, ◌&&◌, ltb, if◌then◌else◌,
  Outcome, ok, raise, ◌>>=◌, ◌>>◌, raise_if, task_schedule_error, is_empty, contains, ◌⧺◌,
}
use evo_ci.Domain.Tasks.{WorkerTask, TaskBudget, is_investigate, is_repair}
use evo_ci.Tools.Scope.{normalize_write_scope}

unfoldable pub normalize_task : WorkerTask → Outcome WorkerTask
normalize_task t = do
  write_scope ← normalize_write_scope t.write_scope
  read_scope ← normalize_write_scope t.read_scope
  ok (record t { write_scope = write_scope; read_scope = read_scope })

abbrev over : ℕ → (TaskBudget → ℕ) → Option TaskBudget → Bool
over remaining f none = false
over remaining f (some b) = ltb remaining (f b)

unfoldable pub check_task : List String → ℕ → ℕ → WorkerTask → Outcome (Unit {0})
check_task known remaining_model remaining_tool t = do
  raise_if (contains known t.task_id)
      (task_schedule_error ("task_id already used in this run: " ⧺ t.task_id))
  raise_if (not (is_empty t.depends_on)) (task_schedule_error "depends_on is not supported")
  raise_if (is_repair t.kind && is_empty t.write_scope)
      (task_schedule_error ("repair task " ⧺ t.task_id ⧺ " must declare exact write_scope paths"))
  raise_if (is_investigate t.kind && not (is_empty t.write_scope))
      (task_schedule_error ("investigate task " ⧺ t.task_id ⧺ " cannot write"))
  raise_if (over remaining_model (λ b. b.max_model_calls) t.budget)
      (task_schedule_error ("task " ⧺ t.task_id ⧺ " exceeds remaining model-call budget"))
  raise_if (over remaining_tool (λ b. b.max_tool_calls) t.budget)
      (task_schedule_error ("task " ⧺ t.task_id ⧺ " exceeds remaining tool-call budget"))

unfoldable pub validate_single_task :
    List WorkerTask
    → (known : List String) → (remaining_model remaining_tool : ℕ) → Outcome WorkerTask
unfolding check_task normalize_task
validate_single_task (raw ∷ []) known remaining_model remaining_tool = do
  t ← normalize_task raw
  check_task known remaining_model remaining_tool t
  ok t
validate_single_task _ known remaining_model remaining_tool =
    raise (task_schedule_error "dispatch requires exactly one task")
