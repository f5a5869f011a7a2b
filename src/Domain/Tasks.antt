-- ===== src/Domain/Tasks.antt =====
-- src/evoci/domain/models.py: worker tasks and supervisor decisions.
use evo_ci.Prelude.{
  ℕ, String, Option, List, [], ◌∷◌, Bool, true, false, not, ◌&&◌, ◌||◌, ◌==◌, eqb, Outcome, ok,
  ◌>>◌, raise_if, value_error, length, is_empty, contains, or_string, map,
}
use evo_ci.Tools.Paths.{strip}

pub data WorkerKind : Type 0 where
  investigate repair : WorkerKind

abbrev pub is_investigate : WorkerKind → Bool
is_investigate investigate = true
is_investigate repair = false

abbrev pub is_repair : WorkerKind → Bool
is_repair investigate = false
is_repair repair = true

pub record TaskBudget : Type 0 where
  pub max_model_calls : ℕ
  pub max_tool_calls : ℕ

pub record WorkerTask : Type 0 where
  pub task_id : String
  pub kind : WorkerKind
  pub objective : String
  pub read_scope : List String
  pub write_scope : List String
  pub depends_on : List String
  pub fact_refs : List String
  pub recommended_skill_refs : List String
  pub budget : Option TaskBudget
  pub resume_candidate_id : Option String

-- `scope_matches_kind`
unfoldable pub make_worker_task : WorkerTask → Outcome WorkerTask
unfolding strip
make_worker_task t = do
  raise_if (strip t.task_id == "") (value_error "task_id must be non-empty")
  raise_if (is_investigate t.kind && not (is_empty t.write_scope))
      (value_error "investigate tasks cannot declare write_scope")
  raise_if (not (is_empty t.depends_on))
      (value_error "depends_on is removed; dispatch exactly one independent task")
  ok t

pub data SupervisorAction : Type 0 where
  dispatch stop : SupervisorAction

abbrev pub is_dispatch : SupervisorAction → Bool
is_dispatch dispatch = true
is_dispatch stop = false

abbrev pub is_stop : SupervisorAction → Bool
is_stop dispatch = false
is_stop stop = true

pub record SupervisorDecision : Type 0 where
  pub action : SupervisorAction
  pub reasoning_summary : String
  pub tasks : List WorkerTask
  pub stop_reason : Option String

abbrev has_repeated : List String → Bool
has_repeated [] = false
has_repeated (x ∷ xs) = contains xs x || has_repeated xs

-- `action_payload_is_complete`
unfoldable pub make_supervisor_decision : SupervisorDecision → Outcome SupervisorDecision
unfolding strip
make_supervisor_decision d = do
  raise_if (has_repeated (map (λ t. t.task_id) d.tasks))
      (value_error "worker task IDs must be unique")
  raise_if (is_dispatch d.action && not (eqb (length d.tasks) 1))
      (value_error "dispatch requires exactly one task")
  raise_if (is_stop d.action && not (is_empty d.tasks)) (value_error "stop cannot include tasks")
  raise_if (is_stop d.action && strip (or_string d.stop_reason "") == "")
      (value_error "stop requires stop_reason")
  ok d
