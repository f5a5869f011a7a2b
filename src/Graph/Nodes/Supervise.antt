-- ===== src/Graph/Nodes/Supervise.antt =====
-- src/evoci/graph/builder.py: `supervise` and `after_supervise`.
use evo_ci.Prelude.{
  ℕ, ◌+◌, String, Option, none, some, List, [], ◌∷◌, ◌++◌, Bool, true, false, ◌&&◌, ◌==◌, ltb,
  if◌then◌else◌, map, show, ◌⧺◌,
}
use mathlib.Core.List.{flat_map}
use evo_ci.Runtime.Events.{RunEvent, agent_completed, optional, text, texts}
use evo_ci.Runtime.Budget.{RunRepairBudget}
use evo_ci.Runtime.Recorder.{emit}
use evo_ci.Domain.Commands.{is_passed}
use evo_ci.Domain.Tasks.{SupervisorDecision, SupervisorAction, dispatch, stop}
use evo_ci.Domain.Results.{FailureClass, budget, model}
use evo_ci.Graph.State.{EvoCiState, World, Graph, Status, failed, Setting}
use evo_ci.Graph.State.Effects.{Node, return, emit_event}

-- How a call of an agent ends. A gateway error tells whether a timeout caused it.
pub data Answer (A : Type 0) : Type 0 where
  answered : A → Answer A
  exhausted : (message : String) → Answer A
  gateway : (message : String) (by_timeout : Bool) → Answer A

-- An agent's call, with the budget and the events that it leaves behind.
pub record Call (A : Type 0) : Type 0 where
  pub answer : Answer A
  pub budget_after : RunRepairBudget
  pub recorded : List RunEvent

abbrev record_all : List RunEvent → List RunEvent → List RunEvent
record_all [] events = events
record_all (e ∷ es) events = record_all es (emit e events)

abbrev pub after_call : {A : Type 0} → Call A → World → World
after_call c w = record w { budget = c.budget_after; events = record_all c.recorded w.events }

abbrev pub is_failed : Status → Bool
is_failed failed = true
is_failed _ = false

-- `classified_failure` of src/evoci/graph/outcome.py, for the phase "supervise".
unfoldable pub classified_failure : FailureClass → String → ℕ → EvoCiState → EvoCiState
classified_failure class reason batch s = record s {
  phase = "supervise";
  status = failed;
  failure_class = some class;
  failure_reason = some reason;
  supervisor_batch = batch;
  failure_stage = some "supervise";
}

abbrev pub action_text : SupervisorAction → String
action_text dispatch = "dispatch"
action_text stop = "stop"

-- The update for a decision, under the invocation that made it.
unfoldable pub decided : ℕ → String → SupervisorDecision → Graph → Graph
unfolding emit_event
decided batch invocation d g = record {
  state = record g.state {
    phase = "supervise";
    supervisor_batch = batch;
    decision = some d;
    decision_history =
        g.state.decision_history ++ (action_text d.action ⧺ ": " ⧺ d.reasoning_summary) ∷ [];
    recommended_skill_ids =
        g.state.recommended_skill_ids ++ flat_map (λ t. t.recommended_skill_refs) d.tasks;
    batch_conflict = none;
  };
  world =
      emit_event g.state.run_id agent_completed (some "supervisor") (some invocation) (show batch)
        (("action", text (action_text d.action))
          ∷ ("tasks", texts (map (λ t. t.task_id) d.tasks))
          ∷ ("stop_reason", optional d.stop_reason)
          ∷ ("reasoning_summary", text d.reasoning_summary)
          ∷ [])
        g.world;
}

abbrev at_call : Call SupervisorDecision → Graph → Graph
at_call c g = record g { world = after_call c g.world }

abbrev fail : FailureClass → String → ℕ → Graph → Graph
fail class reason batch g = record g { state = classified_failure class reason batch g.state }

abbrev invocation_of : ℕ → String
invocation_of batch = "supervise:" ⧺ show batch

-- The second invocation, after a timeout of the first.
unfoldable pub retried : ℕ → Call SupervisorDecision → Graph → Graph
unfolding classified_failure decided
retried batch c g = elim c.answer [
  | answered d ↦ decided batch (invocation_of batch ⧺ ":timeout-retry") d (at_call c g)
  | exhausted m ↦ fail budget m batch (at_call c g)
  | gateway m by_timeout ↦ fail model m batch (at_call c g)
]

unfoldable pub supervise : Setting → (first retry : Call SupervisorDecision) → Node
unfolding retried
supervise c first retry g =
    let s = g.state in
    let batch = s.supervisor_batch + 1 in
    if is_failed s.status
    then return (record g { state = record s { phase = "supervise" } })
    else if ltb c.max_supervisor_batches batch
    then return (record g {
      state = record s {
        phase = "supervise";
        status = failed;
        failure_class = some budget;
        failure_stage = some "supervise";
        failure_reason = some "supervisor batch budget exhausted";
      };
    })
    else (elim first.answer [
      | answered d ↦ return (decided batch (invocation_of batch) d (at_call first g))
      | exhausted m ↦ return (fail budget m batch (at_call first g))
      | gateway m by_timeout ↦
          if by_timeout
          then return (retried batch retry (at_call first g))
          else return (fail model m batch (at_call first g))
    ])

abbrev pub is_text : String → Option String → Bool
is_text t none = false
is_text t (some s) = s == t

-- `_formal_success`
unfoldable pub formal_success : Setting → Graph → Bool
formal_success c g = elim g.state.verification [
  | none ↦ false
  | some v ↦
      v.passed
      && (is_passed v.status
          && is_text (c.workspace_snapshot_id g.world.files) g.state.verification_snapshot_id)
]
