-- ===== src/Graph/Edges.antt =====
-- src/evoci/graph/builder.py: the routing functions, the edges of the graph, and its runs.
pub mod Bound
pub mod Success
pub mod Samples
use evo_ci.Prelude.{
  ℕ, suc, String, Option, none, some, List, [], ◌∷◌, Bool, true, false, not, ◌&&◌, ◌||◌, ltb,
  is_some, truthy, is_empty, last?, if◌then◌else◌, ok, ◌≡◌, ◌≢◌, zero,
}
use evo_ci.Domain.Commands.{VerificationResult, VerificationStatus, infra_error, inconclusive}
use evo_ci.Domain.Tasks.{SupervisorDecision, WorkerTask, WorkerKind, investigate, repair, is_stop}
use evo_ci.Domain.Results.{
  FailureClass, model, infrastructure, WorkerTaskStatus, completed, blocked, budget_exhausted,
  WorkerExecutionResult,
}
use evo_ci.Graph.State.Restore.{Restoring}
use evo_ci.Graph.State.{EvoCiState, Graph, Setting}
use evo_ci.Graph.State.Effects.{Node}
use evo_ci.Graph.Nodes.Bootstrap.{Retrieval, Catalog, bootstrap, retrieve_context}
use evo_ci.Graph.Nodes.Supervise.{Call, is_failed, supervise, formal_success}
use evo_ci.Graph.Nodes.Prepare.{prepare_task}
use evo_ci.Graph.Nodes.Worker.{WorkerRun, worker}
use evo_ci.Graph.Nodes.Approval.{approval}
use evo_ci.Graph.Nodes.Apply.{apply_candidate}
use evo_ci.Graph.Nodes.Verify.{Verifying, verify}
use evo_ci.Graph.Nodes.Rollback.{rollback}
use evo_ci.Graph.Nodes.Terminal.{finalize, fail_run}

-- The names of the nodes, and `END`.
pub data At : Type 0 where
  bootstrap_node retrieve_context_node supervise_node prepare_task_node worker_node approval_node :
      At
  apply_candidate_node verify_node rollback_node finalize_node failed_node end_node : At

unfoldable pub after_supervise : Setting → Graph → At
unfolding formal_success
after_supervise c g = if is_failed g.state.status then failed_node else (elim g.state.decision [
  | none ↦ failed_node
  | some d ↦
      if is_stop d.action
      then (if formal_success c g then finalize_node else failed_node)
      else prepare_task_node
])

unfoldable pub after_prepare : Setting → EvoCiState → At
after_prepare c s =
    if is_failed s.status
    then failed_node
    else if is_some (truthy s.batch_conflict)
    then (if ltb s.supervisor_batch c.max_supervisor_batches then supervise_node else failed_node)
    else if is_some s.worker_task
    then worker_node
    else failed_node

-- `classes and classes[-1] in {"model", "infrastructure"}`
abbrev pub ends_outside : List FailureClass → Bool
ends_outside classes = elim (last? classes) [
  | some model ↦ true
  | some infrastructure ↦ true
  | _ ↦ false
]

abbrev after_kind : Option WorkerTask → At
after_kind none = supervise_node
after_kind (some t) = elim t.kind [ investigate ↦ supervise_node | repair ↦ approval_node ]

abbrev after_result : EvoCiState → WorkerTaskStatus → At
after_result s budget_exhausted = failed_node
after_result s blocked = if is_empty s.budget_failures then supervise_node else failed_node
after_result s completed =
    if is_empty s.budget_failures then after_kind s.worker_task else failed_node

unfoldable pub after_worker : EvoCiState → At
after_worker s =
    if is_failed s.status || ends_outside s.failure_classes
    then failed_node
    else (elim (last? s.worker_results) [ none ↦ failed_node | some r ↦ after_result s r.status ])

abbrev is_refused : Option Bool → Bool
is_refused (some false) = true
is_refused _ = false

unfoldable pub after_approval : EvoCiState → At
after_approval s =
    if is_failed s.status || is_refused s.approved then failed_node else apply_candidate_node

unfoldable pub after_apply : EvoCiState → At
after_apply s =
    if is_failed s.status
    then failed_node
    else if is_some (truthy s.batch_conflict)
    then rollback_node
    else verify_node

abbrev pub is_environment_failure : Option VerificationResult → Bool
is_environment_failure none = false
is_environment_failure (some v) = elim v.status [
  | infra_error ↦ true
  | inconclusive ↦ true
  | _ ↦ false
]

abbrev pub has_passed : Option VerificationResult → Bool
has_passed none = false
has_passed (some v) = v.passed

unfoldable pub after_verify : EvoCiState → At
after_verify s =
    if is_environment_failure s.verification
    then failed_node
    else if is_some (truthy s.batch_conflict)
    then rollback_node
    else if has_passed s.verification
    then finalize_node
    else rollback_node

unfoldable pub after_rollback : Setting → EvoCiState → At
after_rollback c s =
    if is_failed s.status || ends_outside s.failure_classes
    then failed_node
    else if ltb s.supervisor_batch c.max_supervisor_batches
    then supervise_node
    else failed_node

-- What the outside answers to the node that runs.
pub record Answers : Type 0 where
  pub retrieval : Option Retrieval
  pub catalog : Option Catalog
  pub first_decision : Call SupervisorDecision
  pub retry_decision : Call SupervisorDecision
  pub copy_error : Option String
  pub work : Call WorkerRun
  pub human : Bool
  pub verifying : Verifying
  pub restoring : Restoring

-- The function of a node. `END` runs nothing.
unfoldable pub run_node : Setting → Answers → At → Node
run_node c a bootstrap_node = bootstrap
run_node c a retrieve_context_node = retrieve_context a.retrieval a.catalog
run_node c a supervise_node = supervise c a.first_decision a.retry_decision
run_node c a prepare_task_node = prepare_task c a.copy_error
run_node c a worker_node = worker a.work
run_node c a approval_node = approval a.human
run_node c a apply_candidate_node = apply_candidate c
run_node c a verify_node = verify c a.verifying
run_node c a rollback_node = rollback c a.restoring
run_node c a finalize_node = finalize c
run_node c a failed_node = fail_run c
run_node c a end_node = λ g. (g, ok tt)

unfoldable pub next_node : Setting → At → Graph → At
next_node c bootstrap_node g = retrieve_context_node
next_node c retrieve_context_node g = supervise_node
next_node c supervise_node g = after_supervise c g
next_node c prepare_task_node g = after_prepare c g.state
next_node c worker_node g = after_worker g.state
next_node c approval_node g = after_approval g.state
next_node c apply_candidate_node g = after_apply g.state
next_node c verify_node g = after_verify g.state
next_node c rollback_node g = after_rollback c g.state
next_node c finalize_node g = end_node
next_node c failed_node g = end_node
next_node c end_node g = end_node

-- One step: a node that is not `END` runs, returns, and the graph goes on to the next.
pub data Step (c : Setting) (at : At) (g : Graph) : At → Graph → Type 0 where
  step :
      (a : Answers) (g' : Graph)
      → at ≢ end_node
      → run_node c a at g ≡ (g', ok tt)
      → Step c at g (next_node c at g') g'

-- A run of `n` steps.
pub data Run (c : Setting) (at : At) (g : Graph) : ℕ → At → Graph → Type 0 where
  start : Run c at g 0 at g
  more :
      {n : ℕ} {at' at'' : At} {g' g'' : Graph}
      → Run c at g n at' g'
      → Step c at' g' at'' g''
      → Run c at g (suc n) at'' g''
