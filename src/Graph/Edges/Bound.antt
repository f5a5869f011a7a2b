-- ===== src/Graph/Edges/Bound.antt =====
-- Every run of the graph of src/evoci/graph/builder.py ends: each step lowers a count of the nodes that
-- can still come, since `supervise` numbers the batches up to the limit of the configuration.
mod Batches
use evo_ci.Prelude.{
  ℕ, zero, suc, ◌+◌, ◌-◌, ◌*◌, ◌≤◌, ◌<◌, ◌≡◌, ◌≢◌, refl, Option, some, none, true, false, ok, arith,
  ◌⊎◌, inl, inr, ap,
}
use evo_ci.Graph.State.{Graph, Setting, EvoCiState, Status}
use evo_ci.Graph.Edges.{
  At, bootstrap_node, retrieve_context_node, supervise_node, prepare_task_node, worker_node,
  approval_node, apply_candidate_node, verify_node, rollback_node, finalize_node, failed_node,
  end_node, Answers, run_node, next_node, Step, step, Run, start, more, after_supervise,
  after_prepare, after_worker, after_approval, after_apply, after_verify, after_rollback,
}
use evo_ci.Domain.Tasks.{SupervisorDecision}
use evo_ci.Graph.Nodes.Supervise.{Call, supervise}
use Batches.{
  batch, bootstrap-batch, retrieve_context-batch, supervise-batch, prepare_task-batch, worker-batch,
  approval-batch, apply_candidate-batch, verify-batch, rollback-batch, finalize-batch,
  fail_run-batch,
}

-- The order of the nodes inside a batch: a step goes down, or starts another batch.
abbrev pub rank : At → ℕ
rank bootstrap_node = 10
rank retrieve_context_node = 9
rank prepare_task_node = 8
rank worker_node = 7
rank approval_node = 6
rank apply_candidate_node = 5
rank verify_node = 4
rank rollback_node = 3
rank supervise_node = 2
rank finalize_node = 1
rank failed_node = 1
rank end_node = 0

abbrev pub steps_left : Setting → At → Graph → ℕ
steps_left c at g = (c.max_supervisor_batches - batch g) * 11 + rank at

-- where a step of a node can go
prepare_rank : (c : Setting) (s : EvoCiState) → rank (after_prepare c s) ≤ 7
unfolding after_prepare
prepare_rank c s = ground arith

worker_rank : (s : EvoCiState) → rank (after_worker s) ≤ 6
unfolding after_worker
worker_rank s = ground arith

approval_rank : (s : EvoCiState) → rank (after_approval s) ≤ 5
unfolding after_approval
approval_rank s = ground arith

apply_rank : (s : EvoCiState) → rank (after_apply s) ≤ 4
unfolding after_apply
apply_rank s = ground arith

verify_rank : (s : EvoCiState) → rank (after_verify s) ≤ 3
unfolding after_verify
verify_rank s = ground arith

rollback_rank : (c : Setting) (s : EvoCiState) → rank (after_rollback c s) ≤ 2
unfolding after_rollback
rollback_rank c s = ground arith

supervise_rank : (c : Setting) (g : Graph) → rank (after_supervise c g) ≤ 8
unfolding after_supervise
supervise_rank c g = ground arith

supervise_rank_failed :
    (c : Setting) (g : Graph) → g.state.status ≡ Status.failed → rank (after_supervise c g) ≡ 1
unfolding after_supervise
supervise_rank_failed c g h = ground arith

supervise_falls :
    (c : Setting) (x y : Call SupervisorDecision) (g : Graph)
    → let g' = (supervise c x y g).0 in
      steps_left c (after_supervise c g') g' < steps_left c supervise_node g
supervise_falls c x y g =
    let g' = (supervise c x y g).0 in
    elim (supervise-batch c x y g) [
      | inl (same, fail) ↦ omega (arith, same, supervise_rank_failed c g' fail)
      | inr (next, within) ↦ omega (arith, next, within, supervise_rank c g')
    ]

-- The node that ran, with its result and its successor.
next_falls :
    (c : Setting) (a : Answers) (at : At) (g : Graph)
    → at ≢ end_node
    → let g' = (run_node c a at g).0 in steps_left c (next_node c at g') g' < steps_left c at g
unfolding run_node next_node
next_falls c a bootstrap_node g h = omega (arith, bootstrap-batch g)
next_falls c a retrieve_context_node g h =
    omega (arith, retrieve_context-batch a.retrieval a.catalog g)
next_falls c a supervise_node g h = supervise_falls c a.first_decision a.retry_decision g
next_falls c a prepare_task_node g h =
    omega (arith, prepare_task-batch c a.copy_error g, prepare_rank)
next_falls c a worker_node g h = omega (arith, worker-batch a.work g, worker_rank)
next_falls c a approval_node g h = omega (arith, approval-batch a.human g, approval_rank)
next_falls c a apply_candidate_node g h = omega (arith, apply_candidate-batch c g, apply_rank)
next_falls c a verify_node g h = omega (arith, verify-batch c a.verifying g, verify_rank)
next_falls c a rollback_node g h = omega (arith, rollback-batch c a.restoring g, rollback_rank)
next_falls c a finalize_node g h = omega (arith, finalize-batch c g)
next_falls c a failed_node g h = omega (arith, fail_run-batch c g)
next_falls c a end_node g h = absurd (h refl)

Step-falls :
    {c : Setting} {at at' : At} {g g' : Graph}
    → Step c at g at' g'
    → steps_left c at' g' < steps_left c at g
Step-falls {c} {at} {g = g} (step a g' runs e) = rw (ap (λ r. r.0) e) at (next_falls c a at g runs)

-- Each step of a run uses up one of the steps that were left at its start, whatever the agents, the human
-- and the subprocesses answer.
pub Run-le-steps_left :
    {c : Setting} {at : At} {g : Graph} {n : ℕ} {at' : At} {g' : Graph}
    → Run c at g n at' g'
    → n + steps_left c at' g' ≤ steps_left c at g
Run-le-steps_left start = omega arith
Run-le-steps_left (more r s) = omega (arith, Run-le-steps_left r, Step-falls s)

-- A run from the first node makes at most 11 steps for each batch that the configuration allows, and 10
-- more, whatever the agents, the human and the subprocesses answer.
pub Run-length :
    (c : Setting) (g : Graph) {at : At} {g' : Graph} {n : ℕ}
    → Run c bootstrap_node g n at g'
    → n ≤ c.max_supervisor_batches * 11 + 10
Run-length c g r = omega (arith, Run-le-steps_left r)
