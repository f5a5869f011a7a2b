-- ===== src/Graph/Edges/Bound/Batches.antt =====
-- What each node of src/evoci/graph/builder.py does to the number of the batch: all but `supervise`
-- leave it alone.
use evo_ci.Prelude.{
  ℕ, ◌+◌, ◌≤◌, ◌≡◌, refl, String, Option, List, Bool, ok, raise, Raised, Outcome, arith, ◌⊎◌,
}
use evo_ci.Domain.Commands.{VerificationResult}
use evo_ci.Domain.Tasks.{SupervisorDecision, WorkerTask}
use evo_ci.Domain.Results.{FixerOutput}
use evo_ci.Verification.Plan.{PlannedCommand}
use evo_ci.Graph.State.{Graph, Setting, EvoCiState, ApplyPlan, failed}
use evo_ci.Graph.Nodes.Bootstrap.{Retrieval, Catalog, bootstrap, retrieve_context}
use evo_ci.Graph.Nodes.Supervise.{Call, supervise}
use evo_ci.Graph.Nodes.Prepare.{prepare_task, schedule, take_snapshot, reject_dispatch}
use evo_ci.Graph.Nodes.Worker.{WorkerRun, worker, worker_ran, worker_update}
use evo_ci.Graph.Nodes.Approval.{approval}
use evo_ci.Graph.Nodes.Apply.{apply_candidate, planned, make_plan, attempt, undo}
use evo_ci.Graph.Nodes.Apply.Loop.{Progress}
use evo_ci.Graph.Nodes.Verify.{
  Verifying, verify, verify_planned, verify_if_planned, Verified, conclude, judged, blocked_update,
  verdict_update, status_update,
}
use evo_ci.Graph.State.Restore.{Restoring}
use evo_ci.Graph.Nodes.Rollback.{rollback}
use evo_ci.Graph.Nodes.Terminal.{finalize, fail_run}

abbrev pub batch : Graph → ℕ
batch g = g.state.supervisor_batch

pub bootstrap-batch : (g : Graph) → batch (bootstrap g).0 ≡ batch g
unfolding bootstrap
bootstrap-batch g = ground arith

pub retrieve_context-batch :
    (r : Option Retrieval) (k : Option Catalog) (g : Graph)
    → batch (retrieve_context r k g).0 ≡ batch g
unfolding retrieve_context
retrieve_context-batch r k g = ground arith

pub supervise-batch :
    (c : Setting) (a b : Call SupervisorDecision) (g : Graph)
    → let g' = (supervise c a b g).0 in
      ((batch g' ≡ batch g) × (g'.state.status ≡ failed))
      ⊎ ((batch g' ≡ batch g + 1) × (batch g' ≤ c.max_supervisor_batches))
unfolding supervise
supervise-batch c a b g = ground arith

take_snapshot-batch :
    (c : Setting) (e : Option String) (t : WorkerTask) (g : Graph)
    → batch (take_snapshot c e t g) ≡ batch g
unfolding take_snapshot
take_snapshot-batch c e t g = ground arith

reject_dispatch-batch :
    (c : Setting) (m : String) (s : EvoCiState)
    → (reject_dispatch c m s).supervisor_batch ≡ s.supervisor_batch
unfolding reject_dispatch
reject_dispatch-batch c m s = ground arith

schedule-batch :
    (c : Setting) (e : Option String) (d : SupervisorDecision) (g : Graph)
    → batch (schedule c e d g).0 ≡ batch g
unfolding schedule
schedule-batch c e d g = grind (arith, take_snapshot-batch, reject_dispatch-batch)

pub prepare_task-batch :
    (c : Setting) (e : Option String) (g : Graph) → batch (prepare_task c e g).0 ≡ batch g
unfolding prepare_task
prepare_task-batch c e g = grind (arith, schedule-batch)

worker_update-batch :
    (t : WorkerTask) (r : WorkerRun) (o : Option FixerOutput) (g : Graph)
    → batch (worker_update t r o g) ≡ batch g
unfolding worker_update
worker_update-batch t r o g = ground arith

worker_ran-batch :
    (t : WorkerTask) (r : WorkerRun) (g : Graph) → batch (worker_ran t r g).0 ≡ batch g
unfolding worker_ran
worker_ran-batch t r g = grind (arith, worker_update-batch)

pub worker-batch : (k : Call WorkerRun) (g : Graph) → batch (worker k g).0 ≡ batch g
unfolding worker
worker-batch k g = grind (arith, worker_ran-batch)

pub approval-batch : (h : Bool) (g : Graph) → batch (approval h g).0 ≡ batch g
unfolding approval
approval-batch h g = ground arith

undo-batch :
    (c : Setting) (plan : ApplyPlan) (p : Progress) (x : Raised) (g : Graph)
    → batch (undo c plan p x g).0 ≡ batch g
unfolding undo
undo-batch c plan p x g = ground arith

attempt-batch :
    (c : Setting) (plan : ApplyPlan) (o : FixerOutput) (g : Graph)
    → batch (attempt c plan o g).0 ≡ batch g
unfolding attempt
attempt-batch c plan o g = grind (arith, undo-batch)

make_plan-batch : (c : Setting) (o : FixerOutput) (g : Graph) → batch (make_plan c o g).0 ≡ batch g
unfolding make_plan
make_plan-batch c o g = grind (arith, attempt-batch)

planned-batch : (c : Setting) (o : FixerOutput) (g : Graph) → batch (planned c o g).0 ≡ batch g
unfolding planned
planned-batch c o g = grind (arith, make_plan-batch, attempt-batch)

pub apply_candidate-batch : (c : Setting) (g : Graph) → batch (apply_candidate c g).0 ≡ batch g
unfolding apply_candidate
apply_candidate-batch c g = grind (arith, planned-batch)

status_update-batch :
    (v : VerificationResult) (s : EvoCiState)
    → (status_update v s).supervisor_batch ≡ s.supervisor_batch
unfolding status_update
status_update-batch v s = ground arith

judged-batch :
    (v : Verifying) (id : String) (r : VerificationResult) (g : Graph)
    → batch (judged v id r g) ≡ batch g
unfolding judged blocked_update verdict_update
judged-batch v id r g = grind (arith, status_update-batch)

conclude-batch :
    (c : Setting) (v : Verifying) (g : Graph) (y : Verified) → batch (conclude c v g y).0 ≡ batch g
unfolding conclude
conclude-batch c v g (w, raise x) = refl
conclude-batch c v g (w, ok r) = judged-batch v _ r (record g { world = w })

verify_planned-batch :
    (c : Setting) (v : Verifying) (p : List PlannedCommand) (g : Graph)
    → batch (verify_planned c v p g).0 ≡ batch g
unfolding verify_planned
verify_planned-batch c v p g = conclude-batch c v g _

verify_if_planned-batch :
    (c : Setting) (v : Verifying) (p : Outcome (List PlannedCommand)) (g : Graph)
    → batch (verify_if_planned c v p g).0 ≡ batch g
verify_if_planned-batch c v (raise x) g = refl
verify_if_planned-batch c v (ok p) g = verify_planned-batch c v p g

pub verify-batch : (c : Setting) (v : Verifying) (g : Graph) → batch (verify c v g).0 ≡ batch g
unfolding verify
verify-batch c v g = verify_if_planned-batch c v _ g

pub rollback-batch : (c : Setting) (r : Restoring) (g : Graph) → batch (rollback c r g).0 ≡ batch g
unfolding rollback
rollback-batch c r g = ground arith

pub finalize-batch : (c : Setting) (g : Graph) → batch (finalize c g).0 ≡ batch g
unfolding finalize
finalize-batch c g = ground arith

pub fail_run-batch : (c : Setting) (g : Graph) → batch (fail_run c g).0 ≡ batch g
unfolding fail_run
fail_run-batch c g = ground arith
