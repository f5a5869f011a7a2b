-- ===== src/Graph/Edges/Success.antt =====
-- A run of the graph of src/evoci/graph/builder.py succeeds only by a verification of its workspace.
mod Verdict
use mathlib.Core.Path.{subst}
use evo_ci.Prelude.{
  ℕ, zero, suc, ◌≡◌, ◌≢◌, refl, sym, ap, ◌∙◌, String, Option, some, none, List, [], ◌∷◌, true,
  false, Bool, ◌&&◌, not, ok, raise, Outcome, Raised, arith, ◌⊎◌, inl, inr, Bool-cases,
  Option-cases, eq_refl, if◌then◌else◌, message, is_empty,
}
use evo_ci.Runtime.Budget.{RunRepairBudget}
use evo_ci.Domain.Commands.{VerificationResult, is_passed, verify_success_contract}
use evo_ci.Verification.Plan.{PlannedCommand, build_verification_plan}
use evo_ci.Verification.Service.{Callback, Report, run_planned}
use evo_ci.Verification.Service.Contract.{run_planned_lem}
use evo_ci.Runtime.Events.{EventType, Value}
use evo_ci.Graph.State.Effects.{emit_event}
use evo_ci.Graph.Routing.{contains_workspace_review_bypass}
use evo_ci.Graph.State.{Graph, World, Setting, EvoCiState, Status, success, failed}
use evo_ci.Graph.Nodes.Supervise.{formal_success}
use evo_ci.Graph.Nodes.Verify.{
  Verifying, verify, verify_planned, verify_if_planned, Verified, conclude, begin, judged,
  blocked_update, verdict_update, status_update, by_harness, by_official, note_callbacks,
  note_callback, verified_by, verified_with, with_budget, restore_on_error,
}
use evo_ci.Graph.Nodes.Terminal.{finalize, fail_run}
use evo_ci.Graph.Outcome.{persist_terminal}
use evo_ci.Graph.Edges.{
  At, bootstrap_node, retrieve_context_node, supervise_node, prepare_task_node, worker_node,
  approval_node, apply_candidate_node, verify_node, rollback_node, finalize_node, failed_node,
  end_node, Answers, run_node, next_node, Step, step, Run, start, more, after_supervise,
  after_prepare, after_worker, after_approval, after_apply, after_verify, after_rollback,
  has_passed,
}
use Verdict.{verify-formal_success}

-- What a node that comes next may rely on.
abbrev Inv : Setting → At → Graph → Type 0
Inv c at g =
    (at ≡ finalize_node → formal_success c g ≡ true)
    × (at ≡ end_node → g.state.status ≡ success → formal_success c g ≡ true)

-- Neither `finalize` nor `END`.
abbrev goes_on : At → Bool
goes_on finalize_node = false
goes_on end_node = false
goes_on _ = true

keeps_if_goes_on : (c : Setting) (at : At) (g : Graph) → goes_on at ≡ true → Inv c at g
keeps_if_goes_on c at g h = (λ e. ground (arith, h, e), λ e told. ground (arith, h, e))

prepare_goes_on : (c : Setting) (s : EvoCiState) → goes_on (after_prepare c s) ≡ true
unfolding after_prepare
prepare_goes_on c s = ground arith

worker_goes_on : (s : EvoCiState) → goes_on (after_worker s) ≡ true
unfolding after_worker
worker_goes_on s = ground arith

approval_goes_on : (s : EvoCiState) → goes_on (after_approval s) ≡ true
unfolding after_approval
approval_goes_on s = ground arith

apply_goes_on : (s : EvoCiState) → goes_on (after_apply s) ≡ true
unfolding after_apply
apply_goes_on s = ground arith

rollback_goes_on : (c : Setting) (s : EvoCiState) → goes_on (after_rollback c s) ≡ true
unfolding after_rollback
rollback_goes_on c s = ground arith

supervise-Inv : (c : Setting) (g : Graph) → Inv c (after_supervise c g) g
unfolding after_supervise
supervise-Inv c g = (λ e. ground (arith, e), λ e told. ground (arith, e))

verify-Inv :
    (c : Setting) (v : Verifying) (g g' : Graph)
    → verify c v g ≡ (g', ok tt)
    → Inv c (after_verify g'.state) g'
unfolding after_verify
verify-Inv c v g g' h =
    (λ e. verify-formal_success c v g g' h (ground (arith, e)), λ e told. ground (arith, e))

finalize-formal_success :
    (c : Setting) (g : Graph) → formal_success c (finalize c g).0 ≡ formal_success c g
unfolding finalize formal_success persist_terminal
finalize-formal_success c g = ground arith

fail_run-failed : (c : Setting) (g : Graph) → (fail_run c g).0.state.status ≡ failed
unfolding fail_run
fail_run-failed c g = ground arith

next-Inv :
    (c : Setting) (a : Answers) (at : At) (g g' : Graph)
    → run_node c a at g ≡ (g', ok tt)
    → Inv c at g
    → Inv c (next_node c at g') g'
unfolding run_node next_node
next-Inv c a bootstrap_node g g' h inv = keeps_if_goes_on c _ g' refl
next-Inv c a retrieve_context_node g g' h inv = keeps_if_goes_on c _ g' refl
next-Inv c a supervise_node g g' h inv = supervise-Inv c g'
next-Inv c a prepare_task_node g g' h inv = keeps_if_goes_on c _ g' (prepare_goes_on c g'.state)
next-Inv c a worker_node g g' h inv = keeps_if_goes_on c _ g' (worker_goes_on g'.state)
next-Inv c a approval_node g g' h inv = keeps_if_goes_on c _ g' (approval_goes_on g'.state)
next-Inv c a apply_candidate_node g g' h inv = keeps_if_goes_on c _ g' (apply_goes_on g'.state)
next-Inv c a verify_node g g' h inv = verify-Inv c a.verifying g g' h
next-Inv c a rollback_node g g' h inv = keeps_if_goes_on c _ g' (rollback_goes_on c g'.state)
next-Inv c a finalize_node g g' h inv = (
  λ e. ground (arith, e),
  λ e told.
      subst (λ x. formal_success c x ≡ true) (ap (λ r. r.0) h)
        (finalize-formal_success c g ∙ inv.0 refl),
)
next-Inv c a failed_node g g' h inv = (
  λ e. ground (arith, e),
  λ e told. ground (arith, told, sym (ap (λ r. r.0.state.status) h), fail_run-failed c g),
)
next-Inv c a end_node g g' h inv = subst (λ x. Inv c end_node x) (ap (λ r. r.0) h) inv

Run-Inv :
    {c : Setting} {at : At} {g : Graph} {n : ℕ} {at' : At} {g' : Graph}
    → Run c at g n at' g'
    → Inv c at g
    → Inv c at' g'
Run-Inv start inv = inv
Run-Inv {c} (more r (step a g' runs e)) inv = next-Inv c a _ _ g' e (Run-Inv r inv)

-- A run from the first node that ends with the status "success" holds, in its last state, a verification
-- that passed by its flag and by its status and whose fingerprint is the one of the workspace as the run
-- leaves it: whatever the agents, the human and the subprocesses answer.
pub Run-formal_success :
    (c : Setting) (g : Graph) {g' : Graph} {n : ℕ}
    → Run c bootstrap_node g n end_node g'
    → g'.state.status ≡ success
    → formal_success c g' ≡ true
Run-formal_success c g r told = (Run-Inv r (keeps_if_goes_on c bootstrap_node g refl)).1 refl told
