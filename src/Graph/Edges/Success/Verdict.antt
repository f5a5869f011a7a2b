-- ===== src/Graph/Edges/Success/Verdict.antt =====
-- src/evoci/graph/builder.py, `verify`: a pass that it leaves is one of the workspace as it stands.
use mathlib.Core.Path.{subst}
use evo_ci.Prelude.{
  ℕ, ◌≡◌, refl, ap, ◌∙◌, String, Option, some, none, List, [], ◌∷◌, true, ok, raise, Outcome,
  Raised, arith, eq_refl,
}
use evo_ci.Runtime.Budget.{RunRepairBudget}
use evo_ci.Domain.Commands.{VerificationResult, is_passed, verify_success_contract}
use evo_ci.Verification.Plan.{PlannedCommand}
use evo_ci.Verification.Service.{Callback}
use evo_ci.Verification.Service.Contract.{run_planned_lem}
use evo_ci.Runtime.Events.{EventType, Value}
use evo_ci.Graph.State.Effects.{emit_event}
use evo_ci.Graph.State.{Graph, World, Setting, EvoCiState}
use evo_ci.Graph.Nodes.Supervise.{formal_success}
use evo_ci.Graph.Nodes.Verify.{
  Verifying, verify, verify_planned, verify_if_planned, Verified, conclude, begin, judged,
  blocked_update, verdict_update, status_update, by_harness, by_official, note_callbacks,
  note_callback, verified_by, verified_with, with_budget,
}
use evo_ci.Graph.Edges.{has_passed}

note_callback-files :
    (id : String) (b : ℕ) (k : Callback) (w : World) → (note_callback id b k w).files ≡ w.files
unfolding note_callback
note_callback-files id b k w = ground arith

note_callbacks-files :
    (id : String) (b : ℕ) (cs : List Callback) (w : World)
    → (note_callbacks id b cs w).files ≡ w.files
unfolding note_callbacks
note_callbacks-files id b [] w = refl
note_callbacks-files id b (k ∷ cs) w =
    note_callbacks-files id b cs (note_callback id b k w) ∙ note_callback-files id b k w

contract :
    (v r : VerificationResult)
    → verify_success_contract v ≡ ok r
    → r.passed ≡ true
    → is_passed r.status ≡ true
unfolding verify_success_contract
contract v r h told = ground arith

-- A verdict that reaches the node keeps the workspace, and is "passed" by its status too.
abbrev IsSound : World → World × Outcome VerificationResult → Type 0
IsSound w (w', verdict) =
    (w'.files ≡ w.files)
    × ((r : VerificationResult) → verdict ≡ ok r → r.passed ≡ true → is_passed r.status ≡ true)

with_budget-files : (b : Option RunRepairBudget) (w : World) → (with_budget b w).files ≡ w.files
with_budget-files none w = refl
with_budget-files (some b) w = refl

by_harness-IsSound :
    (v : Verifying) (s : EvoCiState) (p : List PlannedCommand) (w : World)
    → IsSound w (by_harness v s p w)
unfolding by_harness
by_harness-IsSound v s p w =
    let (report, runs, _, status, _, _) =
      run_planned_lem v.cwd_error v.runner v.count_message v.copy_error p (some w.budget) in
    rw (runs, by_harness)
      (
        note_callbacks-files s.run_id s.supervisor_batch report.callbacks
              (with_budget report.budget w)
            ∙ with_budget-files report.budget w,
        λ r e told. ground (arith, status),
      )

by_official-IsSound :
    (s : EvoCiState) (r : VerificationResult) (w : World) → IsSound w (by_official s r w)
unfolding by_official
by_official-IsSound s r w = (ground arith, λ x e told. ground (arith, contract r x))

verified_with-IsSound :
    (x : Option Raised) (o : Option VerificationResult) (v : Verifying) (s : EvoCiState)
    (p : List PlannedCommand) (w : World)
    → IsSound w (verified_with x o v s p w)
verified_with-IsSound (some x) o v s p w = (refl, λ r h told. cc)
verified_with-IsSound none none v s p w = by_harness-IsSound v s p w
verified_with-IsSound none (some r) v s p w = by_official-IsSound s r w

-- What `judged` leaves: a pass stays in the state with its fingerprint, and sends the graph to
-- `finalize` only if the scan of the diff found nothing.
status_update-keeps :
    (r : VerificationResult) (s : EvoCiState)
    → ((status_update r s).verification ≡ s.verification)
      × ((status_update r s).verification_snapshot_id ≡ s.verification_snapshot_id)
unfolding status_update
status_update-keeps r s = ground arith

emit_event-files :
    (run_id : String) (t : EventType) (a i : Option String) (d : String)
    (payload : List (String × Value)) (w : World)
    → (emit_event run_id t a i d payload w).files ≡ w.files
unfolding emit_event
emit_event-files run_id t a i d payload w = refl

judged-keeps :
    (v : Verifying) (id : String) (r : VerificationResult) (g : Graph)
    → let g' = judged v id r g in
      (g'.state.verification ≡ some r)
      × (g'.state.verification_snapshot_id ≡ some id)
      × (g'.world.files ≡ g.world.files)
unfolding judged blocked_update verdict_update
judged-keeps v id r g = grind (arith, status_update-keeps, emit_event-files)

judged-formal_success :
    (c : Setting) (v : Verifying) (r : VerificationResult) (g : Graph) (id : String)
    → c.workspace_snapshot_id g.world.files ≡ id
    → (r.passed ≡ true → is_passed r.status ≡ true)
    → has_passed (judged v id r g).state.verification ≡ true
    → formal_success c (judged v id r g) ≡ true
unfolding formal_success
judged-formal_success c v r g id e sound told =
    let (kept, named, still) = judged-keeps v id r g in
    ground (arith, kept, named, ap c.workspace_snapshot_id still, eq_refl id)

conclude-formal_success :
    (c : Setting) (v : Verifying) (g g' : Graph) (y : Verified)
    → IsSound g.world y
    → conclude c v g y ≡ (g', ok tt)
    → has_passed g'.state.verification ≡ true
    → formal_success c g' ≡ true
unfolding conclude
conclude-formal_success c v g g' (w, raise x) sound h told = cc
conclude-formal_success c v g g' (w, ok r) (still, sound) h told =
    let id = c.workspace_snapshot_id g.world.files in
    let ended : judged v id r (record g { world = w }) ≡ g' = ap (λ x. x.0) h in
    subst (λ x. formal_success c x ≡ true) ended
      (judged-formal_success c v r (record g { world = w }) id (ap c.workspace_snapshot_id still)
        (sound r refl) (rw ended told))

verify_planned-formal_success :
    (c : Setting) (v : Verifying) (p : List PlannedCommand) (g g' : Graph)
    → verify_planned c v p g ≡ (g', ok tt)
    → has_passed g'.state.verification ≡ true
    → formal_success c g' ≡ true
unfolding verify_planned
verify_planned-formal_success c v p g g' h told =
    let (still, sound) =
      verified_with-IsSound v.cancelled v.official v g.state p (begin c v p g).world in
    conclude-formal_success c v g g' (verified_by v g.state p (begin c v p g).world)
      (still ∙ emit_event-files _ _ _ _ _ _ g.world, sound) h told

verify_if_planned-formal_success :
    (c : Setting) (v : Verifying) (p : Outcome (List PlannedCommand)) (g g' : Graph)
    → verify_if_planned c v p g ≡ (g', ok tt)
    → has_passed g'.state.verification ≡ true
    → formal_success c g' ≡ true
verify_if_planned-formal_success c v (raise x) g g' h told = cc
verify_if_planned-formal_success c v (ok p) g g' h told =
    verify_planned-formal_success c v p g g' h told

-- A verification that returns with a pass is one of the workspace as it stands.
pub verify-formal_success :
    (c : Setting) (v : Verifying) (g g' : Graph)
    → verify c v g ≡ (g', ok tt)
    → has_passed g'.state.verification ≡ true
    → formal_success c g' ≡ true
unfolding verify
verify-formal_success c v g g' h told = verify_if_planned-formal_success c v _ g g' h told
