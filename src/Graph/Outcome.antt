-- ===== src/Graph/Outcome.antt =====
-- src/evoci/graph/outcome.py: the class of a failure, whether an episode is kept, and the terminal event
-- and status of a run. The learning that follows them is not modelled here.
use evo_ci.Prelude.{
  String, Option, none, some, [], ◌∷◌, Bool, true, false, not, ◌&&◌, ◌||◌, is_some, is_empty,
  or_else, or_text, last?, any, if◌then◌else◌,
}
use evo_ci.Runtime.Events.{run_completed, run_failed, text, optional}
use evo_ci.Tools.Paths.{codes, lower, occurs}
use evo_ci.Domain.Commands.{VerificationResult, incomplete, IncompleteCause, execution}
use evo_ci.Domain.Results.{FailureClass, repair, model, budget, policy, infrastructure}
use evo_ci.Graph.State.{EvoCiState, Graph, Status, success, failed}
use evo_ci.Graph.State.Effects.{emit_event}

unfoldable pub has_domain_attempt : EvoCiState → Bool
has_domain_attempt s =
    is_some s.fixer_output
    || is_some s.verification
    || not (is_empty s.verification_history)
    || not (is_empty s.worker_results)
    || not (is_empty s.evidence)
    || is_some s.decision

abbrev pub has_patch : EvoCiState → Bool
has_patch s = is_some s.fixer_output || any (λ r. not (is_empty r.changed_files)) s.worker_results

abbrev pub has_verification : EvoCiState → Bool
has_verification s = is_some s.verification || not (is_empty s.verification_history)

unfoldable pub should_persist_episode : Bool → Option FailureClass → EvoCiState → Bool
unfolding has_domain_attempt
should_persist_episode true class s = true
should_persist_episode false none s = true
should_persist_episode false (some model) s = has_patch s && has_verification s
should_persist_episode false (some infrastructure) s = false
should_persist_episode false (some budget) s = has_domain_attempt s
should_persist_episode false (some policy) s = has_patch s
should_persist_episode false (some repair) s = true

abbrev class_of_cause : Option IncompleteCause → Option FailureClass
class_of_cause (some IncompleteCause.budget) = some budget
class_of_cause (some execution) = some infrastructure
class_of_cause none = none

abbrev pub class_of_verification : Option VerificationResult → Option FailureClass
class_of_verification none = none
class_of_verification (some v) = elim v.status [
  | incomplete ↦ class_of_cause v.incomplete_cause
  | _ ↦ none
]

abbrev mentions : String → String → Bool
mentions word reason = occurs (codes word) (lower reason)

abbrev class_of_reason : String → FailureClass
class_of_reason reason =
    if mentions "exhausted" reason || mentions "budget" reason then budget else repair

abbrev class_of_attempt : EvoCiState → FailureClass
class_of_attempt s = if has_patch s then repair else class_of_reason (or_else s.failure_reason "")

-- `failure_classes` holds the five classes only, so its last entry always counts.
unfoldable pub resolve_failure_class : Bool → EvoCiState → Option FailureClass
resolve_failure_class true s = none
resolve_failure_class false s = elim s.failure_class [
  | some class ↦ some class
  | none ↦ elim (class_of_verification s.verification) [
    | some class ↦ some class
    | none ↦ elim (last? s.failure_classes) [
      | some class ↦ some class
      | none ↦ some (class_of_attempt s)
    ]
  ]
]

abbrev pub class_text : Option FailureClass → Option String
class_text none = none
class_text (some repair) = some "repair"
class_text (some model) = some "model"
class_text (some budget) = some "budget"
class_text (some policy) = some "policy"
class_text (some infrastructure) = some "infrastructure"

abbrev pub final_status : Bool → Status
final_status true = success
final_status false = failed

-- `run_store.update_status`, where the row is there
abbrev pub set_row : Status → Option Status → Option Status
set_row status none = none
set_row status (some old) = some status

abbrev class_or : Option FailureClass → Option FailureClass → Option FailureClass
class_or none other = other
class_or (some c) other = some c

-- The terminal event, the row of the run, and the update that `persist_run_outcome` returns.
unfoldable pub persist_terminal : Bool → Option String → Option FailureClass → Graph → Graph
unfolding resolve_failure_class emit_event
persist_terminal succeeded reason class g =
    let s = g.state in
    let status = final_status succeeded in
    let resolved = class_or class (resolve_failure_class succeeded s) in
    let noted =
      emit_event s.run_id (if succeeded then run_completed else run_failed) none none "terminal"
        (("status", text (if succeeded then "success" else "failed"))
          ∷ ("reason", optional reason)
          ∷ ("failure_class", optional (class_text resolved))
          ∷ [])
        g.world in
    record {
      state = record s {
        phase = if succeeded then "finalize" else "failed";
        status = status;
        failure_reason = reason;
        failure_class = resolved;
        failure_stage = if succeeded then none else or_text s.failure_stage (some s.phase);
        learning_deferred = false;
      };
      world = record noted { run_status = set_row status noted.run_status };
    }
