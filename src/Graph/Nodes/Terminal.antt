-- ===== src/Graph/Nodes/Terminal.antt =====
-- src/evoci/graph/builder.py: `finalize` and `failed`.
use evo_ci.Prelude.{
  String, Option, none, some, Bool, true, false, not, ◌&&◌, or_text, or_string, if◌then◌else◌,
}
use evo_ci.Domain.Tasks.{SupervisorDecision, is_stop}
use evo_ci.Domain.Results.{FailureClass, repair, infrastructure}
use evo_ci.Graph.Outcome.{resolve_failure_class, persist_terminal}
use evo_ci.Graph.State.{EvoCiState, success, failed, Setting}
use evo_ci.Graph.State.Effects.{Node, return}
use evo_ci.Graph.Nodes.Supervise.{formal_success}

abbrev pub stops : Option SupervisorDecision → Bool
stops none = false
stops (some d) = is_stop d.action

abbrev pub stop_reason_of : Option SupervisorDecision → Option String
stop_reason_of none = none
stop_reason_of (some d) = d.stop_reason

unfoldable pub finalize : Setting → Node
unfolding persist_terminal formal_success
finalize c g =
    let s = g.state in
    if stops s.decision && not (formal_success c g)
    then return (
        persist_terminal false
          (some
            (or_string (stop_reason_of s.decision) "supervisor stopped without verified success"))
          (some repair) g)
    else if c.defer_success_learning
    then return (record g {
      state = record s {
        phase = "finalize";
        status = success;
        failure_reason = none;
        learning_deferred = true;
      };
    })
    else return (persist_terminal true none none g)

abbrev is_infrastructure : Option FailureClass → Bool
is_infrastructure (some infrastructure) = true
is_infrastructure _ = false

-- `reason`, after a look at the decision
unfoldable pub final_reason : EvoCiState → String
final_reason s =
    let reason =
      or_string (or_text s.failure_reason s.batch_conflict) "orchestration budget exhausted" in
    if stops s.decision then or_string (stop_reason_of s.decision) reason else reason

unfoldable pub fail_run : Setting → Node
unfolding final_reason persist_terminal resolve_failure_class
fail_run c g =
    let s = g.state in
    let class = resolve_failure_class false s in
    if c.defer_success_learning && is_infrastructure class
    then return (record g {
      state = record s {
        phase = "failed";
        status = failed;
        failure_reason = some (final_reason s);
        failure_class = class;
        failure_stage = or_text s.failure_stage (some s.phase);
        learning_deferred = true;
      };
    })
    else return (persist_terminal false (some (final_reason s)) class g)
