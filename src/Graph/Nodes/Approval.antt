-- ===== src/Graph/Nodes/Approval.antt =====
-- src/evoci/graph/builder.py: `approval`. The answer of the interrupt is an argument.
use evo_ci.Prelude.{
  none, some, [], ◌∷◌, Bool, true, false, not, ◌||◌, if◌then◌else◌, is_empty, show,
}
use evo_ci.Runtime.Events.{interrupt_resolved, flag}
use evo_ci.Domain.Results.{policy}
use evo_ci.Graph.Outcome.{set_row}
use evo_ci.Graph.Routing.{requires_approval}
use evo_ci.Graph.State.{EvoCiState, failed, running, waiting_approval}
use evo_ci.Graph.State.Effects.{Node, return, emit_event}

abbrev approve : EvoCiState → EvoCiState
approve s = record s { phase = "approval"; approved = some true }

abbrev answered : Bool → EvoCiState → EvoCiState
answered true s = record s {
  phase = "approval";
  approved = some true;
  status = running;
  failure_class = none;
  failure_stage = none;
  failure_reason = none;
}
answered false s = record s {
  phase = "approval";
  approved = some false;
  status = failed;
  failure_class = some policy;
  failure_stage = some "approval";
  failure_reason = some "patch rejected by human";
}

unfoldable pub ask : Bool → Node
unfolding emit_event
ask human g =
    let s = g.state in
    let w = record g.world { run_status = set_row waiting_approval g.world.run_status } in
    return (record {
      state = answered human s;
      world =
          emit_event s.run_id interrupt_resolved none none (show s.supervisor_batch)
            (("approved", flag human) ∷ []) w;
    })

unfoldable pub approval : Bool → Node
unfolding ask
approval human g = elim g.state.fixer_output [
  | none ↦ return (record g { state = approve g.state })
  | some output ↦
      if is_empty output.edits || not (requires_approval output)
      then return (record g { state = approve g.state })
      else ask human g
]
