-- ===== src/Graph/Nodes/Apply.antt =====
-- src/evoci/graph/builder.py: `apply_candidate`, with `validate_edits_against_scope` of integration.py.
pub mod Loop
pub mod Undo
use evo_ci.Prelude.Dict
use evo_ci.Prelude.{
  ℕ, String, Option, none, some, List, [], ◌∷◌, ◌++◌, Bool, true, false, not, ◌&&◌, ◌||◌, ◌==◌,
  or_else, or_string, truthy, if◌then◌else◌, Outcome, ok, raise, Raised, repair_budget_exhausted,
  patch_error, patch_conflict, patch_precheck_error, integration_error, policy_violation, os_error,
  message, ◌>>=◌, ◌>>◌, is_empty, map, last?, show, ◌⧺◌,
}
use evo_ci.Runtime.Events.{patch_created, texts, optional}
use evo_ci.Runtime.Budget.{RunRepairBudget}
use evo_ci.Tools.Scope.{normalize_all, assert_write_path_allowed}
use evo_ci.Tools.Filesystem.{Files}
use evo_ci.Tools.Patch.{FileEdit, FileBaseline, snapshot_edit_baseline}
use evo_ci.Tools.Patch.Restore.{restore_attempt_writes}
use evo_ci.Domain.Tasks.{WorkerTask}
use evo_ci.Domain.Results.{FixerOutput, FailureClass, budget, repair, WorkerExecutionResult}
use evo_ci.Graph.State.{EvoCiState, World, Graph, ApplyPlan, Setting}
use evo_ci.Graph.State.Effects.{Node, return, emit_event}
use Loop.{Progress, Names, apply_loop}

abbrev check_all : List FileEdit → List String → Outcome (Unit {0})
check_all [] allowed = ok tt
check_all (e ∷ es) allowed = do _ ← assert_write_path_allowed e.path allowed; check_all es allowed

unfoldable pub validate_edits_against_scope : List FileEdit → List String → Outcome (Unit {0})
validate_edits_against_scope edits scope = do allowed ← normalize_all scope; check_all edits allowed

abbrev task_name : Option WorkerTask → String
task_name none = "repair"
task_name (some t) = t.task_id

abbrev pub operation_id : EvoCiState → String
operation_id s = show s.supervisor_batch ⧺ ":" ⧺ task_name s.worker_task

abbrev agent_name : EvoCiState → String
agent_name s = "worker:" ⧺ task_name s.worker_task

abbrev latest_artifact : EvoCiState → Option String
latest_artifact s = elim (last? s.worker_results) [ none ↦ none | some r ↦ r.patch_artifact_ref ]

-- The update that sends the graph to `rollback`.
abbrev pub conflict : FailureClass → String → String → EvoCiState → EvoCiState
conflict class text reason s = record s {
  phase = "apply_candidate";
  batch_conflict = some text;
  failure_classes = s.failure_classes ++ class ∷ [];
  failure_reason = some reason;
  failure_stage = some "apply_candidate";
}

-- The exceptions that the node turns into a conflict, with the class that each of them counts as.
abbrev pub caught : Raised → Option FailureClass
caught (repair_budget_exhausted m) = some budget
caught (patch_conflict m) = some repair
caught (patch_error m) = some repair
caught (patch_precheck_error m) = some repair
caught (integration_error m) = some repair
caught (policy_violation m) = some repair
caught (os_error m) = some repair
caught _ = none

-- A new plan: its baseline comes from the snapshot of the batch, or else from the workspace, which
-- then has to be as the worker saw it. An error text stands for a conflict.
abbrev changed_text : String → String → String
changed_text current expected =
    "workspace snapshot " ⧺ current ⧺ " does not match baseline " ⧺ expected

pub data Source : Type 0 where
  from_files : Files → (parent_id : String) → Source
  mismatch : String → Source

abbrev snapshot_of : Graph → Option Files
snapshot_of g = elim g.state.batch_snapshot_path [ none ↦ none | some n ↦ g.world.snapshots n ]

unfoldable pub plan_source : Setting → Graph → Source
plan_source c g =
    let current = c.workspace_snapshot_id g.world.files in
    elim (snapshot_of g) [
      | some files ↦
          from_files files (or_string g.state.batch_snapshot_id (c.workspace_snapshot_id files))
      | none ↦ elim (truthy g.state.worker_baseline_id) [
        | none ↦ from_files g.world.files current
        | some expected ↦
            if current == expected
            then from_files g.world.files expected
            else mismatch (changed_text current expected)
      ]
    ]

abbrev plan_for : String → Option String → List FileEdit → List (String × FileBaseline) → ApplyPlan
plan_for parent artifact edits baseline = record {
  parent_snapshot_id = parent;
  artifact_ref = artifact;
  edits = edits;
  baseline = baseline;
}

abbrev store_plan : String → ApplyPlan → World → World
store_plan id plan w = record w { plans = Dict.insert id plan w.plans }

abbrev after_loop : Progress → World → World
after_loop p w = record w { files = p.files; budget = p.budget; events = p.events }

-- The `except` blocks: what was written goes back, and then the node returns a conflict or raises.
unfoldable pub undo : Setting → ApplyPlan → Progress → Raised → Node
unfolding restore_attempt_writes
undo c plan p x g =
    let s = g.state in
    let (files, restored) = restore_attempt_writes c.root plan.baseline p.written p.files in
    let w = after_loop (record p { files = files }) g.world in
    elim restored [
      | raise y ↦ (record g { world = w }, raise y)
      | ok _ ↦ elim (caught x) [
        | none ↦ (record g { world = w }, raise x)
        | some class ↦ return (record {
          state = record (conflict class (message x) (message x) s) {
            attempt_baseline = plan.baseline;
            attempt_written = some p.written;
          };
          world = w;
        })
      ]
    ]

unfoldable pub finish : Setting → ApplyPlan → FixerOutput → Progress → Graph → Graph
unfolding emit_event
finish c plan output p g =
    let s = g.state in
    record {
      state = record s {
        phase = "apply_candidate";
        attempt_baseline = plan.baseline;
        attempt_written = some p.written;
        integrated_snapshot_id = some (c.workspace_snapshot_id p.files);
      };
      world =
          emit_event s.run_id patch_created (some (agent_name s)) none (operation_id s)
            (("changed_files", texts (map (λ e. e.path) output.edits))
              ∷ ("artifact_ref", optional (latest_artifact s))
              ∷ [])
            (after_loop p g.world);
    }

abbrev start : World → Progress
start w = record { files = w.files; budget = w.budget; events = w.events; written = [] }

abbrev names_of : EvoCiState → Names
names_of s = record { run_id = s.run_id; agent = agent_name s; operation_id = operation_id s }

-- The attempt itself, by a stored plan.
unfoldable pub attempt : Setting → ApplyPlan → FixerOutput → Node
unfolding undo finish apply_loop
attempt c plan output g =
    let (p, done) =
      apply_loop c.digest c.root c.patch_hash_strict (names_of g.state) plan.baseline output.edits
        (start g.world) in
    elim done [ raise x ↦ undo c plan p x g | ok _ ↦ return (finish c plan output p g) ]

-- The plan is made and stored before anything is written.
unfoldable pub make_plan : Setting → FixerOutput → Node
unfolding plan_source snapshot_edit_baseline attempt
make_plan c output g = elim (plan_source c g) [
  | mismatch text ↦
      return (record g { state = conflict repair text "workspace changed before apply" g.state })
  | from_files files parent_id ↦ elim (snapshot_edit_baseline c.digest c.root files output.edits) [
    | raise x ↦ (g, raise x)
    | ok baseline ↦
        let plan = plan_for parent_id (latest_artifact g.state) output.edits baseline in
        attempt c plan output (record g { world = store_plan (operation_id g.state) plan g.world })
  ]
]

unfoldable pub planned : Setting → FixerOutput → Node
unfolding make_plan
planned c output g = elim (Dict.lookup (operation_id g.state) g.world.plans) [
  | none ↦ make_plan c output g
  | some plan ↦ attempt c plan output g
]

abbrev in_scope : FixerOutput → Option WorkerTask → Outcome (Unit {0})
in_scope output none = ok tt
in_scope output (some t) = validate_edits_against_scope output.edits t.write_scope

abbrev nothing_to_apply : Setting → Graph → Graph
nothing_to_apply c g = record g {
  state = record g.state {
    phase = "apply_candidate";
    integrated_snapshot_id = some (c.workspace_snapshot_id g.world.files);
  };
}

unfoldable pub apply_candidate : Setting → Node
unfolding validate_edits_against_scope planned
apply_candidate c g = elim g.state.fixer_output [
  | none ↦ return (nothing_to_apply c g)
  | some output ↦
      if is_empty output.edits
      then return (nothing_to_apply c g)
      else (elim (in_scope output g.state.worker_task) [
        | ok _ ↦ planned c output g
        | raise (policy_violation m) ↦ return (record g { state = conflict repair m m g.state })
        | raise x ↦ (g, raise x)
      ])
]
