-- ===== src/Graph/Samples.antt =====
-- Small dispatches and patches, and what the graph does with them.
use evo_ci.Prelude.{
  ◌≡◌, ◌↔◌, refl, none, some, [], ◌∷◌, true, false, ok, raise, arith, All, ◌⊎◌, Raised, eq_iff,
  Bool-cases, inl, inr, ◌==◌, if-either,
}
use evo_ci.Runtime.Budget.{recovered}
use evo_ci.Tools.Paths.{parts, split}
use evo_ci.Domain.Tasks.{WorkerTask, SupervisorDecision, dispatch}
use evo_ci.Domain.Results.{FixerOutput, low}
use evo_ci.Graph.Scheduler.{validate_single_task, normalize_task}
use evo_ci.Graph.Scheduler.Accepts.{MayRun, validate_single_task_exact}
use evo_ci.Graph.Routing.{requires_approval, GitReport}
use evo_ci.Graph.Routing.Gate.{IsSmall, requires_approval_exact}
use evo_ci.Graph.State.{Graph}
use evo_ci.Graph.State.Effects.{save_batch_snapshot, is_ignored}
use evo_ci.Graph.State.Restore.{restore_batch_snapshot, remove_items, copy_items}
use evo_ci.Graph.State.Restore.Whole.{Lists}
use evo_ci.Graph.Nodes.Prepare.{take_snapshot, prepared}
use evo_ci.Graph.Nodes.Rollback.{rollback}
use evo_ci.Graph.Nodes.Rollback.Exact.{uses_snapshot, IsUndone, IsBroken, take_snapshot-rollback}
use evo_ci.Runtime.Budget.{consume_tool_call}
use evo_ci.Prelude.{List, String}
use evo_ci.Runtime.Recorder.{emit, make_event}
use evo_ci.Tools.Paths.{resolve, below, collapse}
use evo_ci.Tools.Filesystem.{
  Files, read_text_or_none, newlines, mode_or_none, write_file, write_at, make_parents, unlink,
}
use evo_ci.Tools.Filesystem.Views.{texts}
use evo_ci.Tools.Patch.{
  FileEdit, FileBaseline, snapshot_edit_baseline, snapshot_onto, snapshot_one, intended_content,
  check_digest,
}
use evo_ci.Tools.Patch.Apply.{apply_edit, apply_at, write_edit, delete_at}
use evo_ci.Tools.Patch.Restore.{
  restore_attempt_writes, eligible, restore_all, restore_one, rewrite_one, remove_one,
}
use evo_ci.Graph.Nodes.Apply.Loop.{Progress, Names, apply_loop, apply_one, write_charged, file_text}
use evo_ci.Graph.Nodes.Apply.Undo.{Reads, apply_loop-undone}
use evo_ci.Graph.Edges.Samples.{no_faults, setting, fresh, fix, new_text, workspace}

abbrev output : FixerOutput
output = record {
  proposal = record {
    summary = "one line";
    changed_files = "app.py" ∷ [];
    commands_run = [];
    risk = low;
    verification_plan = [];
  };
  edits = new_text ∷ [];
}

requires_approval_exact_example : (requires_approval output ≡ false) ↔ IsSmall output
requires_approval_exact_example = requires_approval_exact output

abbrev report : GitReport
report = record {
  diff_lines = some ("+++ b/app.py" ∷ "+x = 1  # noqa" ∷ []);
  untracked = some ((".evoci/run", some "# noqa") ∷ []);
}

validate_single_task_exact_example :
    (validate_single_task (fix ∷ []) ("old" ∷ []) 5 5 ≡ ok fix
      → (raw : WorkerTask) × (fix ∷ [] ≡ raw ∷ [])
        × (normalize_task raw ≡ ok fix)
        × MayRun ("old" ∷ []) 5 5 fix)
    × ((raw : WorkerTask)
        → fix ∷ [] ≡ raw ∷ []
        → normalize_task raw ≡ ok fix
        → MayRun ("old" ∷ []) 5 5 fix
        → validate_single_task (fix ∷ []) ("old" ∷ []) 5 5 ≡ ok fix)
validate_single_task_exact_example = validate_single_task_exact (fix ∷ []) ("old" ∷ []) 5 5 fix

-- a repair that asks to write outside of the workspace
abbrev reaching_out : WorkerTask
reaching_out = record fix { write_scope = "../other.py" ∷ [] }

abbrev reckless : SupervisorDecision
reckless = record {
  action = dispatch;
  reasoning_summary = "elsewhere";
  tasks = reaching_out ∷ [];
  stop_reason = none;
}

abbrev asked : Graph
asked = record {
  state = record fresh { decision = some reckless; supervisor_batch = 1 };
  world = record {
    files = workspace;
    snapshots = λ n. none;
    plans = [];
    budget = recovered 10 10 [];
    events = [];
    run_status = none;
  };
}

abbrev snapped : Graph
snapped = take_snapshot setting none fix asked

-- the workspace with its file gone
abbrev broken : Graph
broken = record snapped { world = record snapped.world { files = λ p. none } }

broken_uses : uses_snapshot broken.state ≡ true
unfolding take_snapshot prepared
broken_uses = refl

listed : Lists no_faults.saved (save_batch_snapshot asked.world.files)
unfolding save_batch_snapshot
listed [] kept among = refl
listed (q ∷ qs) kept among = elim (Bool-cases (q == "app.py")) [
  | inl is ↦ absurd (ground (arith, among, rw ((eq_iff q "app.py").0 is) at among))
  | inr other ↦
      rw other (if-either (λ x. x ≡ none) (is_ignored (q ∷ qs)) _ _ (λ h. refl) (λ h. refl))
]

take_snapshot-rollback_example :
    let (after, done) = rollback setting no_faults broken in
    let restoration =
      restore_batch_snapshot no_faults (save_batch_snapshot asked.world.files) broken.world.files in
    (done ≡ ok tt)
    × (((restoration.1 ≡ ok tt) × IsUndone asked.world.files broken after)
        ⊎ ((e : Raised) × (restoration.1 ≡ raise e) × IsBroken broken after))
take_snapshot-rollback_example =
    take_snapshot-rollback setting no_faults fix asked broken refl refl refl broken_uses
      (λ p kept among. refl) listed

-- nothing fails in that restoration
broken_restored :
    (restore_batch_snapshot no_faults (save_batch_snapshot asked.world.files) broken.world.files).1
    ≡ ok tt
unfolding restore_batch_snapshot remove_items copy_items
broken_restored = refl

abbrev sha : String → String
sha s = s

-- the second edit finds another text than the first has left
abbrev clashing : List FileEdit
clashing = new_text ∷ record new_text { content = some "newer" } ∷ []

abbrev attempt_start : Progress
attempt_start = record { files = workspace; budget = asked.world.budget; events = []; written = [] }

abbrev attempt_names : Names
attempt_names = record { run_id = "run"; agent = "worker:fix"; operation_id = "1:fix" }

abbrev attempt_baseline : List (String × FileBaseline)
attempt_baseline = ("app.py", record { content = some "old"; mode = some 420 }) ∷ []

attempt_program : Unit {0}
unfolding snapshot_edit_baseline snapshot_onto snapshot_one resolve below collapse parts split
    read_text_or_none newlines mode_or_none apply_loop apply_one write_charged file_text
    intended_content apply_edit apply_at write_edit delete_at check_digest write_file write_at
    make_parents consume_tool_call emit make_event recovered restore_attempt_writes eligible
    restore_all restore_one rewrite_one remove_one unlink
attempt_program = tt

baseline_taken : snapshot_edit_baseline sha [] workspace clashing ≡ ok attempt_baseline
unfolding attempt_program
baseline_taken = refl

abbrev stopped : Progress
stopped = (apply_loop sha [] true attempt_names attempt_baseline clashing attempt_start).0

abbrev undone : Files
undone = (restore_attempt_writes [] attempt_baseline stopped.written stopped.files).0

attempt_undone :
    restore_attempt_writes [] attempt_baseline stopped.written stopped.files
    ≡ (undone, ok ("app.py" ∷ [], []))
unfolding attempt_program
attempt_undone = refl

clashing-Reads : All Reads clashing
unfolding attempt_program
clashing-Reads = (refl, (refl, tt))

apply_loop-undone_example : texts undone ("app.py" ∷ []) ≡ texts workspace ("app.py" ∷ [])
apply_loop-undone_example =
    apply_loop-undone sha [] true attempt_names clashing attempt_baseline attempt_start undone
      ("app.py" ∷ [], []) refl clashing-Reads baseline_taken attempt_undone ("app.py" ∷ [])
