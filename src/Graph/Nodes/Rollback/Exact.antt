-- ===== src/Graph/Nodes/Rollback/Exact.antt =====
-- src/evoci/graph/builder.py: what `rollback` restores, from the snapshot that `prepare_task` took.
use evo_ci.Prelude.{
  ℕ, ◌≡◌, String, some, none, Bool, true, false, not, ◌&&◌, is_some, arith, ap, ◌∙◌, ok, Outcome,
  raise, Raised, ◌⊎◌, inl, inr, refl, String, message, ◌⧺◌,
}
use evo_ci.Domain.Tasks.{WorkerTask}
use evo_ci.Tools.Filesystem.{Files, Place}
use evo_ci.Graph.State.{Graph, World, EvoCiState, Setting}
use evo_ci.Graph.State.Effects.{is_ignored, save_batch_snapshot, emit_event}
use evo_ci.Domain.Results.{infrastructure}
use evo_ci.Graph.State.{failed}
use evo_ci.Graph.State.Restore.{Restoring, restore_batch_snapshot, is_kept}
use evo_ci.Graph.State.Restore.Whole.{
  Keeps, Lists, Restored, restore_batch_snapshot-Keeps, restore_batch_snapshot-Restored,
}
use evo_ci.Graph.Nodes.Prepare.{take_snapshot, prepared}
use evo_ci.Graph.Nodes.Rollback.{rollback, rolled_back, restored_files, apply_failed, note_call}

-- `rollback` takes the snapshot of the batch: no apply has failed halfway.
abbrev pub uses_snapshot : EvoCiState → Bool
uses_snapshot s = not (apply_failed s && is_some s.attempt_written)

snapshot_taken :
    (c : Setting) (t : WorkerTask) (g : Graph)
    → g.world.snapshots g.state.supervisor_batch ≡ none
    → let g' = take_snapshot c none t g in
      (g'.world.snapshots g.state.supervisor_batch ≡ some (save_batch_snapshot g.world.files))
      × (g'.state.batch_snapshot_path ≡ some g.state.supervisor_batch)
unfolding take_snapshot prepared
snapshot_taken c t g h = ground (arith, h)

-- The files after a rollback whose restoration ended like this, and how the state ends.
abbrev Ends : Graph → Graph → Files × Outcome (Unit {0}) → Type 0
Ends before after (files, ok u) =
    (after.world.files ≡ files)
    × (after.state.status ≡ before.state.status)
    × (after.state.batch_conflict ≡ none)
Ends before after (files, raise e) =
    (after.world.files ≡ files)
    × (after.state.status ≡ failed)
    × (after.state.failure_class ≡ some infrastructure)
    × (after.state.failure_reason ≡ some ("rollback failed: " ⧺ message e))

rolled_back-status :
    (id : String) (s : EvoCiState)
    → ((rolled_back id s).status ≡ s.status) × ((rolled_back id s).batch_conflict ≡ none)
unfolding rolled_back
rolled_back-status id s = ground arith

restored :
    (c : Setting) (r : Restoring) (s : EvoCiState) (w : World) (n : ℕ) (files : Files)
    → uses_snapshot s ≡ true
    → s.batch_snapshot_path ≡ some n
    → w.snapshots n ≡ some files
    → restored_files c r s w ≡ restore_batch_snapshot r files w.files
unfolding restored_files
restored c r s w n files h path there = ground (arith, h, path, there)

by_outcome :
    (c : Setting) (r : Restoring) (g : Graph) (o : Files × Outcome (Unit {0}))
    → restored_files c r g.state (note_call g.state g.world) ≡ o
    → ((rollback c r g).1 ≡ ok tt) × Ends g (rollback c r g).0 o
unfolding rollback emit_event
by_outcome c r g (files, raise e) h = grind (arith, h)
by_outcome c r g (files, ok u) h = grind (arith, h, rolled_back-status)

rollback_snapshot :
    (c : Setting) (r : Restoring) (g : Graph) (n : ℕ) (files : Files)
    → uses_snapshot g.state ≡ true
    → g.state.batch_snapshot_path ≡ some n
    → g.world.snapshots n ≡ some files
    → ((rollback c r g).1 ≡ ok tt)
      × Ends g (rollback c r g).0 (restore_batch_snapshot r files g.world.files)
unfolding emit_event
rollback_snapshot c r g n files h path there =
    by_outcome c r g (restore_batch_snapshot r files g.world.files)
      (restored c r g.state (note_call g.state g.world) n files h path there)

-- The batch is undone: each place is as it was at the snapshot, what a snapshot ignores is gone, and the
-- top-level ".git" and ".evoci" are as they are.
abbrev pub IsUndone : Files → Graph → Graph → Type 0
IsUndone saved before after =
    (after.state.status ≡ before.state.status)
    × (after.state.batch_conflict ≡ none)
    × ((p : Place)
        → (is_kept p ≡ false → is_ignored p ≡ false → after.world.files p ≡ saved p)
          × (is_kept p ≡ false → is_ignored p ≡ true → after.world.files p ≡ none)
          × (is_kept p ≡ true → after.world.files p ≡ before.world.files p))

-- The restoration has failed, and the run with it.
abbrev pub IsBroken : Graph → Graph → Type 0
IsBroken before after =
    (after.state.status ≡ failed)
    × (after.state.failure_class ≡ some infrastructure)
    × ((p : Place) → is_kept p ≡ true → after.world.files p ≡ before.world.files p)

ended :
    (saved : Files) (before after : Graph) (x : Files × Outcome (Unit {0}))
    → Restored (save_batch_snapshot saved) before.world.files x
    → Keeps before.world.files x
    → Ends before after x
    → ((x.1 ≡ ok tt) × IsUndone saved before after)
      ⊎ ((e : Raised) × (x.1 ≡ raise e) × IsBroken before after)
unfolding save_batch_snapshot
ended saved before after (files, raise e) whole keeps (is, status, class, reason) =
    inr (e, refl, (status, class, λ p kept. rw is (keeps p kept)))
ended saved before after (files, ok u) whole keeps (is, status, cleared) = inl (
  refl,
  (
    status,
    cleared,
    λ p. (
      λ k i. rw is (whole p ∙ rw (k, i) refl),
      λ k i. rw is (whole p ∙ rw (k, i) refl),
      λ k. rw is (whole p ∙ rw k refl),
    ),
  ),
)

-- A batch whose snapshot `prepare_task` took, where a later state still points to that snapshot, no apply has
-- failed halfway, and the file system lists what is there: `rollback` returns. If no removal and no copy of the
-- restoration raises, it keeps the status, clears the conflict, and puts each place back as it was at the
-- snapshot, whatever was done in between; what a snapshot ignores is gone then, and the top-level ".git" and
-- ".evoci" stay as they are. If one raises, the run fails as an infrastructure failure, and those two stay.
pub take_snapshot-rollback :
    (c : Setting) (r : Restoring) (t : WorkerTask) (g later : Graph)
    → g.world.snapshots g.state.supervisor_batch ≡ none
    → later.world.snapshots ≡ (take_snapshot c none t g).world.snapshots
    → later.state.batch_snapshot_path ≡ (take_snapshot c none t g).state.batch_snapshot_path
    → uses_snapshot later.state ≡ true
    → Lists r.present later.world.files
    → Lists r.saved (save_batch_snapshot g.world.files)
    → let (after, done) = rollback c r later in
      let restoration =
        restore_batch_snapshot r (save_batch_snapshot g.world.files) later.world.files in
      (done ≡ ok tt)
      × (((restoration.1 ≡ ok tt) × IsUndone g.world.files later after)
          ⊎ ((e : Raised) × (restoration.1 ≡ raise e) × IsBroken later after))
take_snapshot-rollback c r t g later fresh snaps path uses here there =
    let (taken, named) = snapshot_taken c t g fresh in
    let saved = save_batch_snapshot g.world.files in
    let (returned, ends) =
      rollback_snapshot c r later g.state.supervisor_batch saved uses (path ∙ named)
        (ap (λ f. f g.state.supervisor_batch) snaps ∙ taken) in
    (
      returned,
      ended g.world.files later (rollback c r later).0
          (restore_batch_snapshot r saved later.world.files)
          (restore_batch_snapshot-Restored r saved later.world.files here there)
          (restore_batch_snapshot-Keeps r saved later.world.files) ends,
    )
