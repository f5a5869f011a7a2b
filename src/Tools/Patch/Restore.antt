-- ===== src/Tools/Patch/Restore.antt =====
-- src/evoci/tools/patch.py: the restoration of an attempt.
pub mod Returns
pub mod Attempt
use Prim.Native.Nat.{◌%◌}
use evo_ci.Prelude.Dict
use evo_ci.Prelude.{
  ℕ, String, Option, none, some, List, [], ◌∷◌, ◌++◌, Bool, true, false, not, if◌then◌else◌,
  Outcome, ok, raise, ◌>>=◌, or_else, patch_error, ◌⧺◌,
}
use evo_ci.Tools.Paths.{resolve}
use evo_ci.Tools.Filesystem.{
  Node, directory, special, Place, file, Files, Op, read_text_or_none, mode_or_none, is_file,
  exists, write_file, unlink, put, and_then, pure,
}
use evo_ci.Tools.Patch.{
  FileEdit, FileBaseline, BaselineValue, intended_content, same_text, same_mode, normalize_baseline,
}

-- the paths that were restored, and those that were removed
abbrev pub Restored : Type 0
Restored = List String × List String

-- The dict comprehension of `attempt_targets`, onto the entries so far.
unfoldable pub targets_onto :
    List (String × Option String) → List FileEdit → List (String × Option String)
unfolding intended_content
targets_onto d [] = d
targets_onto d (e ∷ es) = targets_onto (Dict.insert e.path (intended_content e) d) es

unfoldable pub attempt_targets : List FileEdit → List (String × Option String)
unfolding targets_onto
attempt_targets edits = targets_onto [] edits

-- `target.chmod(mode)` of a regular file
abbrev pub chmod_node : Option Node → Place → ℕ → Files → Files
chmod_node (some (file content old)) at mode fs = put fs at (some (file content (mode % 4096)))
chmod_node _ at mode fs = fs

abbrev pub chmod : Place → ℕ → Files → Files
chmod at mode fs = chmod_node (fs at) at mode fs

module _ (root : List String) where
  unfoldable pub recover_attempt_writes :
      Files
      → List FileEdit
      → List (String × Option String)
      → Outcome (List (String × Option String))
  unfolding intended_content read_text_or_none
  recover_attempt_writes fs [] written = ok written
  recover_attempt_writes fs (e ∷ es) written = do
    at ← resolve root e.path
    recover_attempt_writes fs es (
        if same_text (read_text_or_none fs at) (intended_content e)
        then Dict.insert e.path (intended_content e) written
        else written)

  -- The file was not there before the attempt.
  unfoldable pub remove_one : String → Place → Op Restored
  remove_one path at fs =
      if exists (fs at)
      then (if is_file (fs at)
          then and_then (unlink at fs) (λ _. pure ([], path ∷ []))
          else (fs, raise (patch_error ("rollback target is not a regular file: " ⧺ path))))
      else (fs, ok ([], []))

  abbrev wants_mode : Option ℕ → Option ℕ → Bool
  wants_mode none current = false
  wants_mode (some mode) current = not (same_mode current (some mode))

  unfoldable pub rewrite_one : String → String → Option ℕ → Place → Op Restored
  unfolding read_text_or_none mode_or_none
  rewrite_one path content mode at fs =
      if same_text (read_text_or_none fs at) (some content)
      then (if wants_mode mode (mode_or_none fs at)
          then (chmod at (or_else mode 0) fs, ok (path ∷ [], []))
          else (fs, ok ([], [])))
      else and_then (write_file root true path content mode fs) (λ _. pure (path ∷ [], []))

  unfoldable pub restore_one : String → FileBaseline → Op Restored
  unfolding remove_one rewrite_one
  restore_one path b fs = elim (resolve root path) [
    | raise x ↦ (fs, raise x)
    | ok at ↦ elim b.content [
      | none ↦ remove_one path at fs
      | some content ↦ rewrite_one path content b.mode at fs
    ]
  ]

  unfoldable pub restore_all : List (String × FileBaseline) → Restored → Op Restored
  restore_all [] out fs = (fs, ok out)
  restore_all ((path, b) ∷ bs) (restored, removed) fs =
      and_then (restore_one path b fs)
        (λ (r, d) fs. restore_all bs (restored ++ r, removed ++ d) fs)

  -- `restore_edit_baseline`, for a baseline in the form of a checkpoint.
  unfoldable pub restore_edit_baseline : List (String × BaselineValue) → Op Restored
  unfolding restore_all
  restore_edit_baseline baseline fs =
      and_then (fs, normalize_baseline baseline) (λ bs fs. restore_all bs ([], []) fs)

  abbrev pub no_baseline : FileBaseline
  no_baseline = record { content = none; mode = none }

  -- The files of the attempt that still hold what it wrote, with what they go back to.
  unfoldable pub eligible :
      Files
      → List (String × FileBaseline)
      → List (String × Option String)
      → Outcome (List (String × FileBaseline))
  unfolding read_text_or_none
  eligible fs baseline [] = ok []
  eligible fs baseline ((path, applied) ∷ rest) = do
    at ← resolve root path
    more ← eligible fs baseline rest
    ok (
        if same_text (read_text_or_none fs at) applied
        then (path, or_else (Dict.lookup path baseline) no_baseline) ∷ more
        else more)

  -- The baselines go through `_normalize_baseline` once more on the way, which changes none of them.
  unfoldable pub restore_attempt_writes :
      List (String × FileBaseline) → List (String × Option String) → Op Restored
  unfolding eligible restore_all
  restore_attempt_writes baseline written fs =
      and_then (fs, eligible fs baseline written) (λ bs fs. restore_all bs ([], []) fs)
