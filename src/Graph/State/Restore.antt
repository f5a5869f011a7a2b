-- ===== src/Graph/State/Restore.antt =====
-- src/evoci/graph/integration.py: `restore_batch_snapshot`, from a snapshot that is there and lies outside of the
-- workspace. What the file system answers and where it fails is an argument.
pub mod Whole
use evo_ci.Prelude.{
  String, Option, none, some, List, [], ◌∷◌, Bool, true, false, ◌||◌, ◌==◌, if◌then◌else◌, Outcome,
  ok, raise, Raised,
}
use evo_ci.Tools.Filesystem.{Place, Node, Files, Op, and_then}

-- An exception, and the files that it leaves below the name in question.
abbrev pub Fault : Type 0
Fault = Option (Raised × Files)

-- One restoration: the names that the workspace and the snapshot list, in the order of the file system, and the
-- faults at the removal and at the copy of a name.
pub record Restoring : Type 0 where
  pub present : List String
  pub saved : List String
  pub remove_fault : String → Fault
  pub copy_fault : String → Fault

abbrev pub is_under : String → Place → Bool
is_under name [] = false
is_under name (q ∷ qs) = name == q

abbrev pub is_own : String → Bool
is_own name = name == ".evoci" || name == ".git"

-- The files with those below the name replaced.
abbrev pub replaced : String → Files → Files → Files
replaced name below fs p = if is_under name p then below p else fs p

abbrev pub nothing : Files
nothing p = none

-- `shutil.rmtree(item)` or `item.unlink()`
abbrev pub removed : Fault → String → Op (Unit {0})
removed none name fs = (replaced name nothing fs, ok tt)
removed (some (e, left)) name fs = (replaced name left fs, raise e)

abbrev pub remove_item : Restoring → String → Op (Unit {0})
remove_item r name fs = if is_own name then (fs, ok tt) else removed (r.remove_fault name) name fs

unfoldable pub remove_items : Restoring → List String → Op (Unit {0})
remove_items r [] fs = (fs, ok tt)
remove_items r (name ∷ names) fs =
    and_then (remove_item r name fs) (λ _ fs. remove_items r names fs)

abbrev pub over : Option Node → Option Node → Option Node
over none now = now
over (some node) now = some node

-- `shutil.copytree(item, destination, dirs_exist_ok=True)` or `shutil.copy2(item, destination)`
abbrev pub copied : Fault → String → Files → Op (Unit {0})
copied none name snapshot fs = (replaced name (λ p. over (snapshot p) (fs p)) fs, ok tt)
copied (some (e, left)) name snapshot fs = (replaced name left fs, raise e)

abbrev pub copy_item : Restoring → Files → String → Op (Unit {0})
copy_item r snapshot name fs =
    if is_own name then (fs, ok tt) else copied (r.copy_fault name) name snapshot fs

unfoldable pub copy_items : Restoring → Files → List String → Op (Unit {0})
copy_items r snapshot [] fs = (fs, ok tt)
copy_items r snapshot (name ∷ names) fs =
    and_then (copy_item r snapshot name fs) (λ _ fs. copy_items r snapshot names fs)

unfoldable pub restore_batch_snapshot : Restoring → Files → Op (Unit {0})
unfolding remove_items copy_items
restore_batch_snapshot r snapshot fs =
    and_then (remove_items r r.present fs) (λ _ fs. copy_items r snapshot r.saved fs)

-- The top-level names that a restoration leaves alone.
abbrev pub is_kept : Place → Bool
is_kept [] = true
is_kept (p ∷ ps) = is_own p
