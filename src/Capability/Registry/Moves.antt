-- ===== src/Capability/Registry/Moves.antt =====
-- src/evoci/capability/registry.py: the moves of the packages that install a skill, and what takes them back. A
-- directory of a fresh name that stays after a success is not kept here: no later call looks at it.
use evo_ci.Prelude.{
  Option, none, some, [], Bool, true, false, not, ◌&&◌, ◌||◌, if◌then◌else◌, Outcome, ok, raise,
  Raised, is_some, or_else,
}
use evo_ci.Capability.Registry.{Package, SkillRoot}

-- Where the file system or SQLite fails. For an installation: at making the package read-only, at moving the package
-- before the last aside, the current package, and the new one into its place, or in the transaction; for a new skill
-- also at making its directory or its `memory.md`. For the recovery: what `rmtree`, which ignores errors, leaves of
-- the new package, whether it leaves the new directory, and the renames and the removal that raise.
pub record Faults : Type 0 where
  pub make_root : Option Raised
  pub write_memory : Option Raised
  pub make_readonly : Option Raised
  pub move_previous : Option Raised
  pub move_current : Option Raised
  pub move_staging : Option Raised
  pub transaction : Option Raised
  pub left_package : Option Package
  pub left_root : Bool
  pub restore_current : Option Raised
  pub restore_previous : Option Raised
  pub remove_memory : Option Raised

-- A rename: the directory after it, or as it was.
abbrev pub renamed : Option Raised → SkillRoot → SkillRoot → SkillRoot × Outcome (Unit {0})
renamed none after before = (after, ok tt)
renamed (some e) after before = (before, raise e)

abbrev pub set_aside : Option Raised → SkillRoot → SkillRoot × Outcome (Unit {0})
set_aside f d = elim d.previous [
  | none ↦ (d, ok tt)
  | some p ↦ renamed f (record d { previous = none; old_previous = some p }) d
]

-- The directory after the moves, whether the current package was moved, and the outcome.
abbrev pub Moves : Type 0
Moves = SkillRoot × Bool × Outcome (Unit {0})

abbrev pub move_staging : Option Raised → Package → SkillRoot × Outcome (Unit {0}) → Moves
move_staging f staged (d, raise e) = (d, false, raise e)
move_staging f staged (d, ok u) =
    let (placed, done) = renamed f (record d { current = some staged }) d in (placed, true, done)

abbrev pub move_current :
    Option Raised → SkillRoot × Outcome (Unit {0}) → SkillRoot × Outcome (Unit {0})
move_current f (d, raise e) = (d, raise e)
move_current f (d, ok u) = renamed f (record d { previous = d.current; current = none }) d

unfoldable pub moves : Faults → Package → SkillRoot → Moves
moves f staged d =
    move_staging f.move_staging staged (move_current f.move_current (set_aside f.move_previous d))

abbrev pub drop_current : Faults → Bool → SkillRoot → SkillRoot
drop_current f moved d =
    if moved && is_some d.current then record d { current = f.left_package } else d

abbrev pub back_current : Faults → SkillRoot → SkillRoot × Outcome (Unit {0})
back_current f d =
    if not (is_some d.current) && is_some d.previous
    then renamed f.restore_current (record d { current = d.previous; previous = none }) d
    else (d, ok tt)

abbrev pub back_previous : Faults → SkillRoot × Outcome (Unit {0}) → SkillRoot × Outcome (Unit {0})
back_previous f (d, raise e) = (d, raise e)
back_previous f (d, ok u) =
    if is_some d.old_previous && not (is_some d.previous)
    then renamed f.restore_previous (record d { previous = d.old_previous; old_previous = none }) d
    else (d, ok tt)

-- The `except` of an update.
unfoldable pub put_back : Faults → Bool → SkillRoot → SkillRoot × Outcome (Unit {0})
put_back f moved d = back_previous f (back_current f (drop_current f moved d))

abbrev pub no_root : SkillRoot
no_root = record {
  is_there = false;
  current = none;
  previous = none;
  old_previous = none;
  memory = none;
}

-- The directory of a new skill before its package is moved in.
abbrev pub prepared_root : SkillRoot → SkillRoot
prepared_root d = record d { is_there = true; memory = some (or_else d.memory []) }

abbrev pub written_root : Option Raised → Option Raised → SkillRoot → SkillRoot × Outcome (Unit {0})
written_root (some e) readonly d =
    if is_some d.memory
    then renamed readonly (prepared_root d) (prepared_root d)
    else (record d { is_there = true }, raise e)
written_root none readonly d = renamed readonly (prepared_root d) (prepared_root d)

-- What comes before the `try` of a creation: nothing takes it back.
unfoldable pub prepare : Faults → SkillRoot → SkillRoot × Outcome (Unit {0})
prepare f d = elim f.make_root [
  | some e ↦ (d, raise e)
  | none ↦ written_root f.write_memory f.make_readonly d
]

abbrev pub without_memory : Faults → SkillRoot → SkillRoot → SkillRoot × Outcome (Unit {0})
without_memory f before d =
    if is_some before.memory
    then (d, ok tt)
    else renamed f.remove_memory (record d { memory = none }) d

abbrev pub without_root :
    Faults → SkillRoot → SkillRoot × Outcome (Unit {0}) → SkillRoot × Outcome (Unit {0})
without_root f before (d, raise e) = (d, raise e)
without_root f before (d, ok u) = (if before.is_there || f.left_root then d else no_root, ok tt)

-- The `except` of a creation, from the directory before it.
unfoldable pub clear : Faults → SkillRoot → SkillRoot → SkillRoot × Outcome (Unit {0})
clear f before d =
    without_root f before (without_memory f before (record d { current = f.left_package }))
