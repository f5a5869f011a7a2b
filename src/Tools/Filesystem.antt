-- ===== src/Tools/Filesystem.antt =====
-- The file tree of one workspace, and the write operations of src/evoci/tools/filesystem.py that the
-- patch engine rests on. A place is the list of components below the workspace's root.
pub mod Views
use Prim.Native.Nat.{◌%◌}
use Prim.Native.Char.{Char, code}
use evo_ci.Prelude.{
  ℕ, String, Option, none, some, List, [], ◌∷◌, ◌++◌, Bool, true, false, ◌&&◌, ◌==◌, if◌then◌else◌,
  Outcome, ok, raise, os_error, policy_violation, is_some, eqb,
}
use evo_ci.Tools.Paths.{resolve}

abbrev pub Place : Type 0
Place = List String

abbrev pub same_place : Place → Place → Bool
same_place [] [] = true
same_place [] (q ∷ qs) = false
same_place (p ∷ ps) [] = false
same_place (p ∷ ps) (q ∷ qs) = p == q && same_place ps qs

-- A regular file has its text, in UTF-8, and its permission bits. `special` is any other file.
pub data Node : Type 0 where
  file : (content : String) (mode : ℕ) → Node
  directory special : Node

abbrev pub Files : Type 0
Files = Place → Option Node

abbrev pub put : Files → Place → Option Node → Files
put fs at node p = if same_place at p then node else fs p

-- The files after the call, and what it returned or raised.
abbrev pub Op : Type 0 → Type 0
Op A = Files → Files × Outcome A

abbrev pub pure : {A : Type 0} → A → Op A
pure a fs = (fs, ok a)

abbrev pub throw : {A : Type 0} → Outcome A → Op A
throw r fs = (fs, r)

abbrev pub and_then : {A B : Type 0} → Files × Outcome A → (A → Op B) → Files × Outcome B
and_then (fs, ok a) f = f a fs
and_then (fs, raise e) f = (fs, raise e)

abbrev pub line_feed : Char
line_feed = "\n"

-- The newlines of a text that Python reads: "\r\n" and "\r" are "\n". The flag says that a "\r" was before.
abbrev pub newlines_after : Bool → String → String
newlines_after after String.[] = String.[]
newlines_after after (String.◌∷◌ c s) =
    let return = String.◌∷◌ line_feed (newlines_after true s) in
    let rest = newlines_after false s in
    if eqb (code c) 13 then return else if after && eqb (code c) 10 then rest else String.◌∷◌ c rest

unfoldable pub newlines : String → String
newlines s = newlines_after false s

-- A text that was written, as it is read again.
abbrev pub read_back : Option String → Option String
read_back none = none
read_back (some s) = some (newlines s)

-- `read_text` of a regular file
abbrev pub node_text : Option Node → Option String
node_text (some (file content mode)) = some (newlines content)
node_text _ = none

-- `_read_text_or_none` of patch.py
unfoldable pub read_text_or_none : Files → Place → Option String
read_text_or_none fs p = node_text (fs p)

-- `S_IMODE(target.stat().st_mode)` of a regular file
unfoldable pub mode_or_none : Files → Place → Option ℕ
mode_or_none fs p = elim (fs p) [ some (file content mode) ↦ some mode | _ ↦ none ]

abbrev pub is_file : Option Node → Bool
is_file (some (file content mode)) = true
is_file _ = false

abbrev pub exists : Option Node → Bool
exists node = is_some node

abbrev make_directory : Option Node → Option (Option Node)
make_directory none = some (some directory)
make_directory (some directory) = some (some directory)
make_directory (some _) = none

-- `target.parent.mkdir(parents=True, exist_ok=True)`, from the root down.
unfoldable pub make_parents : Place → Place → Files → Option Files
make_parents done [] fs = some fs
make_parents done (p ∷ []) fs = some fs
make_parents done (p ∷ q ∷ rest) fs =
    let here = done ++ p ∷ [] in
    elim (make_directory (fs here)) [
      | none ↦ none
      | some node ↦ make_parents here (q ∷ rest) (put fs here node)
    ]

abbrev pub new_mode : Option ℕ → Option Node → ℕ
new_mode (some mode) old = mode % 4096
new_mode none (some (file content mode)) = mode
new_mode none _ = 384

-- `os.replace` on a name that holds a directory fails.
abbrev pub replace_node : Option Node → Place → String → ℕ → Op (Unit {0})
replace_node (some directory) at content mode fs = (fs, raise (os_error "Is a directory"))
replace_node _ at content mode fs = (put fs at (some (file content mode)), ok tt)

abbrev pub replace : Place → String → ℕ → Op (Unit {0})
replace at content mode fs = replace_node (fs at) at content mode fs

-- `write_file` behind its checks, at a resolved place.
unfoldable pub write_at : Place → String → Option ℕ → Op (Unit {0})
write_at at content mode fs = elim (make_parents [] at fs) [
  | none ↦ (fs, raise (os_error "Not a directory"))
  | some made ↦ replace at content (new_mode mode (fs at)) made
]

unfoldable pub write_file :
    (root : List String) (writable : Bool) → String → String → Option ℕ → Op (Unit {0})
write_file root writable path content mode fs =
    if writable
    then (elim (resolve root path) [
      | raise e ↦ (fs, raise e)
      | ok at ↦ write_at at content mode fs
    ])
    else (fs, raise (policy_violation "worker does not have write permission"))

-- `target.unlink()`
unfoldable pub unlink : Place → Op (Unit {0})
unlink at fs = elim (fs at) [
  | some directory ↦ (fs, raise (os_error "Is a directory"))
  | none ↦ (fs, raise (os_error "No such file"))
  | some _ ↦ (put fs at none, ok tt)
]
