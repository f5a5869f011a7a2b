-- ===== src/Tools/Patch/Apply.antt =====
-- src/evoci/tools/patch.py: `apply_edit` and `apply_edits`. Files that an edit has written stay
-- written when a later one raises.
pub mod Overlay
use evo_ci.Prelude.{
  String, Option, none, some, List, [], ◌∷◌, ◌++◌, Bool, true, false, ◌==◌, if◌then◌else◌, Outcome,
  ok, raise, os_error, value_error,
}
use evo_ci.Tools.Paths.{resolve}
use evo_ci.Tools.Filesystem.{
  Place, Node, file, Op, exists, write_file, unlink, and_then, pure, newlines,
}
use evo_ci.Tools.Patch.{FileEdit, check_digest}

-- the paths that were created, and those that were modified
abbrev pub Touched : Type 0
Touched = List String × List String

abbrev pub untouched : Touched
untouched = ([], [])

-- `target.exists() and target.read_text() == content`; a directory cannot be read.
abbrev already_has : Option Node → String → Outcome Bool
already_has none content = ok false
already_has (some (file old mode)) content = ok (newlines old == content)
already_has (some _) content = raise (os_error "cannot read")

abbrev report : Bool → String → Touched
report existed path = if existed then ([], path ∷ []) else (path ∷ [], [])

module _ (digest : String → String) (root : List String) (strict : Bool) where
  unfoldable pub delete_at : FileEdit → Place → Op Touched
  unfolding check_digest
  delete_at e at fs =
      if exists (fs at)
      then and_then (fs, check_digest digest root strict e fs at)
          (λ _ fs. and_then (unlink at fs) (λ _. pure ([], e.path ∷ [])))
      else (fs, ok untouched)

  unfoldable pub write_edit : FileEdit → String → Place → Op Touched
  unfolding check_digest
  write_edit e content at fs =
      and_then (fs, already_has (fs at) content)
        (λ same fs.
          if same
          then (fs, ok untouched)
          else (let existed = exists (fs at) in
              and_then (fs, check_digest digest root strict e fs at)
                (λ _ fs.
                  and_then (write_file root true e.path content none fs)
                    (λ _. pure (report existed e.path)))))

  -- An edit with neither content nor `delete` fails the assertion of the code.
  unfoldable pub apply_at : FileEdit → Place → Op Touched
  unfolding delete_at write_edit
  apply_at e at fs = if e.delete then delete_at e at fs else (elim e.content [
    | none ↦ (fs, raise (value_error "assertion failed"))
    | some content ↦ write_edit e content at fs
  ])

  unfoldable pub apply_edit : FileEdit → Op Touched
  unfolding apply_at
  apply_edit e fs = elim (resolve root e.path) [
    | raise x ↦ (fs, raise x)
    | ok at ↦ apply_at e at fs
  ]

  -- The loop of `apply_edits`, with the lists that it has collected.
  unfoldable pub apply_edits : List FileEdit → Touched → Op Touched
  apply_edits [] out fs = (fs, ok out)
  apply_edits (e ∷ es) (created, modified) fs =
      and_then (apply_edit e fs) (λ (c, m) fs. apply_edits es (created ++ c, modified ++ m) fs)
