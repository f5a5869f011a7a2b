-- ===== src/Tools/Patch.antt =====
-- src/evoci/tools/patch.py: precheck, application, and restoration of file edits. The workspace is its
-- root and its files; `digest` is SHA-256 of a text's UTF-8 bytes, in hexadecimal (hashlib).
pub mod Apply
pub mod Restore
pub mod Baseline
use evo_ci.Prelude.Dict
use evo_ci.Prelude.{
  ℕ, String, Option, none, some, List, [], ◌∷◌, ◌++◌, Bool, true, false, not, ◌&&◌, ◌||◌, ◌==◌, eqb,
  if◌then◌else◌, Outcome, ok, raise, ◌>>=◌, ◌>>◌, raise_if, Raised, patch_error, patch_conflict,
  patch_precheck_error, os_error, value_error, contains, is_some, ◌⧺◌,
}
use evo_ci.Tools.Paths.{resolve}
use evo_ci.Tools.Filesystem.{
  Place, Node, file, directory, special, Files, Op, read_text_or_none, mode_or_none, is_file,
  exists, write_file, unlink, put, and_then, throw, pure,
}

pub record FileEdit : Type 0 where
  pub path : String
  pub content : Option String
  pub delete : Bool
  pub expected_sha256 : Option String

abbrev pub same_text : Option String → Option String → Bool
same_text none none = true
same_text (some a) (some b) = a == b
same_text _ _ = false

abbrev pub same_mode : Option ℕ → Option ℕ → Bool
same_mode none none = true
same_mode (some a) (some b) = eqb a b
same_mode _ _ = false

unfoldable pub intended_content : FileEdit → Option String
intended_content e = if e.delete then none else e.content

pub record FileBaseline : Type 0 where
  pub content : Option String
  pub mode : Option ℕ

-- A baseline as a checkpoint holds it: the old form is a text or null, the new one a mapping.
pub data Field : Type 0 where
  missing other : Field
  text : String → Field
  int : ℕ → Field

pub data BaselineValue : Type 0 where
  plain : Option String → BaselineValue
  mapping : (content mode : Field) → BaselineValue
  unsupported : BaselineValue

abbrev content_of : String → Field → Outcome (Option String)
content_of path missing = ok none
content_of path (text s) = ok (some s)
content_of path _ = raise (patch_error ("invalid attempt baseline content for " ⧺ path))

abbrev mode_of : String → Field → Outcome (Option ℕ)
mode_of path missing = ok none
mode_of path (int n) = ok (some n)
mode_of path _ = raise (patch_error ("invalid attempt baseline mode for " ⧺ path))

unfoldable pub normalize_one : String → BaselineValue → Outcome FileBaseline
normalize_one path (plain content) = ok (record { content = content; mode = none })
normalize_one path (mapping content mode) = do
  c ← content_of path content
  m ← mode_of path mode
  ok (record { content = c; mode = m })
normalize_one path unsupported = raise (patch_error ("invalid attempt baseline for " ⧺ path))

-- The keys of a mapping differ, so each assignment appends.
unfoldable pub normalize_baseline :
    List (String × BaselineValue) → Outcome (List (String × FileBaseline))
unfolding normalize_one
normalize_baseline [] = ok []
normalize_baseline ((path, value) ∷ rest) = do
  b ← normalize_one path value
  bs ← normalize_baseline rest
  ok ((path, b) ∷ bs)

-- `expected_sha256` counts if it is a non-empty text.
abbrev pub expectation : FileEdit → Option String
expectation e = elim e.expected_sha256 [
  | none ↦ none
  | some sha ↦ if sha == "" then none else some sha
]

abbrev pub changed : FileEdit → Raised
changed e = patch_conflict ("file changed since proposal: " ⧺ e.path)

module _ (digest : String → String) (root : List String) where
  -- `_file_digest`: the bytes of a regular file. Another file cannot be read.
  unfoldable pub file_digest : Files → Place → Outcome String
  file_digest fs at = elim (fs at) [
    | some (file content mode) ↦ ok (digest content)
    | _ ↦ raise (os_error "cannot read")
  ]

  -- The digest test, which `precheck_edits` and `apply_edit` share.
  unfoldable pub check_digest : Bool → FileEdit → Files → Place → Outcome (Unit {0})
  unfolding file_digest
  check_digest strict e fs at = elim (if strict then expectation e else none) [
    | none ↦ ok tt
    | some sha ↦ do
      raise_if (not (exists (fs at))) (changed e)
      actual ← file_digest fs at
      raise_if (not (actual == sha)) (changed e)
  ]

  unfoldable pub snapshot_one : Files → FileEdit → Outcome FileBaseline
  snapshot_one fs e = do
    at ← resolve root e.path
    raise_if (exists (fs at) && not (is_file (fs at)))
        (patch_precheck_error ("patch target is not a regular file: " ⧺ e.path))
    ok (record { content = read_text_or_none fs at; mode = mode_or_none fs at })

  -- `baseline[edit.path] = …`, from the first edit to the last
  unfoldable pub snapshot_onto :
      Files → List FileEdit → List (String × FileBaseline) → Outcome (List (String × FileBaseline))
  unfolding snapshot_one
  snapshot_onto fs [] d = ok d
  snapshot_onto fs (e ∷ es) d = do
    b ← snapshot_one fs e
    snapshot_onto fs es (Dict.insert e.path b d)

  unfoldable pub snapshot_edit_baseline :
      Files → List FileEdit → Outcome (List (String × FileBaseline))
  unfolding snapshot_onto
  snapshot_edit_baseline fs edits = snapshot_onto fs edits []

  unfoldable pub precheck_one : Bool → Files → FileEdit → Outcome (Unit {0})
  unfolding check_digest intended_content read_text_or_none
  precheck_one strict fs e = do
    at ← resolve root e.path
    raise_if (exists (fs at) && not (is_file (fs at)))
        (patch_precheck_error ("patch target is not a regular file: " ⧺ e.path))
    if same_text (read_text_or_none fs at) (intended_content e)
        then ok tt
        else check_digest strict e fs at

  unfoldable pub precheck_edits : Bool → Files → List String → List FileEdit → Outcome (Unit {0})
  unfolding precheck_one
  precheck_edits strict fs seen [] = ok tt
  precheck_edits strict fs seen (e ∷ es) = do
    raise_if (contains seen e.path) (patch_precheck_error ("duplicate patch target: " ⧺ e.path))
    precheck_one strict fs e
    precheck_edits strict fs (e.path ∷ seen) es
