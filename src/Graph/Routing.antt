-- ===== src/Graph/Routing.antt =====
-- src/evoci/graph/routing.py: when a patch needs a human, and the scan of the final diff. What git
-- prints, and the text of an untracked file, are parameters.
pub mod Gate
use Prim.Native.Nat.{Ordering}
use Prim.Native.String.{compare}
use text.Mathlib.Text.{starts_with}
use evo_ci.Prelude.{
  ℕ, String, Option, none, some, List, [], ◌∷◌, ◌++◌, Bool, true, false, not, ◌&&◌, ◌||◌, ◌==◌, ltb,
  if◌then◌else◌, any, all, length, map, last?, or_else, contains, ◌⧺◌, keep,
}
use evo_ci.Prelude.Sorted.{sorted_set}
use evo_ci.Tools.Paths.{codes, lower, occurs, begins, parts, is_absolute, join}
use evo_ci.Tools.Patch.{FileEdit}
use evo_ci.Domain.Results.{FixerOutput, Risk, low, medium, high}

-- `str(PurePosixPath(path))`
abbrev pub pure_path : String → String
pure_path path =
    if is_absolute path
    then "/" ⧺ (elim (parts path) [ [] ↦ "" | p ∷ ps ↦ join (p ∷ ps) ])
    else join (parts path)

-- a set of texts, as a list without repetition
unfoldable pub distinct : List String → List String
distinct [] = []
distinct (s ∷ ss) = let rest = distinct ss in if contains rest s then rest else s ∷ rest

-- `PurePosixPath(path).name.lower() == name`, for a name in lower case
abbrev has_name : String → String → Bool
has_name name path =
    let n = lower (or_else (last? (parts path)) "") in
    begins n (codes name) && begins (codes name) n

abbrev pub manifest_names : List String
manifest_names = "pyproject.toml" ∷ "package.json" ∷ "cargo.toml" ∷ "go.mod" ∷ []

abbrev pub lock_names : List String
lock_names = "uv.lock" ∷ "poetry.lock" ∷ "package-lock.json" ∷ "pnpm-lock.yaml" ∷ "yarn.lock" ∷ []

abbrev pub names_one_of : List String → List String → Bool
names_one_of names paths = any (λ p. any (λ n. has_name n p) names) paths

abbrev pub is_risky : Risk → Bool
is_risky low = false
is_risky medium = true
is_risky high = true

abbrev pub is_workflow : String → Bool
is_workflow path = starts_with (pure_path path) ".github/workflows/"

unfoldable pub requires_approval : FixerOutput → Bool
unfolding distinct
requires_approval o =
    let files = o.proposal.changed_files in
    is_risky o.proposal.risk
    || any is_workflow files
    || any (λ (e : FileEdit). e.delete) o.edits
    || ltb 4 (length (distinct (map pure_path files)))
    || (names_one_of manifest_names files && names_one_of lock_names files)

abbrev pub bypass_tokens : List String
bypass_tokens =
    "pytest.skip(" ∷ "@pytest.mark.skip" ∷ "continue-on-error: true" ∷ "|| true" ∷ "# noqa"
    ∷ "eslint-disable" ∷ []

abbrev pub holds : String → String → Bool
holds token line = occurs (codes token) (codes line)

-- An added line of a diff, and not the header of a file.
unfoldable pub is_added : String → Bool
is_added line = starts_with line "+" && not (starts_with line "+++")

abbrev pub in_diff : String → String
in_diff token = "possible test or CI bypass in final diff: " ⧺ token

abbrev in_file : String → String
in_file path = "possible test or CI bypass in untracked file " ⧺ path

unfoldable pub line_blockers : String → List String
line_blockers line =
    if is_added line then map in_diff (keep (λ t. holds t line) bypass_tokens) else []

unfoldable pub diff_blockers : List String → List String
unfolding line_blockers
diff_blockers [] = []
diff_blockers (line ∷ lines) = line_blockers line ++ diff_blockers lines

unfoldable pub is_internal : String → Bool
is_internal path = path == ".evoci" || starts_with path ".evoci/"

-- An untracked path with its text, or none where it lies outside the workspace or is no file.
unfoldable pub has_bypass : String → Bool
has_bypass s = any (λ t. holds t s) bypass_tokens

unfoldable pub file_blockers : List (String × Option String) → List String
file_blockers [] = []
file_blockers ((path, content) ∷ rest) =
    let more = file_blockers rest in
    if is_internal path then more else (elim content [
      | none ↦ more
      | some s ↦ if has_bypass s then in_file path ∷ more else more
    ])

-- What `git diff` and `git status` report: none where the command fails.
pub record GitReport : Type 0 where
  pub diff_lines : Option (List String)
  pub untracked : Option (List (String × Option String))

unfoldable pub contains_workspace_review_bypass : GitReport → List String
unfolding diff_blockers file_blockers sorted_set
contains_workspace_review_bypass g =
    sorted_set (diff_blockers (or_else g.diff_lines []) ++ file_blockers (or_else g.untracked []))
