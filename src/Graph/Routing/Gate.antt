-- ===== src/Graph/Routing/Gate.antt =====
-- src/evoci/graph/routing.py: which patches pass without a human, and what the diff scan lets through.
use text.Mathlib.Text.{starts_with}
use evo_ci.Prelude.{
  ◌≤◌, ◌≡◌, ◌↔◌, refl, String, Option, none, some, List, [], ◌∷◌, Bool, false, not, ◌&&◌, any,
  arith, length, map, ◌||◌, ◌==◌,
}
use evo_ci.Tools.Patch.{FileEdit}
use evo_ci.Domain.Results.{FixerOutput, Risk, low, medium, high}
use evo_ci.Tools.Paths.{occurs, codes}
use evo_ci.Graph.Routing.{requires_approval, is_risky, distinct, pure_path, names_one_of}

-- The two kinds of file that a patch may not change together.
abbrev manifests : List String
manifests = "pyproject.toml" ∷ "package.json" ∷ "cargo.toml" ∷ "go.mod" ∷ []

abbrev locks : List String
locks = "uv.lock" ∷ "poetry.lock" ∷ "package-lock.json" ∷ "pnpm-lock.yaml" ∷ "yarn.lock" ∷ []

-- What a patch has to be to pass without a human.
pub record IsSmall (o : FixerOutput) : Type 0 where
  pub risk : o.proposal.risk ≡ low
  pub workflows :
      any (λ path. starts_with (pure_path path) ".github/workflows/") o.proposal.changed_files
      ≡ false
  pub deletions : any (λ (e : FileEdit). e.delete) o.edits ≡ false
  pub few : length (distinct (map pure_path o.proposal.changed_files)) ≤ 4
  pub dependencies :
      (names_one_of manifests o.proposal.changed_files
        && names_one_of locks o.proposal.changed_files)
      ≡ false

is_risky-low : (r : Risk) → is_risky r ≡ false → r ≡ low
is_risky-low low h = refl
is_risky-low medium h = ground (arith, h)
is_risky-low high h = ground (arith, h)

low-is_risky : (r : Risk) → r ≡ low → is_risky r ≡ false
low-is_risky r h = rw h refl

-- A patch passes without a human exactly if its risk is low, it touches no workflow, removes no file,
-- changes at most four distinct paths, and does not change a manifest together with a lock file.
pub requires_approval_exact : (o : FixerOutput) → (requires_approval o ≡ false) ↔ IsSmall o
unfolding requires_approval
requires_approval_exact o = (
  λ h. record {
    risk = is_risky-low o.proposal.risk (ground (arith, h));
    workflows = ground (arith, h);
    deletions = ground (arith, h);
    few = ground (arith, h);
    dependencies = ground (arith, h);
  },
  λ (h : IsSmall o).
      ground (
        arith,
        low-is_risky o.proposal.risk h.risk,
        h.workflows,
        h.deletions,
        h.few,
        h.dependencies,
      ),
)

-- The tokens that bypass a test or a check.
unfoldable pub bypasses : String → Bool
bypasses s =
    any (λ token. occurs (codes token) (codes s))
      ("pytest.skip(" ∷ "@pytest.mark.skip" ∷ "continue-on-error: true" ∷ "|| true" ∷ "# noqa"
        ∷ "eslint-disable" ∷ [])

-- A path that is not below ".evoci".
unfoldable pub is_outside : String → Bool
is_outside path = not (path == ".evoci" || starts_with path ".evoci/")

-- A line of the diff that the scan objects to.
unfoldable pub is_bypass : String → Bool
is_bypass line = (starts_with line "+" && not (starts_with line "+++")) && bypasses line

-- An untracked file that the scan objects to.
unfoldable pub is_bypass_file : String × Option String → Bool
is_bypass_file (path, none) = false
is_bypass_file (path, some content) = is_outside path && bypasses content
