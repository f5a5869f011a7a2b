-- ===== src/Tools/Scope.antt =====
-- src/evoci/tools/scope.py: exact write authorisation by normalised relative paths.
pub mod Safety
use evo_ci.Prelude.{
  String, List, [], ◌∷◌, Bool, true, false, not, ◌&&◌, ◌||◌, ◌==◌, if◌then◌else◌, Outcome, ok,
  raise, ◌>>=◌, policy_violation, any, contains, is_empty, ◌⧺◌,
}
use evo_ci.Tools.Paths.{strip, parts, is_absolute, join}

-- `PurePosixPath.parts` holds no "" and no ".", so the filter of the code drops nothing.
unfoldable pub normalize_write_path : String → Outcome String
normalize_write_path path =
    let raw = strip path in
    if raw == "" || raw == "." || raw == "./"
    then raise (policy_violation "write path must be a relative file path")
    else if is_absolute raw
    then raise (policy_violation ("path escapes workspace: " ⧺ path))
    else if is_empty (parts raw) || any (λ p. p == "..") (parts raw)
    then raise (policy_violation ("path escapes workspace: " ⧺ path))
    else ok (join (parts raw))

-- `dict.fromkeys`: the first of each.
unfoldable pub from_keys : List String → List String → List String
from_keys seen [] = []
from_keys seen (p ∷ ps) =
    let fresh = p ∷ from_keys (p ∷ seen) ps in
    let stale = from_keys seen ps in if contains seen p then stale else fresh

unfoldable pub normalize_all : List String → Outcome (List String)
normalize_all [] = ok []
normalize_all (p ∷ ps) = do q ← normalize_write_path p; qs ← normalize_all ps; ok (q ∷ qs)

unfoldable pub normalize_write_scope : List String → Outcome (List String)
unfolding from_keys normalize_all
normalize_write_scope paths = do unique ← normalize_all paths; ok (from_keys [] unique)

-- The call without a workspace, which is how the graph makes it. An empty scope allows every path.
unfoldable pub assert_write_path_allowed : String → List String → Outcome String
assert_write_path_allowed path scope = do
  normalized ← normalize_write_path path
  if not (is_empty scope) && not (contains scope normalized)
      then raise (policy_violation ("write outside task write_scope: " ⧺ path))
      else ok normalized
