-- ===== src/Tools/Samples.antt =====
-- Small paths and edits, and what the tools do with them.
use evo_ci.Prelude.{
  ◌≡◌, refl, String, List, [], ◌∷◌, true, false, ok, ◌||◌, any, is_empty, contains,
}
use evo_ci.Prelude.{some, none, if◌then◌else◌}
use evo_ci.Tools.Filesystem.{Files, file, same_place}
use evo_ci.Tools.Patch.{FileEdit}
use evo_ci.Tools.Paths.{parts, split, join, strip, resolve, is_absolute}
use evo_ci.Tools.Scope.{normalize_write_path, assert_write_path_allowed}
use evo_ci.Tools.Scope.Safety.{is_up, assert_write_path_allowed-inside}

abbrev scope : List String
scope = "src/app.py" ∷ "README" ∷ []

dotted_path_allowed : assert_write_path_allowed " ./src//app.py" scope ≡ ok "src/app.py"
unfolding assert_write_path_allowed normalize_write_path parts split join strip
dotted_path_allowed = refl

assert_write_path_allowed-inside_example :
    (is_absolute "src/app.py" ≡ false)
    × (resolve ("work" ∷ "repo" ∷ []) "src/app.py" ≡ ok (parts "src/app.py"))
    × (any is_up (parts "src/app.py") ≡ false)
    × (is_empty (parts "src/app.py") ≡ false)
    × (is_empty scope || contains scope "src/app.py" ≡ true)
assert_write_path_allowed-inside_example =
    assert_write_path_allowed-inside ("work" ∷ "repo" ∷ []) " ./src//app.py" scope "src/app.py"
      dotted_path_allowed

abbrev repository : Files
repository p = if same_place p ("README" ∷ []) then some (file "old text" 420) else none

abbrev edits : List FileEdit
edits =
    record { path = "src/app.py"; content = some "x = 1"; delete = false; expected_sha256 = none }
    ∷ record {
      path = "README";
      content = none;
      delete = true;
      expected_sha256 = some "another text";
    }
    ∷ []

abbrev digest : String → String
digest s = s
