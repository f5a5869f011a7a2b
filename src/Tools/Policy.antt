-- ===== src/Tools/Policy.antt =====
-- src/evoci/tools/policy.py: what each role may do, and the commands that may run.
use evo_ci.Prelude.{
  String, List, [], ◌∷◌, Bool, true, false, not, ◌&&◌, ◌||◌, ◌==◌, if◌then◌else◌, Outcome, ok,
  raise, policy_violation, any, contains, ◌⧺◌, ℕ, leb, last?, Option, some, none, or_else, all,
}
use evo_ci.Tools.Paths.{codes, lower, occurs, parts}

pub record WorkerCapabilities : Type 0 where
  pub read_files : Bool
  pub search_code : Bool
  pub git_read : Bool
  pub execute_tests : Bool
  pub write_files : Bool
  pub network : Bool

abbrev capabilities : Bool → Bool → WorkerCapabilities
capabilities tests writes = record {
  read_files = true;
  search_code = true;
  git_read = true;
  execute_tests = tests;
  write_files = writes;
  network = false;
}

abbrev pub supervisor_capabilities : WorkerCapabilities
supervisor_capabilities = capabilities false false

abbrev pub worker_investigate_capabilities : WorkerCapabilities
worker_investigate_capabilities = capabilities true false

abbrev pub worker_repair_capabilities : WorkerCapabilities
worker_repair_capabilities = capabilities true true

abbrev safe_commands : List String
safe_commands =
    "python" ∷ "python3" ∷ "pytest" ∷ "ruff" ∷ "mypy" ∷ "git" ∷ "uv" ∷ "npm" ∷ "pnpm" ∷ "yarn"
    ∷ "node" ∷ "cargo" ∷ "go" ∷ []

abbrev forbidden : List String
forbidden = "sudo " ∷ "rm -rf" ∷ "curl " ∷ "wget " ∷ "--privileged" ∷ "/etc/" ∷ "../" ∷ []

-- `Path(argv[0]).name`
abbrev executable_name : String → String
executable_name s = or_else (last? (parts s)) ""

-- `re.fullmatch(r"python3(?:\.\d+)?", s)`, with ASCII digits
abbrev is_digits : List ℕ → Bool
is_digits [] = false
is_digits (c ∷ cs) = all (λ d. leb b'0' d && leb d b'9') (c ∷ cs)

abbrev after_python3 : List ℕ → Bool
after_python3 [] = true
after_python3 (c ∷ cs) = leb b'.' c && leb c b'.' && is_digits cs

abbrev strip_prefix : List ℕ → List ℕ → Option (List ℕ)
strip_prefix [] s = some s
strip_prefix (t ∷ ts) [] = none
strip_prefix (t ∷ ts) (c ∷ cs) =
    let rest = strip_prefix ts cs in if leb t c && leb c t then rest else none

abbrev is_versioned_python : String → Bool
is_versioned_python s = elim (strip_prefix (codes "python3") (codes s)) [
  | none ↦ false
  | some rest ↦ after_python3 rest
]

-- `" ".join(argv)`
abbrev join_words : List String → String
join_words [] = ""
join_words (w ∷ []) = w
join_words (w ∷ v ∷ ws) = w ⧺ " " ⧺ join_words (v ∷ ws)

abbrev has_forbidden : List String → Bool
has_forbidden argv = any (λ t. occurs (codes t) (lower (join_words argv))) forbidden

abbrev is_package_manager : String → Bool
is_package_manager e = e == "npm" || e == "pnpm" || e == "yarn" || e == "uv"

abbrev reaches_network : List String → Bool
reaches_network argv =
    contains argv "add"
    || contains argv "install"
    || contains argv "publish"
    || contains argv "upload"

unfoldable pub validate_command : List String → Bool → Outcome (Unit {0})
validate_command [] network = raise (policy_violation "empty command")
validate_command (head ∷ args) network =
    let argv = head ∷ args in
    let executable = executable_name head in
    if not (contains safe_commands executable) && not (is_versioned_python executable)
    then raise (policy_violation ("command is not allowlisted: " ⧺ executable))
    else if has_forbidden argv
    then raise (policy_violation "command contains a forbidden pattern")
    else if not network && is_package_manager executable && reaches_network argv
    then raise (policy_violation "network-affecting package command is disabled")
    else ok tt
