-- ===== src/Graph/State/Effects.antt =====
-- The effects that the nodes of src/evoci/graph/builder.py are built from. A node that raises leaves
-- the state as it was: what it changed outside stays changed.
use mathlib.Core.List.{reverse}
use evo_ci.Prelude.{
  ℕ, String, Option, none, some, List, [], ◌∷◌, Bool, ◌||◌, ◌==◌, eqb, if◌then◌else◌, Outcome, ok,
  any,
}
use evo_ci.Tools.Paths.{codes, begins}
use evo_ci.Runtime.Events.{EventType, Value}
use evo_ci.Runtime.Recorder.{make_event, emit}
use evo_ci.Tools.Filesystem.{Place, Files}
use evo_ci.Graph.State.{World, Graph}

-- A node: the graph after it, and whether it returned.
abbrev pub Node : Type 0
Node = Graph → Graph × Outcome (Unit {0})

abbrev pub return : Graph → Graph × Outcome (Unit {0})
return g = (g, ok tt)

-- `emit_event` of src/evoci/graph/outcome.py, with a recorder: an empty discriminator becomes "0".
unfoldable pub emit_event :
    String
    → EventType
    → Option String
    → Option String
    → String
    → List (String × Value)
    → World
    → World
unfolding emit make_event
emit_event run_id type agent invocation discriminator payload w = record w {
  events =
      emit
        (make_event run_id type agent invocation
          (if discriminator == "" then "0" else discriminator) payload)
        w.events;
}

-- The names that `copy_workspace_with_independent_git` does not copy, besides "*.pyc".
abbrev ignored_names : List String
ignored_names = ".git" ∷ ".evoci" ∷ ".evoci_runtime" ∷ "__pycache__" ∷ ".pytest_cache" ∷ []

-- the pattern "*.pyc"
abbrev is_bytecode : String → Bool
is_bytecode name = begins (codes "cyp.") (reverse (codes name))

abbrev pub is_ignored : Place → Bool
is_ignored p = any (λ name. any (λ i. i == name) ignored_names || is_bytecode name) p

-- The files of a snapshot. Its own `.git` is never read back, so it is left out.
unfoldable pub save_batch_snapshot : Files → Files
save_batch_snapshot workspace p = if is_ignored p then none else workspace p

-- `snapshots[batch] = files`
abbrev pub set_snapshot : ℕ → Files → (ℕ → Option Files) → ℕ → Option Files
set_snapshot batch files snapshots n = if eqb n batch then some files else snapshots n
