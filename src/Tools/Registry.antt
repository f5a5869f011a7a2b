-- ===== src/Tools/Registry.antt =====
-- src/evoci/tools/registry.py, `ToolRegistry`: the tools of one worker, the tests before a call, and
-- the paths that write tools report. The state that the tools share is a type of its own.
pub mod Gate
pub mod Changes
use evo_ci.Prelude.Dict
use evo_ci.Prelude.{
  ℕ, ℤ, String, Option, none, some, List, [], ◌∷◌, Bool, true, false, not, ◌&&◌, ◌||◌, ◌==◌,
  if◌then◌else◌, Outcome, ok, raise, ◌>>=◌, ◌>>◌, raise_if, key_error, policy_violation, contains,
  is_some, is_zero, or_else, map, keep, ◌⧺◌,
}
use evo_ci.Prelude.Sorted.{sorted_set}
use evo_ci.Runtime.Events.{Value}
use evo_ci.Tools.Policy.{WorkerCapabilities}

-- A call's arguments: the JSON object that the model sent.
abbrev pub Arguments : Type 0
Arguments = List (String × Value)

-- The keys of a result that the harness reads; none where a key is missing.
pub record Fields : Type 0 where
  pub exit_code : Option ℤ
  pub timed_out : Bool
  pub stderr : Option String
  pub created_files : Option (List String)
  pub modified_files : Option (List String)
  pub deleted_files : Option (List String)

-- What a tool returned: `None`, a dict or pydantic model, a dataclass, or another value.
pub data Payload : Type 0 where
  nothing : Payload
  mapping : Fields → Payload
  data_class : Fields → Payload
  plain : Payload

-- The result with its `json.dumps` text, as code points.
pub record ToolResult : Type 0 where
  pub payload : Payload
  pub json : List ℕ

-- `args_model.model_validate` is pydantic's.
pub record ToolSpec (S : Type 0) : Type 0 where
  pub capability : String
  pub function : S → Arguments → S × Outcome ToolResult
  pub args_model : Option (Arguments → Outcome Arguments)

pub record ToolRegistry (S : Type 0) : Type 0 where
  pub capabilities : WorkerCapabilities
  pub tool_allowlist : Option (List String)
  pub tools : List (String × ToolSpec S)
  pub changed : List String
  pub state : S

-- `bool(getattr(capabilities, name, False))`
abbrev pub has_capability : WorkerCapabilities → String → Bool
has_capability c name =
    if name == "read_files"
    then c.read_files
    else if name == "search_code"
    then c.search_code
    else if name == "git_read"
    then c.git_read
    else if name == "execute_tests"
    then c.execute_tests
    else if name == "write_files"
    then c.write_files
    else if name == "network"
    then c.network
    else false

-- `tool_allowlist is None or name in tool_allowlist`
abbrev pub is_listed : Option (List String) → String → Bool
is_listed none name = true
is_listed (some names) name = contains names name

abbrev pub write_path_tools : List String
write_path_tools =
    "apply_patch" ∷ "replace_text" ∷ "create_file" ∷ "delete_file" ∷ "run_skill_script" ∷ []

-- `set.add`
abbrev pub add : String → List String → List String
add s xs = if contains xs s then xs else s ∷ xs

abbrev pub add_paths : List String → List String → List String
add_paths [] xs = xs
add_paths (p ∷ ps) xs = add_paths ps (if p == "" then xs else add p xs)

abbrev pub exit_is_good : Option ℤ → Bool
exit_is_good none = true
exit_is_good (some x) = is_zero x

abbrev pub reported : Fields → List String → List String
reported f xs =
    add_paths (or_else f.deleted_files [])
      (add_paths (or_else f.modified_files []) (add_paths (or_else f.created_files []) xs))

abbrev pub has_path_key : Fields → Bool
has_path_key f = is_some f.created_files || is_some f.modified_files || is_some f.deleted_files

-- Whether the paths of a script's result count.
abbrev pub script_counts : WorkerCapabilities → Fields → Bool
script_counts c f = c.write_files && (exit_is_good f.exit_code && not f.timed_out) && has_path_key f

abbrev pub changed_after : WorkerCapabilities → String → Payload → List String → List String
changed_after c name (mapping f) xs =
    if not (contains write_path_tools name)
    then xs
    else if name == "run_skill_script" && not (script_counts c f)
    then xs
    else reported f xs
changed_after c name nothing xs = xs
changed_after c name (data_class f) xs = xs
changed_after c name plain xs = xs

module _ {S : Type 0} where
  unfoldable pub changed_paths : ToolRegistry S → List String
  changed_paths r = sorted_set r.changed

  unfoldable pub record_changed_paths : String → ToolResult → ToolRegistry S → ToolRegistry S
  record_changed_paths name result r = record r {
    changed = changed_after r.capabilities name result.payload r.changed;
  }

  unfoldable pub register : String → ToolSpec S → ToolRegistry S → ToolRegistry S
  register name spec r = record r { tools = Dict.insert name spec r.tools }

  -- `args_model is None` leaves the arguments as they came.
  abbrev pub validated : ToolSpec S → Arguments → Outcome (ToolSpec S × Arguments)
  validated spec arguments = elim spec.args_model [
    | none ↦ ok (spec, arguments)
    | some validate ↦ validate arguments >>= λ a. ok (spec, a)
  ]

  abbrev pub permitted :
      ToolRegistry S → String → Arguments → Option (ToolSpec S) → Outcome (ToolSpec S × Arguments)
  permitted r name arguments none = raise (key_error ("unknown tool: " ⧺ name))
  permitted r name arguments (some spec) =
      raise_if (not (is_listed r.tool_allowlist name))
        (policy_violation ("tool " ⧺ name ⧺ " is not available to this agent role"))
      >> raise_if (not (has_capability r.capabilities spec.capability))
          (policy_violation ("tool " ⧺ name ⧺ " requires " ⧺ spec.capability))
      >> validated spec arguments

  -- `_resolve`
  unfoldable pub resolve_tool :
      ToolRegistry S → String → Arguments → Outcome (ToolSpec S × Arguments)
  resolve_tool r name arguments = permitted r name arguments (Dict.lookup name r.tools)

  -- A result is looked at for paths; an exception of the tool leaves what the tool did.
  abbrev pub noted :
      String → ToolRegistry S → Outcome ToolResult → ToolRegistry S × Outcome ToolResult
  noted name r (ok result) = (record_changed_paths name result r, ok result)
  noted name r (raise e) = (r, raise e)

  abbrev pub called :
      String
      → ToolRegistry S
      → Outcome (ToolSpec S × Arguments)
      → ToolRegistry S × Outcome ToolResult
  called name r (raise e) = (r, raise e)
  called name r (ok (spec, arguments)) =
      let (state, result) = spec.function r.state arguments in
      noted name (record r { state = state }) result

  unfoldable pub ainvoke : String → Arguments → ToolRegistry S → ToolRegistry S × Outcome ToolResult
  ainvoke name arguments r = called name r (resolve_tool r name arguments)

  abbrev pub is_offered : ToolRegistry S → String × ToolSpec S → Bool
  is_offered r t = has_capability r.capabilities t.1.capability && is_listed r.tool_allowlist t.0

  unfoldable pub available : ToolRegistry S → List String
  available r = sorted_set (map (λ t. t.0) (keep (is_offered r) r.tools))
