-- ===== src/Agents/ToolLoop/Pages.antt =====
-- src/evoci/agents/tool_loop.py, `read_tool_result`: large results are cached under the id of their
-- call, and read page by page. The tool is added to the registry of the worker for the loop's time.
pub mod Whole
use evo_ci.Prelude.Dict
use evo_ci.Prelude.{
  ℕ, zero, suc, ◌+◌, ◌-◌, String, Option, none, some, List, [], ◌∷◌, Bool, true, false, not, ◌&&◌,
  leb, if◌then◌else◌, Outcome, ok, raise, ◌>>=◌, contains, is_some, all, length, ◌⧺◌, map,
  key_error, validation_error,
}
use evo_ci.Runtime.Events.{Value, text, number}
use evo_ci.Tools.Registry.{
  Arguments, Payload, mapping, ToolResult, ToolSpec, ToolRegistry, add, register,
}

-- What the tools of a loop share: the cached texts, and the state of the worker's own tools.
pub record Shared (S : Type 0) : Type 0 where
  pub cached : List (String × List ℕ)
  pub inner : S

-- `xs[:n]` and `xs[n:]`
unfoldable pub take : ℕ → List ℕ → List ℕ
take n [] = []
take zero (x ∷ xs) = []
take (suc n) (x ∷ xs) = x ∷ take n xs

unfoldable pub drop : ℕ → List ℕ → List ℕ
drop n [] = []
drop zero (x ∷ xs) = x ∷ xs
drop (suc n) (x ∷ xs) = drop n xs

pub record Page : Type 0 where
  pub result_id : String
  pub offset : ℕ
  pub content : List ℕ
  pub next_offset : Option ℕ
  pub complete : Bool
  pub total_chars : ℕ

abbrev pub page_of : String → ℕ → ℕ → List ℕ → Page
page_of id offset limit raw =
    let chunk = take limit (drop offset raw) in
    let next = offset + length chunk in
    record {
      result_id = id;
      offset = offset;
      content = chunk;
      next_offset = if leb (length raw) next then none else some next;
      complete = leb (length raw) next;
      total_chars = length raw;
    }

abbrev pub found : String → ℕ → ℕ → Option (List ℕ) → Outcome Page
found id offset limit none = raise (key_error ("unknown cached tool result: " ⧺ id))
found id offset limit (some raw) = ok (page_of id offset limit raw)

unfoldable pub read_tool_result : List (String × List ℕ) → String → ℕ → ℕ → Outcome Page
read_tool_result cached id offset limit = found id offset limit (Dict.lookup id cached)

-- `_ReadToolResultArgs`: keys that the model does not name are passed over.
abbrev pub chunk_chars : ℕ
chunk_chars = 8000

abbrev number_or : ℕ → Option Value → Option ℕ
number_or n none = some n
number_or n (some (number k)) = some k
number_or n (some _) = none

pub record ReadToolResultArgs : Type 0 where
  pub result_id : String
  pub offset : ℕ
  pub limit : ℕ

abbrev bounded_args : Option Value → Option ℕ → Option ℕ → Outcome ReadToolResultArgs
bounded_args (some (text id)) (some offset) (some limit) =
    if leb 1 limit && leb limit 32000
    then ok (record { result_id = id; offset = offset; limit = limit })
    else raise (validation_error "limit")
bounded_args (some (text id)) (some offset) none = raise (validation_error "limit")
bounded_args (some (text id)) none limit = raise (validation_error "offset")
bounded_args id offset limit = raise (validation_error "result_id")

unfoldable pub read_tool_result_args : Arguments → Outcome ReadToolResultArgs
read_tool_result_args a =
    bounded_args (Dict.lookup "result_id" a) (number_or 0 (Dict.lookup "offset" a))
      (number_or chunk_chars (Dict.lookup "limit" a))

-- The answer is a dict without the keys that the loop looks at; `render` is `json.dumps`.
abbrev page_result : (Page → List ℕ) → Page → ToolResult
page_result render page = record {
  payload = mapping (record {
    exit_code = none;
    timed_out = false;
    stderr = none;
    created_files = none;
    modified_files = none;
    deleted_files = none;
  });
  json = render page;
}

abbrev listed_too : Option (List String) → Option (List String)
listed_too none = none
listed_too (some names) = some (add "read_tool_result" names)

module _ {S : Type 0} where
  abbrev pub lifted : ToolSpec S → ToolSpec (Shared S)
  lifted spec = record {
    capability = spec.capability;
    function = λ s a.
        let (inner, result) = spec.function s.inner a in (record s { inner = inner }, result);
    args_model = spec.args_model;
  }

  abbrev pub reader : (Page → List ℕ) → ToolSpec (Shared S)
  reader render = record {
    capability = "read_files";
    function = λ s a. (
      s,
      read_tool_result_args a >>= λ v.
          read_tool_result s.cached v.result_id v.offset v.limit >>= λ page.
          ok (page_result render page),
    );
    args_model = none;
  }

  -- The worker's registry, whose tools know nothing of the cache.
  abbrev pub shared : ToolRegistry S → ToolRegistry (Shared S)
  shared r = record {
    capabilities = r.capabilities;
    tool_allowlist = r.tool_allowlist;
    tools = map (λ t. (t.0, lifted t.1)) r.tools;
    changed = r.changed;
    state = record { cached = []; inner = r.state };
  }

  -- `tools.register("read_tool_result", …)`, and its place in the allow-list
  unfoldable pub with_reader : (Page → List ℕ) → ToolRegistry (Shared S) → ToolRegistry (Shared S)
  with_reader render r =
      let registered = register "read_tool_result" (reader render) r in
      record registered { tool_allowlist = listed_too registered.tool_allowlist }
