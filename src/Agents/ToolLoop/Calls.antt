-- ===== src/Agents/ToolLoop/Calls.antt =====
-- src/evoci/agents/tool_loop.py: the messages, the state of the loop, and the answer to one tool call.
use evo_ci.Prelude.Dict
use evo_ci.Prelude.{
  ℕ, String, Option, none, some, List, [], ◌∷◌, Bool, true, false, not, ◌&&◌, ◌||◌, if◌then◌else◌,
  Raised, message, class_name, is_rejection, contains, is_some, or_string, all, leb, length, ℤ, ◌⧺◌,
}
use evo_ci.Runtime.Events.{Value, text, texts, RunEvent}
use evo_ci.Runtime.Budget.{RunRepairBudget}
use evo_ci.Agents.ToolLoop.Pages.{Shared}
use evo_ci.Tools.Registry.{
  Arguments, Fields, Payload, nothing, mapping, data_class, plain, ToolResult, ToolRegistry,
  exit_is_good,
}

pub record ToolCallRequest : Type 0 where
  pub call_id : String
  pub name : String
  pub arguments : Arguments

-- The result in a tool's message: the value itself, or the preview of a cached text.
pub data MessageResult : Type 0 where
  whole : ToolResult → MessageResult
  absent : MessageResult
  projected : String → ℕ → List ℕ → MessageResult

-- What a tool's message holds: `ok`, `result` and `error`, or the note that no calls are left.
pub data ToolContent : Type 0 where
  answer : Bool → MessageResult → Option (List ℕ) → ToolContent
  exhausted : ToolContent

pub data ToolLoopMessage : Type 0 where
  system user : String → ToolLoopMessage
  assistant : String → List ToolCallRequest → ToolLoopMessage
  tool : String → ToolContent → ToolLoopMessage

-- The agent's run: who emits the events, and the limit of `max_tools`.
pub record Site : Type 0 where
  pub run_id : String
  pub agent_id : String
  pub invocation_id : String
  pub max_tools : ℕ

-- The local variables of `run`, the budgets, the log and the tools. No budget at all is an empty list.
pub record LoopState (S : Type 0) : Type 0 where
  pub messages : List ToolLoopMessage
  pub tool_count : ℕ
  pub used_skills : List String
  pub selected_skills : List String
  pub should_finalize : Bool
  pub budgets : List RunRepairBudget
  pub events : List RunEvent
  pub tools : ToolRegistry (Shared S)

abbrev pub preview_chars : ℕ
preview_chars = 12000

abbrev pub error_chars : ℕ
error_chars = 2000

-- `RunSkillScriptArgs` and `LoadSkillArgs`: no other key, and texts where texts are asked for.
abbrev pub text_of : Option Value → Option String
text_of (some (text s)) = some s
text_of _ = none

abbrev only_keys : List String → Arguments → Bool
only_keys names arguments = all (λ a. contains names a.0) arguments

abbrev is_args : Option Value → Bool
is_args none = true
is_args (some (texts xs)) = leb (length xs) 100
is_args _ = false

unfoldable pub load_skill_id : Arguments → Option String
load_skill_id a = if only_keys ("skill_id" ∷ []) a then text_of (Dict.lookup "skill_id" a) else none

unfoldable pub skill_ref_from_arguments : Arguments → Option String
skill_ref_from_arguments a =
    if only_keys ("skill_id" ∷ "script_name" ∷ "args" ∷ []) a
      && (is_some (text_of (Dict.lookup "script_name" a)) && is_args (Dict.lookup "args" a))
    then text_of (Dict.lookup "skill_id" a)
    else none

-- What became of a call: `success`, `exit_code`, `error`, `rejected` and `result`.
pub record Attempt : Type 0 where
  pub success : Bool
  pub exit_code : Option ℤ
  pub error : Option String
  pub rejected : Bool
  pub result : Option ToolResult

-- `_result_success`: a dict and a dataclass serialise to a dict.
abbrev pub fields_of : Payload → Option Fields
fields_of (mapping f) = some f
fields_of (data_class f) = some f
fields_of nothing = none
fields_of plain = none

abbrev pub succeeded : Fields → Bool
succeeded f = exit_is_good f.exit_code && not f.timed_out

-- A result of `None` reads like no result.
abbrev pub kept_result : ToolResult → Option ToolResult
kept_result r = elim r.payload [ nothing ↦ none | other ↦ some r ]

unfoldable pub result_success : ToolResult → Attempt
result_success r = elim (fields_of r.payload) [
  | none ↦ record {
    success = true;
    exit_code = none;
    error = none;
    rejected = false;
    result = kept_result r;
  }
  | some f ↦ record {
    success = succeeded f;
    exit_code = f.exit_code;
    error =
        if succeeded f
        then none
        else some (or_string f.stderr "tool returned a non-zero exit status");
    rejected = false;
    result = kept_result r;
  }
]

abbrev pub skill_tools : List String
skill_tools = "run_skill_script" ∷ "read_skill_resource" ∷ "load_skill" ∷ []

-- `f"{type(exc).__name__}: {exc}"`
abbrev pub described : Raised → String
described e = class_name e ⧺ ": " ⧺ message e

abbrev pub failed_attempt : String → Raised → Attempt
failed_attempt name e = record {
  success = false;
  exit_code = none;
  error = some (described e);
  rejected = is_rejection e || contains skill_tools name;
  result = none;
}
