-- ===== src/Runtime/Recorder.antt =====
-- src/evoci/runtime/trajectory.py: the recorder without a store behind it, for the events of one run.
-- The event id is the key under which an event is recorded once.
pub mod Once
use evo_ci.Prelude.{
  ℕ, String, Option, none, some, List, [], ◌∷◌, ◌++◌, Bool, true, ◌&&◌, ◌==◌, if◌then◌else◌, any,
  count, or_else, is_some, ◌⧺◌,
}
use evo_ci.Runtime.Events.{EventType, RunEvent, Value, text, value, is_type}

-- `f"{run_id}:{agent_id or 'harness'}:{invocation_id or 'default'}:{event_type.value}:{event_key}"`
abbrev pub event_id_of : String → EventType → Option String → Option String → String → String
event_id_of run_id type agent_id invocation_id key =
    run_id
    ⧺ ":"
    ⧺ or_else agent_id "harness"
    ⧺ ":"
    ⧺ or_else invocation_id "default"
    ⧺ ":"
    ⧺ value type
    ⧺ ":"
    ⧺ key

abbrev with_invocation : Option String → List (String × Value) → List (String × Value)
with_invocation none payload = payload
with_invocation (some i) payload = payload ++ ("invocation_id", text i) ∷ []

-- The event that `emit` builds from its arguments.
unfoldable pub make_event :
    String → EventType → Option String → Option String → String → List (String × Value) → RunEvent
make_event run_id type agent_id invocation_id key payload = record {
  event_id = event_id_of run_id type agent_id invocation_id key;
  run_id = run_id;
  type = type;
  agent_id = agent_id;
  invocation_id = invocation_id;
  payload = with_invocation invocation_id payload;
}

-- `if not any(existing.event_id == event.event_id …): append`
unfoldable pub emit : RunEvent → List RunEvent → List RunEvent
emit e events = if any (λ x. x.event_id == e.event_id) events then events else events ++ e ∷ []

abbrev same_agent : Option String → Option String → Bool
same_agent none agent = true
same_agent (some a) none = Bool.false
same_agent (some a) (some b) = b == a

-- `count(run_id, event_type, agent_id=…)`
unfoldable pub count_events : EventType → Option String → List RunEvent → ℕ
count_events type agent events =
    count (λ e. is_type e.type type && same_agent agent e.agent_id) events
