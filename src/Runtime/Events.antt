-- ===== src/Runtime/Events.antt =====
-- src/evoci/runtime/events.py
use evo_ci.Prelude.Dict
use evo_ci.Prelude.{String, Option, none, some, List, Bool, false, ◌==◌, ℕ, ℤ}

pub data EventType : Type 0 where
  run_started agent_started agent_completed model_call model_usage tool_call tool_result : EventType
  evidence_created attempt_failed diagnosis_created patch_created : EventType
  verification_started verification_completed interrupt_created interrupt_resolved : EventType
  memory_retrieved memory_selected memory_used memory_created : EventType
  skill_retrieved skill_selected skill_invocation_rejected skill_used : EventType
  skill_candidate_created skill_updated learning_error run_completed run_failed : EventType

-- The value of the `StrEnum` member, by which members are compared too.
abbrev pub value : EventType → String
value run_started = "RunStarted"
value agent_started = "AgentStarted"
value agent_completed = "AgentCompleted"
value model_call = "ModelCall"
value model_usage = "ModelUsage"
value tool_call = "ToolCall"
value tool_result = "ToolResult"
value evidence_created = "EvidenceCreated"
value attempt_failed = "AttemptFailed"
value diagnosis_created = "DiagnosisCreated"
value patch_created = "PatchCreated"
value verification_started = "VerificationStarted"
value verification_completed = "VerificationCompleted"
value interrupt_created = "InterruptCreated"
value interrupt_resolved = "InterruptResolved"
value memory_retrieved = "MemoryRetrieved"
value memory_selected = "MemorySelected"
value memory_used = "MemoryUsed"
value memory_created = "MemoryCreated"
value skill_retrieved = "SkillRetrieved"
value skill_selected = "SkillSelected"
value skill_invocation_rejected = "SkillInvocationRejected"
value skill_used = "SkillUsed"
value skill_candidate_created = "SkillCandidateCreated"
value skill_updated = "SkillUpdated"
value learning_error = "LearningError"
value run_completed = "RunCompleted"
value run_failed = "RunFailed"

-- `event.type == t`
abbrev pub is_type : EventType → EventType → Bool
is_type a b = value a == value b

-- What a payload's keys hold, as far as the modelled code writes or reads it.
pub data Value : Type 0 where
  null : Value
  text : String → Value
  number : ℕ → Value
  integer : ℤ → Value
  flag : Bool → Value
  texts : List String → Value

-- an optional text in a payload
abbrev pub optional : Option String → Value
optional none = null
optional (some s) = text s

pub record RunEvent : Type 0 where
  pub event_id : String
  pub run_id : String
  pub type : EventType
  pub agent_id : Option String
  pub invocation_id : Option String
  pub payload : List (String × Value)

-- `event.payload.get(key)`
abbrev pub payload_get : RunEvent → String → Option Value
payload_get e key = Dict.lookup key e.payload

abbrev pub is_text : String → Option Value → Bool
is_text s (some (text t)) = t == s
is_text s _ = false

-- `event.payload.get(key) == s`, for a text `s`
abbrev pub payload_is : RunEvent → String → String → Bool
payload_is e key s = is_text s (payload_get e key)
