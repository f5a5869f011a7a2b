-- ===== src/Prelude/Raising.antt =====
-- Python's exceptions as values: the classes that the modelled code raises, each with its message.
use Prim.Native.String.{String}
use mathlib.Core.Path.{◌≡◌, refl}
use mathlib.Core.Logic.{◌⊎◌, inl, inr}
use mathlib.Core.Bool.{Bool, true, false}

pub data Raised : Type 0 where
  repair_budget_exhausted model_gateway_error task_schedule_error : String → Raised
  policy_violation patch_error patch_conflict patch_precheck_error : String → Raised
  integration_error os_error value_error type_error legacy_orchestration_error : String → Raised
  key_error runtime_error validation_error capability_registry_error other_error : String → Raised

-- `str(exc)`
abbrev pub message : Raised → String
message (repair_budget_exhausted m) = m
message (model_gateway_error m) = m
message (task_schedule_error m) = m
message (policy_violation m) = m
message (patch_error m) = m
message (patch_conflict m) = m
message (patch_precheck_error m) = m
message (integration_error m) = m
message (os_error m) = m
message (value_error m) = m
message (type_error m) = m
message (legacy_orchestration_error m) = m
message (key_error m) = m
message (runtime_error m) = m
message (validation_error m) = m
message (capability_registry_error m) = m
message (other_error m) = m

pub data Outcome {ℓ} (A : Type ℓ) : Type ℓ where
  ok : A → Outcome A
  raise : Raised → Outcome A

infixl 5 ◌>>=◌ ◌>>◌
abbrev pub ◌>>=◌ {ℓ κ} : {A : Type ℓ} {B : Type κ} → Outcome A → (A → Outcome B) → Outcome B
ok a >>= f = f a
raise e >>= f = raise e

abbrev pub ◌>>◌ {ℓ} : {B : Type ℓ} → Outcome (Unit {0}) → Outcome B → Outcome B
m >> k = m >>= λ _. k

-- `if test: raise e`
abbrev pub raise_if : Bool → Raised → Outcome (Unit {0})
raise_if true e = raise e
raise_if false e = ok tt

-- A chain that returned has returned at each of its calls.
pub >>=-ok {ℓ κ} :
    {A : Type ℓ} {B : Type κ} (r : Outcome A) (next : A → Outcome B) {result : B}
    → (r >>= next) ≡ ok result
    → (v : A) × (next v ≡ ok result) × (r ≡ ok v)
>>=-ok (raise e) next returned = cc
>>=-ok (ok v) next returned = (v, returned, refl)

pub Outcome-cases {ℓ} :
    {A : Type ℓ} (r : Outcome A) → ((v : A) × (r ≡ ok v)) ⊎ ((e : Raised) × (r ≡ raise e))
Outcome-cases (ok v) = inl (v, refl)
Outcome-cases (raise e) = inr (e, refl)

pub ok_inj {ℓ} : {A : Type ℓ} (a b : A) → ok a ≡ ok b → a ≡ b
ok_inj a b h = cc

-- `type(exc).__name__`
abbrev pub class_name : Raised → String
class_name (repair_budget_exhausted m) = "RepairBudgetExhausted"
class_name (model_gateway_error m) = "ModelGatewayError"
class_name (task_schedule_error m) = "TaskScheduleError"
class_name (policy_violation m) = "PolicyViolation"
class_name (patch_error m) = "PatchError"
class_name (patch_conflict m) = "PatchConflict"
class_name (patch_precheck_error m) = "PatchPrecheckError"
class_name (integration_error m) = "IntegrationError"
class_name (os_error m) = "OSError"
class_name (value_error m) = "ValueError"
class_name (type_error m) = "TypeError"
class_name (legacy_orchestration_error m) = "LegacyOrchestrationError"
class_name (key_error m) = "KeyError"
class_name (runtime_error m) = "RuntimeError"
class_name (validation_error m) = "ValidationError"
class_name (capability_registry_error m) = "CapabilityRegistryError"
class_name (other_error m) = "Exception"

-- `isinstance(exc, (PolicyViolation, ValidationError))`
abbrev pub is_rejection : Raised → Bool
is_rejection (policy_violation m) = true
is_rejection (validation_error m) = true
is_rejection _ = false

-- What a tool loop catches: every modelled class derives from one of the classes that it names.
abbrev pub is_tool_error : Raised → Bool
is_tool_error (other_error m) = false
is_tool_error _ = true
