-- ===== src/Profile.antt =====
-- The profile selections that dev-integration/profiles/governed-ai-gateway/runtime/gateway_policy.py
-- reads, and the decision that it returns.
use platform_engineering.Prelude.{String, Bool, Option, none, List}
use platform_engineering.Dict.{Dict, lookup}
use platform_engineering.Json.{Value, str, arr, obj, Fields}

-- `task["input_contract"]`
pub record InputContract : Type 0 where
  pub allowed_fields : List String
  pub required_fields : List String
  pub model_safe_packet_required_fields : List String

pub record Task : Type 0 where
  pub task_kind : String
  pub contract_ref : Value
  pub contract_version : Value
  pub provider_output_schema_ref : Value
  pub input_contract : InputContract

pub record Profile : Type 0 where
  pub allowed_callers : List String
  pub max_request_bytes : Value
  pub task_contracts : Dict Task
  pub default_task_kind : Option String
  pub profile_status : Value
  pub binding_status : Value
  pub provider_route_status : Value
  pub profile_activation_allowed : Value
  pub activation_eligible : Value

pub record InvocationDecision : Type 0 where
  pub allowed : Bool
  pub reasons : List String
  pub profile : Option Profile
  pub task : Option Task
  pub input_payload : Fields
  pub compatibility_mode : Bool

-- A lookup by a list or an object raises `TypeError`: such a value is not hashable.
pub data Outcome {ℓ} (A : Type ℓ) : Type ℓ where
  returns : A → Outcome A
  type_error : Outcome A

-- `table.get(key)` for a table with text keys
abbrev pub get_by {ℓ} : {A : Type ℓ} → Value → Dict A → Outcome (Option A)
get_by (str s) table = returns (lookup s table)
get_by (arr xs) table = type_error
get_by (obj d) table = type_error
get_by _ table = returns none
