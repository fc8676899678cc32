-- ===== src/Gateway.antt =====
-- The decision of `GatewayRuntime.invoke`
-- (dev-integration/profiles/governed-ai-gateway/runtime/gateway_app.py): the policy's decision on the
-- request, restricted by the preset that an operator has assigned to the capability.
pub mod Narrow
mod Tests
use Prim.Native.String
use platform_engineering.Prelude.{
  ℕ, ◌≡◌, String, Bool, true, false, not, Option, none, some, List, [], ◌∷◌, map, ◌==◌, leb,
  if◌then◌else◌,
}
use platform_engineering.Dict.{Dict, lookup}
use platform_engineering.Json.{Value, null, str, obj, Fields, end, field, get, as_fields}
use platform_engineering.Profile.{Profile, Task, InvocationDecision, Outcome, returns, type_error}
use platform_engineering.Policy.{evaluate}
use platform_engineering.Configuration.{Configuration}
use platform_engineering.Configuration.Validation.{assigned}
use platform_engineering.Resolver.Binding.{Limits}

-- A row of `self.profiles`: what the policy reads, and what the runtime reads beside it
pub record GatewayProfile : Type 0 where
  pub policy : Profile
  pub profile_id : String
  pub capability_id : String
  pub runtime_limits : Limits

-- `decision.profile`, with the preset that restricts it
pub record Effective : Type 0 where
  pub base : GatewayProfile
  pub selected_policy_profile_id : Option String
  pub runtime_limits : Limits

pub record GatewayDecision : Type 0 where
  pub allowed : Bool
  pub reasons : List String
  pub profile : Option Effective
  pub task : Option Task
  pub input_payload : Fields
  pub compatibility_mode : Bool

-- `self.policy`, on the same profiles
abbrev pub policies : Dict GatewayProfile → Dict Profile
policies profiles = map (λ row. (row.0, row.1.policy)) profiles

abbrev pub profile_of : Dict GatewayProfile → Value → Option GatewayProfile
profile_of profiles (str id) = lookup id profiles
profile_of profiles _ = none

abbrev pub unrestricted : GatewayProfile → Effective
unrestricted base = record {
  base = base;
  selected_policy_profile_id = none;
  runtime_limits = base.runtime_limits;
}

-- The decision of the policy
abbrev pub first_decision : Option GatewayProfile → InvocationDecision → GatewayDecision
first_decision base d = record {
  allowed = d.allowed;
  reasons = d.reasons;
  profile = elim base [ none ↦ none | some b ↦ some (unrestricted b) ];
  task = d.task;
  input_payload = d.input_payload;
  compatibility_mode = d.compatibility_mode;
}

-- `replace(decision, allowed=False, reasons=…)`
abbrev pub deny : List String → GatewayDecision → GatewayDecision
deny reasons d = record d { allowed = false; reasons = reasons }

-- `{**d, k: v}`
unfoldable pub set_field : String → Value → Fields → Fields
set_field k v end = field k v end
set_field k v (field j w d) =
    let rest = set_field k v d in if j == k then field j v d else field j w rest

-- `selected_request`
unfoldable pub selected_request : (selected_id : String) → Fields → Fields
unfolding set_field
selected_request selected_id request =
    set_field "caller_identity"
      (obj (
        set_field "requested_profile_id" (str selected_id)
          (as_fields (get "caller_identity" request))))
      (set_field "profile_id" (str selected_id) request)

abbrev pub least : ℕ → ℕ → ℕ
least m n = if leb m n then m else n

-- `{key: min(value, preset.profile["runtime_limits"][key]) …}`
unfoldable pub narrowed : Limits → Limits → Limits
narrowed a b = record {
  max_request_bytes = least a.max_request_bytes b.max_request_bytes;
  max_output_tokens = least a.max_output_tokens b.max_output_tokens;
  retry_count = least a.retry_count b.retry_count;
  max_concurrency = least a.max_concurrency b.max_concurrency;
  timeout_seconds = least a.timeout_seconds b.timeout_seconds;
}

abbrev pub restricted :
    GatewayProfile → (selected_id : String) → GatewayProfile → GatewayDecision → GatewayDecision
restricted base selected_id preset d = record d {
  profile = some (record {
    base = base;
    selected_policy_profile_id = some selected_id;
    runtime_limits = narrowed base.runtime_limits preset.runtime_limits;
  });
}

-- The policy's decision on the preset
abbrev pub preset_decided :
    GatewayProfile
    → (selected_id : String) → GatewayProfile
    → GatewayDecision
    → Outcome InvocationDecision
    → Outcome GatewayDecision
preset_decided base selected_id preset d type_error = type_error
preset_decided base selected_id preset d (returns p) = returns (
    if p.allowed
    then restricted base selected_id preset d
    else deny (map (λ r. String.◌++◌ "selected-profile:" r) p.reasons) d)

abbrev pub with_preset :
    Dict GatewayProfile
    → Fields
    → GatewayProfile
    → (selected_id : String) → GatewayDecision
    → Option GatewayProfile
    → Outcome GatewayDecision
with_preset profiles request base selected_id d none =
    returns (deny ("selected-profile-not-compatible" ∷ []) d)
with_preset profiles request base selected_id d (some preset) =
    if preset.capability_id == base.profile_id
    then preset_decided base selected_id preset d
        (evaluate (policies profiles) (selected_request selected_id request))
    else returns (deny ("selected-profile-not-compatible" ∷ []) d)

-- `selected_id`
abbrev pub selected_of : Configuration → String → String
selected_of config id = elim (lookup id (assigned config)) [ none ↦ id | some s ↦ s ]

-- The preset that is assigned, if it is another profile
abbrev pub with_assignment :
    Dict GatewayProfile
    → Fields
    → GatewayProfile
    → GatewayDecision
    → (selected_id : String) → Outcome GatewayDecision
with_assignment profiles request base d selected_id =
    if selected_id == base.profile_id
    then returns d
    else with_preset profiles request base selected_id d (lookup selected_id profiles)

abbrev pub with_management :
    Dict GatewayProfile
    → Option Configuration
    → Fields
    → GatewayProfile
    → GatewayDecision
    → Outcome GatewayDecision
with_management profiles none request base d = returns d
with_management profiles (some config) request base d =
    with_assignment profiles request base d (selected_of config base.profile_id)

-- A request for a variant is denied; one that is allowed is restricted.
abbrev pub for_base :
    Dict GatewayProfile
    → Option Configuration
    → Fields
    → Option GatewayProfile
    → GatewayDecision
    → Outcome GatewayDecision
for_base profiles config request none d = returns d
for_base profiles config request (some base) d =
    if base.capability_id == base.profile_id
    then (if d.allowed then with_management profiles config request base d else returns d)
    else returns (deny ("request-base-capability-profile" ∷ []) d)

abbrev pub decided :
    Dict GatewayProfile
    → Option Configuration
    → Fields
    → Outcome InvocationDecision
    → Outcome GatewayDecision
decided profiles config request type_error = type_error
decided profiles config request (returns d) =
    let base = profile_of profiles (get "profile_id" request) in
    for_base profiles config request base (first_decision base d)

-- The decision of `invoke`; without the management there is no configuration.
unfoldable pub decide :
    Dict GatewayProfile → Option Configuration → Fields → Outcome GatewayDecision
decide profiles config request =
    decided profiles config request (evaluate (policies profiles) request)
