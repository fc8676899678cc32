-- ===== src/Resolver/Binding.antt =====
-- The profile, its base capability and the binding that an environment selects, in
-- `resolve_model_profile` of
-- dev-integration/profiles/governed-ai-gateway/runtime/model_profile_resolver.py.
use platform_engineering.Prelude.{
  ℕ, String, false, not, ◌&&◌, ◌||◌, Option, List, [], ◌∷◌, ◌==◌, if◌then◌else◌, contains, is_some,
  all, ltb, sorted,
}
use platform_engineering.Json.{
  pos, Value, int, str, obj, Fields, end, field, get, has, is_text, is_true, value_eq,
}
use platform_engineering.Schema.{is_false}
use platform_engineering.Result.{Result, ok, err, resolution, type_error, require, ◌>>=◌, ◌>>◌}
use platform_engineering.Resolver.{mapping, non_empty_string, optional_string, string_list, get_or}

-- A profile and the capability that it belongs to
pub record Capability : Type 0 where
  pub profile : Fields
  pub capability_id : String
  pub base_profile : Fields
  pub display_name : String

-- The fields in which a profile is like its capability
abbrev pub capability_fields : List String
capability_fields =
    "purpose" ∷ "allowed_callers" ∷ "task_contracts" ∷ "provider_output_schema_ref"
    ∷ "accepted_record_schema_ref" ∷ "invocation_path" ∷ "human_approval_required"
    ∷ "direct_provider_access_allowed" ∷ []

unfoldable pub without_status : Fields → Fields
without_status end = end
without_status (field k v d) =
    let rest = without_status d in if k == "status" then rest else field k v rest

-- `{key: {… if k != "status"} for key, value in bindings.items()}`
unfoldable pub rows_without_status : Fields → Result Fields
rows_without_status end = ok end
rows_without_status (field k (obj row) d) = do
  rest ← rows_without_status d
  ok (field k (obj (without_status row)) rest)
rows_without_status (field k v d) = err type_error

-- `bindings_without_state`
abbrev pub bindings_without_state : Fields → Result Fields
bindings_without_state row = elim (get_or "bindings" (obj end) row) [
  | obj rows ↦ rows_without_status rows
  | _ ↦ err type_error
]

-- A variant has the bindings of its capability.
unfoldable pub same_bindings : Fields → Fields → Result (Unit {0})
same_bindings profile base = do
  require
      (value_eq (get "selected_binding_by_environment" profile)
        (get "selected_binding_by_environment" base))
      resolution
  own ← bindings_without_state profile
  inherited ← bindings_without_state base
  require (value_eq (obj own) (obj inherited)) resolution

unfoldable pub capability : (profiles : Fields) → (profile_id : String) → Result Capability
capability profiles profile_id = do
  require (has profile_id profiles) resolution
  profile ← mapping (get profile_id profiles)
  capability_id ← non_empty_string (get_or "capability_id" (str profile_id) profile)
  base ← mapping (get capability_id profiles)
  require (is_text (get_or "capability_id" (str capability_id) base) capability_id) resolution
  require (all (λ f. value_eq (get f profile) (get f base)) capability_fields) resolution
  name ← non_empty_string (get_or "display_name" (str profile_id) profile)
  if capability_id == profile_id then ok tt else same_bindings profile base
  ok (record {
    profile = profile;
    capability_id = capability_id;
    base_profile = base;
    display_name = name;
  })

-- What an environment selects
pub record Selected : Type 0 where
  pub bindings : Fields
  pub binding_id : String
  pub binding : Fields

unfoldable pub select_binding : (profile : Fields) → (environment : String) → Result Selected
select_binding profile environment = do
  bindings ← mapping (get "bindings" profile)
  environments ← mapping (get "selected_binding_by_environment" profile)
  binding_id ← non_empty_string (get environment environments)
  require (has binding_id bindings) resolution
  binding ← mapping (get binding_id bindings)
  allowed ← string_list false (get "environments" binding)
  require (contains environment allowed) resolution
  ok (record { bindings = bindings; binding_id = binding_id; binding = binding })

-- `any(value.get("status") != "retired" for value in bindings.values())` is false.
unfoldable pub all_retired : Fields → Result (Unit {0})
all_retired end = ok tt
all_retired (field k (obj row) d) =
    require (is_text (get "status" row) "retired") resolution >> all_retired d
all_retired (field k v d) = err type_error

-- The statuses and the terms of a binding
pub record Terms : Type 0 where
  pub profile_status : String
  pub binding_status : String
  pub purpose : String
  pub invocation_path : String
  pub provider : String
  pub provider_route : String
  pub upstream_model : String
  pub model_digest : Option String
  pub runtime_version : Option String
  pub allowed_callers : List String

unfoldable pub terms : (profile : Fields) → Selected → Result Terms
terms profile selected = do
  profile_status ← non_empty_string (get "status" profile)
  if profile_status == "retired" then all_retired selected.bindings else ok tt
  binding_status ← non_empty_string (get "status" selected.binding)
  purpose ← non_empty_string (get "purpose" profile)
  invocation_path ← non_empty_string (get "invocation_path" profile)
  provider ← non_empty_string (get "provider" selected.binding)
  require (is_false (get "direct_provider_access_allowed" profile)) resolution
  require (is_true (get "human_approval_required" profile)) resolution
  provider_route ← non_empty_string (get "provider_route" selected.binding)
  upstream_model ← non_empty_string (get "upstream_model" selected.binding)
  model_digest ← optional_string (get "model_digest" selected.binding)
  runtime_version ← optional_string (get "runtime_version" selected.binding)
  require (not (provider == "ollama") || (is_some model_digest && is_some runtime_version))
      resolution
  callers ← string_list false (get "allowed_callers" profile)
  ok (record {
    profile_status = profile_status;
    binding_status = binding_status;
    purpose = purpose;
    invocation_path = invocation_path;
    provider = provider;
    provider_route = provider_route;
    upstream_model = upstream_model;
    model_digest = model_digest;
    runtime_version = runtime_version;
    allowed_callers = sorted callers;
  })

abbrev pub natural_of : Value → Result ℕ
natural_of (int (pos n)) = ok n
natural_of _ = err resolution

pub record Limits : Type 0 where
  pub max_request_bytes : ℕ
  pub max_output_tokens : ℕ
  pub retry_count : ℕ
  pub max_concurrency : ℕ
  pub timeout_seconds : ℕ

-- `runtime_limits`
unfoldable pub limits : (profile : Fields) → Result Limits
limits profile = do
  given ← mapping (get "runtime_limits" profile)
  bytes ← natural_of (get "max_request_bytes" given)
  tokens ← natural_of (get "max_output_tokens" given)
  retries ← natural_of (get "retry_count" given)
  concurrency ← natural_of (get "max_concurrency" given)
  seconds ← natural_of (get "timeout_seconds" given)
  require (ltb 0 seconds) resolution
  ok (record {
    max_request_bytes = bytes;
    max_output_tokens = tokens;
    retry_count = retries;
    max_concurrency = concurrency;
    timeout_seconds = seconds;
  })

pub record Basis : Type 0 where
  pub selected_at : String
  pub selected_by : String
  pub basis : String
  pub documentation_ref : String

-- `selection_metadata`
unfoldable pub selection_basis : (binding : Fields) → Result Basis
selection_basis binding = do
  given ← mapping (get "selection" binding)
  at ← non_empty_string (get "selected_at" given)
  by_whom ← non_empty_string (get "selected_by" given)
  basis ← non_empty_string (get "basis" given)
  reference ← non_empty_string (get "documentation_ref" given)
  ok (record {
    selected_at = at;
    selected_by = by_whom;
    basis = basis;
    documentation_ref = reference;
  })
