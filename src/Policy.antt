-- ===== src/Policy.antt =====
-- dev-integration/profiles/governed-ai-gateway/runtime/gateway_policy.py: `GatewayPolicy`, which
-- decides whether a request may reach a provider. A request is any JSON object. A profile is what
-- model_profile_resolver.py writes, so its tables are typed; the scalar fields that the policy
-- tests by `is` or `isinstance` stay JSON values.
pub mod Reasons
pub mod Admission
pub mod Evaluate
pub mod Tests
use platform_engineering.Prelude.{
  ◌≡◌, String, Bool, true, false, not, ◌&&◌, ◌||◌, Option, none, some, List, [], ◌∷◌, ◌++◌, ◌==◌, ℕ,
  if◌then◌else◌, ltb, is_empty, keep, any, contains, sorted, join, from_keys,
}
use platform_engineering.Profile.{
  InputContract, Task, Profile, InvocationDecision, Outcome, returns, type_error, get_by,
}
use platform_engineering.Dict.{Dict, lookup}
use platform_engineering.Json.{
  ℤ, pos, negsuc, int_eq, Value, null, bool, int, str, arr, obj, Fields, end, field, find, get, has,
  keys, is_dict, as_fields, is_str, is_text, is_true, is_null, truthy, number, value_eq, mem_texts,
  has_exactly, or_null,
}
use platform_engineering.Json.Length.{encoded_length}
use Prim.Native.Char.{code}
use Prim.Native.String
use platform_engineering.Prelude.{eqb}

-- `if test: reasons.append(reason)`
abbrev pub when : Bool → String → List String
when true reason = reason ∷ []
when false reason = []

-- `type(v) is int and v == 1`
abbrev pub is_int_one : Value → Bool
is_int_one (int n) = int_eq n (pos 1)
is_int_one _ = false

-- `REQUIRED_CALLER_FIELDS`, sorted
abbrev pub required_caller_fields : List String
required_caller_fields =
    "caller_id" ∷ "caller_repo" ∷ "caller_workflow" ∷ "decision_or_correlation_id"
    ∷ "requested_profile_id" ∷ []

-- `s.split("/", 1)`, if there is a `/`
unfoldable pub split_slash : String → Option (String × String)
split_slash String.[] = none
split_slash (String.◌∷◌ c s) =
    if eqb (code c) b'/'
    then some ("", s)
    else elim (split_slash s) [ none ↦ none | some (a, b) ↦ some (String.◌∷◌ c a, b) ]

unfoldable pub version_reasons : Fields → List String
version_reasons request =
    when
      (has "selection_evidence_version" request
        && not (is_int_one (get "selection_evidence_version" request)))
      "selection-evidence-version-not-supported"

-- Whether a caller id with a slash names the repository and the workflow of the identity.
abbrev pub names_owner : Option (String × String) → Fields → Bool
names_owner none caller = true
names_owner (some (repo, workflow)) caller =
    is_text (get "caller_repo" caller) repo && is_text (get "caller_workflow" caller) workflow

abbrev pub slash_of : Value → Option (String × String)
slash_of (str s) = split_slash s
slash_of _ = none

unfoldable pub missing_fields : (Value → Bool) → List String → Fields → List String
missing_fields missing names d = keep (λ f. missing (get f d)) names

unfoldable pub caller_reasons : Profile → Value → Fields → List String
unfolding missing_fields
caller_reasons profile profile_id caller =
    let missing = missing_fields (λ v. not (truthy v)) required_caller_fields caller in
    when (not (is_empty missing)) (String.◌++◌ "missing-caller-identity:" (join "," missing))
    ++ (when (not (mem_texts (get "caller_id" caller) profile.allowed_callers)) "caller-not-allowed"
        ++ (when (not (names_owner (slash_of (get "caller_id" caller)) caller))
              "caller-identity-mismatch"
            ++ when (not (value_eq (get "requested_profile_id" caller) profile_id))
                "profile-identity-mismatch"))

-- `isinstance(limit, int) and bytes <= limit`; a bool is an int.
abbrev pub fits_number : ℕ → Option ℤ → Bool
fits_number bytes none = false
fits_number bytes (some (pos limit)) = not (ltb limit bytes)
fits_number bytes (some (negsuc n)) = false

unfoldable pub size_reasons : Profile → Fields → List String
size_reasons profile request =
    when (not (fits_number (encoded_length (obj request)) (number profile.max_request_bytes)))
      "request-too-large-for-profile"

-- `_resolve_task`: the task, `compatibility_mode` and the reasons that it appends
pub record Resolution : Type 0 where
  pub task : Option Task
  pub compatibility_mode : Bool
  pub reasons : List String

abbrev pub default_task : Profile → Option String → Resolution
default_task profile none = record {
  task = none;
  compatibility_mode = true;
  reasons = "task-contract-required" ∷ [];
}
default_task profile (some kind) =
    if kind == ""
    then record { task = none; compatibility_mode = true; reasons = "task-contract-required" ∷ [] }
    else record {
      task = lookup kind profile.task_contracts;
      compatibility_mode = true;
      reasons = [];
    }

abbrev pub task_keys : List String
task_keys = "kind" ∷ "contract_ref" ∷ "version" ∷ []

abbrev pub expected_task : Fields → Outcome (Option Task) → Outcome Resolution
expected_task provided type_error = type_error
expected_task provided (returns none) =
    returns
      (record { task = none; compatibility_mode = false; reasons = "task-kind-not-allowed" ∷ [] })
expected_task provided (returns (some task)) = returns (record {
  task = some task;
  compatibility_mode = false;
  reasons =
      when (not (has_exactly task_keys provided)) "task-contract-invalid"
      ++ (when (not (value_eq (get "contract_ref" provided) task.contract_ref))
            "task-contract-mismatch"
          ++ when (not (value_eq (get "version" provided) task.contract_version))
              "task-version-mismatch");
})

unfoldable pub resolve_task : Profile → Value → Outcome Resolution
unfolding lookup
resolve_task profile null = returns (default_task profile profile.default_task_kind)
resolve_task profile (obj provided) =
    expected_task provided (get_by (get "kind" provided) profile.task_contracts)
resolve_task profile _ =
    returns
      (record { task = none; compatibility_mode = false; reasons = "task-contract-invalid" ∷ [] })

-- `v is None or v == ""`
abbrev pub is_blank : Value → Bool
is_blank v = is_null v || is_text v ""

abbrev pub is_filled_text : Value → Bool
is_filled_text v = is_str v && truthy v

-- `isinstance(packet, dict)` with a text that is not empty in each field
abbrev pub is_packet : List String → Value → Bool
unfolding missing_fields
is_packet names (obj packet) = is_empty (missing_fields (λ v. not (is_filled_text v)) names packet)
is_packet names _ = false

-- `_validate_input`
unfoldable pub input_reasons : InputContract → Fields → List String
unfolding missing_fields
input_reasons contract input =
    let unexpected = sorted (keep (λ f. not (contains f contract.allowed_fields)) (keys input)) in
    let missing = sorted (missing_fields is_blank (from_keys contract.required_fields) input) in
    let packet_fields = contract.model_safe_packet_required_fields in
    when (not (is_empty unexpected)) (String.◌++◌ "input-field-not-allowed:" (join "," unexpected))
    ++ (when (not (is_empty missing)) (String.◌++◌ "input-field-required:" (join "," missing))
        ++ when
            (not (is_empty packet_fields)
              && has "model_safe_packet" input
              && not (is_packet packet_fields (get "model_safe_packet" input)))
            "model-safe-packet-invalid")

abbrev pub task_input_reasons : Option Task → Fields → List String
task_input_reasons none input = []
task_input_reasons (some task) input = input_reasons task.input_contract input

abbrev pub schema_reasons : Option Task → Value → List String
schema_reasons none ref = []
schema_reasons (some task) ref =
    when (not (value_eq ref task.provider_output_schema_ref)) "output-schema-mismatch"

unfoldable pub activation_reasons : Profile → List String
activation_reasons profile =
    when (not (is_text profile.profile_status "active")) "profile-not-active"
    ++ (when (not (is_text profile.binding_status "active")) "binding-not-active"
        ++ (when (not (is_text profile.provider_route_status "active")) "provider-route-not-active"
            ++ (when (not (is_true profile.profile_activation_allowed))
                  "profile-activation-not-allowed"
                ++ when (not (is_true profile.activation_eligible))
                    "model-selection-not-activation-eligible")))

unfoldable pub operator_reasons : Value → List String
operator_reasons operator =
    when (not (is_dict operator && truthy (get "operator_id" (as_fields operator))))
      "operator-identity-missing"

-- Every reason that `evaluate` appends for a known profile, in the order of the code.
unfoldable pub all_reasons : Profile → Fields → Resolution → List String
all_reasons profile request found =
    version_reasons request
    ++ (caller_reasons profile (get "profile_id" request)
          (as_fields (get "caller_identity" request))
        ++ (size_reasons profile request
            ++ (found.reasons
                ++ (schema_reasons found.task (get "provider_output_schema_ref" request)
                    ++ (activation_reasons profile
                        ++ (operator_reasons (get "operator_identity" request)
                            ++ (when (not (is_dict (get "input" request))) "input-must-be-object"
                                ++ task_input_reasons found.task
                                    (as_fields (get "input" request)))))))))

unfoldable pub decide_for : Profile → Fields → Resolution → InvocationDecision
decide_for profile request found =
    let reasons = all_reasons profile request found in
    record {
      allowed = is_empty reasons;
      reasons = from_keys reasons;
      profile = some profile;
      task = found.task;
      input_payload = as_fields (get "input" request);
      compatibility_mode = found.compatibility_mode;
    }

abbrev pub unknown_profile : InvocationDecision
unknown_profile = record {
  allowed = false;
  reasons = "profile-not-allowed" ∷ [];
  profile = none;
  task = none;
  input_payload = end;
  compatibility_mode = false;
}

abbrev pub decide_found : Profile → Fields → Outcome Resolution → Outcome InvocationDecision
decide_found profile request type_error = type_error
decide_found profile request (returns found) = returns (decide_for profile request found)

abbrev pub decide_looked_up : Fields → Outcome (Option Profile) → Outcome InvocationDecision
decide_looked_up request type_error = type_error
decide_looked_up request (returns none) = returns unknown_profile
decide_looked_up request (returns (some profile)) =
    decide_found profile request (resolve_task profile (get "task" request))

-- `GatewayPolicy.evaluate`
unfoldable pub evaluate : Dict Profile → Fields → Outcome InvocationDecision
unfolding lookup
evaluate profiles request = decide_looked_up request (get_by (get "profile_id" request) profiles)
