-- ===== src/Gateway/Tests.antt =====
-- The decision of the gateway at a capability with an assigned preset.
use platform_engineering.Prelude.{ℕ, ◌≡◌, refl, some, [], ◌∷◌, sorted, join, from_keys}
use platform_engineering.Dict.{Dict, lookup}
use platform_engineering.Json.{find, get, has, keys, value_eq, mem_texts}
use platform_engineering.Json.Length.{encoded_length}
use platform_engineering.Profile.{returns}
use platform_engineering.Policy.{
  split_slash, evaluate, resolve_task, decide_for, all_reasons, version_reasons, caller_reasons,
  size_reasons, missing_fields, input_reasons, activation_reasons, operator_reasons,
}
use platform_engineering.Policy.Tests.{intake, request}
use platform_engineering.Configuration.{Configuration, empty_configuration}
use platform_engineering.Resolver.Binding.{Limits}
use platform_engineering.Gateway.{
  GatewayDecision, GatewayProfile, selected_request, set_field, narrowed, decide,
}
use platform_engineering.Gateway.Narrow.{IsAllowed, decide-IsAllowed}

abbrev limits_to : ℕ → Limits
limits_to n = record {
  max_request_bytes = 600;
  max_output_tokens = n;
  retry_count = 0;
  max_concurrency = 1;
  timeout_seconds = n;
}

abbrev profiles : Dict GatewayProfile
profiles =
    (
      "intake-v1",
      record {
        policy = intake;
        profile_id = "intake-v1";
        capability_id = "intake-v1";
        runtime_limits = limits_to 50;
      },
    )
    ∷ (
      "strict",
      record {
        policy = intake;
        profile_id = "strict";
        capability_id = "intake-v1";
        runtime_limits = limits_to 20;
      },
    )
    ∷ []

abbrev config : Configuration
config = record empty_configuration { profile_assignments = some (("intake-v1", "strict") ∷ []) }

abbrev allowed_one : (e : GatewayDecision) × (decide profiles (some config) request ≡ returns e)
unfolding decide evaluate resolve_task decide_for all_reasons version_reasons caller_reasons
    size_reasons missing_fields input_reasons activation_reasons operator_reasons lookup find get
    has keys value_eq mem_texts encoded_length split_slash sorted join from_keys selected_request
    set_field narrowed
allowed_one = (_, refl)

decide-IsAllowed_example : IsAllowed profiles (some config) request allowed_one.0
unfolding decide evaluate resolve_task decide_for all_reasons version_reasons caller_reasons
    size_reasons missing_fields input_reasons activation_reasons operator_reasons lookup find get
    has keys value_eq mem_texts encoded_length split_slash sorted join from_keys selected_request
    set_field narrowed
decide-IsAllowed_example =
    decide-IsAllowed profiles (some config) request allowed_one.0 allowed_one.1 refl
