-- ===== src/Resolver/Tests.antt =====
-- The theorems on `resolve_model_profile` at a registry of one profile, active and retired.
use platform_engineering.Prelude.{
  ℕ, ◌≡◌, refl, String, Bool, true, false, not, ◌||◌, Option, none, some, List, [], ◌∷◌, ◌==◌,
  sorted, map,
}
use platform_engineering.Json.{
  pos, Value, null, bool, int, str, arr, obj, Items, nil, cons, Fields, end, field, find, get, has,
  is_text,
}
use platform_engineering.Result.{Result, ok, err, resolution, Every}
use platform_engineering.Resolver.{string_list}
use platform_engineering.Resolver.Tasks.{Files, is_known}
use platform_engineering.Resolver.Evidence.{Evidence, Resolved, Platform, is_eligible, resolve}
use platform_engineering.Resolver.Eligible.{IsActive, IsCaller, resolve-IsActive, resolve_callers}
use platform_engineering.Resolver.Retired.{HasNoGrants, resolve_retired}
use platform_engineering.Resolver.Contracts.{AreContracts, resolve_contracts}

abbrev schema : Value
schema = obj (field "type" (str "string") end)

abbrev platform : Platform
platform = record {
  hexdigest = λ v. "a";
  files = record { is_inside = λ p. true; document = λ p. some schema };
  text_has = λ s t. false;
}

abbrev task : Value
task = obj (
    field "contract_source_ref"
      (obj (field "repo" (str "owner") (field "path" (str "task.json") end)))
      (field "provider_output_schema_ref"
        (obj (field "repo" (str "platform-engineering") (field "path" (str "out.json") end)))
        (field "input_contract"
          (obj (
            field "allowed_fields" (arr (cons (str "text") nil))
              (field "required_fields" (arr (cons (str "text") nil)) end)))
          (field "instruction_source" (str "caller") (
            field "contract_ref" (str "c") (
              field "contract_version" (str "v1")
                (field "instruction_owner_repo" (str "owner") end)))))))

abbrev profile : String → Value
profile status = obj (
    field "status" (str status) (
      field "purpose" (str "classify") (
        field "allowed_callers" (arr (cons (str "desk") nil)) (
          field "task_contracts"
            (obj (
              field "allowed" (obj (field "classify" task end))
                (field "default_task_kind" (str "classify") end)))
            (field "invocation_path" (str "gateway") (
              field "human_approval_required" (bool true) (
                field "direct_provider_access_allowed" (bool false) (
                  field "selected_binding_by_environment" (obj (field "dev" (str "local") end)) (
                    field "bindings"
                      (obj (
                        field "local"
                          (obj (
                            field "environments" (arr (cons (str "dev") nil)) (
                              field "status" (str status) (
                                field "provider" (str "zai") (
                                  field "provider_route" (str "r") (
                                    field "upstream_model" (str "m") (
                                      field "selection"
                                        (obj (
                                          field "selected_at" (str "t") (
                                            field "selected_by" (str "alice") (
                                              field "basis" (str "b")
                                                (field "documentation_ref" (str "d") end)))))
                                        end)))))))
                          end))
                      (field "runtime_limits"
                        (obj (
                          field "max_request_bytes" (int (pos 10)) (
                            field "max_output_tokens" (int (pos 10)) (
                              field "retry_count" (int (pos 0)) (
                                field "max_concurrency" (int (pos 1))
                                  (field "timeout_seconds" (int (pos 5)) end))))))
                        (field "allowed_data_scope" (arr (cons (str "synthetic") nil))
                          end)))))))))))

abbrev registry : String → Value × String
registry status =
    (obj (field "model_profiles" (obj (field "p" (profile status) end)) end), "sha256:r")

abbrev live_access : Value × String
live_access = (
  obj (
      field "access_plane"
        (obj (
          field "id" (str "gateway") (
            field "status" (str "active") (
              field "allowed_profiles" (arr (cons (str "p") nil)) (
                field "provider_routes"
                  (arr (
                    cons
                      (obj (
                        field "route_id" (str "r") (
                          field "status" (str "active") (
                            field "provider" (str "zai") (
                              field "allowed_profiles" (arr (cons (str "p") nil)) (
                                field "allowed_models" (arr (cons (str "m") nil)) (
                                  field "endpoint_origin" (str "o") (
                                    field "endpoint_path" (str "/") (
                                      field "api_family" (str "chat")
                                        (field "credential_required" (bool true) end))))))))))
                      nil))
                  (field "allowed_callers"
                    (arr (
                      cons
                        (obj (
                          field "caller_id" (str "desk") (
                            field "required_profile" (str "p") (
                              field "purpose" (str "classify") (
                                field "allowed_task_kinds" (arr (cons (str "classify") nil))
                                  end)))))
                        nil))
                    (field "activation_state"
                      (obj (
                        field "profile_activations"
                          (obj (
                            field "p"
                              (obj (
                                field "activation_allowed" (bool true) (
                                  field "environment" (str "dev")
                                    (field "binding" (str "local") end))))
                              end))
                          end))
                      end)))))))
        end),
  "sha256:x",
)

abbrev retired_access : Value × String
retired_access = (
  obj (
      field "access_plane"
        (obj (
          field "id" (str "gateway") (
            field "status" (str "active") (
              field "allowed_profiles" (arr nil) (
                field "provider_routes"
                  (arr (
                    cons
                      (obj (
                        field "route_id" (str "r") (
                          field "status" (str "active") (
                            field "provider" (str "zai") (
                              field "allowed_profiles" (arr nil) (
                                field "allowed_models" (arr (cons (str "m") nil)) (
                                  field "endpoint_origin" (str "o") (
                                    field "endpoint_path" (str "/") (
                                      field "api_family" (str "chat")
                                        (field "credential_required" (bool true) end))))))))))
                      nil))
                  (field "allowed_callers" (arr nil) (
                    field "activation_state"
                      (obj (
                        field "profile_activations"
                          (obj (
                            field "p"
                              (obj (
                                field "activation_allowed" (bool false) (
                                  field "environment" (str "dev")
                                    (field "binding" (str "local") end))))
                              end))
                          end))
                      end)))))))
        end),
  "sha256:x",
)

abbrev live :
    (r : Resolved) × (resolve platform (registry "active") live_access "p" "dev" true ≡ ok r)
unfolding resolve platform_engineering.Text.strip platform_engineering.Resolver.Evidence.resolve_in
    platform_engineering.Resolver.Evidence.from_registry get has find string_list
    platform_engineering.Json.value_eq platform_engineering.Resolver.Binding.capability
    platform_engineering.Resolver.Binding.select_binding platform_engineering.Resolver.strings_of
    platform_engineering.Resolver.has_repeats platform_engineering.Resolver.Binding.terms
    platform_engineering.Resolver.optional_string platform_engineering.Resolver.Tasks.task_contracts
    platform_engineering.Json.keys platform_engineering.Resolver.Tasks.contracts_from sorted
    platform_engineering.Configuration.digest platform_engineering.Dict.has
    platform_engineering.Dict.insert platform_engineering.Dict.lookup
    platform_engineering.Json.mem_items platform_engineering.Prelude.insert_sorted
    platform_engineering.Resolver.Access.activation platform_engineering.Resolver.Access.activations
    platform_engineering.Resolver.Access.base_inactive
    platform_engineering.Resolver.Access.caller_agrees
    platform_engineering.Resolver.Access.callers_agree platform_engineering.Resolver.Access.denials
    platform_engineering.Resolver.Access.granted_by_routes
    platform_engineering.Resolver.Access.is_granted
    platform_engineering.Resolver.Access.legacy_schema
    platform_engineering.Resolver.Access.no_grants platform_engineering.Resolver.Access.plane
    platform_engineering.Resolver.Access.route_for platform_engineering.Resolver.Access.serves
    platform_engineering.Resolver.Binding.all_retired platform_engineering.Resolver.Binding.limits
    platform_engineering.Resolver.Binding.selection_basis
    platform_engineering.Resolver.Evidence.from_access
    platform_engineering.Resolver.Evidence.reasons platform_engineering.Resolver.Evidence.seal
    platform_engineering.Resolver.Tasks.task_contract platform_engineering.Resolver.schema_ref
    platform_engineering.Resolver.Tasks.read_schema platform_engineering.Resolver.Tasks.input_fields
    platform_engineering.Resolver.Tasks.packet_fields
    platform_engineering.Resolver.Tasks.instruction platform_engineering.Resolver.index_mappings
    platform_engineering.Resolver.index_items platform_engineering.Schema.validate_supported_schema
    platform_engineering.Result.for_each platform_engineering.Schema.types_of
live = (_, refl)

abbrev retired :
    (r : Resolved) × (resolve platform (registry "retired") retired_access "p" "dev" false ≡ ok r)
unfolding resolve platform_engineering.Text.strip platform_engineering.Resolver.Evidence.resolve_in
    platform_engineering.Resolver.Evidence.from_registry get has find string_list
    platform_engineering.Json.value_eq platform_engineering.Resolver.Binding.capability
    platform_engineering.Resolver.Binding.select_binding platform_engineering.Resolver.strings_of
    platform_engineering.Resolver.has_repeats platform_engineering.Resolver.Binding.terms
    platform_engineering.Resolver.optional_string platform_engineering.Resolver.Tasks.task_contracts
    platform_engineering.Json.keys platform_engineering.Resolver.Tasks.contracts_from sorted
    platform_engineering.Configuration.digest platform_engineering.Dict.has
    platform_engineering.Dict.insert platform_engineering.Dict.lookup
    platform_engineering.Json.mem_items platform_engineering.Prelude.insert_sorted
    platform_engineering.Resolver.Access.activation platform_engineering.Resolver.Access.activations
    platform_engineering.Resolver.Access.base_inactive
    platform_engineering.Resolver.Access.caller_agrees
    platform_engineering.Resolver.Access.callers_agree platform_engineering.Resolver.Access.denials
    platform_engineering.Resolver.Access.granted_by_routes
    platform_engineering.Resolver.Access.is_granted
    platform_engineering.Resolver.Access.legacy_schema
    platform_engineering.Resolver.Access.no_grants platform_engineering.Resolver.Access.plane
    platform_engineering.Resolver.Access.route_for platform_engineering.Resolver.Access.serves
    platform_engineering.Resolver.Binding.all_retired platform_engineering.Resolver.Binding.limits
    platform_engineering.Resolver.Binding.selection_basis
    platform_engineering.Resolver.Evidence.from_access
    platform_engineering.Resolver.Evidence.reasons platform_engineering.Resolver.Evidence.seal
    platform_engineering.Resolver.Tasks.task_contract platform_engineering.Resolver.schema_ref
    platform_engineering.Resolver.Tasks.read_schema platform_engineering.Resolver.Tasks.input_fields
    platform_engineering.Resolver.Tasks.packet_fields
    platform_engineering.Resolver.Tasks.instruction platform_engineering.Resolver.index_mappings
    platform_engineering.Resolver.index_items platform_engineering.Schema.validate_supported_schema
    platform_engineering.Result.for_each platform_engineering.Schema.types_of
retired = (_, refl)

resolve-IsActive_example : IsActive live.0.evidence
unfolding resolve platform_engineering.Text.strip platform_engineering.Resolver.Evidence.resolve_in
    platform_engineering.Resolver.Evidence.from_registry get has find string_list
    platform_engineering.Json.value_eq platform_engineering.Resolver.Binding.capability
    platform_engineering.Resolver.Binding.select_binding platform_engineering.Resolver.strings_of
    platform_engineering.Resolver.has_repeats platform_engineering.Resolver.Binding.terms
    platform_engineering.Resolver.optional_string platform_engineering.Resolver.Tasks.task_contracts
    platform_engineering.Json.keys platform_engineering.Resolver.Tasks.contracts_from sorted
    platform_engineering.Configuration.digest platform_engineering.Dict.has
    platform_engineering.Dict.insert platform_engineering.Dict.lookup
    platform_engineering.Json.mem_items platform_engineering.Prelude.insert_sorted
    platform_engineering.Resolver.Access.activation platform_engineering.Resolver.Access.activations
    platform_engineering.Resolver.Access.base_inactive
    platform_engineering.Resolver.Access.caller_agrees
    platform_engineering.Resolver.Access.callers_agree platform_engineering.Resolver.Access.denials
    platform_engineering.Resolver.Access.granted_by_routes
    platform_engineering.Resolver.Access.is_granted
    platform_engineering.Resolver.Access.legacy_schema
    platform_engineering.Resolver.Access.no_grants platform_engineering.Resolver.Access.plane
    platform_engineering.Resolver.Access.route_for platform_engineering.Resolver.Access.serves
    platform_engineering.Resolver.Binding.all_retired platform_engineering.Resolver.Binding.limits
    platform_engineering.Resolver.Binding.selection_basis
    platform_engineering.Resolver.Evidence.from_access
    platform_engineering.Resolver.Evidence.reasons platform_engineering.Resolver.Evidence.seal
    platform_engineering.Resolver.Tasks.task_contract platform_engineering.Resolver.schema_ref
    platform_engineering.Resolver.Tasks.read_schema platform_engineering.Resolver.Tasks.input_fields
    platform_engineering.Resolver.Tasks.packet_fields
    platform_engineering.Resolver.Tasks.instruction platform_engineering.Resolver.index_mappings
    platform_engineering.Resolver.index_items platform_engineering.Schema.validate_supported_schema
    platform_engineering.Result.for_each platform_engineering.Schema.types_of
resolve-IsActive_example =
    resolve-IsActive platform (registry "active") live_access "p" "dev" true live.0 live.1 refl

resolve_callers_example :
    Every (IsCaller live.0.evidence) live.0.evidence.registered.terms.allowed_callers
unfolding resolve platform_engineering.Text.strip platform_engineering.Resolver.Evidence.resolve_in
    platform_engineering.Resolver.Evidence.from_registry get has find string_list
    platform_engineering.Json.value_eq platform_engineering.Resolver.Binding.capability
    platform_engineering.Resolver.Binding.select_binding platform_engineering.Resolver.strings_of
    platform_engineering.Resolver.has_repeats platform_engineering.Resolver.Binding.terms
    platform_engineering.Resolver.optional_string platform_engineering.Resolver.Tasks.task_contracts
    platform_engineering.Json.keys platform_engineering.Resolver.Tasks.contracts_from sorted
    platform_engineering.Configuration.digest platform_engineering.Dict.has
    platform_engineering.Dict.insert platform_engineering.Dict.lookup
    platform_engineering.Json.mem_items platform_engineering.Prelude.insert_sorted
    platform_engineering.Resolver.Access.activation platform_engineering.Resolver.Access.activations
    platform_engineering.Resolver.Access.base_inactive
    platform_engineering.Resolver.Access.caller_agrees
    platform_engineering.Resolver.Access.callers_agree platform_engineering.Resolver.Access.denials
    platform_engineering.Resolver.Access.granted_by_routes
    platform_engineering.Resolver.Access.is_granted
    platform_engineering.Resolver.Access.legacy_schema
    platform_engineering.Resolver.Access.no_grants platform_engineering.Resolver.Access.plane
    platform_engineering.Resolver.Access.route_for platform_engineering.Resolver.Access.serves
    platform_engineering.Resolver.Binding.all_retired platform_engineering.Resolver.Binding.limits
    platform_engineering.Resolver.Binding.selection_basis
    platform_engineering.Resolver.Evidence.from_access
    platform_engineering.Resolver.Evidence.reasons platform_engineering.Resolver.Evidence.seal
    platform_engineering.Resolver.Tasks.task_contract platform_engineering.Resolver.schema_ref
    platform_engineering.Resolver.Tasks.read_schema platform_engineering.Resolver.Tasks.input_fields
    platform_engineering.Resolver.Tasks.packet_fields
    platform_engineering.Resolver.Tasks.instruction platform_engineering.Resolver.index_mappings
    platform_engineering.Resolver.index_items platform_engineering.Schema.validate_supported_schema
    platform_engineering.Result.for_each platform_engineering.Schema.types_of
resolve_callers_example =
    resolve_callers platform (registry "active") live_access "p" "dev" true live.0 live.1 refl refl

resolve_retired_example :
    (retired.0.evidence.accessed.activation_allowed ≡ false)
    × (is_eligible retired.0.evidence ≡ false)
    × HasNoGrants platform.text_has retired.0.evidence.profile_id retired.0.evidence.accessed.plane
unfolding resolve platform_engineering.Text.strip platform_engineering.Resolver.Evidence.resolve_in
    platform_engineering.Resolver.Evidence.from_registry get has find string_list
    platform_engineering.Json.value_eq platform_engineering.Resolver.Binding.capability
    platform_engineering.Resolver.Binding.select_binding platform_engineering.Resolver.strings_of
    platform_engineering.Resolver.has_repeats platform_engineering.Resolver.Binding.terms
    platform_engineering.Resolver.optional_string platform_engineering.Resolver.Tasks.task_contracts
    platform_engineering.Json.keys platform_engineering.Resolver.Tasks.contracts_from sorted
    platform_engineering.Configuration.digest platform_engineering.Dict.has
    platform_engineering.Dict.insert platform_engineering.Dict.lookup
    platform_engineering.Json.mem_items platform_engineering.Prelude.insert_sorted
    platform_engineering.Resolver.Access.activation platform_engineering.Resolver.Access.activations
    platform_engineering.Resolver.Access.base_inactive
    platform_engineering.Resolver.Access.caller_agrees
    platform_engineering.Resolver.Access.callers_agree platform_engineering.Resolver.Access.denials
    platform_engineering.Resolver.Access.granted_by_routes
    platform_engineering.Resolver.Access.is_granted
    platform_engineering.Resolver.Access.legacy_schema
    platform_engineering.Resolver.Access.no_grants platform_engineering.Resolver.Access.plane
    platform_engineering.Resolver.Access.route_for platform_engineering.Resolver.Access.serves
    platform_engineering.Resolver.Binding.all_retired platform_engineering.Resolver.Binding.limits
    platform_engineering.Resolver.Binding.selection_basis
    platform_engineering.Resolver.Evidence.from_access
    platform_engineering.Resolver.Evidence.reasons platform_engineering.Resolver.Evidence.seal
    platform_engineering.Resolver.Tasks.task_contract platform_engineering.Resolver.schema_ref
    platform_engineering.Resolver.Tasks.read_schema platform_engineering.Resolver.Tasks.input_fields
    platform_engineering.Resolver.Tasks.packet_fields
    platform_engineering.Resolver.Tasks.instruction platform_engineering.Resolver.index_mappings
    platform_engineering.Resolver.index_items platform_engineering.Schema.validate_supported_schema
    platform_engineering.Result.for_each platform_engineering.Schema.types_of
resolve_retired_example =
    resolve_retired platform (registry "retired") retired_access "p" "dev" false retired.0 retired.1
      refl

resolve_contracts_example :
    AreContracts platform.files live.0.evidence.registered.task_contracts
    × (is_known live.0.evidence.registered.default_task_kind
          live.0.evidence.registered.task_contracts
        ≡ true)
resolve_contracts_example =
    resolve_contracts platform (registry "active") live_access "p" "dev" true live.0 live.1
