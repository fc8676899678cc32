-- ===== src/Resolver/Evidence.antt =====
-- `resolve_model_profile` and `resolve_model_profile_registry` of
-- dev-integration/profiles/governed-ai-gateway/runtime/model_profile_resolver.py: the evidence that
-- they return, and its digest. A document is its value and the digest of its bytes.
use Prim.Native.String
use platform_engineering.Prelude.{
  String, Bool, true, false, not, ◌||◌, Option, List, [], ◌∷◌, is_empty, sorted,
}
use platform_engineering.Dict.{Dict}
use platform_engineering.Json.{
  pos, Value, bool, int, str, obj, Fields, end, field, optional_text, get, keys,
}
use platform_engineering.Text.{without_prefix}
use platform_engineering.Result.{Result, ok, resolution, require, ◌>>=◌, ◌>>◌}
use platform_engineering.Configuration.{digest}
use platform_engineering.Resolver.{
  SchemaRef, load, mapping, non_empty_string, string_list, ref_text,
}
use platform_engineering.Resolver.Tasks.{Files, InputFields, TaskContract, texts, task_contracts}
use platform_engineering.Resolver.Binding.{
  Capability, Selected, Terms, Limits, Basis, capability, select_binding, terms, limits,
  selection_basis,
}
use platform_engineering.Resolver.Access.{
  Plane, Route, plane, route_for, default_ref, callers_agree, activations, activation,
  base_inactive, denials,
}

-- What stands outside the documents: SHA-256 of a JSON text, the files of the platform, and whether a
-- text has another in it
pub record Platform : Type 0 where
  pub hexdigest : Value → String
  pub files : Files
  pub text_has : String → String → Bool

-- What is read from the registry for a profile
pub record FromRegistry : Type 0 where
  pub capability : Capability
  pub selected : Selected
  pub terms : Terms
  pub task_contracts : Dict TaskContract
  pub default_task_kind : Option String
  pub runtime_limits : Limits
  pub selection_basis : Basis

unfoldable pub from_registry :
    Platform → (registry : Fields) → (profile_id environment : String) → Result FromRegistry
from_registry platform registry profile_id environment = do
  profiles ← mapping (get "model_profiles" registry)
  c ← capability profiles profile_id
  selected ← select_binding c.profile environment
  t ← terms c.profile selected
  contracts ← task_contracts platform.hexdigest platform.files (get "task_contracts" c.profile)
  given ← limits c.profile
  basis ← selection_basis selected.binding
  ok (record {
    capability = c;
    selected = selected;
    terms = t;
    task_contracts = contracts.0;
    default_task_kind = contracts.1;
    runtime_limits = given;
    selection_basis = basis;
  })

-- What the access plane says of it
pub record FromAccess : Type 0 where
  pub plane : Plane
  pub route : Route
  pub activation_allowed : Bool
  pub base_is_inactive : Bool

unfoldable pub from_access :
    Platform
    → (document : Fields) → (profile_id environment : String) → FromRegistry
    → Result FromAccess
from_access platform document profile_id environment f = do
  p ← plane platform.text_has profile_id f.terms document
  route ← route_for profile_id f.terms p.routes
  callers_agree f.capability f.terms f.task_contracts
      (default_ref f.task_contracts f.default_task_kind) p.callers
  rows ← activations p
  allowed ← activation profile_id environment f.terms f.selected rows
  inactive ← base_inactive profile_id f.capability rows
  ok (record {
    plane = p;
    route = route;
    activation_allowed = allowed;
    base_is_inactive = inactive;
  })

unfoldable pub reasons : FromRegistry → FromAccess → List String
reasons f a = denials a.base_is_inactive f.terms a.plane a.route a.activation_allowed

-- What the evidence is made of
pub record Evidence : Type 0 where
  pub profile_id : String
  pub environment : String
  pub registered : FromRegistry
  pub accessed : FromAccess
  pub allowed_data_scope : List String
  pub profile_registry_digest : String
  pub access_plane_digest : String

abbrev ref_json : SchemaRef → Value
ref_json r = obj (field "repo" (str r.repo) (field "path" (str r.path) end))

abbrev input_json : InputFields → Value
input_json i = obj (
    field "allowed_fields" (texts i.allowed_fields) (
      field "required_fields" (texts i.required_fields)
        (field "model_safe_packet_required_fields" i.packet_required_fields end)))

abbrev contract_json : TaskContract → Value
contract_json c = obj (
    field "task_kind" (str c.task_kind) (
      field "contract_ref" (str c.contract_ref) (
        field "contract_version" (str c.contract_version) (
          field "contract_source_ref" (ref_json c.contract_source_ref) (
            field "contract_source_ref_text" (str (ref_text c.contract_source_ref)) (
              field "instruction_owner_repo" (str c.instruction_owner_repo) (
                field "instruction_source" (str c.instruction_source) (
                  field "prompt_version" (optional_text c.prompt_version) (
                    field "provider_output_schema" (ref_json c.output_ref) (
                      field "provider_output_schema_ref" (str (ref_text c.output_ref)) (
                        field "provider_output_schema_document" c.output_document (
                          field "provider_output_schema_digest" (str c.output_digest)
                            (field "input_contract" (input_json c.input_contract) end)))))))))))))

contracts_json : Dict TaskContract → Fields
contracts_json [] = end
contracts_json ((kind, c) ∷ rest) = field kind (contract_json c) (contracts_json rest)

abbrev limits_json : Limits → Value
limits_json l = obj (
    field "max_request_bytes" (int (pos l.max_request_bytes)) (
      field "max_output_tokens" (int (pos l.max_output_tokens)) (
        field "retry_count" (int (pos l.retry_count)) (
          field "max_concurrency" (int (pos l.max_concurrency))
            (field "timeout_seconds" (int (pos l.timeout_seconds)) end)))))

abbrev basis_json : Basis → Value
basis_json b = obj (
    field "selected_at" (str b.selected_at) (
      field "selected_by" (str b.selected_by)
        (field "basis" (str b.basis) (field "documentation_ref" (str b.documentation_ref) end))))

-- `evidence`
unfoldable pub evidence_json : Evidence → Value
unfolding contracts_json reasons
evidence_json e = obj (
    field "schema_version" (int (pos 1)) (
      field "profile_id" (str e.profile_id) (
        field "profile_status" (str e.registered.terms.profile_status) (
          field "capability_id" (str e.registered.capability.capability_id) (
            field "display_name" (str e.registered.capability.display_name) (
              field "purpose" (str e.registered.terms.purpose) (
                field "environment" (str e.environment) (
                  field "binding_id" (str e.registered.selected.binding_id) (
                    field "binding_status" (str e.registered.terms.binding_status) (
                      field "provider" (str e.registered.terms.provider) (
                        field "provider_route" (str e.registered.terms.provider_route) (
                          field "provider_route_status" (str e.accessed.route.status) (
                            field "endpoint_origin" (str e.accessed.route.endpoint_origin) (
                              field "endpoint_path" (str e.accessed.route.endpoint_path) (
                                field "api_family" (str e.accessed.route.api_family) (
                                  field "credential_required"
                                    (bool e.accessed.route.credential_required)
                                    (field "upstream_model" (str e.registered.terms.upstream_model)
                                      (field "model_digest"
                                        (optional_text e.registered.terms.model_digest)
                                        (field "runtime_version"
                                          (optional_text e.registered.terms.runtime_version)
                                          (field "invocation_path"
                                            (str e.registered.terms.invocation_path)
                                            (field "allowed_callers"
                                              (texts e.registered.terms.allowed_callers)
                                              (field "task_contracts"
                                                (obj (contracts_json e.registered.task_contracts))
                                                (field "default_task_kind"
                                                  (optional_text e.registered.default_task_kind)
                                                  (field "runtime_limits"
                                                    (limits_json e.registered.runtime_limits)
                                                    (field "allowed_data_scope"
                                                      (texts e.allowed_data_scope)
                                                      (field "provider_output_schema_ref"
                                                        (optional_text (
                                                          default_ref e.registered.task_contracts
                                                            e.registered.default_task_kind))
                                                        (field "selection_metadata"
                                                          (basis_json e.registered.selection_basis)
                                                          (field "profile_registry_digest"
                                                            (str e.profile_registry_digest)
                                                            (field "access_plane_digest"
                                                            (str e.access_plane_digest)
                                                            (field "human_approval_required"
                                                            (bool true)
                                                            (field "direct_provider_access_allowed"
                                                            (bool false)
                                                            (field "fallback_mode"
                                                            (str "fail-closed-no-implicit-fallback")
                                                            (field "profile_activation_allowed"
                                                            (bool e.accessed.activation_allowed)
                                                            (field "activation_profile_id"
                                                            (str e.profile_id)
                                                            (field "activation_eligible"
                                                            (bool (
                                                            is_empty
                                                            (reasons e.registered e.accessed)))
                                                            (field "activation_denial_reasons"
                                                            (texts
                                                            (reasons e.registered e.accessed))
                                                            end))))))))))))))))))))))))))))))))))))

-- `activation_eligible`
unfoldable pub is_eligible : Evidence → Bool
is_eligible e = is_empty (reasons e.registered e.accessed)

pub record Resolved : Type 0 where
  pub evidence : Evidence
  pub selection_digest : String
  pub selection_ref : String

unfoldable pub seal : (Value → String) → Evidence → Resolved
unfolding evidence_json
seal hexdigest e =
    let d = digest hexdigest (evidence_json e) in
    record {
      evidence = e;
      selection_digest = d;
      selection_ref = String.◌++◌ "model-binding-selection:" (without_prefix "sha256:" d);
    }

-- `resolve_model_profile` for a profile and an environment that are trimmed
unfoldable pub resolve_in :
    Platform
    → (registry access : Value × String) → (profile_id environment : String)
    → (require_active : Bool) → Result Resolved
unfolding seal reasons
resolve_in platform registry access profile_id environment require_active = do
  rows ← load registry.0
  document ← load access.0
  f ← from_registry platform rows profile_id environment
  a ← from_access platform document profile_id environment f
  require (not require_active || is_empty (reasons f a)) resolution
  scope ← string_list false (get "allowed_data_scope" f.capability.profile)
  ok (
      seal platform.hexdigest (record {
        profile_id = profile_id;
        environment = environment;
        registered = f;
        accessed = a;
        allowed_data_scope = scope;
        profile_registry_digest = registry.1;
        access_plane_digest = access.1;
      }))

-- `resolve_model_profile`
unfoldable pub resolve :
    Platform
    → (registry access : Value × String) → (profile_id environment : String)
    → (require_active : Bool) → Result Resolved
resolve platform registry access profile_id environment require_active = do
  id ← non_empty_string (str profile_id)
  place ← non_empty_string (str environment)
  resolve_in platform registry access id place require_active

-- `{profile_id: resolve_model_profile(…) for profile_id in sorted(profiles)}`
unfoldable pub resolve_each :
    Platform
    → (registry access : Value × String) → (environment : String) → List String
    → Result (List (String × Resolved))
resolve_each platform registry access environment [] = ok []
resolve_each platform registry access environment (id ∷ ids) = do
  resolved ← resolve platform registry access id environment false
  rest ← resolve_each platform registry access environment ids
  ok ((id, resolved) ∷ rest)

-- The profiles of `resolve_model_profile_registry`
unfoldable pub resolve_registry :
    Platform
    → (registry access : Value × String) → (environment : String)
    → Result (List (String × Resolved))
resolve_registry platform registry access environment = do
  rows ← load registry.0
  profiles ← mapping (get "model_profiles" rows)
  resolve_each platform registry access environment (sorted (keys profiles))
