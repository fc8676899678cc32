-- ===== src/Resolver/Access.antt =====
-- The access plane in `resolve_model_profile` of
-- dev-integration/profiles/governed-ai-gateway/runtime/model_profile_resolver.py: the route of a
-- binding, the callers of a profile, and whether the profile may be activated.
use platform_engineering.Prelude.{
  String, Bool, true, false, not, ◌&&◌, ◌||◌, Option, none, some, List, [], ◌∷◌, ◌++◌, map, ◌==◌,
  if◌then◌else◌, contains, any, sorted,
}
use platform_engineering.Dict.{Dict, lookup}
use platform_engineering.Json.{Value, bool, obj, Fields, end, get, is_text, is_true, is_null}
use platform_engineering.Result.{
  Result, ok, err, resolution, type_error, require, or_raise, for_each, ◌>>=◌, ◌>>◌,
}
use platform_engineering.Policy.{when}
use platform_engineering.Resolver.{
  mapping, non_empty_string, string_list, schema_ref, ref_text, index_mappings, granted_in, get_or,
}
use platform_engineering.Resolver.Tasks.{TaskContract}
use platform_engineering.Resolver.Binding.{Capability, Selected, Terms}

-- The access plane, as far as it is about one profile
pub record Plane : Type 0 where
  pub fields : Fields
  pub status : String
  pub allowed_profiles : List String
  pub routes : Dict Fields
  pub callers : Dict Fields

-- `any(profile_id in (route.get("allowed_profiles") or []) for route in routes.values())`
unfoldable pub granted_by_routes : (String → String → Bool) → String → Dict Fields → Result Bool
granted_by_routes text_has id [] = ok false
granted_by_routes text_has id ((k, route) ∷ routes) =
    let rest = granted_by_routes text_has id routes in
    granted_in text_has id (get "allowed_profiles" route) >>= λ granted.
    if granted then ok true else rest

-- The grants of a profile: on the plane, on a route, or to a caller
unfoldable pub is_granted :
    (String → String → Bool)
    → String
    → (allowed_profiles : List String) → (routes callers : Dict Fields) → Result Bool
is_granted text_has id allowed_profiles routes callers =
    if contains id allowed_profiles then ok true else (do
      by_route ← granted_by_routes text_has id routes
      ok (by_route || any (λ c. is_text (get "required_profile" c.1) id) callers))

-- A retired profile has no grants.
unfoldable pub no_grants :
    (String → String → Bool)
    → String
    → List String
    → (routes callers : Dict Fields) → Result (Unit {0})
no_grants text_has id allowed_profiles routes callers = do
  granted ← is_granted text_has id allowed_profiles routes callers
  require (not granted) resolution

unfoldable pub plane :
    (String → String → Bool) → (profile_id : String) → Terms → (document : Fields) → Result Plane
plane text_has profile_id t document = do
  fields ← mapping (get "access_plane" document)
  id ← non_empty_string (get "id" fields)
  status ← non_empty_string (get "status" fields)
  require (t.invocation_path == id) resolution
  allowed ← string_list true (get "allowed_profiles" fields)
  require (t.profile_status == "retired" || contains profile_id allowed) resolution
  routes ← index_mappings false "route_id" (get "provider_routes" fields)
  callers ← index_mappings true "caller_id" (get "allowed_callers" fields)
  if t.profile_status == "retired"
      then no_grants text_has profile_id allowed routes callers
      else ok tt
  ok (record {
    fields = fields;
    status = status;
    allowed_profiles = allowed;
    routes = routes;
    callers = callers;
  })

pub record Route : Type 0 where
  pub status : String
  pub endpoint_origin : String
  pub endpoint_path : String
  pub api_family : String
  pub credential_required : Bool

abbrev pub boolean : Value → Result Bool
boolean (bool b) = ok b
boolean _ = err resolution

-- What a live profile needs of its route
unfoldable pub serves : (profile_id : String) → Terms → (route : Fields) → Result (Unit {0})
serves profile_id t route = do
  profiles ← string_list true (get "allowed_profiles" route)
  require (contains profile_id profiles) resolution
  models ← string_list false (get "allowed_models" route)
  require (contains t.upstream_model models) resolution

unfoldable pub route_for : (profile_id : String) → Terms → (routes : Dict Fields) → Result Route
route_for profile_id t routes = do
  route ← or_raise (lookup t.provider_route routes) resolution
  status ← non_empty_string (get "status" route)
  provider ← non_empty_string (get "provider" route)
  require (provider == t.provider) resolution
  if t.profile_status == "retired" then ok tt else serves profile_id t route
  origin ← non_empty_string (get "endpoint_origin" route)
  path ← non_empty_string (get "endpoint_path" route)
  family ← non_empty_string (get "api_family" route)
  credential ← boolean (get "credential_required" route)
  ok (record {
    status = status;
    endpoint_origin = origin;
    endpoint_path = path;
    api_family = family;
    credential_required = credential;
  })

abbrev pub same_texts : List String → List String → Bool
same_texts [] [] = true
same_texts (x ∷ xs) (y ∷ ys) = x == y && same_texts xs ys
same_texts _ _ = false

-- `default_output_schema_ref`
abbrev pub default_ref : Dict TaskContract → Option String → Option String
default_ref contracts none = none
default_ref contracts (some kind) = elim (lookup kind contracts) [
  | none ↦ none
  | some contract ↦ some (ref_text contract.output_ref)
]

abbrev pub is_ref : Option String → String → Bool
is_ref none text = false
is_ref (some s) text = s == text

-- The schema that an older caller names
unfoldable pub legacy_schema : Option String → Value → Result (Unit {0})
legacy_schema expected value =
    if is_null value
    then ok tt
    else (do named ← schema_ref value; require (is_ref expected (ref_text named)) resolution)

-- One caller of the profile
unfoldable pub caller_agrees :
    Capability
    → Terms
    → Dict TaskContract
    → (default_output : Option String) → (callers : Dict Fields) → (caller_id : String)
    → Result (Unit {0})
caller_agrees c t contracts default_output callers caller_id = do
  caller ← or_raise (lookup caller_id callers) resolution
  require (is_text (get "required_profile" caller) c.capability_id) resolution
  require (is_text (get "purpose" caller) t.purpose) resolution
  kinds ← string_list false (get "allowed_task_kinds" caller)
  require (same_texts (sorted kinds) (sorted (map (λ e. e.0) contracts))) resolution
  legacy_schema default_output (get "required_provider_output_schema_ref" caller)

-- The callers that are checked: none of a retired profile or capability
abbrev pub live_callers : Capability → Terms → List String
live_callers c t =
    if t.profile_status == "retired" || is_text (get "status" c.base_profile) "retired"
    then []
    else t.allowed_callers

unfoldable pub callers_agree :
    Capability
    → Terms
    → Dict TaskContract
    → Option String
    → (callers : Dict Fields) → Result (Unit {0})
callers_agree c t contracts default_output callers =
    for_each (caller_agrees c t contracts default_output callers) (live_callers c t)

-- `profile_activations` of the plane
unfoldable pub activations : Plane → Result Fields
activations p = do
  state ← mapping (get "activation_state" p.fields)
  mapping (get "profile_activations" state)

-- `activation_allowed` of the profile
unfoldable pub activation :
    (profile_id environment : String) → Terms → Selected → Fields → Result Bool
activation profile_id environment t selected rows = do
  row ← mapping (get profile_id rows)
  allowed ← boolean (get "activation_allowed" row)
  require (not (t.profile_status == "retired" && allowed)) resolution
  active_environment ← non_empty_string (get "environment" row)
  active_binding ← non_empty_string (get "binding" row)
  require (active_environment == environment && active_binding == selected.binding_id) resolution
  ok allowed

abbrev pub not_allowed : Value → Result Bool
not_allowed (obj row) = ok (not (is_true (get "activation_allowed" row)))
not_allowed _ = err type_error

-- Whether a variant's capability is not active
unfoldable pub base_inactive : (profile_id : String) → Capability → Fields → Result Bool
base_inactive profile_id c rows =
    if c.capability_id == profile_id
    then ok false
    else if is_text (get "status" c.base_profile) "active"
    then not_allowed (get_or c.capability_id (obj end) rows)
    else ok true

-- `activation_denial_reasons`
unfoldable pub denials :
    (base_is_inactive : Bool) → Terms → Plane → Route → (allowed : Bool) → List String
denials base_is_inactive t p route allowed =
    when base_is_inactive "base-capability-not-active"
    ++ (when (not (t.profile_status == "active")) "profile-not-active"
        ++ (when (not (t.binding_status == "active")) "binding-not-active"
            ++ (when (not (p.status == "active")) "access-plane-not-active"
                ++ (when (not (route.status == "active")) "provider-route-not-active"
                    ++ when (not allowed) "profile-activation-not-allowed"))))
