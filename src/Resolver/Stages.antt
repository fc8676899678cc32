-- ===== src/Resolver/Stages.antt =====
-- What `resolve_model_profile`
-- (dev-integration/profiles/governed-ai-gateway/runtime/model_profile_resolver.py) has gone through when
-- it returns: one equation for each of its stages.
use mathlib.Core.Path.{subst}
use platform_engineering.Prelude.{◌≡◌, ap, String, Bool, true, false, not, ◌||◌, is_empty}
use platform_engineering.Json.{Value, str, Fields, get}
use platform_engineering.Result.{ok, resolution, >>=-returned, require-eq-ok, ok-injective, Unit-ok}
use platform_engineering.Resolver.{load, mapping, non_empty_string, string_list}
use platform_engineering.Resolver.Tasks.{task_contracts}
use platform_engineering.Resolver.Binding.{
  capability, select_binding, terms, limits, selection_basis,
}
use platform_engineering.Resolver.Access.{
  plane, route_for, default_ref, callers_agree, activations, activation, base_inactive,
}
use platform_engineering.Resolver.Evidence.{
  Evidence, FromAccess, FromRegistry, Resolved, Platform, from_access, from_registry, is_eligible,
  reasons, seal, resolve_in, resolve,
}

pub record Registered (platform : Platform) (id environment : String) (f : FromRegistry)
    : Type 0 where
  pub profiles : Fields
  pub chosen : capability profiles id ≡ ok f.capability
  pub bound : select_binding f.capability.profile environment ≡ ok f.selected
  pub agreed : terms f.capability.profile f.selected ≡ ok f.terms
  pub tasked :
      task_contracts platform.hexdigest platform.files (get "task_contracts" f.capability.profile)
      ≡ ok (f.task_contracts, f.default_task_kind)

pub record Accessed (platform : Platform) (id environment : String) (f : FromRegistry)
    (a : FromAccess) : Type 0 where
  pub document : Fields
  pub planned : plane platform.text_has id f.terms document ≡ ok a.plane
  pub routed : route_for id f.terms a.plane.routes ≡ ok a.route
  pub called :
      callers_agree f.capability f.terms f.task_contracts
        (default_ref f.task_contracts f.default_task_kind)
        a.plane.callers
      ≡ ok tt
  pub rows : Fields
  pub listed : activations a.plane ≡ ok rows
  pub activated : activation id environment f.terms f.selected rows ≡ ok a.activation_allowed
  pub based : base_inactive id f.capability rows ≡ ok a.base_is_inactive

from_registry-Registered :
    (platform : Platform) (registry : Fields) (id environment : String) (f : FromRegistry)
    → from_registry platform registry id environment ≡ ok f
    → Registered platform id environment f
unfolding from_registry
from_registry-Registered platform registry id environment f h =
    >>=-returned (mapping (get "model_profiles" registry)) _ h λ profiles known h1.
      >>=-returned (capability profiles id) _ h1 λ c chosen h2.
        >>=-returned (select_binding c.profile environment) _ h2 λ selected bound h3.
          >>=-returned (terms c.profile selected) _ h3 λ t agreed h4.
            >>=-returned
              (task_contracts platform.hexdigest platform.files (get "task_contracts" c.profile)) _
              h4
              λ contracts tasked h5. >>=-returned (limits c.profile) _ h5 λ given limited h6.
                >>=-returned (selection_basis selected.binding) _ h6 λ basis named h7.
                  subst (Registered platform id environment) (ok-injective _ f h7) (record {
                    profiles = profiles;
                    chosen = chosen;
                    bound = bound;
                    agreed = agreed;
                    tasked = tasked;
                  })

from_access-Accessed :
    (platform : Platform) (document : Fields) (id environment : String) (f : FromRegistry)
    (a : FromAccess)
    → from_access platform document id environment f ≡ ok a
    → Accessed platform id environment f a
unfolding from_access
from_access-Accessed platform document id environment f a h =
    >>=-returned (plane platform.text_has id f.terms document) _ h λ p planned h1.
      >>=-returned (route_for id f.terms p.routes) _ h1 λ route routed h2.
        >>=-returned
          (callers_agree f.capability f.terms f.task_contracts
            (default_ref f.task_contracts f.default_task_kind) p.callers)
          _ h2
          λ u called h3. >>=-returned (activations p) _ h3 λ rows listed h4.
            >>=-returned (activation id environment f.terms f.selected rows) _ h4
              λ allowed activated h5.
                >>=-returned (base_inactive id f.capability rows) _ h5 λ inactive based h6.
                  subst (Accessed platform id environment f) (ok-injective _ a h6) (record {
                    document = document;
                    planned = planned;
                    routed = routed;
                    called = Unit-ok _ u called;
                    rows = rows;
                    listed = listed;
                    activated = activated;
                    based = based;
                  })

pub record Stages (platform : Platform) (require_active : Bool) (e : Evidence) : Type 0 where
  pub registry : Registered platform e.profile_id e.environment e.registered
  pub access : Accessed platform e.profile_id e.environment e.registered e.accessed
  pub required : (not require_active || is_eligible e) ≡ true

resolve_in-Stages :
    (platform : Platform) (registry access : Value × String) (id environment : String)
    (require_active : Bool) (r : Resolved)
    → resolve_in platform registry access id environment require_active ≡ ok r
    → Stages platform require_active r.evidence
unfolding resolve_in seal is_eligible
resolve_in-Stages platform registry access id environment require_active r h =
    >>=-returned (load registry.0) _ h λ rows loaded h1.
      >>=-returned (load access.0) _ h1 λ document read h2.
        >>=-returned (from_registry platform rows id environment) _ h2 λ f registered h3.
          >>=-returned (from_access platform document id environment f) _ h3 λ a accessed h4.
            let (required, h5) =
              require-eq-ok (not require_active || is_empty (reasons f a)) resolution _ h4 in
            >>=-returned (string_list false (get "allowed_data_scope" f.capability.profile)) _ h5
              λ scope scoped h6.
                subst (Stages platform require_active)
                  (ap (λ (x : Resolved). x.evidence) (ok-injective _ r h6))
                  (record {
                    registry = from_registry-Registered platform rows id environment f registered;
                    access = from_access-Accessed platform document id environment f a accessed;
                    required = required;
                  })

pub resolve-Stages :
    (platform : Platform) (registry access : Value × String) (profile_id environment : String)
    (require_active : Bool) (r : Resolved)
    → resolve platform registry access profile_id environment require_active ≡ ok r
    → Stages platform require_active r.evidence
unfolding resolve
resolve-Stages platform registry access profile_id environment require_active r h =
    >>=-returned (non_empty_string (str profile_id)) _ h λ id trimmed h1.
      >>=-returned (non_empty_string (str environment)) _ h1
        λ place found h2. resolve_in-Stages platform registry access id place require_active r h2
