-- ===== src/Resolver/Retired.antt =====
-- What `resolve_model_profile`
-- (dev-integration/profiles/governed-ai-gateway/runtime/model_profile_resolver.py) demands of a profile
-- that is retired.
use mathlib.Core.Path.{subst}
use mathlib.Core.Bool.{false≢true}
use platform_engineering.Prelude.{
  ◌≡◌, refl, sym, ap, ◌∙◌, String, Bool, true, false, not, ◌&&◌, ◌||◌, List, [], ◌∷◌, ◌==◌, arith,
  contains, any, if◌then◌else◌, inl, inr, Bool-cases,
}
use platform_engineering.Dict.{Dict}
use platform_engineering.Json.{Value, Fields, get, is_text}
use platform_engineering.Result.{
  Result, ok, resolution, Every, require, >>=-returned, require-eq-ok, ok-injective,
}
use platform_engineering.Resolver.{
  mapping, non_empty_string, string_list, index_mappings, granted_in,
}
use platform_engineering.Resolver.Binding.{Selected, Terms}
use platform_engineering.Resolver.Access.{
  Plane, boolean, granted_by_routes, is_granted, no_grants, plane, activation,
}
use platform_engineering.Resolver.Evidence.{
  Evidence, Resolved, Platform, is_eligible, reasons, resolve,
}
use platform_engineering.Resolver.Stages.{resolve-Stages}
use platform_engineering.Resolver.Eligible.{denials-active}

-- The plane grants the profile nothing, neither itself nor on a route nor to a caller.
abbrev pub HasNoGrants : (String → String → Bool) → String → Plane → Type 0
HasNoGrants text_has id p =
    (contains id p.allowed_profiles ≡ false)
    × Every
        (λ (row : String × Fields).
          granted_in text_has id (get "allowed_profiles" row.1) ≡ ok false)
        p.routes
    × Every (λ (row : String × Fields). is_text (get "required_profile" row.1) id ≡ false) p.callers

true_not_false : ◌≡◌ {A = Result Bool} (ok true) (ok false) → ⊥
true_not_false h = cc

not_granted :
    (g : Bool) (rest : Result Bool)
    → (if g then ok true else rest) ≡ ok false
    → (g ≡ false) × (rest ≡ ok false)
not_granted true rest h = absurd (true_not_false h)
not_granted false rest h = (refl, h)

neither : (a b : Bool) → (a || b) ≡ false → (a ≡ false) × (b ≡ false)
neither true b h = cc
neither false b h = (refl, h)

not_any : {A : Type 0} (f : A → Bool) (xs : List A) → any f xs ≡ false → Every (λ x. f x ≡ false) xs
not_any f [] h = tt
not_any f (x ∷ xs) h = let (here, rest) = neither (f x) (any f xs) h in (here, not_any f xs rest)

granted_by_routes-none :
    (text_has : String → String → Bool) (id : String) (routes : Dict Fields)
    → granted_by_routes text_has id routes ≡ ok false
    → Every
        (λ (row : String × Fields).
          granted_in text_has id (get "allowed_profiles" row.1) ≡ ok false)
        routes
unfolding granted_by_routes
granted_by_routes-none text_has id [] h = tt
granted_by_routes-none text_has id ((k, route) ∷ routes) h =
    >>=-returned (granted_in text_has id (get "allowed_profiles" route)) _ h λ g e h1.
      let (here, rest) = not_granted g (granted_by_routes text_has id routes) h1 in
      (e ∙ ap ok here, granted_by_routes-none text_has id routes rest)

is_granted-none :
    (text_has : String → String → Bool) (id : String) (p : Plane)
    → is_granted text_has id p.allowed_profiles p.routes p.callers ≡ ok false
    → HasNoGrants text_has id p
unfolding is_granted
is_granted-none text_has id p h =
    let (listed, h1) = not_granted (contains id p.allowed_profiles) _ h in
    >>=-returned (granted_by_routes text_has id p.routes) _ h1 λ by_route e h2.
      let (routed, called) = neither by_route _ (ok-injective _ false h2) in
      (
        listed,
        granted_by_routes-none text_has id p.routes (e ∙ ap ok routed),
        not_any _ p.callers called,
      )

refused :
    (granted : Bool) (u : Unit {0}) → require (not granted) resolution ≡ ok u → granted ≡ false
refused true u h = cc
refused false u h = refl

not_both : (a given : Bool) → a ≡ true → not (a && given) ≡ true → given ≡ false
not_both a given h k = ground arith

no_grants-none :
    (text_has : String → String → Bool) (id : String) (p : Plane) (u : Unit {0})
    → no_grants text_has id p.allowed_profiles p.routes p.callers ≡ ok u
    → HasNoGrants text_has id p
unfolding no_grants
no_grants-none text_has id p u h =
    >>=-returned (is_granted text_has id p.allowed_profiles p.routes p.callers) _ h
      λ granted e h1. is_granted-none text_has id p (e ∙ ap ok (refused granted u h1))

plane-HasNoGrants :
    (text_has : String → String → Bool) (id : String) (t : Terms) (document : Fields) (p : Plane)
    → plane text_has id t document ≡ ok p
    → (t.profile_status == "retired") ≡ true
    → HasNoGrants text_has id p
unfolding plane
plane-HasNoGrants text_has id t document p h retired =
    >>=-returned (mapping (get "access_plane" document)) _ h λ fields e h1.
      >>=-returned (non_empty_string (get "id" fields)) _ h1 λ name e1 h2.
        >>=-returned (non_empty_string (get "status" fields)) _ h2 λ status e2 h3.
          let (same, h4) = require-eq-ok (t.invocation_path == name) _ _ h3 in
          >>=-returned (string_list true (get "allowed_profiles" fields)) _ h4 λ allowed e4 h5.
            let (listed, h6) =
              require-eq-ok (t.profile_status == "retired" || contains id allowed) _ _ h5 in
            >>=-returned (index_mappings false "route_id" (get "provider_routes" fields)) _ h6
              λ routes e6 h7.
                >>=-returned (index_mappings true "caller_id" (get "allowed_callers" fields)) _ h7
                  λ callers e7 h8.
                    >>=-returned
                      (if t.profile_status == "retired"
                        then no_grants text_has id allowed routes callers
                        else ok tt)
                      _ h8
                      λ u e8 h9. subst (HasNoGrants text_has id) (ok-injective _ p h9) (
                        no_grants-none text_has id
                          (record {
                            fields = fields;
                            status = status;
                            allowed_profiles = allowed;
                            routes = routes;
                            callers = callers;
                          })
                          u (rw (retired) at e8))

activation-retired :
    (id environment : String) (t : Terms) (selected : Selected) (rows : Fields) (allowed : Bool)
    → activation id environment t selected rows ≡ ok allowed
    → (t.profile_status == "retired") ≡ true
    → allowed ≡ false
unfolding activation
activation-retired id environment t selected rows allowed h retired =
    >>=-returned (mapping (get id rows)) _ h λ row e h1.
      >>=-returned (boolean (get "activation_allowed" row)) _ h1 λ given e1 h2.
        let (refused, h3) = require-eq-ok (not (t.profile_status == "retired" && given)) _ _ h2 in
        >>=-returned (non_empty_string (get "environment" row)) _ h3 λ place e3 h4.
          >>=-returned (non_empty_string (get "binding" row)) _ h4 λ binding e4 h5.
            let (same, h6) =
              require-eq-ok (place == environment && binding == selected.binding_id) _ _ h5 in
            sym (ok-injective given allowed h6) ∙ not_both _ given retired refused

not_eligible :
    (e : Evidence) → (e.registered.terms.profile_status == "retired") ≡ true → is_eligible e ≡ false
unfolding is_eligible reasons
not_eligible e retired = elim (Bool-cases (is_eligible e)) [
  | inr h ↦ h
  | inl h ↦
      let (based, status, b, c, d, f) =
        denials-active e.accessed.base_is_inactive e.registered.terms e.accessed.plane
          e.accessed.route e.accessed.activation_allowed h in
      absurd (false≢true (sym (ap (λ s. s == "retired") status) ∙ retired))
]

-- A profile that is resolved as retired may not be activated and is not eligible; the access plane
-- grants it nothing, neither itself nor on one of its routes nor to one of its callers.
pub resolve_retired :
    (platform : Platform) (registry access : Value × String) (profile_id environment : String)
    (require_active : Bool) (r : Resolved)
    → resolve platform registry access profile_id environment require_active ≡ ok r
    → (r.evidence.registered.terms.profile_status == "retired") ≡ true
    → (r.evidence.accessed.activation_allowed ≡ false)
      × (is_eligible r.evidence ≡ false)
      × HasNoGrants platform.text_has r.evidence.profile_id r.evidence.accessed.plane
resolve_retired platform registry access profile_id environment require_active r h retired =
    let stages =
      resolve-Stages platform registry access profile_id environment require_active r h in
    let e = r.evidence in
    (
      activation-retired e.profile_id e.environment e.registered.terms e.registered.selected
          stages.access.rows _ stages.access.activated retired,
      not_eligible e retired,
      plane-HasNoGrants platform.text_has e.profile_id e.registered.terms stages.access.document _
          stages.access.planned retired,
    )
