-- ===== src/Resolver/Eligible.antt =====
-- When `resolve_model_profile`
-- (dev-integration/profiles/governed-ai-gateway/runtime/model_profile_resolver.py) says that a profile
-- may be activated.
use platform_engineering.Prelude.{
  ◌≡◌, refl, ap, ◌∙◌, String, Bool, true, false, not, ◌||◌, List, [], ◌∷◌, ◌++◌, map, ◌==◌, eq_iff,
  arith, is_empty, ◌⊎◌, inl, inr, Bool-cases, sorted, some,
}
use platform_engineering.Dict.{lookup}
use platform_engineering.Json.{
  Value, null, bool, int, str, arr, obj, Fields, end, get, is_text, is_true,
}
use platform_engineering.Result.{
  Result, ok, Every, for_each-ok, >>=-returned, or_raise-eq-ok, require-eq-ok, ok-injective,
}
use platform_engineering.Policy.{when}
use platform_engineering.Policy.Reasons.{when-empty_rest, when-empty_last}
use platform_engineering.Resolver.{string_list, get_or}
use platform_engineering.Resolver.Binding.{Capability, Terms}
use platform_engineering.Resolver.Access.{
  Plane, Route, denials, activations, not_allowed, base_inactive, caller_agrees, callers_agree,
  live_callers, same_texts,
}
use platform_engineering.Resolver.Evidence.{
  Evidence, Resolved, Platform, is_eligible, reasons, resolve,
}
use platform_engineering.Resolver.Stages.{resolve-Stages}

-- The capability of a variant is active, and its own activation is allowed.
abbrev pub IsLiveBase : Capability → Fields → Type 0
IsLiveBase c rows =
    (is_text (get "status" c.base_profile) "active" ≡ true)
    × ((row : Fields) × (get_or c.capability_id (obj end) rows ≡ obj row)
        × (is_true (get "activation_allowed" row) ≡ true))

-- Everything that a profile depends on is active: the profile, its binding, the access plane, the
-- route, the activation itself, and the capability of a variant.
abbrev pub IsActive : Evidence → Type 0
IsActive e =
    (e.registered.terms.profile_status ≡ "active")
    × (e.registered.terms.binding_status ≡ "active")
    × (e.accessed.plane.status ≡ "active")
    × (e.accessed.route.status ≡ "active")
    × (e.accessed.activation_allowed ≡ true)
    × ((e.registered.capability.capability_id ≡ e.profile_id)
        ⊎ ((rows : Fields) × (activations e.accessed.plane ≡ ok rows)
            × IsLiveBase e.registered.capability rows))

when-empty_first :
    (t : Bool) (r : String) (rest : List String)
    → is_empty (when t r ++ rest) ≡ true
    → (t ≡ false) × (is_empty rest ≡ true)
when-empty_first false r rest h = (refl, h)
when-empty_first true r rest h = cc

true_not_false : ◌≡◌ {A = Result Bool} (ok true) (ok false) → ⊥
true_not_false h = cc

allowed_row :
    (v : Value)
    → not_allowed v ≡ ok false
    → (row : Fields) × (v ≡ obj row) × (is_true (get "activation_allowed" row) ≡ true)
allowed_row (obj row) h = (row, refl, ground (arith, ok-injective _ false h))
allowed_row null h = cc
allowed_row (bool b) h = cc
allowed_row (int n) h = cc
allowed_row (str s) h = cc
allowed_row (arr xs) h = cc

base_inactive-active :
    (id : String) (c : Capability) (rows : Fields)
    → base_inactive id c rows ≡ ok false
    → (c.capability_id ≡ id) ⊎ IsLiveBase c rows
unfolding base_inactive
base_inactive-active id c rows h = elim (Bool-cases (c.capability_id == id)) [
  | inl same ↦ inl ((eq_iff c.capability_id id).0 same)
  | inr other ↦ elim (Bool-cases (is_text (get "status" c.base_profile) "active")) [
    | inl live ↦
        inr (live, allowed_row (get_or c.capability_id (obj end) rows) (rw (other, live) at h))
    | inr dead ↦ absurd (true_not_false (rw (other, dead) at h))
  ]
]

pub denials-active :
    (inactive : Bool) (t : Terms) (p : Plane) (route : Route) (allowed : Bool)
    → is_empty (denials inactive t p route allowed) ≡ true
    → (inactive ≡ false)
      × (t.profile_status ≡ "active")
      × (t.binding_status ≡ "active")
      × (p.status ≡ "active")
      × (route.status ≡ "active")
      × (allowed ≡ true)
unfolding denials
denials-active inactive t p route allowed h =
    let (based, h1) = when-empty_first inactive _ _ h in
    let (profile, h2) = when-empty_rest (t.profile_status == "active") _ _ h1 in
    let (binding, h3) = when-empty_rest (t.binding_status == "active") _ _ h2 in
    let (plane, h4) = when-empty_rest (p.status == "active") _ _ h3 in
    let (routed, h5) = when-empty_rest (route.status == "active") _ _ h4 in
    (
      based,
      (eq_iff t.profile_status "active").0 profile,
      (eq_iff t.binding_status "active").0 binding,
      (eq_iff p.status "active").0 plane,
      (eq_iff route.status "active").0 routed,
      when-empty_last allowed _ h5,
    )

either_way : (a b : Bool) → (a || b) ≡ true → (not a || b) ≡ true → b ≡ true
either_way a b h k = ground arith

-- A profile that was resolved for activation, or that the result calls eligible, is active in every
-- respect: the profile, its binding, the access plane, the route and the activation, and, for a variant,
-- its capability, whose status is active and whose own activation is allowed.
pub resolve-IsActive :
    (platform : Platform) (registry access : Value × String) (profile_id environment : String)
    (require_active : Bool) (r : Resolved)
    → resolve platform registry access profile_id environment require_active ≡ ok r
    → (require_active || is_eligible r.evidence) ≡ true
    → IsActive r.evidence
unfolding is_eligible reasons
resolve-IsActive platform registry access profile_id environment require_active r h live =
    let stages =
      resolve-Stages platform registry access profile_id environment require_active r h in
    let e = r.evidence in
    let (based, profile, binding, plane, route, allowed) =
      denials-active e.accessed.base_is_inactive e.registered.terms e.accessed.plane
        e.accessed.route e.accessed.activation_allowed
        (either_way require_active _ live stages.required) in
    (
      profile,
      binding,
      plane,
      route,
      allowed,
      elim (base_inactive-active e.profile_id e.registered.capability stages.access.rows
          (stages.access.based ∙ ap ok based)) [
            | inl own ↦ inl own
            | inr base ↦ inr (stages.access.rows, stages.access.listed, base)
          ],
    )

-- A caller is registered for the capability of the profile, for its purpose and for just its tasks.
abbrev pub IsCaller : Evidence → String → Type 0
IsCaller e id =
    (caller : Fields) × (lookup id e.accessed.plane.callers ≡ some caller)
    × (is_text (get "required_profile" caller) e.registered.capability.capability_id ≡ true)
    × (is_text (get "purpose" caller) e.registered.terms.purpose ≡ true)
    × (kinds : List String) × (string_list false (get "allowed_task_kinds" caller) ≡ ok kinds)
    × (same_texts (sorted kinds) (sorted (map (λ c. c.0) e.registered.task_contracts)) ≡ true)

Every-map :
    {P Q : String → Type 0} (xs : List String)
    → ((x : String) → P x → Q x)
    → Every P xs
    → Every Q xs
Every-map [] f h = tt
Every-map (x ∷ xs) f h = (f x h.0, Every-map xs f h.1)

caller_agrees-IsCaller :
    (e : Evidence) (output : _) (id : String)
    → caller_agrees e.registered.capability e.registered.terms e.registered.task_contracts output
        e.accessed.plane.callers id
      ≡ ok tt
    → IsCaller e id
unfolding caller_agrees
caller_agrees-IsCaller e output id h =
    let (caller, found, h1) = or_raise-eq-ok (lookup id e.accessed.plane.callers) _ _ h in
    let (named, h2) =
      require-eq-ok (is_text (get "required_profile" caller) e.registered.capability.capability_id)
        _ _ h1 in
    let (meant, h3) =
      require-eq-ok (is_text (get "purpose" caller) e.registered.terms.purpose) _ _ h2 in
    >>=-returned (string_list false (get "allowed_task_kinds" caller)) _ h3 λ kinds listed h4.
      let (same, h5) =
        require-eq-ok
          (same_texts (sorted kinds) (sorted (map (λ c. c.0) e.registered.task_contracts))) _ _
          h4 in
      (caller, found, named, meant, kinds, listed, same)

-- When a profile is resolved, and neither it nor its capability is retired, each of its callers is
-- registered at the access plane for that capability, for the purpose of the profile, and for just
-- the tasks that the profile has contracts for.
pub resolve_callers :
    (platform : Platform) (registry access : Value × String) (profile_id environment : String)
    (require_active : Bool) (r : Resolved)
    → resolve platform registry access profile_id environment require_active ≡ ok r
    → (r.evidence.registered.terms.profile_status == "retired") ≡ false
    → is_text (get "status" r.evidence.registered.capability.base_profile) "retired" ≡ false
    → Every (IsCaller r.evidence) r.evidence.registered.terms.allowed_callers
unfolding callers_agree
resolve_callers platform registry access profile_id environment require_active r h alive
      base_alive =
    let stages =
      resolve-Stages platform registry access profile_id environment require_active r h in
    let e = r.evidence in
    Every-map e.registered.terms.allowed_callers (λ id agrees. caller_agrees-IsCaller e _ id agrees)
      (rw (alive, base_alive) at
        (for_each-ok _ (live_callers e.registered.capability e.registered.terms)
          stages.access.called))
