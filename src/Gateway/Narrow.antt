-- ===== src/Gateway/Narrow.antt =====
-- A preset only restricts: what an allowed request of `GatewayRuntime.invoke`
-- (dev-integration/profiles/governed-ai-gateway/runtime/gateway_app.py) is allowed.
use mathlib.Core.Path.{subst}
use platform_engineering.Prelude.{
  ℕ, ◌≡◌, refl, sym, ap, ◌∙◌, String, true, false, Option, none, some, List, [], ◌∷◌, ◌==◌, eq_iff,
  arith, ◌≤◌, ◌⊎◌, inl, inr, Bool-cases, if-true, if-false,
}
use platform_engineering.Dict.{Dict, lookup}
use platform_engineering.Json.{Value, null, bool, int, str, arr, obj, Fields, get}
use platform_engineering.Profile.{InvocationDecision, Outcome, returns, type_error, get_by}
use platform_engineering.Policy.{evaluate, unknown_profile, decide_looked_up}
use platform_engineering.Configuration.{Configuration}
use platform_engineering.Resolver.Binding.{Limits}
use platform_engineering.Gateway.{
  Effective, GatewayDecision, GatewayProfile, policies, profile_of, unrestricted, first_decision,
  deny, selected_request, least, narrowed, restricted, preset_decided, with_preset, selected_of,
  with_management, for_base, decided, decide,
}

-- Each limit of the first is at most that of the second.
abbrev pub IsWithin : Limits → Limits → Type 0
IsWithin a b =
    (a.max_request_bytes ≤ b.max_request_bytes)
    × (a.max_output_tokens ≤ b.max_output_tokens)
    × (a.retry_count ≤ b.retry_count)
    × (a.max_concurrency ≤ b.max_concurrency)
    × (a.timeout_seconds ≤ b.timeout_seconds)

-- The profile that the configuration assigns to a capability: itself, without a configuration
abbrev pub assigned_to : Option Configuration → String → String
assigned_to none id = id
assigned_to (some config) id = selected_of config id

-- The assigned preset restricts the profile: it is compatible, and the policy allows it too.
abbrev pub IsRestricted : Dict GatewayProfile → Option Configuration → Fields → Effective → Type 0
IsRestricted profiles config request e =
    (id : String) × (preset : GatewayProfile) × (p : InvocationDecision) × (assigned_to config
        e.base.profile_id
      ≡ id)
    × (e.selected_policy_profile_id ≡ some id)
    × (lookup id profiles ≡ some preset)
    × (preset.capability_id ≡ e.base.profile_id)
    × (evaluate (policies profiles) (selected_request id request) ≡ returns p)
    × (p.allowed ≡ true)
    × IsWithin e.runtime_limits e.base.runtime_limits
    × IsWithin e.runtime_limits preset.runtime_limits

-- The profile as it is, when no other is assigned, or restricted by the assigned preset
abbrev pub IsEffective :
    Dict GatewayProfile → Option Configuration → Fields → GatewayProfile → Option Effective → Type 0
IsEffective profiles config request base found =
    ((assigned_to config base.profile_id ≡ base.profile_id) × (found ≡ some (unrestricted base)))
    ⊎ ((e : Effective) × (found ≡ some e)
        × (e.base ≡ base)
        × IsRestricted profiles config request e)

least-left : (m n : ℕ) → least m n ≤ m
least-left m n = ground arith

least-right : (m n : ℕ) → least m n ≤ n
least-right m n = ground arith

narrowed-left : (a b : Limits) → IsWithin (narrowed a b) a
unfolding narrowed
narrowed-left a b = (least-left _ _, least-left _ _, least-left _ _, least-left _ _, least-left _ _)

narrowed-right : (a b : Limits) → IsWithin (narrowed a b) b
unfolding narrowed
narrowed-right a b =
    (least-right _ _, least-right _ _, least-right _ _, least-right _ _, least-right _ _)

returns-injective : {A : Type 0} (a b : A) → returns a ≡ returns b → a ≡ b
returns-injective a b h = cc

false_not_true : false ≡ true → ⊥
false_not_true h = cc

not_returned : {A : Type 0} {a : A} → ◌≡◌ {A = Outcome A} type_error (returns a) → ⊥
not_returned h = cc

some_not_none : {A : Type 0} {a : A} → some a ≡ none → ⊥
some_not_none h = cc

-- A denial is not allowed.
denied :
    (r : List String) (d e : GatewayDecision)
    → returns (deny r d) ≡ returns e
    → e.allowed ≡ true
    → ⊥
denied r d e h allowed =
    false_not_true
      (ap (λ (x : GatewayDecision). x.allowed) (returns-injective (deny r d) e h) ∙ allowed)

module _ (profiles : Dict GatewayProfile) (config : Option Configuration) (request : Fields)
    (base : GatewayProfile) (e : GatewayDecision) where
  preset_decided-IsEffective :
      (id : String) (preset : GatewayProfile) (d : GatewayDecision) (o : Outcome InvocationDecision)
      → assigned_to config base.profile_id ≡ id
      → evaluate (policies profiles) (selected_request id request) ≡ o
      → lookup id profiles ≡ some preset
      → preset.capability_id ≡ base.profile_id
      → preset_decided base id preset d o ≡ returns e
      → e.allowed ≡ true
      → IsEffective profiles config request base e.profile
  preset_decided-IsEffective id preset d type_error own asked found same h allowed =
      absurd (not_returned h)
  preset_decided-IsEffective id preset d (returns p) own asked found same h allowed =
      elim (Bool-cases p.allowed) [
        | inr refused ↦
            absurd (denied _ d e (sym (ap returns (if-false p.allowed _ _ refused)) ∙ h) allowed)
        | inl permitted ↦
            subst (λ (x : GatewayDecision). IsEffective profiles config request base x.profile)
              (returns-injective (restricted base id preset d) e
                (sym (ap returns (if-true p.allowed _ _ permitted)) ∙ h))
              (inr (
                _,
                refl,
                refl,
                (
                  id,
                  preset,
                  p,
                  own,
                  refl,
                  found,
                  same,
                  asked,
                  permitted,
                  narrowed-left _ _,
                  narrowed-right _ _,
                ),
              ))
      ]

  with_preset-IsEffective :
      (id : String) (d : GatewayDecision) (found : Option GatewayProfile)
      → assigned_to config base.profile_id ≡ id
      → lookup id profiles ≡ found
      → with_preset profiles request base id d found ≡ returns e
      → e.allowed ≡ true
      → IsEffective profiles config request base e.profile
  with_preset-IsEffective id d none own at h allowed = absurd (denied _ d e h allowed)
  with_preset-IsEffective id d (some preset) own at h allowed =
      elim (Bool-cases (preset.capability_id == base.profile_id)) [
        | inr other ↦ absurd (
            denied _ d e (sym (if-false (preset.capability_id == base.profile_id) _ _ other) ∙ h)
              allowed)
        | inl same ↦
            preset_decided-IsEffective id preset d _ own refl at
              ((eq_iff preset.capability_id base.profile_id).0 same)
              (sym (if-true (preset.capability_id == base.profile_id) _ _ same) ∙ h) allowed
      ]

  with_management-IsEffective :
      (c : Option Configuration) (d : GatewayDecision)
      → c ≡ config
      → d.profile ≡ some (unrestricted base)
      → with_management profiles c request base d ≡ returns e
      → e.allowed ≡ true
      → IsEffective profiles config request base e.profile
  with_management-IsEffective none d own is h allowed = inl (
    ap (λ c. assigned_to c base.profile_id) (sym own),
    sym (ap (λ (x : GatewayDecision). x.profile) (returns-injective d e h)) ∙ is,
  )
  with_management-IsEffective (some c) d own is h allowed =
      let id = selected_of c base.profile_id in
      let assigned = ap (λ x. assigned_to x base.profile_id) (sym own) in
      elim (Bool-cases (id == base.profile_id)) [
        | inl same ↦ inl (
          assigned ∙ (eq_iff id base.profile_id).0 same,
          sym (
                ap (λ (x : GatewayDecision). x.profile)
                  (returns-injective d e (sym (if-true (id == base.profile_id) _ _ same) ∙ h)))
              ∙ is,
        )
        | inr other ↦
            with_preset-IsEffective id d _ assigned refl
              (sym (if-false (id == base.profile_id) _ _ other) ∙ h) allowed
      ]

lookup-policies :
    (id : String) (profiles : Dict GatewayProfile)
    → lookup id profiles ≡ none
    → lookup id (policies profiles) ≡ none
unfolding lookup
lookup-policies id [] h = refl
lookup-policies id ((k, row) ∷ rest) h = elim (Bool-cases (k == id)) [
  | inl same ↦ absurd (some_not_none (rw (same) at h))
  | inr other ↦ rw (other) (lookup-policies id rest (rw (other) at h))
]

-- The policy allows no request for a profile that is not known.
unknown : (p : InvocationDecision) → returns unknown_profile ≡ returns p → p.allowed ≡ true → ⊥
unknown p h allowed =
    false_not_true
      (ap (λ (x : InvocationDecision). x.allowed) (returns-injective unknown_profile p h) ∙ allowed)

evaluated_known :
    (profiles : Dict GatewayProfile) (request : Fields) (v : Value) (p : InvocationDecision)
    → profile_of profiles v ≡ none
    → decide_looked_up request (get_by v (policies profiles)) ≡ returns p
    → p.allowed ≡ true
    → ⊥
evaluated_known profiles request (str s) p missing h allowed =
    unknown p
      (sym (
          ap (λ found. decide_looked_up request (returns found))
            (lookup-policies s profiles missing))
        ∙ h)
      allowed
evaluated_known profiles request null p missing h allowed = unknown p h allowed
evaluated_known profiles request (bool b) p missing h allowed = unknown p h allowed
evaluated_known profiles request (int n) p missing h allowed = unknown p h allowed
evaluated_known profiles request (arr xs) p missing h allowed = not_returned h
evaluated_known profiles request (obj d) p missing h allowed = not_returned h

-- What an allowed request has: a capability, the consent of the policy, and an effective profile
abbrev pub IsAllowed :
    Dict GatewayProfile → Option Configuration → Fields → GatewayDecision → Type 0
IsAllowed profiles config request e =
    (base : GatewayProfile) × (p : InvocationDecision) × (profile_of profiles
        (get "profile_id" request)
      ≡ some base)
    × (base.capability_id ≡ base.profile_id)
    × (evaluate (policies profiles) request ≡ returns p)
    × (p.allowed ≡ true)
    × IsEffective profiles config request base e.profile

for_base-IsEffective :
    (profiles : Dict GatewayProfile) (config : Option Configuration) (request : Fields)
    (base : GatewayProfile) (p : InvocationDecision) (e : GatewayDecision)
    → for_base profiles config request (some base) (first_decision (some base) p) ≡ returns e
    → e.allowed ≡ true
    → (base.capability_id ≡ base.profile_id)
      × (p.allowed ≡ true)
      × IsEffective profiles config request base e.profile
for_base-IsEffective profiles config request base p e h allowed =
    elim (Bool-cases (base.capability_id == base.profile_id)) [
      | inr other ↦ absurd (
          denied _ (first_decision (some base) p) e
            (sym (if-false (base.capability_id == base.profile_id) _ _ other) ∙ h) allowed)
      | inl same ↦
          let h1 = sym (if-true (base.capability_id == base.profile_id) _ _ same) ∙ h in
          elim (Bool-cases p.allowed) [
            | inr refused ↦ absurd (
                false_not_true (
                  sym refused
                  ∙ ap (λ (x : GatewayDecision). x.allowed)
                      (returns-injective (first_decision (some base) p) e
                        (sym (if-false p.allowed _ _ refused) ∙ h1))
                  ∙ allowed))
            | inl permitted ↦ (
              (eq_iff base.capability_id base.profile_id).0 same,
              permitted,
              with_management-IsEffective profiles config request base e config
                  (first_decision (some base) p) refl refl
                  (sym (if-true p.allowed _ _ permitted) ∙ h1) allowed,
            )
          ]
    ]

decided-IsAllowed :
    (profiles : Dict GatewayProfile) (config : Option Configuration) (request : Fields)
    (o : Outcome InvocationDecision) (base : Option GatewayProfile) (e : GatewayDecision)
    → evaluate (policies profiles) request ≡ o
    → profile_of profiles (get "profile_id" request) ≡ base
    → decided profiles config request o ≡ returns e
    → e.allowed ≡ true
    → IsAllowed profiles config request e
unfolding evaluate
decided-IsAllowed profiles config request type_error base e asked found h allowed =
    absurd (not_returned h)
decided-IsAllowed profiles config request (returns p) none e asked found h allowed =
    let h1 = returns-injective (first_decision none p) e (rw (found) at h) in
    absurd (
      evaluated_known profiles request (get "profile_id" request) p found asked
        (ap (λ (x : GatewayDecision). x.allowed) h1 ∙ allowed))
decided-IsAllowed profiles config request (returns p) (some base) e asked found h allowed =
    let (own, permitted, effective) =
      for_base-IsEffective profiles config request base p e (rw (found) at h) allowed in
    (base, p, found, own, asked, permitted, effective)

-- A request that the gateway allows names a capability, not a variant of one, and the policy allows it.
-- If the configuration assigns no other profile to the capability, the request runs under the
-- capability's own profile and limits. If it assigns another, the request runs under that preset:
-- it is of the same capability, the policy allows the same request for it too, and no limit is above
-- that of the capability nor above that of the preset.
pub decide-IsAllowed :
    (profiles : Dict GatewayProfile) (config : Option Configuration) (request : Fields)
    (e : GatewayDecision)
    → decide profiles config request ≡ returns e
    → e.allowed ≡ true
    → IsAllowed profiles config request e
unfolding decide
decide-IsAllowed profiles config request e h allowed =
    decided-IsAllowed profiles config request _ _ e refl refl h allowed
