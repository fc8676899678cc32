-- ===== src/Configuration/Observed.antt =====
-- `outcomes` and `outcome` of model_configuration.py: what the observation of a provider is worth when
-- it is read, under the policy and the account of that time.
use platform_engineering.Prelude.{
  Bool-cases, inl, inr, ◌≡◌, refl, sym, ap, ◌∙◌, String, true, false, Option, none, some, [], ◌∷◌,
  arith, ◌==◌, eq_iff, if◌then◌else◌, if-true, if-false,
}
use mathlib.Core.Path.{subst}
use platform_engineering.Dict.{Dict, lookup, has, lookup-inserted}
use platform_engineering.Json.{Value, Fields, end, field, null, str, obj, get, value_eq}
use platform_engineering.Result.{Result, ok, ◌>>=◌, ok-injective, >>=-eq-ok}
use platform_engineering.Configuration.{
  Owner, Backend, ProviderOutcome, State, read, digest, model_identity,
}
use platform_engineering.Configuration.Commands.{
  outcome_binding, registered_only, outcome_recorded, observed_in, record_outcome,
}

-- `value if value and value.get("binding") == binding else None`
abbrev pub bound_outcome : String → Option ProviderOutcome → Option ProviderOutcome
bound_outcome binding none = none
bound_outcome binding (some o) = if o.binding == binding then some o else none

-- `outcomes`
unfoldable pub outcomes : (Value → String) → State → Result (Dict ProviderOutcome)
outcomes hexdigest state = do current ← read hexdigest state; ok current.provider_outcomes

-- `outcome`, without a table of its own
unfoldable pub outcome :
    (Value → String)
    → Owner
    → State
    → (model_id : String) → (model : Fields) → (account : Value) → Result (Option ProviderOutcome)
outcome hexdigest owner state model_id model account = do
  table ← outcomes hexdigest state
  ok (bound_outcome (outcome_binding hexdigest owner model account) (lookup model_id table))

lookup-registered_only :
    {A : Type 0} (k : String) (models : Dict Value) (d : Dict A)
    → has k models ≡ true
    → lookup k (registered_only models d) ≡ lookup k d
unfolding lookup registered_only
lookup-registered_only k models [] h = refl
lookup-registered_only k models ((j, w) ∷ d) h = elim (Bool-cases (has j models)) [
  | inl t ↦ ground (arith, t, lookup-registered_only k models d h)
  | inr f ↦ elim (Bool-cases (j == k)) [
    | inl e ↦ absurd (different (sym f ∙ ap (λ i. has i models) ((eq_iff j k).0 e) ∙ h))
    | inr n ↦ ground (arith, f, n, lookup-registered_only k models d h)
  ]
]
  where
    different : false ≡ true → ⊥
    different p = cc

has-lookup : (k : String) (d : Dict Value) (v : Value) → lookup k d ≡ some v → has k d ≡ true
unfolding has
has-lookup k d v e = rw e

-- What an observation writes
recorded-found :
    (hexdigest : Value → String) (owner : Owner) (now : String) (s : State) (model_id : String)
    (model : Fields) (kind code reference : String) (account registered : Value)
    → lookup model_id s.configuration.models ≡ some registered
    → (o : ProviderOutcome) × (lookup model_id
          (outcome_recorded hexdigest owner now s model_id model kind code reference
            account).provider_outcomes
        ≡ some o)
      × (o.binding ≡ outcome_binding hexdigest owner model account)
      × (o.at ≡ now)
      × (o.code ≡ code)
unfolding outcome_recorded
recorded-found hexdigest owner now s model_id model kind code reference account registered e = (
  _,
  lookup-registered_only model_id s.configuration.models _
        (has-lookup model_id s.configuration.models registered e)
      ∙ lookup-inserted model_id _ s.provider_outcomes,
  refl,
  refl,
  refl,
)

-- A state that differs from one that can be read in the observations alone can be read.
read-recorded :
    (hexdigest : Value → String) (owner : Owner) (now : String) (s t : State) (model_id : String)
    (model : Fields) (kind code reference : String) (account : Value)
    → read hexdigest s ≡ ok t
    → let s' = outcome_recorded hexdigest owner now s model_id model kind code reference account in
      read hexdigest s' ≡ ok s'
unfolding read outcome_recorded
read-recorded hexdigest owner now s t model_id model kind code reference account h = ground arith

read-same : (hexdigest : Value → String) (s t : State) → read hexdigest s ≡ ok t → t ≡ s
unfolding read
read-same hexdigest s t h = ground arith

-- The identity under which a model is registered
abbrev pub identity_in : (Value → String) → Fields → String
identity_in hexdigest model =
    digest hexdigest (model_identity (get "backend_id" model) (get "model" model))

-- The observation of a registered model is written.
record_outcome-recorded :
    (hexdigest : Value → String) (owner : Owner) (now : String) (s after : State) (model : Fields)
    (code reference : String) (account registered : Value)
    → record_outcome hexdigest owner now s model code reference account ≡ ok after
    → (code == "provider-busy") ≡ false
    → lookup (identity_in hexdigest model) s.configuration.models ≡ some registered
    → value_eq registered (obj model) ≡ true
    → (after
        ≡ outcome_recorded hexdigest owner now s
            (identity_in hexdigest model)
            model
            "request"
            code
            reference
            account)
      × (read hexdigest s ≡ ok s)
unfolding record_outcome observed_in
record_outcome-recorded hexdigest owner now s after model code reference account registered h tried
      found same =
    let (c, r, h1) = >>=-eq-ok (read hexdigest s) _ (sym (if-false _ _ _ tried) ∙ h) in
    let there = read-same hexdigest s c r in
    let recorded =
      outcome_recorded hexdigest owner now s (identity_in hexdigest model) model "request" code
        reference account in
    (
      sym (ok-injective _ after h1)
          ∙ ap (λ x. observed_in hexdigest owner now x model code reference account) there
          ∙ ap
              (λ q. elim q [
                | none ↦ s
                | some current ↦ if value_eq current (obj model) then recorded else s
              ])
              found
          ∙ if-true _ _ _ same,
      r ∙ ap ok there,
    )

outcome-found :
    (hexdigest : Value → String) (owner : Owner) (s : State) (model_id : String) (model : Fields)
    (account : Value) (o : ProviderOutcome)
    → read hexdigest s ≡ ok s
    → lookup model_id s.provider_outcomes ≡ some o
    → outcome hexdigest owner s model_id model account
      ≡ ok (if o.binding == outcome_binding hexdigest owner model account then some o else none)
unfolding outcome outcomes
outcome-found hexdigest owner s model_id model account o r e = rw (r, e)

-- The account of an observation, by the bindings
bound_apart :
    (hexdigest : Value → String) (owner owner' : Owner) (now : String) (s after : State)
    (model : Fields) (code reference : String) (account account' registered : Value)
    → record_outcome hexdigest owner now s model code reference account ≡ ok after
    → (code == "provider-busy") ≡ false
    → lookup (identity_in hexdigest model) s.configuration.models ≡ some registered
    → value_eq registered (obj model) ≡ true
    → (outcome_binding hexdigest owner model account
        == outcome_binding hexdigest owner' model account')
      ≡ false
    → (o : ProviderOutcome) × (o.code ≡ code)
      × (o.at ≡ now)
      × (outcome hexdigest owner after (identity_in hexdigest model) model account ≡ ok (some o))
      × (outcome hexdigest owner' after (identity_in hexdigest model) model account' ≡ ok none)
bound_apart hexdigest owner owner' now s after model code reference account account' registered h
      tried found same other =
    let (written, there) =
      record_outcome-recorded hexdigest owner now s after model code reference account registered h
        tried found same in
    let (o, stored, bound, at, coded) =
      recorded-found hexdigest owner now s (identity_in hexdigest model) model "request" code
        reference account registered found in
    let readable =
      subst (λ x. read hexdigest x ≡ ok x) (sym written)
        (read-recorded hexdigest owner now s s (identity_in hexdigest model) model "request" code
          reference account there) in
    let kept =
      ap (λ (x : State). lookup (identity_in hexdigest model) x.provider_outcomes) written
      ∙ stored in
    (
      o,
      coded,
      at,
      outcome-found hexdigest owner after (identity_in hexdigest model) model account o readable
            kept
          ∙ ap ok (
              if-true _ _ _
                ((eq_iff o.binding (outcome_binding hexdigest owner model account)).1 bound)),
      outcome-found hexdigest owner' after (identity_in hexdigest model) model account' o readable
            kept
          ∙ ap ok (
              if-false _ _ _
                (ap (λ b. b == outcome_binding hexdigest owner' model account') bound ∙ other)),
    )

-- What an observation is bound to: the model, the policy of its backend, and the account
abbrev pub circumstances : Fields → Value → Value → Value
circumstances model policy account =
    obj (field "model" (obj model) (field "policy" policy (field "account" account end)))

outcome_binding-circumstances :
    (hexdigest : Value → String) (owner : Owner) (model : Fields) (account : Value) (b : String)
    (backend : Backend)
    → get "backend_id" model ≡ str b
    → lookup b owner.backends ≡ some backend
    → outcome_binding hexdigest owner model account
      ≡ digest hexdigest (circumstances model backend.policy account)
unfolding outcome_binding
outcome_binding-circumstances hexdigest owner model account b backend e found =
    ap
      (λ v. digest hexdigest (
        circumstances model
          (elim v [
            | str k ↦ elim (lookup k owner.backends) [ none ↦ null | some x ↦ x.policy ]
            | _ ↦ null
          ])
          account))
      e
    ∙ ap
        (λ o.
          digest hexdigest
            (circumstances model (elim o [ none ↦ null | some x ↦ x.policy ]) account))
        found

-- After an observation of a registered model was recorded, unless its code is provider-busy, `outcome`
-- gives that code and time for the model under the same policy of its backend and the same account,
-- and nothing for it under another policy or account, whenever the two circumstances have different
-- digests.
pub outcome-record_outcome :
    (hexdigest : Value → String) (owner owner' : Owner) (now : String) (s after : State)
    (model : Fields) (code reference b : String) (account account' registered : Value)
    (backend backend' : Backend)
    → record_outcome hexdigest owner now s model code reference account ≡ ok after
    → (code == "provider-busy") ≡ false
    → lookup (identity_in hexdigest model) s.configuration.models ≡ some registered
    → value_eq registered (obj model) ≡ true
    → get "backend_id" model ≡ str b
    → lookup b owner.backends ≡ some backend
    → lookup b owner'.backends ≡ some backend'
    → (digest hexdigest (circumstances model backend.policy account)
        == digest hexdigest (circumstances model backend'.policy account'))
      ≡ false
    → (o : ProviderOutcome) × (o.code ≡ code)
      × (o.at ≡ now)
      × (outcome hexdigest owner after (identity_in hexdigest model) model account ≡ ok (some o))
      × (outcome hexdigest owner' after (identity_in hexdigest model) model account' ≡ ok none)
outcome-record_outcome hexdigest owner owner' now s after model code reference b account account'
      registered backend backend' h tried found same named there there' other =
    let binds = outcome_binding-circumstances hexdigest owner model account b backend named there in
    let binds' =
      outcome_binding-circumstances hexdigest owner' model account' b backend' named there' in
    bound_apart hexdigest owner owner' now s after model code reference account account' registered
      h tried found same
      (ap (λ x. x == outcome_binding hexdigest owner' model account') binds
        ∙ ap (λ x. digest hexdigest (circumstances model backend.policy account) == x) binds'
        ∙ other)
