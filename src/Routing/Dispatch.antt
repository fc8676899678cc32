-- ===== src/Routing/Dispatch.antt =====
-- How many attempts a call of `TaskRouting.invoke` of task_routing.py makes, and which of them can
-- have submitted a turn.
use mathlib.Core.Path.{subst}
use platform_engineering.Prelude.{
  ℕ, suc, ◌≤◌, ◌≡◌, refl, sym, ap, ◌∙◌, String, Bool, Option, none, some, List, [], arith, length,
  inl, inr, Bool-cases, if-true, if-false, contains,
}
use platform_engineering.Json.{
  Value, null, obj, nil, arr, get, as_fields, is_null, Fields, count_items,
}
use platform_engineering.Result.{Result, Error, ok, err, ok-injective, Unit-ok, require, >>=-eq-ok}
use platform_engineering.Configuration.{digest, Owner, State, Configuration}
use platform_engineering.Configuration.Snapshot.{
  Snapshot, Selection, targets_of, selection, models_of,
}
use platform_engineering.Configuration.Validation.{validate_route, route_of}
use platform_engineering.Configuration.Routes.{IsRoute, validate_route-IsRoute}
use platform_engineering.Journal.{Journal, Opened, invocation, finish}
use platform_engineering.Routing.{
  invoke, dispatch, conclude, after_run, after_finish, attempts_of, identity_of, task_of, Complete,
  Answer, RoutedProfile, effective_selection, source_selection, or_source,
}
use platform_engineering.Routing.Candidates.{Provider, Attempt, run_from}
use platform_engineering.Routing.Loop.{ButLast, Unsubmitted, Runs-AreFew, run_from-Runs}

-- A route that is valid has at most five targets.
IsRoute-few :
    (owner : Owner) (config : Configuration) (task : String) (route : Value)
    → IsRoute owner config task route
    → count_items (targets_of route) ≤ 5
IsRoute-few owner config task route r =
    let listed : get "fallbacks" (as_fields route) ≡ arr r.fallbacks =
      ap (λ v. get "fallbacks" (as_fields v)) r.shape ∙ r.listed in
    subst (λ v. suc (count_items (elim v [ arr xs ↦ xs | _ ↦ nil ])) ≤ 5) (sym listed)
      (omega (arith, r.few))

selected_route : Option Selection → Value
selected_route none = null
selected_route (some c) = c.route

-- What `selection` returns
selection-few :
    (owner : Owner) (s : Snapshot) (task : String) (o : Option Selection) (chosen : Selection)
    → selection owner s task ≡ ok o
    → o ≡ some chosen
    → count_items (targets_of chosen.route) ≤ 5
unfolding selection selected_route
selection-few owner s task o chosen h e =
    let (u, admitted, h1) = >>=-eq-ok (require (contains task owner.tasks) _) _ h in
    let route = route_of s.configuration task in
    elim (Bool-cases (is_null route)) [
      | inl t ↦ absurd (nothing (sym (if-true _ _ _ t) ∙ h1))
      | inr f ↦
          let (v, valid, h2) =
            >>=-eq-ok (validate_route owner s.configuration task route) _
              (sym (if-false _ _ _ f) ∙ h1) in
          let (models, m, h3) = >>=-eq-ok (models_of s.configuration [] (targets_of route)) _ h2 in
          let same : route ≡ chosen.route = ap selected_route (ok-injective _ o h3 ∙ e) in
          subst (λ r. count_items (targets_of r) ≤ 5) same
            (IsRoute-few owner s.configuration task route
              (validate_route-IsRoute owner s.configuration task route (Unit-ok _ v valid)))
    ]
  where
    nothing : ok none ≡ ok o → ⊥
    nothing p = cc

-- A selection that was made, the unchanged source binding included, has at most five targets.
effective_selection-few :
    (owner : Owner) (s : Snapshot) (profile : RoutedProfile) (task : String) (chosen : Selection)
    → effective_selection owner s profile task ≡ ok chosen
    → count_items (targets_of chosen.route) ≤ 5
unfolding effective_selection source_selection get
effective_selection-few owner s profile task chosen h =
    let (o, selected, h1) = >>=-eq-ok (selection owner s task) _ h in
    subst (λ (c : Selection). count_items (targets_of c.route) ≤ 5) (ok-injective _ chosen h1)
      (or_source-few o selected)
  where
    or_source-few :
        (o : Option Selection)
        → selection owner s task ≡ ok o
        → count_items (targets_of (or_source s profile task o).route) ≤ 5
    or_source-few none e = omega arith
    or_source-few (some c) e = selection-few owner s task (some c) c e refl

-- Whatever the callback and the journal do, the attempts are those of the loop.
after_run-attempts :
    (hexdigest : Value → String) (complete : Complete) (opened : Opened) (state : State)
    (attempts : List Attempt) (ledger : complete.Ledger) (said : complete.Ledger × Result Value)
    (escaped : Option Error)
    → (after_run hexdigest complete opened state attempts ledger said escaped).attempts ≡ attempts
after_run-attempts hexdigest complete opened state attempts ledger said (some e) = refl
after_run-attempts hexdigest complete opened state attempts ledger (l, err e) none = refl
after_run-attempts hexdigest complete opened state attempts ledger (l, ok response) none =
    finished (finish hexdigest opened response)
  where
    finished :
        (w : Result Journal)
        → (after_finish hexdigest complete opened state attempts l response w).attempts ≡ attempts
    finished (ok journal) = refl
    finished (err e) = refl

-- A call of `invoke` has made at most five attempts, and every one but the last ended in
-- provider-unavailable or provider-busy: after an attempt that can have submitted a turn, no other
-- target is asked. This holds whether the call returns or raises after its record was opened.
pub invoke_attempts :
    (hexdigest : Value → String) (accepts : Value → Bool) (provider : Provider) (now : ℕ → String)
    (complete : Complete) (owner : Owner) (state : State) (ledger : complete.Ledger) (held : Bool)
    (j : Journal) (request : Fields) (profile : RoutedProfile) (task_kind : String) (s : Snapshot)
    (answer : Answer complete)
    → invoke hexdigest accepts provider now complete owner state ledger held j request profile
        task_kind s
      ≡ ok answer
    → ButLast Unsubmitted answer.attempts × (length answer.attempts ≤ 5)
unfolding invoke dispatch conclude
invoke_attempts hexdigest accepts provider now complete owner state ledger held j request profile
      task_kind s answer h =
    let (chosen, c, h1) =
      >>=-eq-ok (effective_selection owner s profile (task_of profile task_kind)) _ h in
    let (identity, i, h2) = >>=-eq-ok (identity_of request profile.profile_id task_kind) _ h1 in
    let (opened, o, h3) =
      >>=-eq-ok (invocation hexdigest held j identity (digest hexdigest (obj request)) chosen) _
        h2 in
    let same = ok-injective _ answer h3 in
    elim (Bool-cases opened.fresh) [
      | inl t ↦
          let run = run_from accepts provider chosen.models 0 (targets_of chosen.route) in
          let (before, few) =
            Runs-AreFew accepts provider chosen.models 0 (targets_of chosen.route) run
              (run_from-Runs accepts provider chosen.models 0 (targets_of chosen.route)) in
          subst (λ (a : List Attempt). ButLast Unsubmitted a × (length a ≤ 5))
            (sym (
                after_run-attempts hexdigest complete opened _ (attempts_of run.made) ledger _
                  run.escaped)
              ∙ ap (λ (a : Answer complete). a.attempts) (sym (if-true opened.fresh _ _ t) ∙ same))
            (
              before,
              omega (
                arith,
                few,
                effective_selection-few owner s profile (task_of profile task_kind) chosen c,
              ),
            )
      | inr f ↦
          subst (λ (a : Answer complete). ButLast Unsubmitted a.attempts × (length a.attempts ≤ 5))
            (sym (if-false opened.fresh _ _ f) ∙ same) (tt, omega arith)
    ]
