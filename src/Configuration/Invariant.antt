-- ===== src/Configuration/Invariant.antt =====
-- The invariant of the state file of model_configuration.py: the history records every accepted
-- configuration, and each receipt refers to its own entry.
use mathlib.Core.Path.{subst}
use platform_engineering.Prelude.{
  ℕ, ◌+◌, ◌≤◌, ◌≡◌, ◌⊎◌, refl, sym, ◌∙◌, String, Option, some, List, [], ◌∷◌, eq_refl, eqb, arith,
  ◌==◌, if-true, if-false, if◌then◌else◌, Bool-cases, inl, inr,
}
use mathlib.Core.Option.{some-injective}
use platform_engineering.Dict.{lookup, lookup-insert}
use platform_engineering.Json.{Value, Fields, find, keys}
use platform_engineering.Result.{ok, for_each, ok-injective, >>=-eq-ok}
use platform_engineering.Configuration.{
  Owner, Configuration, Receipt, State, History, at_revision, read, digest, configuration_json,
  initial, empty_configuration,
}
use platform_engineering.Configuration.Validation.{validate, validate_task}
use platform_engineering.Configuration.Commands.{
  command, record_outcome, observed_in, outcome_recorded,
}
use platform_engineering.Configuration.Step.{Advances, at_revision-set}
use platform_engineering.Configuration.Accepted.{
  Accepted, replayed, advanced, command-Accepted, read-ok,
}

-- The receipt's revision is in the history, and holds the configuration that it digests.
abbrev pub IsReceipt : (Value → String) → History → Receipt → Type 0
IsReceipt hexdigest history r =
    (c : Configuration) × (at_revision r.revision history ≡ some c)
    × (r.configuration_digest ≡ digest hexdigest (configuration_json c))

pub record IsValid (hexdigest : Value → String) (owner : Owner) (s : State) : Type 0 where
  pub current : at_revision s.revision s.history ≡ some s.configuration
  pub accepted :
      (r : ℕ) (c : Configuration)
      → at_revision r s.history ≡ some c
      → validate hexdigest owner c ≡ ok tt
  pub bounded : (r : ℕ) (c : Configuration) → at_revision r s.history ≡ some c → r ≤ s.revision
  pub receipts :
      (k : String) (r : Receipt) → lookup k s.commands ≡ some r → IsReceipt hexdigest s.history r

-- The state that `_read` returns is the one that is stored.
pub read-IsValid :
    (hexdigest : Value → String) (owner : Owner) (s : State)
    → IsValid hexdigest owner s
    → read hexdigest s ≡ ok s
unfolding read
read-IsValid hexdigest owner s v =
    rw (v.current, eq_refl (digest hexdigest (configuration_json s.configuration)))

module _ (hexdigest : Value → String) (owner : Owner) (s : State) (fields : Fields)
    (key actor : String) (verified : Option Fields) (receipt : Receipt) (s' : State)
    (v : IsValid hexdigest owner s)
    (step : Advances hexdigest owner s fields key actor verified receipt s') where
  -- The history behind the step: one new entry, and every older one as it was.
  pub history-Advances :
      (r : ℕ)
      → at_revision r s'.history
        ≡ (if eqb (s.revision + 1) r then some s'.configuration else at_revision r s.history)
  history-Advances r =
      rw (step.history, step.configured)
        (at_revision-set (s.revision + 1) r step.applied.config s.history)

  IsReceipt-kept :
      (r : Receipt) → IsReceipt hexdigest s.history r → IsReceipt hexdigest s'.history r
  IsReceipt-kept r (c, at, digested) =
      (c, ground (arith, history-Advances r.revision, v.bounded r.revision c at), digested)

  commands-Advances :
      (k : String) (r : Receipt)
      → lookup k s'.commands ≡ some r
      → (r ≡ receipt) ⊎ (lookup k s.commands ≡ some r)
  commands-Advances k r h = ground (arith, step.commands, lookup-insert key k receipt s.commands)

  accepted-Advances :
      (r : ℕ) (c : Configuration)
      → at_revision r s'.history ≡ some c
      → validate hexdigest owner c ≡ ok tt
  accepted-Advances r c h = elim (Bool-cases (eqb (s.revision + 1) r)) [
    | inl new ↦
        let same : s'.configuration ≡ c =
          some-injective _ _ (sym (rw new at (history-Advances r)) ∙ h) in
        subst (λ (x : Configuration). validate hexdigest owner x ≡ ok tt)
          (sym step.configured ∙ same) step.validated
    | inr old ↦ v.accepted r c (sym (rw old at (history-Advances r)) ∙ h)
  ]

  IsReceipt-new : IsReceipt hexdigest s'.history receipt
  IsReceipt-new = (
    s'.configuration,
    ground (arith, history-Advances receipt.revision, step.numbered),
    rw step.configured step.digested,
  )

  pub Advances-IsValid : IsValid hexdigest owner s'
  Advances-IsValid = record {
    current = ground (arith, history-Advances s'.revision, step.revised);
    accepted = accepted-Advances;
    bounded = λ r c h. ground (arith, history-Advances r, step.revised, v.bounded r c);
    receipts = λ k r h. elim (commands-Advances k r h) [
      | inl new ↦ subst (IsReceipt hexdigest s'.history) (sym new) IsReceipt-new
      | inr old ↦ IsReceipt-kept r (v.receipts k r old)
    ];
  }

Accepted-IsValid :
    (hexdigest : Value → String) (owner : Owner) (s : State) (value : Value) (actor : String)
    (verified : Option Fields) (receipt : Receipt) (s' : State)
    → IsValid hexdigest owner s
    → Accepted hexdigest owner s value actor verified receipt s'
    → IsValid hexdigest owner s'
Accepted-IsValid hexdigest owner s value actor verified receipt s' v (replayed f e r d same) =
    subst (IsValid hexdigest owner) (sym same) v
Accepted-IsValid hexdigest owner s value actor verified receipt s' v (advanced f key e r k n step) =
    Advances-IsValid hexdigest owner s f key actor verified receipt s' v step

-- A command that returns keeps the invariant: the current configuration is the newest entry of the
-- history, every entry passes `validate`, none is newer than the revision, and each receipt digests
-- the entry that it names.
pub command-IsValid :
    (hexdigest : Value → String) (owner : Owner) (now : String) (s : State) (value : Value)
    (actor : String) (verified : Option Fields) (account : Value) (receipt : Receipt) (s' : State)
    → IsValid hexdigest owner s
    → command hexdigest owner now s value actor verified account ≡ ok (receipt, s')
    → IsValid hexdigest owner s'
command-IsValid hexdigest owner now s value actor verified account receipt s' v h =
    Accepted-IsValid hexdigest owner s value actor verified receipt s' v
      (command-Accepted hexdigest owner now actor verified account s value receipt s' h)

observed_in-fields :
    (hexdigest : Value → String) (owner : Owner) (now : String) (s : State) (model : Fields)
    (code reference : String) (account : Value)
    → let s' = observed_in hexdigest owner now s model code reference account in
      (s'.revision ≡ s.revision)
      × (s'.configuration ≡ s.configuration)
      × (s'.history ≡ s.history)
      × (s'.commands ≡ s.commands)
unfolding observed_in outcome_recorded
observed_in-fields hexdigest owner now s model code reference account = ground arith

-- Recording what a provider call came to changes the observations alone.
pub record_outcome-fields :
    (hexdigest : Value → String) (owner : Owner) (now : String) (s s' : State) (model : Fields)
    (code reference : String) (account : Value)
    → record_outcome hexdigest owner now s model code reference account ≡ ok s'
    → (s'.revision ≡ s.revision)
      × (s'.configuration ≡ s.configuration)
      × (s'.history ≡ s.history)
      × (s'.commands ≡ s.commands)
unfolding record_outcome
record_outcome-fields hexdigest owner now s s' model code reference account h =
    elim (Bool-cases (code == "provider-busy")) [
      | inl busy ↦
          subst
            (λ (x : State).
              (x.revision ≡ s.revision)
              × (x.configuration ≡ s.configuration)
              × (x.history ≡ s.history)
              × (x.commands ≡ s.commands))
            (ok-injective s s' (sym (if-true (code == "provider-busy") _ _ busy) ∙ h))
            (refl, refl, refl, refl)
      | inr other ↦
          let (c, r, h₁) =
            >>=-eq-ok (read hexdigest s) _
              (sym (if-false (code == "provider-busy") _ _ other) ∙ h) in
          subst
            (λ (x : State).
              (x.revision ≡ s.revision)
              × (x.configuration ≡ s.configuration)
              × (x.history ≡ s.history)
              × (x.commands ≡ s.commands))
            (ok-injective _ s' h₁)
            (subst
              (λ (t : State).
                let x = observed_in hexdigest owner now c model code reference account in
                (x.revision ≡ t.revision)
                × (x.configuration ≡ t.configuration)
                × (x.history ≡ t.history)
                × (x.commands ≡ t.commands))
              (sym (read-ok hexdigest s c r))
              (observed_in-fields hexdigest owner now c model code reference account))
    ]

validate_tasks_empty :
    (owner : Owner) (tasks : List String)
    → for_each (validate_task owner empty_configuration) tasks ≡ ok tt
unfolding for_each validate_task find
validate_tasks_empty owner [] = refl
validate_tasks_empty owner (x ∷ xs) = validate_tasks_empty owner xs

validate-empty :
    (hexdigest : Value → String) (owner : Owner)
    → validate hexdigest owner empty_configuration ≡ ok tt
unfolding validate for_each keys
validate-empty hexdigest owner = validate_tasks_empty owner owner.tasks

initial_history :
    (r : ℕ) (c : Configuration)
    → at_revision r initial.history ≡ some c
    → (r ≡ 0) × (empty_configuration ≡ c)
unfolding at_revision
initial_history r c h = ground arith

-- The state of an absent file is valid for every owner.
pub initial-IsValid : (hexdigest : Value → String) (owner : Owner) → IsValid hexdigest owner initial
initial-IsValid hexdigest owner = record {
  current = unfold at_revision in refl;
  accepted = λ r c h.
      subst (λ x. validate hexdigest owner x ≡ ok tt) (initial_history r c h).1
        (validate-empty hexdigest owner);
  bounded = λ r c h. omega (arith, (initial_history r c h).0);
  receipts = λ k r h. absurd (unfold lookup in (let n : ⊥ = cc in n));
}
