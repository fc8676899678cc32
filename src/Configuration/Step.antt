-- ===== src/Configuration/Step.antt =====
-- What one accepted command of `ModelConfiguration` (model_configuration.py) does to the state.
use mathlib.Core.Path.{subst}
use platform_engineering.Prelude.{
  ℕ, ◌+◌, ◌≡◌, refl, String, true, Option, none, some, [], ◌∷◌, eqb, arith, if◌then◌else◌,
}
use platform_engineering.Dict.{insert}
use platform_engineering.Json.{Value, obj, Fields, get}
use platform_engineering.Result.{ok, >>=-eq-ok, require-eq-ok, Unit-ok, ok-injective}
use platform_engineering.Configuration.{
  Owner, Configuration, Receipt, State, History, at_revision, set_revision, digest, fingerprint,
  configuration_json,
}
use platform_engineering.Configuration.Validation.{validate}
use platform_engineering.Configuration.Actions.{Applied, apply_action}
use platform_engineering.Configuration.Commands.{
  commit, receipt_for, accept, with_verification, outcome_recorded, execute, is_sortable,
}

pub at_revision-set :
    (r q : ℕ) (c : Configuration) (h : History)
    → at_revision q (set_revision r c h) ≡ (if eqb r q then some c else at_revision q h)
unfolding at_revision set_revision
at_revision-set r q c [] = refl
at_revision-set r q c ((p, d) ∷ h) = ground (arith, at_revision-set r q c h)

-- The new state of a command that was not known, field by field.
pub record Advances (hexdigest : Value → String) (owner : Owner) (s : State) (fields : Fields)
    (key actor : String) (verified : Option Fields) (receipt : Receipt) (s' : State) : Type 0 where
  pub applied : Applied
  pub acted :
      apply_action hexdigest owner s verified (get "action" fields) (get "input" fields)
      ≡ ok applied
  pub configured : s'.configuration ≡ applied.config
  pub revised : s'.revision ≡ s.revision + 1
  pub validated : validate hexdigest owner applied.config ≡ ok tt
  pub history : s'.history ≡ set_revision (s.revision + 1) applied.config s.history
  pub commands : s'.commands ≡ insert key receipt s.commands
  pub sortable : is_sortable (get "command_id" fields) s.commands ≡ true
  pub numbered : receipt.revision ≡ s.revision + 1
  pub fingerprinted : receipt.command_digest ≡ fingerprint hexdigest actor (obj fields)
  pub digested : receipt.configuration_digest ≡ digest hexdigest (configuration_json applied.config)

with_verification-fields :
    (hexdigest : Value → String) (owner : Owner) (now : String) (o : Option (String × Fields))
    (reference : String) (account : Value) (s : State)
    → let s' = with_verification hexdigest owner now o reference account s in
      (s'.revision ≡ s.revision)
      × (s'.configuration ≡ s.configuration)
      × (s'.history ≡ s.history)
      × (s'.commands ≡ s.commands)
unfolding outcome_recorded
with_verification-fields hexdigest owner now none reference account s = (refl, refl, refl, refl)
with_verification-fields hexdigest owner now (some m) reference account s = (refl, refl, refl, refl)

module _ (hexdigest : Value → String) (owner : Owner) (now : String) (s : State) (fields : Fields)
    (key actor : String) (verified : Option Fields) (account : Value) where
  accept-Advances :
      (applied : Applied)
      → apply_action hexdigest owner s verified (get "action" fields) (get "input" fields)
        ≡ ok applied
      → validate hexdigest owner applied.config ≡ ok tt
      → is_sortable (get "command_id" fields) s.commands ≡ true
      → let (receipt, s') = accept hexdigest owner now s fields key actor account applied in
        Advances hexdigest owner s fields key actor verified receipt s'
  unfolding accept receipt_for commit
  accept-Advances applied acted valid sorts =
      let receipt = receipt_for hexdigest s fields actor applied.config in
      let kept =
        with_verification-fields hexdigest owner now applied.registered receipt.receipt_digest
          account (commit s key receipt applied.config) in
      record {
        applied = applied;
        acted = acted;
        configured = kept.1;
        revised = kept.0;
        validated = valid;
        history = kept.2;
        commands = kept.3;
        sortable = sorts;
        numbered = refl;
        fingerprinted = refl;
        digested = refl;
      }

  pub execute-Advances :
      (expected : ℕ) (receipt : Receipt) (s' : State)
      → execute hexdigest owner now s fields key actor expected verified account ≡ ok (receipt, s')
      → (s.revision ≡ expected) × Advances hexdigest owner s fields key actor verified receipt s'
  unfolding execute
  execute-Advances expected receipt s' h =
      let (current, h₁) = require-eq-ok (eqb s.revision expected) _ _ h in
      let (applied, acted, h₂) =
        >>=-eq-ok
          (apply_action hexdigest owner s verified (get "action" fields) (get "input" fields)) _
          h₁ in
      let (u, valid, h₃) = >>=-eq-ok (validate hexdigest owner applied.config) _ h₂ in
      let (sorts, h₄) = require-eq-ok (is_sortable (get "command_id" fields) s.commands) _ _ h₃ in
      (
        ground (arith, current),
        subst
            (λ (p : Receipt × State). Advances hexdigest owner s fields key actor verified p.0 p.1)
            (ok-injective _ (receipt, s') h₄)
            (accept-Advances applied acted (Unit-ok _ u valid) sorts),
      )
