-- ===== src/Configuration/Revisions.antt =====
-- Revisions of model_configuration.py: one new entry at a time, on the revision that the client saw.
use mathlib.Core.Path.{subst}
use platform_engineering.Prelude.{
  ℕ, ◌+◌, ◌≤◌, ◌≡◌, sym, ap, ◌∙◌, String, Option, none, some, [], ◌∷◌, arith,
}
use mathlib.Core.Option.{none-ne-some}
use platform_engineering.Json.{Value, obj, str, Fields, get}
use platform_engineering.Result.{ok, or_raise-eq-ok, >>=-eq-ok, ok-injective}
use platform_engineering.Configuration.{Owner, Receipt, State, at_revision, closed}
use platform_engineering.Configuration.Actions.{
  Applied, apply_action, roll_back, revision_of, unregistered,
}
use platform_engineering.Configuration.Commands.{command_key, retained, natural, command}
use platform_engineering.Configuration.Step.{Advances}
use platform_engineering.Configuration.Accepted.{
  Accepted, replayed, advanced, command-Accepted, closed-ok,
}
use platform_engineering.Configuration.Invariant.{IsValid, history-Advances}

obj-injective : (a b : Fields) → obj a ≡ obj b → a ≡ b
obj-injective a b e = cc

-- What is known of a command that was not retained and returned.
FreshStep :
    (Value → String) → Owner → State → String → Option Fields → Receipt → State → Fields → Type 0
FreshStep hexdigest owner s actor verified receipt s' fields =
    (key : String) × (command_key (get "command_id" fields) ≡ some key)
    × (natural (get "expected_revision" fields) ≡ ok s.revision)
    × Advances hexdigest owner s fields key actor verified receipt s'

Accepted-FreshStep :
    (hexdigest : Value → String) (owner : Owner) (s : State) (fields : Fields) (actor : String)
    (verified : Option Fields) (receipt : Receipt) (s' : State)
    → retained (get "command_id" fields) s ≡ none
    → Accepted hexdigest owner s (obj fields) actor verified receipt s'
    → FreshStep hexdigest owner s actor verified receipt s' fields
unfolding FreshStep
Accepted-FreshStep hexdigest owner s fields actor verified receipt s' fresh
      (replayed f same r d state) =
    let e = obj-injective fields f same in
    absurd (none-ne-some receipt (sym fresh ∙ ap (λ g. retained (get "command_id" g) s) e ∙ r))
Accepted-FreshStep hexdigest owner s fields actor verified receipt s' fresh
      (advanced f key same r k n step) =
    subst (FreshStep hexdigest owner s actor verified receipt s')
      (sym (obj-injective fields f same)) (key, k, n, step)

-- A command that was not known and returns expected the revision that the state had. It has
-- advanced the revision by one, kept every older entry of the history, and written the new
-- configuration at the new revision.
pub command-appends :
    (hexdigest : Value → String) (owner : Owner) (now : String) (s : State) (fields : Fields)
    (actor : String) (verified : Option Fields) (account : Value) (receipt : Receipt) (s' : State)
    → IsValid hexdigest owner s
    → retained (get "command_id" fields) s ≡ none
    → command hexdigest owner now s (obj fields) actor verified account ≡ ok (receipt, s')
    → (natural (get "expected_revision" fields) ≡ ok s.revision)
      × (s'.revision ≡ s.revision + 1)
      × (receipt.revision ≡ s.revision + 1)
      × (at_revision s'.revision s'.history ≡ some s'.configuration)
      × ((r : ℕ) → r ≤ s.revision → at_revision r s'.history ≡ at_revision r s.history)
unfolding FreshStep
command-appends hexdigest owner now s fields actor verified account receipt s' v fresh h =
    let (key, k, n, step) =
      Accepted-FreshStep hexdigest owner s fields actor verified receipt s' fresh
        (command-Accepted hexdigest owner now actor verified account s (obj fields) receipt s' h) in
    let entry = history-Advances hexdigest owner s fields key actor verified receipt s' v step in
    (
      n,
      step.revised,
      step.numbered,
      ground (arith, entry s'.revision, step.revised),
      λ r le. ground (arith, entry r),
    )

roll_back-restores :
    (s : State) (input : Value) (applied : Applied)
    → roll_back s input ≡ ok applied
    → (d : Fields) × (input ≡ obj d) × (revision_of (get "revision" d) s ≡ some applied.config)
unfolding roll_back
roll_back-restores s input applied h =
    let (d, c, h₁) = >>=-eq-ok (closed input ("revision" ∷ [])) _ h in
    let (config, found, h₂) = or_raise-eq-ok (revision_of (get "revision" d) s) _ _ h₁ in
    (
      d,
      (closed-ok input ("revision" ∷ []) d c).0,
      found ∙ ap (λ (a : Applied). some a.config) (ok-injective (unregistered config) applied h₂),
    )

-- A rollback that was not known and returns has restored the entry of the history that it names.
pub command_rollback :
    (hexdigest : Value → String) (owner : Owner) (now : String) (s : State) (fields : Fields)
    (actor : String) (verified : Option Fields) (account : Value) (receipt : Receipt) (s' : State)
    → retained (get "command_id" fields) s ≡ none
    → get "action" fields ≡ str "routing.rollback"
    → command hexdigest owner now s (obj fields) actor verified account ≡ ok (receipt, s')
    → (d : Fields) × (get "input" fields ≡ obj d)
      × (revision_of (get "revision" d) s ≡ some s'.configuration)
unfolding FreshStep apply_action
command_rollback hexdigest owner now s fields actor verified account receipt s' fresh action h =
    let (key, k, n, step) =
      Accepted-FreshStep hexdigest owner s fields actor verified receipt s' fresh
        (command-Accepted hexdigest owner now actor verified account s (obj fields) receipt s' h) in
    let (d, e, found) =
      roll_back-restores s (get "input" fields) step.applied (rw action at step.acted) in
    (d, e, found ∙ ap some (sym step.configured))
