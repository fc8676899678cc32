-- ===== src/Configuration/Accepted.antt =====
-- How `ModelConfiguration.command` (model_configuration.py) can return: an old receipt, or a step.
use mathlib.Core.Path.{subst}
use platform_engineering.Prelude.{
  ℕ, ◌≡◌, refl, sym, ap, ◌∙◌, String, true, not, Option, none, some, List, ◌==◌, eq_iff, arith,
  Bool-cases, inl, inr,
}
use platform_engineering.Json.{Value, null, bool, str, int, arr, obj, Fields, get, has_exactly}
use platform_engineering.Result.{
  ok, err, configuration, >>=-eq-ok, require-eq-ok, or_raise-eq-ok, ok-injective,
}
use platform_engineering.Configuration.{Owner, Receipt, State, closed, read, fingerprint}
use platform_engineering.Configuration.Commands.{
  command_key, retained, natural, execute, replay, command, command_keys,
}
use platform_engineering.Configuration.Step.{Advances, execute-Advances}

pub closed-ok :
    (value : Value) (names : List String) (d : Fields)
    → closed value names ≡ ok d
    → (value ≡ obj d) × (has_exactly names d ≡ true)
closed-ok (obj e) names d h = elim (Bool-cases (has_exactly names e)) [
  | inl t ↦
      let same = ok-injective e d (rw t at h) in
      (ap obj same, subst (λ x. has_exactly names x ≡ true) same t)
  | inr f ↦ absurd (no_error (rw f at h))
]
  where
    no_error : {d' : Fields} → err (configuration "invalid-command") ≡ ok d' → ⊥
    no_error p = cc
closed-ok null names d h = cc
closed-ok (bool b) names d h = cc
closed-ok (int n) names d h = cc
closed-ok (str s) names d h = cc
closed-ok (arr xs) names d h = cc

pub read-ok : (hexdigest : Value → String) (s c : State) → read hexdigest s ≡ ok c → s ≡ c
unfolding read
read-ok hexdigest s c h = ground arith

-- The result of an accepted command: the receipt that was there, with the state as it was, or a
-- new receipt, with the state one revision on.
pub data Accepted (hexdigest : Value → String) (owner : Owner) (s : State) (value : Value)
    (actor : String) (verified : Option Fields) (receipt : Receipt) (s' : State) : Type 0 where
  replayed :
      (fields : Fields)
      → value ≡ obj fields
      → retained (get "command_id" fields) s ≡ some receipt
      → receipt.command_digest ≡ fingerprint hexdigest actor value
      → s' ≡ s
      → Accepted hexdigest owner s value actor verified receipt s'
  advanced :
      (fields : Fields) (key : String)
      → value ≡ obj fields
      → retained (get "command_id" fields) s ≡ none
      → command_key (get "command_id" fields) ≡ some key
      → natural (get "expected_revision" fields) ≡ ok s.revision
      → Advances hexdigest owner s fields key actor verified receipt s'
      → Accepted hexdigest owner s value actor verified receipt s'

replay-ok :
    (hexdigest : Value → String) (s : State) (actor : String) (fields : Fields)
    (previous receipt : Receipt) (s' : State)
    → replay hexdigest s actor fields previous ≡ ok (receipt, s')
    → (previous.command_digest ≡ fingerprint hexdigest actor (obj fields))
      × (previous ≡ receipt)
      × (s' ≡ s)
replay-ok hexdigest s actor fields previous receipt s' h =
    ground (arith, eq_iff previous.command_digest (fingerprint hexdigest actor (obj fields)))

module _ (hexdigest : Value → String) (owner : Owner) (now : String) (actor : String)
    (verified : Option Fields) (account : Value) where
  -- The last part of `command`, on the state that was read
  settled :
      (s : State) (fields : Fields) (key : String) (expected : ℕ) (o : Option Receipt)
      (receipt : Receipt) (s' : State)
      → retained (get "command_id" fields) s ≡ o
      → command_key (get "command_id" fields) ≡ some key
      → natural (get "expected_revision" fields) ≡ ok expected
      → elim o [
        | some previous ↦ replay hexdigest s actor fields previous
        | none ↦ execute hexdigest owner now s fields key actor expected verified account
      ]
        ≡ ok (receipt, s')
      → Accepted hexdigest owner s (obj fields) actor verified receipt s'
  settled s fields key expected (some previous) receipt s' r k n h =
      let (digests, same, state) = replay-ok hexdigest s actor fields previous receipt s' h in
      replayed fields refl (r ∙ ap some same)
        (subst (λ (p : Receipt). p.command_digest ≡ fingerprint hexdigest actor (obj fields)) same
          digests)
        state
  settled s fields key expected none receipt s' r k n h =
      let (current, step) =
        execute-Advances hexdigest owner now s fields key actor verified account expected receipt s'
          h in
      advanced fields key refl r k (n ∙ ap ok (sym current)) step

  pub command-Accepted :
      (s : State) (value : Value) (receipt : Receipt) (s' : State)
      → command hexdigest owner now s value actor verified account ≡ ok (receipt, s')
      → Accepted hexdigest owner s value actor verified receipt s'
  unfolding command
  command-Accepted s value receipt s' h =
      let (fields, c, h₁) = >>=-eq-ok (closed value command_keys) _ h in
      let (named, h₂) = require-eq-ok (not (actor == "")) _ _ h₁ in
      let (key, k, h₃) = or_raise-eq-ok (command_key (get "command_id" fields)) _ _ h₂ in
      let (expected, n, h₄) = >>=-eq-ok (natural (get "expected_revision" fields)) _ h₃ in
      let (current, r, h₅) = >>=-eq-ok (read hexdigest s) _ h₄ in
      let same = read-ok hexdigest s current r in
      subst (λ t. Accepted hexdigest owner t value actor verified receipt s') (sym same)
        (subst (λ v. Accepted hexdigest owner current v actor verified receipt s')
          (sym (closed-ok value command_keys fields c).0)
          (settled current fields key expected (retained (get "command_id" fields) current) receipt
            s' refl k n h₅))
