-- ===== src/Configuration/Replay.antt =====
-- Lost responses: sending a command of model_configuration.py again meets the
-- guards of the first time, and the states that can follow in between.
use mathlib.Core.Path.{subst}
use platform_engineering.Prelude.{ℕ, ◌≡◌, sym, String, true, not, Option, none, some, ◌==◌}
use platform_engineering.Json.{Value, obj, Fields, get, has_exactly}
use platform_engineering.Result.{ok, >>=-eq-ok, require-eq-ok, or_raise-eq-ok}
use platform_engineering.Configuration.{Owner, Receipt, State, closed, read}
use platform_engineering.Configuration.Commands.{
  command_key, retained, natural, execute, replay, command, command_keys, record_outcome,
}
use platform_engineering.Configuration.Accepted.{closed-ok}

-- What the guards of `command` have read off its input.
pub record IsCommand (fields : Fields) (actor key : String) (expected : ℕ) : Type 0 where
  pub exact : has_exactly command_keys fields ≡ true
  pub named : not (actor == "") ≡ true
  pub identified : command_key (get "command_id" fields) ≡ some key
  pub numbered : natural (get "expected_revision" fields) ≡ ok expected

module _ (hexdigest : Value → String) (owner : Owner) where
  pub command-IsCommand :
      (now : String) (s : State) (fields : Fields) (actor : String) (verified : Option Fields)
      (account : Value) (receipt : Receipt) (s' : State)
      → command hexdigest owner now s (obj fields) actor verified account ≡ ok (receipt, s')
      → (key : String) × (expected : ℕ) × IsCommand fields actor key expected
  unfolding command
  command-IsCommand now s fields actor verified account receipt s' h =
      let (d, c, h₁) = >>=-eq-ok (closed (obj fields) command_keys) _ h in
      let (named, h₂) = require-eq-ok (not (actor == "")) _ _ h₁ in
      let (key, k, h₃) = or_raise-eq-ok (command_key (get "command_id" d)) _ _ h₂ in
      let (expected, n, h₄) = >>=-eq-ok (natural (get "expected_revision" d)) _ h₃ in
      let (same, exact) = closed-ok (obj fields) command_keys d c in
      (
        key,
        expected,
        subst (λ f. IsCommand f actor key expected) (obj-injective d fields (sym same))
            (record { exact = exact; named = named; identified = k; numbered = n }),
      )
    where
      obj-injective : (a b : Fields) → obj a ≡ obj b → a ≡ b
      obj-injective a b e = cc

  -- With the guards passed, `command` is decided by the receipt that is retained.
  pub command-settled :
      (now : String) (s : State) (fields : Fields) (actor : String) (verified : Option Fields)
      (account : Value) (key : String) (expected : ℕ)
      → IsCommand fields actor key expected
      → read hexdigest s ≡ ok s
      → command hexdigest owner now s (obj fields) actor verified account
        ≡ elim (retained (get "command_id" fields) s) [
          | some previous ↦ replay hexdigest s actor fields previous
          | none ↦ execute hexdigest owner now s fields key actor expected verified account
        ]
  unfolding command
  command-settled now s fields actor verified account key expected c r =
      rw (c.exact, c.named, c.identified, c.numbered, r)

  -- The states that can follow: commands and observations of any kind.
  pub data Later (s : State) : State → Type 0 where
    here : Later s s
    commanded :
        {t : State} {u : State} (now : String) (value : Value) (actor : String)
        (verified : Option Fields) (account : Value) (receipt : Receipt)
        → Later s t
        → command hexdigest owner now t value actor verified account ≡ ok (receipt, u)
        → Later s u
    observed :
        {t : State} {u : State} (now : String) (model : Fields) (code reference : String)
        (account : Value)
        → Later s t
        → record_outcome hexdigest owner now t model code reference account ≡ ok u
        → Later s u
