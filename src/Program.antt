-- ===== src/Program.antt =====
-- Programs that change a world and may raise: what was changed before an error stays changed.
pub mod Keeps
pub mod Ends
use platform_engineering.Prelude.{◌≡◌, Bool, true, false}
use platform_engineering.Result.{Result, ok, err, Error}

abbrev pub Call {ℓ κ} : Type ℓ → Type κ → Type (ℓ ⊔ κ)
Call World A = World → World × Result A

module _ {ℓ} {World : Type ℓ} where
  unfoldable pub returning {κ} : {A : Type κ} → A → Call World A
  returning a w = (w, ok a)

  unfoldable pub lift {κ} : {A : Type κ} → Result A → Call World A
  lift r w = (w, r)

  unfoldable pub raise {κ} : {A : Type κ} → Error → Call World A
  raise e w = (w, err e)

  -- `if not test: raise error`
  unfoldable pub check : Bool → Error → Call World (Unit {0})
  check true e w = (w, ok tt)
  check false e w = (w, err e)

  -- What follows a call, in the world that the call leaves
  abbrev pub follow {κ μ} :
      {A : Type κ} {B : Type μ} → (A → Call World B) → World × Result A → World × Result B
  follow rest (w, err raised) = (w, err raised)
  follow rest (w, ok value) = rest value w

  infixl 5 ◌>>=◌
  unfoldable pub ◌>>=◌ {κ μ} :
      {A : Type κ} {B : Type μ} → Call World A → (A → Call World B) → Call World B
  ◌>>=◌ call rest w = follow rest (call w)

  infixl 5 ◌>>◌
  unfoldable pub ◌>>◌ {μ} : {B : Type μ} → Call World (Unit {0}) → Call World B → Call World B
  ◌>>◌ call rest w = follow (λ done. rest) (call w)

  -- The world itself
  unfoldable pub world : Call World World
  world w = (w, ok w)
