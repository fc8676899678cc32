-- ===== src/Program/Ends.antt =====
-- What holds of the world and the value when a program returns.
use mathlib.Core.Path.{subst}
use platform_engineering.Prelude.{◌≡◌, refl, ap}
use platform_engineering.Result.{Result, ok, err, Error, ok-injective}
use platform_engineering.Program.{Call, lift, follow, ◌>>=◌, ◌>>◌}

pub record Ends {World : Type 0} {A : Type 0} (Q : World → A → Type 0) (m : Call World A)
    : Type 0 where
  pub ends : (w w' : World) (a : A) → m w ≡ (w', ok a) → Q w' a

module _ {World : Type 0} {B : Type 0} where
  not_returned :
      (w w' : World) (e : Error) (b : B) → ◌≡◌ {A = World × Result B} (w, err e) (w', ok b) → ⊥
  not_returned w w' e b h = cc

module _ {World : Type 0} {B : Type 0} (Q : World → B → Type 0) where
  followed :
      {A : Type 0} (f : A → Call World B) (r : World × Result A)
      → ((a : A) → Ends Q (f a))
      → (w' : World) (b : B) → follow f r ≡ (w', ok b)
      → Q w' b
  followed f (w, ok a) h w' b e = (h a).ends w w' b e
  followed f (w, err x) h w' b e = absurd (not_returned w w' x b e)

  pub bind-Ends :
      {A : Type 0} (m : Call World A) {f : A → Call World B}
      → ((a : A) → Ends Q (f a))
      → Ends Q (m >>= f)
  unfolding ◌>>=◌
  bind-Ends m {f = f} h = record { ends = λ w w' b e. followed f (m w) h w' b e }

  pub then-Ends : (m : Call World (Unit {0})) {k : Call World B} → Ends Q k → Ends Q (m >> k)
  unfolding ◌>>◌
  then-Ends m {k = k} h = record { ends = λ w w' b e. followed (λ done. k) (m w) (λ a. h) w' b e }

  -- After a pure part, what it has returned is known.
  pub lift-Ends :
      {A : Type 0} (r : Result A) {f : A → Call World B}
      → ((a : A) → r ≡ ok a → Ends Q (f a))
      → Ends Q (lift r >>= f)
  unfolding ◌>>=◌ lift
  lift-Ends (ok a) h = h a refl
  lift-Ends (err x) h = record { ends = λ w w' b e. absurd (not_returned w w' x b e) }

  -- What holds of what a program has returned
  pub returned-Ends :
      (w w' : World) (a b : B) → ◌≡◌ {A = World × Result B} (w, ok a) (w', ok b) → Q w a → Q w' b
  returned-Ends w w' a b e q =
      subst (λ v. Q v b) (ap (λ p. p.0) e) (subst (Q w) (ok-injective a b (ap (λ p. p.1) e)) q)

module _ {World : Type 0} {B : Type 0} where
  -- The pure part of a program that has returned
  pub lift-returned :
      {A : Type 0} (r : Result A) (f : A → Call World B) (w w' : World) (b : B)
      → (lift r >>= f) w ≡ (w', ok b)
      → (a : A) × (r ≡ ok a) × (f a w ≡ (w', ok b))
  unfolding ◌>>=◌ lift
  lift-returned (ok a) f w w' b h = (a, refl, h)
  lift-returned (err x) f w w' b h = absurd (not_returned w w' x b h)

  pub lift-passed :
      (r : Result (Unit {0})) (k : Call World B) (w w' : World) (b : B)
      → (lift r >> k) w ≡ (w', ok b)
      → (r ≡ ok tt) × (k w ≡ (w', ok b))
  unfolding ◌>>◌ lift
  lift-passed (ok tt) k w w' b h = (refl, h)
  lift-passed (err x) k w w' b h = absurd (not_returned w w' x b h)
