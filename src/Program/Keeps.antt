-- ===== src/Program/Keeps.antt =====
-- A property of the world that a program keeps on every exit, and what its result satisfies.
use platform_engineering.Prelude.{◌≡◌, refl, Bool, true, false, if◌then◌else◌}
use platform_engineering.Result.{Result, ok, err, Error}
use platform_engineering.Program.{Call, returning, lift, raise, check, world, follow, ◌>>=◌, ◌>>◌}

abbrev pub OnOk {κ} : {A : Type κ} → (A → Type 0) → Result A → Type 0
OnOk Q (ok a) = Q a
OnOk Q (err e) = Unit

-- The world keeps `P`, also if there is an error; a value that is returned has `Q`.
pub record Keeps {κ} {World : Type 0} (P : World → Type 0) {A : Type κ} (Q : A → Type 0)
    (m : Call World A) : Type 0 where
  pub keeps : (w : World) → P w → P (m w).0 × OnOk Q (m w).1

module _ {World : Type 0} (P : World → Type 0) where
  followed {κ μ} :
      {A : Type κ} {B : Type μ} (Q : A → Type 0) (R : B → Type 0) (f : A → Call World B)
      → ((a : A) → Q a → Keeps P R (f a))
      → (r : World × Result A) → P r.0
      → OnOk Q r.1
      → P (follow f r).0 × OnOk R (follow f r).1
  followed Q R f h (w, ok a) p q = (h a q).keeps w p
  followed Q R f h (w, err e) p q = (p, tt)

  pub bind-Keeps {κ μ} :
      {A : Type κ} {B : Type μ} {R : B → Type 0} (Q : A → Type 0) {m : Call World A}
      {f : A → Call World B}
      → Keeps P Q m
      → ((a : A) → Q a → Keeps P R (f a))
      → Keeps P R (m >>= f)
  unfolding ◌>>=◌
  bind-Keeps {R = R} Q {m = m} {f = f} h k = record {
    keeps = λ w p. let (p', q) = h.keeps w p in followed Q R f k (m w) p' q;
  }

  pub then-Keeps {μ} :
      {B : Type μ} {R : B → Type 0} {m : Call World (Unit {0})} {k : Call World B}
      → Keeps P (λ done. Unit) m
      → Keeps P R k
      → Keeps P R (m >> k)
  unfolding ◌>>◌
  then-Keeps {R = R} {m = m} {k = k} h g = record {
    keeps = λ w p.
        let (p', q) = h.keeps w p in followed (λ done. Unit) R (λ done. k) (λ a q. g) (m w) p' q;
  }

  -- A test, after which its outcome is known
  pub tested-Keeps {μ} :
      {B : Type μ} {R : B → Type 0} {k : Call World B} (t : Bool) (e : Error)
      → (t ≡ true → Keeps P R k)
      → Keeps P R (check t e >> k)
  unfolding ◌>>◌ check
  tested-Keeps true e g = g refl
  tested-Keeps false e g = record { keeps = λ w p. (p, tt) }

  pub check-Keeps : (t : Bool) (e : Error) → Keeps P (λ done. Unit) (check t e)
  unfolding check
  check-Keeps true e = record { keeps = λ w p. (p, tt) }
  check-Keeps false e = record { keeps = λ w p. (p, tt) }

  -- What a pure part returns
  pub lift-Keeps : {A : Type 0} (r : Result A) → Keeps P (λ a. r ≡ ok a) (lift r)
  unfolding lift
  lift-Keeps (ok a) = record { keeps = λ w p. (p, refl) }
  lift-Keeps (err e) = record { keeps = λ w p. (p, tt) }

  pub lift-any : {A : Type 0} (r : Result A) → Keeps P (λ a. Unit) (lift r)
  unfolding lift
  lift-any (ok a) = record { keeps = λ w p. (p, tt) }
  lift-any (err e) = record { keeps = λ w p. (p, tt) }

  pub returning-Keeps {κ} : {A : Type κ} (a : A) → Keeps P (λ a. Unit) (returning a)
  unfolding returning
  returning-Keeps a = record { keeps = λ w p. (p, tt) }

  pub raise-Keeps {κ} : {A : Type κ} {Q : A → Type 0} (e : Error) → Keeps P Q (raise e)
  unfolding raise
  raise-Keeps e = record { keeps = λ w p. (p, tt) }

  pub if-Keeps {κ} :
      {A : Type κ} {Q : A → Type 0} (t : Bool) {m k : Call World A}
      → Keeps P Q m
      → Keeps P Q k
      → Keeps P Q (if t then m else k)
  if-Keeps true h g = h
  if-Keeps false h g = g

  pub world-Keeps : Keeps P P world
  unfolding world
  world-Keeps = record { keeps = λ w p. (p, p) }

  pub returned-Keeps {κ} : {A : Type κ} (Q : A → Type 0) (a : A) → Q a → Keeps P Q (returning a)
  unfolding returning
  returned-Keeps Q a q = record { keeps = λ w p. (p, q) }
