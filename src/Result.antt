-- ===== src/Result.antt =====
-- Calls that may raise, as values: a `ConfigurationError` with its code
-- (dev-integration/profiles/governed-ai-gateway/runtime/model_configuration.py), the provider
-- errors of ollama_adapter.py, or an error of Python itself.
use platform_engineering.Prelude.{
  ◌≡◌, refl, String, Bool, true, false, if◌then◌else◌, Option, none, some, List, [], ◌∷◌,
}

pub data Error : Type 0 where
  -- `ConfigurationError(code, …)`
  configuration : String → Error
  provider_unavailable provider_busy provider_integrity : Error
  -- `OutputSchemaError`, and the other errors of values
  output_schema value_error : Error
  -- `ModelProfileResolutionError`
  resolution : Error
  type_error key_error : Error

pub data Result {ℓ} (A : Type ℓ) : Type ℓ where
  -- The error that was raised
  err : Error → Result A
  -- The value that was returned
  ok : A → Result A

infixl 5 ◌>>=◌
-- The rest of a body is run with the value, unless there was an error.
abbrev pub ◌>>=◌ {a b} :
    {From : Type a} {To : Type b} → Result From → (From → Result To) → Result To
err raised >>= rest = err raised
ok value >>= rest = rest value

infixl 5 ◌>>◌
-- After a statement without a value
abbrev pub ◌>>◌ {b} : {To : Type b} → Result (Unit {0}) → Result To → Result To
statement >> rest = statement >>= λ done. rest

-- `if not test: raise error`
abbrev pub require : Bool → Error → Result (Unit {0})
require true e = ok tt
require false e = err e

abbrev pub or_raise {ℓ} : {A : Type ℓ} → Option A → Error → Result A
or_raise none e = err e
or_raise (some a) e = ok a

err_not_ok {ℓ} : {A : Type ℓ} {e : Error} {a : A} → ◌≡◌ {A = Result A} (err e) (ok a) → ⊥
err_not_ok h = cc

-- A body that returns has had a value from its first call.
pub >>=-eq-ok {a b} :
    {From : Type a} {To : Type b} (call : Result From) (rest : From → Result To) {returned : To}
    → (call >>= rest) ≡ ok returned
    → (value : From) × (call ≡ ok value) × (rest value ≡ ok returned)
>>=-eq-ok (err raised) rest e = cc
>>=-eq-ok (ok value) rest e = (value, refl, e)

pub ok-injective {ℓ} : {A : Type ℓ} (a b : A) → ok a ≡ ok b → a ≡ b
ok-injective a b h = cc

pub require-eq-ok {ℓ} :
    {B : Type ℓ} (t : Bool) (e : Error) (k : Result B) {b : B}
    → (require t e >> k) ≡ ok b
    → (t ≡ true) × (k ≡ ok b)
require-eq-ok true e k h = (refl, h)
require-eq-ok false e k h = cc

pub or_raise-eq-ok {ℓ κ} :
    {A : Type ℓ} {B : Type κ} (o : Option A) (e : Error) (f : A → Result B) {b : B}
    → (or_raise o e >>= f) ≡ ok b
    → (a : A) × (o ≡ some a) × (f a ≡ ok b)
or_raise-eq-ok none e f h = cc
or_raise-eq-ok (some a) e f h = (a, refl, h)

-- `for x in xs: f(x)`, where `f` may raise
unfoldable pub for_each {ℓ} : {A : Type ℓ} → (A → Result (Unit {0})) → List A → Result (Unit {0})
for_each f [] = ok tt
for_each f (x ∷ xs) = f x >> for_each f xs

-- A predicate at each item of a list
abbrev pub Every {ℓ κ} : {A : Type ℓ} → (A → Type κ) → List A → Type κ
Every P [] = Unit
Every P (x ∷ xs) = P x × Every P xs

pub Unit-ok : (m : Result (Unit {0})) (u : Unit {0}) → m ≡ ok u → m ≡ ok tt
Unit-ok m tt h = h

pub for_each-ok {ℓ} :
    {A : Type ℓ} (f : A → Result (Unit {0})) (xs : List A)
    → for_each f xs ≡ ok tt
    → Every (λ x. f x ≡ ok tt) xs
unfolding for_each
for_each-ok f [] h = tt
for_each-ok f (x ∷ xs) h =
    let (u, first, rest) = >>=-eq-ok (f x) (λ _. for_each f xs) h in
    (Unit-ok (f x) u first, for_each-ok f xs rest)

-- `if t: return value` before a `raise`
pub if-eq-ok {ℓ} :
    {A : Type ℓ} (t : Bool) (a : A) (e : Error) {b : A}
    → (if t then ok a else err e) ≡ ok b
    → (t ≡ true) × (a ≡ b)
if-eq-ok true a e {b} h = (refl, ok-injective a b h)
if-eq-ok false a e h = cc

-- What follows from a body that has returned, for any value that its first call may have had
pub >>=-returned {a b κ} :
    {From : Type a} {To : Type b} {P : Type κ} (call : Result From) (rest : From → Result To)
    {returned : To}
    → (call >>= rest) ≡ ok returned
    → ((value : From) → call ≡ ok value → rest value ≡ ok returned → P)
    → P
>>=-returned (err raised) rest e k = absurd (err_not_ok e)
>>=-returned (ok value) rest e k = k value refl e
