-- ===== src/Prelude/Sets.antt =====
-- Lists of texts as sets: what each name of a list satisfies, and what sorting and
-- `dict.fromkeys` keep.
use mathlib.Core.Path.{◌≡◌, refl}
use mathlib.Core.Bool.{true, false, ◌||◌}
use mathlib.Core.List.{List, [], ◌∷◌}
use mathlib.Core.Logic.{inl, inr}
use native.Mathlib.Omega.{arith}
use Prim.Native.String.{String}
use text.Mathlib.Text.{◌==◌}
use text.Mathlib.TextEquality.{eq_iff}
use mathlib.Core.Path.{subst, sym}
use platform_engineering.Prelude.Tests.{Bool-cases}
use platform_engineering.Prelude.Lists.{
  contains, sorted, insert_sorted, from_keys, from_keys_after, is_empty,
}

-- Every name of the list satisfies the predicate.
abbrev pub Each {ℓ} : (String → Type ℓ) → List String → Type ℓ
Each P [] = Unit
Each P (x ∷ xs) = P x × Each P xs

pub Each-at {ℓ} :
    (P : String → Type ℓ) (xs : List String) (s : String) → contains s xs ≡ true → Each P xs → P s
Each-at P [] s m h = ground arith
Each-at P (x ∷ xs) s m h = elim (Bool-cases (s == x)) [
  | inl e ↦ subst P (sym ((eq_iff s x).0 e)) h.0
  | inr e ↦ Each-at P xs s (rw e at m) h.1
]

is_empty-insert_sorted : (s : String) (xs : List String) → is_empty (insert_sorted s xs) ≡ false
unfolding insert_sorted
is_empty-insert_sorted s [] = refl
is_empty-insert_sorted s (x ∷ xs) = ground arith

pub is_empty-sorted : (xs : List String) → is_empty (sorted xs) ≡ is_empty xs
unfolding sorted
is_empty-sorted [] = refl
is_empty-sorted (x ∷ xs) = is_empty-insert_sorted x (sorted xs)

contains-from_keys_after :
    (s : String) (seen xs : List String)
    → contains s xs ≡ true
    → (contains s seen || contains s (from_keys_after seen xs)) ≡ true
unfolding from_keys_after
contains-from_keys_after s seen [] h = ground arith
contains-from_keys_after s seen (x ∷ xs) h = ground (
  arith,
  contains-from_keys_after s seen xs,
  contains-from_keys_after s (x ∷ seen) xs,
  eq_iff s x,
)

pub contains-from_keys :
    (s : String) (xs : List String) → contains s xs ≡ true → contains s (from_keys xs) ≡ true
unfolding from_keys
contains-from_keys s xs h = contains-from_keys_after s [] xs h
