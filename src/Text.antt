-- ===== src/Text.antt =====
-- Python's `str.strip`, slices and `removeprefix`, on texts as sequences of code points.
use Prim.Native.Char.{code}
use platform_engineering.Prelude.{
  ℕ, zero, suc, ◌≡◌, refl, String, Bool, ◌&&◌, ◌||◌, ◌==◌, leb, eqb, if◌then◌else◌,
}
use platform_engineering.Identifier.{after}

-- The characters of `str.isspace`
unfoldable pub is_space : ℕ → Bool
is_space c =
    (leb 9 c && leb c 13)
    || (leb 28 c && leb c 32)
    || eqb c 133
    || eqb c 160
    || eqb c 5760
    || (leb 8192 c && leb c 8202)
    || eqb c 8232
    || eqb c 8233
    || eqb c 8239
    || eqb c 8287
    || eqb c 12288

unfoldable pub strip_start : String → String
unfolding is_space
strip_start String.[] = ""
strip_start (String.◌∷◌ c s) =
    let rest = strip_start s in if is_space (code c) then rest else String.◌∷◌ c s

unfoldable pub strip_end : String → String
unfolding is_space
strip_end String.[] = ""
strip_end (String.◌∷◌ c s) =
    let rest = strip_end s in if is_space (code c) && rest == "" then "" else String.◌∷◌ c rest

-- `s.strip()`
unfoldable pub strip : String → String
unfolding strip_start strip_end
strip s = strip_end (strip_start s)

-- `s[:n]`
unfoldable pub first_chars : ℕ → String → String
first_chars zero s = ""
first_chars (suc n) String.[] = ""
first_chars (suc n) (String.◌∷◌ c s) = String.◌∷◌ c (first_chars n s)

-- `len(s)`
unfoldable pub code_points : String → ℕ
code_points String.[] = 0
code_points (String.◌∷◌ c s) = suc (code_points s)

-- `s.removeprefix(p)`
abbrev pub without_prefix : String → String → String
without_prefix p s = let (found, rest) = after p s in if found then rest else s

strip_sample : strip "  a b " ≡ "a b"
unfolding strip
strip_sample = refl

first_chars_sample : first_chars 2 "abc" ≡ "ab"
unfolding first_chars
first_chars_sample = refl
