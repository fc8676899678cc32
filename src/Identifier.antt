-- ===== src/Identifier.antt =====
-- The texts that the gateway accepts as identities: `re.fullmatch` on the patterns of
-- model_configuration.py and provider_connections.py
-- (dev-integration/profiles/governed-ai-gateway/runtime).
use Prim.Native.Char.{code}
use Prim.Native.String
use platform_engineering.Prelude.{
  ℕ, zero, suc, ◌-◌, ◌/◌, ◌%◌, ◌≡◌, refl, String, Bool, true, false, ◌&&◌, ◌||◌, leb, ltb, eqb,
  if◌then◌else◌,
}

abbrev between : ℕ → ℕ → ℕ → Bool
between lo hi c = leb lo c && leb c hi

-- `[A-Za-z0-9]`
unfoldable pub is_alphanumeric : ℕ → Bool
is_alphanumeric c = between 65 90 c || between 97 122 c || between 48 57 c

-- `[A-Za-z0-9._:/@+-]`
unfoldable pub is_identifier_char : ℕ → Bool
unfolding is_alphanumeric
is_identifier_char c =
    is_alphanumeric c
    || eqb c b'.'
    || eqb c b'_'
    || eqb c b':'
    || eqb c b'/'
    || eqb c b'@'
    || eqb c b'+'
    || eqb c b'-'

-- `[0-9a-f]`
unfoldable pub is_hex : ℕ → Bool
is_hex c = between 48 57 c || between 97 102 c

-- Every character passes the test, and there are between `lo` and `hi`.
unfoldable pub all_chars : (ℕ → Bool) → ℕ → ℕ → String → Bool
all_chars p lo hi String.[] = leb lo 0
all_chars p lo zero (String.◌∷◌ c s) = false
all_chars p lo (suc hi) (String.◌∷◌ c s) = p (code c) && all_chars p (lo - 1) hi s

-- `[A-Za-z0-9][A-Za-z0-9._:/@+-]{0,199}`
unfoldable pub is_identifier : String → Bool
unfolding all_chars is_identifier_char is_alphanumeric
is_identifier String.[] = false
is_identifier (String.◌∷◌ c s) = is_alphanumeric (code c) && all_chars is_identifier_char 0 199 s

-- What is behind the prefix, if the text begins with it.
unfoldable pub after : String → String → Bool × String
after String.[] s = (true, s)
after (String.◌∷◌ p q) String.[] = (false, "")
after (String.◌∷◌ p q) (String.◌∷◌ c s) = if eqb (code p) (code c) then after q s else (false, "")

-- `sha256:[0-9a-f]{64}`
unfoldable pub is_digest : String → Bool
unfolding after all_chars is_hex
is_digest s = let (found, rest) = after "sha256:" s in found && all_chars is_hex 64 64 rest

-- `api-[a-f0-9]{32}`
unfoldable pub is_connection_id : String → Bool
unfolding after all_chars is_hex
is_connection_id s = let (found, rest) = after "api-" s in found && all_chars is_hex 32 32 rest

-- One decimal digit as a text
digit : ℕ → String
digit d =
    if eqb d 0
    then "0"
    else if eqb d 1
    then "1"
    else if eqb d 2
    then "2"
    else if eqb d 3
    then "3"
    else if eqb d 4
    then "4"
    else if eqb d 5
    then "5"
    else if eqb d 6
    then "6"
    else if eqb d 7
    then "7"
    else if eqb d 8
    then "8"
    else "9"

show_on : ℕ → ℕ → String → String
unfolding digit
show_on zero n s = s
show_on (suc fuel) n s =
    let t = String.◌++◌ (digit (n % 10)) s in
    let more = show_on fuel (n / 10) t in if ltb n 10 then t else more

-- `str(n)`; a fuel above `n` is enough.
unfoldable pub show : ℕ → String
unfolding show_on
show n = show_on (suc n) n ""

show_sample : show 2048 ≡ "2048"
unfolding show
show_sample = refl

identifier_samples :
    (is_identifier "cmd-1:a/b" ≡ true)
    × (is_identifier "-x" ≡ false)
    × (is_identifier "a b" ≡ false)
unfolding is_identifier
identifier_samples = (refl, refl, refl)

connection_id_samples :
    (is_connection_id "api-0123456789abcdef0123456789abcdef" ≡ true)
    × (is_connection_id "api-0123" ≡ false)
unfolding is_connection_id
connection_id_samples = (refl, refl)
