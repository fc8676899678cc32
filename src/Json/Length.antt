-- ===== src/Json/Length.antt =====
-- `len(json.dumps(v, separators=(",", ":")).encode())`, the number of bytes of the compact JSON
-- text with `ensure_ascii`, as gateway_policy.py counts the bytes of a request. Sorting the keys
-- does not change it.
use Prim.Native.Char.{code}
use platform_engineering.Prelude.{
  ℕ, zero, suc, ◌+◌, ◌/◌, String, true, false, ◌&&◌, ◌||◌, ltb, leb, eqb, if◌then◌else◌, ◌≡◌, refl,
}
use platform_engineering.Json.{
  ℤ, pos, negsuc, Value, null, bool, int, str, arr, obj, Items, nil, cons, Fields, end, field,
}

-- The digits of `n` in decimal; a fuel above `n` is enough.
unfoldable pub digits_on : ℕ → ℕ → ℕ
digits_on zero n = 1
digits_on (suc fuel) n = let more = digits_on fuel (n / 10) in if ltb n 10 then 1 else suc more

unfoldable pub decimal_length : ℕ → ℕ
unfolding digits_on
decimal_length n = digits_on (suc n) n

-- One code point: `\n` and its like take two bytes, what is outside ` ` to `~` takes `\uXXXX`,
-- and what is past the basic plane takes two of those.
unfoldable pub char_length : ℕ → ℕ
char_length c =
    if eqb c 34 || eqb c 92 || eqb c 8 || eqb c 9 || eqb c 10 || eqb c 12 || eqb c 13
    then 2
    else if leb 32 c && leb c 126
    then 1
    else if ltb c 65536
    then 6
    else 12

unfoldable pub chars_length : String → ℕ
unfolding char_length
chars_length String.[] = 0
chars_length (String.◌∷◌ c s) = char_length (code c) + chars_length s

abbrev text_length : String → ℕ
unfolding chars_length
text_length s = 2 + chars_length s

abbrev int_length : ℤ → ℕ
unfolding decimal_length
int_length (pos n) = decimal_length n
int_length (negsuc n) = 1 + decimal_length (suc n)

unfoldable mutual
  unfolding text_length int_length

  pub encoded_length : Value → ℕ
  encoded_length null = 4
  encoded_length (bool true) = 4
  encoded_length (bool false) = 5
  encoded_length (int n) = int_length n
  encoded_length (str s) = text_length s
  encoded_length (arr nil) = 2
  encoded_length (arr (cons x xs)) = 1 + encoded_items (cons x xs)
  encoded_length (obj end) = 2
  encoded_length (obj (field k v d)) = 1 + encoded_fields (field k v d)

  -- Each item with the comma or the bracket behind it.
  pub encoded_items : Items → ℕ
  encoded_items nil = 0
  encoded_items (cons x xs) = encoded_length x + 1 + encoded_items xs

  pub encoded_fields : Fields → ℕ
  encoded_fields end = 0
  encoded_fields (field k v d) = text_length k + 1 + encoded_length v + 1 + encoded_fields d

encoded_length_sample :
    encoded_length (
      obj
        (field "a\"b" (arr (cons (int (pos 120)) (cons null nil))) (field "" (int (negsuc 0)) end)))
    ≡ 25
unfolding encoded_length
encoded_length_sample = refl
