-- ===== src/Json.antt =====
-- JSON documents as the Python code sees them after `json.loads`: dictionaries with text keys,
-- and Python's comparisons on them. Numbers are integers: the modelled code compares and counts
-- no floating-point number.
pub mod Length
pub mod Equality
use platform_engineering.Prelude.{
  ℕ, zero, suc, ◌≡◌, String, Bool, true, false, not, ◌&&◌, ◌||◌, Option, none, some, List, [], ◌∷◌,
  ◌==◌, eqb, if◌then◌else◌, same_set, is_some,
}

-- `negsuc n` is -(n + 1).
pub data ℤ : Type 0 where
  pos : ℕ → ℤ
  negsuc : ℕ → ℤ

abbrev pub int_eq : ℤ → ℤ → Bool
int_eq (pos m) (pos n) = eqb m n
int_eq (pos m) (negsuc n) = false
int_eq (negsuc m) (pos n) = false
int_eq (negsuc m) (negsuc n) = eqb m n

mutual
  -- What `json.loads` returns
  pub data Value : Type 0 where
    -- `None`, and the flat values
    null : Value
    bool : Bool → Value
    int : ℤ → Value
    str : String → Value
    -- `list` and `dict`
    arr : Items → Value
    obj : Fields → Value

  -- The entries of a `dict`, in their order
  pub data Fields : Type 0 where
    end : Fields
    field : (key : String) → (entry : Value) → (others : Fields) → Fields

  -- The items of a `list`
  pub data Items : Type 0 where
    nil : Items
    cons : (item : Value) → (others : Items) → Items

-- `d.get(k)` with its absence kept apart from a stored `None`.
unfoldable pub find : String → Fields → Option Value
find k end = none
find k (field j v d) = if j == k then some v else find k d

abbrev pub or_null : Option Value → Value
or_null none = null
or_null (some v) = v

-- A text or `None`
abbrev pub optional_text : Option String → Value
optional_text none = null
optional_text (some s) = str s

-- `d.get(k)`
unfoldable pub get : String → Fields → Value
unfolding find
get k d = or_null (find k d)

-- `k in d`
unfoldable pub has : String → Fields → Bool
unfolding find
has k d = is_some (find k d)

-- `list(d)`
unfoldable pub keys : Fields → List String
keys end = []
keys (field k v d) = k ∷ keys d

-- `d if isinstance(d, dict) else {}`
abbrev pub as_fields : Value → Fields
as_fields (obj d) = d
as_fields _ = end

abbrev pub is_dict : Value → Bool
is_dict (obj d) = true
is_dict _ = false

abbrev pub is_str : Value → Bool
is_str (str s) = true
is_str _ = false

-- `v == s` for a text `s`
abbrev pub is_text : Value → String → Bool
is_text (str t) s = t == s
is_text _ s = false

-- `v is True`
abbrev pub is_true : Value → Bool
is_true (bool b) = b
is_true _ = false

abbrev pub is_null : Value → Bool
is_null null = true
is_null _ = false

-- `bool(v)`
abbrev pub truthy : Value → Bool
truthy null = false
truthy (bool b) = b
truthy (int n) = not (int_eq n (pos 0))
truthy (str s) = not (s == "")
truthy (arr nil) = false
truthy (arr (cons x xs)) = true
truthy (obj end) = false
truthy (obj (field k v d)) = true

-- A number as `==` and `<` see it: `True` is 1.
abbrev pub number : Value → Option ℤ
number (bool true) = some (pos 1)
number (bool false) = some (pos 0)
number (int n) = some n
number _ = none

abbrev pub number_eq : Option ℤ → Option ℤ → Bool
number_eq (some m) (some n) = int_eq m n
number_eq _ _ = false

abbrev pub count_items : Items → ℕ
count_items nil = 0
count_items (cons x xs) = suc (count_items xs)

abbrev pub count_fields : Fields → ℕ
count_fields end = 0
count_fields (field k v d) = suc (count_fields d)

-- `a == b`; the order of the keys of a dictionary does not matter.
unfoldable mutual
  pub value_eq : Value → Value → Bool
  value_eq null v = is_null v
  value_eq (bool b) v = number_eq (number (bool b)) (number v)
  value_eq (int n) v = number_eq (some n) (number v)
  value_eq (str s) v = is_text v s
  value_eq (arr xs) (arr ys) = items_eq xs ys
  value_eq (arr xs) _ = false
  value_eq (obj d) (obj e) = eqb (count_fields d) (count_fields e) && fields_eq d e
  value_eq (obj d) _ = false

  pub items_eq : Items → Items → Bool
  items_eq nil nil = true
  items_eq nil (cons y ys) = false
  items_eq (cons x xs) nil = false
  items_eq (cons x xs) (cons y ys) = value_eq x y && items_eq xs ys

  -- Every field of the first is in the second, with an equal value.
  pub fields_eq : Fields → Fields → Bool
  fields_eq end e = true
  fields_eq (field k v d) e =
      elim (find k e) [ none ↦ false | some w ↦ value_eq v w ] && fields_eq d e

-- `v in xs`
unfoldable pub mem_items : Value → Items → Bool
mem_items v nil = false
mem_items v (cons x xs) = value_eq v x || mem_items v xs

-- `v in xs` for a list of texts
unfoldable pub mem_texts : Value → List String → Bool
mem_texts v [] = false
mem_texts v (x ∷ xs) = is_text v x || mem_texts v xs

-- `set(d) == set(names)`
abbrev pub has_exactly : List String → Fields → Bool
has_exactly names d = same_set (keys d) names
