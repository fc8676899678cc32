-- ===== src/Schema.antt =====
-- dev-integration/profiles/governed-ai-gateway/runtime/strict_output_schema.py: the subset of JSON
-- schema that is admitted for a provider's output, and the validation of an output against it.
-- `parse` is Python's `int` on a text.
pub mod Conforms
mod Tests
use Prim.Native.String
use platform_engineering.Prelude.{
  ℕ, zero, suc, ◌≡◌, String, Bool, true, false, not, ◌&&◌, ◌||◌, Option, none, some, List, [], ◌∷◌,
  ◌==◌, ltb, if◌then◌else◌, all, any, contains, is_empty, length, is_some,
}
use platform_engineering.Text.{code_points}
use platform_engineering.Json.{
  ℤ, pos, negsuc, Value, null, bool, int, str, arr, obj, Items, nil, cons, Fields, end, field, find,
  get, has, keys, as_fields, count_items, value_eq, mem_items,
}
use platform_engineering.Result.{
  Result, ok, err, Error, output_schema, value_error, type_error, key_error, ◌>>=◌, ◌>>◌, require,
  or_raise,
}

abbrev pub supported_keys : List String
supported_keys =
    "$id" ∷ "$schema" ∷ "description" ∷ "title" ∷ "additionalProperties" ∷ "const" ∷ "enum"
    ∷ "items" ∷ "maxItems" ∷ "maxLength" ∷ "minItems" ∷ "minLength" ∷ "properties" ∷ "required"
    ∷ "type" ∷ []

-- `_matches_type`
unfoldable pub matches_type : Value → String → Bool
matches_type null expected = expected == "null"
matches_type (bool b) expected = expected == "boolean"
matches_type (int n) expected = expected == "integer" || expected == "number"
matches_type (str s) expected = expected == "string"
matches_type (arr xs) expected = expected == "array"
matches_type (obj d) expected = expected == "object"

abbrev pub is_false : Value → Bool
is_false (bool b) = not b
is_false _ = false

-- The items, if each is a text
unfoldable pub texts_of : Items → Option (List String)
texts_of nil = some []
texts_of (cons (str s) xs) = elim (texts_of xs) [ none ↦ none | some r ↦ some (s ∷ r) ]
texts_of (cons _ xs) = none

abbrev filled : List String → Option (List String)
filled xs = if not (is_empty xs) && all (λ s. not (s == "")) xs then some xs else none

-- `expected_types`: at least one name, and none is empty
unfoldable pub types_of : Value → Option (List String)
unfolding texts_of
types_of (str s) = filled (s ∷ [])
types_of (arr xs) = elim (texts_of xs) [ none ↦ none | some r ↦ filled r ]
types_of _ = none

-- `schema.get("required", [])`, if it is a list of texts
unfoldable pub required_of : Fields → Option (List String)
unfolding texts_of find
required_of schema = elim (find "required" schema) [
  | none ↦ some []
  | some (arr xs) ↦ texts_of xs
  | some _ ↦ none
]

-- What an object's schema has to name, but for its children
unfoldable pub object_shape : Fields → Result (Unit {0})
object_shape schema = elim (get "properties" schema) [
  | obj properties ↦ do
    require (is_false (get "additionalProperties" schema)) output_schema
    required ← or_raise (required_of schema) output_schema
    require (all (λ name. has name properties) required) output_schema
  | _ ↦ err output_schema
]

-- `validate_supported_schema`; the children are reached through the schema's own fields.
unfoldable mutual
  pub validate_supported_schema : Value → Result (Unit {0})
  validate_supported_schema (obj schema) = do
    require (all (λ k. contains k supported_keys) (keys schema)) output_schema
    types ← or_raise (types_of (get "type" schema)) output_schema
    if contains "object" types then object_shape schema >> properties_at schema else ok tt
    if contains "array" types then items_at schema else ok tt
  validate_supported_schema _ = err output_schema

  -- The children of `schema["properties"]`
  pub properties_at : Fields → Result (Unit {0})
  properties_at end = err output_schema
  properties_at (field k v d) =
      let here = properties_in v in
      let rest = properties_at d in if k == "properties" then here else rest

  pub properties_in : Value → Result (Unit {0})
  properties_in (obj properties) = each_supported properties
  properties_in _ = err output_schema

  pub each_supported : Fields → Result (Unit {0})
  each_supported end = ok tt
  each_supported (field name child d) = validate_supported_schema child >> each_supported d

  -- `schema.get("items")`
  pub items_at : Fields → Result (Unit {0})
  items_at end = err output_schema
  items_at (field k v d) =
      let here = validate_supported_schema v in
      let rest = items_at d in if k == "items" then here else rest

-- `int(v)`
abbrev pub to_int : (String → Option ℤ) → Value → Result ℤ
to_int parse (int n) = ok n
to_int parse (bool true) = ok (pos 1)
to_int parse (bool false) = ok (pos 0)
to_int parse (str s) = or_raise (parse s) value_error
to_int parse _ = err type_error

abbrev pub below : ℕ → ℤ → Bool
below n (pos m) = ltb n m
below n (negsuc m) = false

abbrev pub above : ℕ → ℤ → Bool
above n (pos m) = ltb m n
above n (negsuc m) = true

-- `size < int(schema.get(least, 0))`, and `most in schema and size > int(schema[most])`
unfoldable pub within : (String → Option ℤ) → (least most : String) → Fields → ℕ → Result (Unit {0})
within parse least most schema size = do
  low ← elim (find least schema) [ none ↦ ok (pos 0) | some v ↦ to_int parse v ]
  require (not (below size low)) output_schema
  elim (find most schema) [
    | none ↦ ok tt
    | some v ↦ do high ← to_int parse v; require (not (above size high)) output_schema
  ]

-- A text is at the head of another.
is_prefix : String → String → Bool
is_prefix String.[] t = true
is_prefix (String.◌∷◌ c s) String.[] = false
is_prefix (String.◌∷◌ c s) (String.◌∷◌ d t) = String.◌∷◌ c "" == String.◌∷◌ d "" && is_prefix s t

-- `s in t` for texts
occurs_in : String → String → Bool
unfolding is_prefix
occurs_in s String.[] = is_prefix s ""
occurs_in s (String.◌∷◌ d t) = is_prefix s (String.◌∷◌ d t) || occurs_in s t

-- `value in schema["enum"]`
unfoldable pub among : Value → Value → Result Bool
unfolding occurs_in
among v (arr xs) = ok (mem_items v xs)
among (str s) (str t) = ok (occurs_in s t)
among (str s) (obj d) = ok (has s d)
among (arr xs) (obj d) = err type_error
among (obj e) (obj d) = err type_error
among v (obj d) = ok false
among v _ = err type_error

-- The type, the constant and the enumeration
unfoldable pub flat_checks : Value → Fields → Result (Unit {0})
flat_checks v schema = do
  type_value ← or_raise (find "type" schema) key_error
  types ← or_raise (types_of type_value) type_error
  require (any (matches_type v) types) output_schema
  require (elim (find "const" schema) [ none ↦ true | some c ↦ value_eq v c ]) output_schema
  elim (find "enum" schema) [
    | none ↦ ok tt
    | some allowed ↦ do admitted ← among v allowed; require admitted output_schema
  ]

-- The required and the unexpected fields of an object
unfoldable pub field_checks : Fields → Fields → Result (Unit {0})
field_checks value schema = do
  required ← or_raise (required_of schema) type_error
  require (all (λ k. has k value) required) output_schema
  let known = all (λ k. has k (as_fields (get "properties" schema))) (keys value)
  require (known || not (is_false (get "additionalProperties" schema))) output_schema

-- `schema["items"]`
abbrev pub items_of : Fields → Result Value
items_of schema = or_raise (find "items" schema) key_error

-- `validate_output`
unfoldable mutual
  pub validate_output : (String → Option ℤ) → Value → Value → Result (Unit {0})
  validate_output parse (obj value) schema = do
    validate_supported_schema schema
    flat_checks (obj value) (as_fields schema)
    field_checks value (as_fields schema)
    validate_members parse value (as_fields (get "properties" (as_fields schema)))
  validate_output parse (arr xs) schema = do
    validate_supported_schema schema
    flat_checks (arr xs) (as_fields schema)
    within parse "minItems" "maxItems" (as_fields schema) (count_items xs)
    validate_items parse xs (as_fields schema)
  validate_output parse (str s) schema = do
    validate_supported_schema schema
    flat_checks (str s) (as_fields schema)
    within parse "minLength" "maxLength" (as_fields schema) (code_points s)
  validate_output parse null schema = do
    validate_supported_schema schema
    flat_checks null (as_fields schema)
  validate_output parse (bool b) schema = do
    validate_supported_schema schema
    flat_checks (bool b) (as_fields schema)
  validate_output parse (int n) schema = do
    validate_supported_schema schema
    flat_checks (int n) (as_fields schema)

  -- `for name, child in value.items()`
  pub validate_members : (String → Option ℤ) → Fields → Fields → Result (Unit {0})
  validate_members parse end properties = ok tt
  validate_members parse (field name child d) properties =
      elim (find name properties) [
        | none ↦ ok tt
        | some schema ↦ validate_output parse child schema
      ]
      >> validate_members parse d properties

  -- `for index, child in enumerate(value)`
  pub validate_items : (String → Option ℤ) → Items → Fields → Result (Unit {0})
  validate_items parse nil schema = ok tt
  validate_items parse (cons child xs) schema = do
    items ← items_of schema
    validate_output parse child items
    validate_items parse xs schema

-- `validate_output` raises nothing.
unfoldable pub passes : (String → Option ℤ) → Value → Value → Bool
unfolding validate_output
passes parse schema v = elim (validate_output parse v schema) [ ok done ↦ true | err e ↦ false ]
