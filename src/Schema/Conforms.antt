-- ===== src/Schema/Conforms.antt =====
-- What an output is that passes `validate_output` of strict_output_schema.py.
use mathlib.Core.Path.{subst}
use platform_engineering.Prelude.{
  ℕ, ◌≡◌, refl, sym, ap, ◌∙◌, String, Bool, true, false, not, ◌||◌, Option, none, some, List, [],
  ◌∷◌, all, any, contains, arith, eq_iff, and_left, and_right, if-true, Option-cases, inl, inr,
  if◌then◌else◌,
}
use platform_engineering.Json.{
  ℤ, pos, value_eq, Value, null, bool, int, str, arr, obj, Items, nil, cons, count_items, Fields,
  end, field, find, get, has, keys, as_fields,
}
use platform_engineering.Result.{
  Result, output_schema, ok, err, Error, ◌>>=◌, ◌>>◌, require, or_raise, >>=-eq-ok, require-eq-ok,
  or_raise-eq-ok,
}
use platform_engineering.Text.{code_points}
use platform_engineering.Schema.{
  supported_keys, is_false, types_of, matches_type, required_of, validate_supported_schema, among,
  to_int, below, above, flat_checks, field_checks, validate_output, passes, within,
  validate_members, validate_items, object_shape,
}

-- One of the types that the schema names is the value's.
abbrev pub Typed : Value → Fields → Type 0
Typed v schema =
    (types : List String) × (types_of (get "type" schema) ≡ some types)
    × (any (matches_type v) types ≡ true)

-- Every field that the schema requires is there.
abbrev pub Complete : Fields → Fields → Type 0
Complete value schema =
    (required : List String) × (required_of schema ≡ some required)
    × (all (λ k. has k value) required ≡ true)

-- The constant that the schema names is the value.
abbrev pub Constant : Value → Fields → Type 0
Constant v schema = (c : Value) → find "const" schema ≡ some c → value_eq v c ≡ true

-- The value is in the enumeration that the schema names.
abbrev pub Enumerated : Value → Fields → Type 0
Enumerated v schema = (e : Value) → find "enum" schema ≡ some e → among v e ≡ ok true

-- What the schema says of the value itself
abbrev pub Plain : Value → Fields → Type 0
Plain v schema = Typed v schema × Constant v schema × Enumerated v schema

-- A length, or a number of items, between the bounds that the schema names
abbrev pub Sized : (String → Option ℤ) → (least most : String) → Fields → ℕ → Type 0
Sized parse least most schema size =
    ((v : Value)
      → find least schema ≡ some v
      → (low : ℤ) × (to_int parse v ≡ ok low) × (below size low ≡ false))
    × ((v : Value)
        → find most schema ≡ some v
        → (high : ℤ) × (to_int parse v ≡ ok high) × (above size high ≡ false))

-- The value has a type of the schema, is its constant, is in its enumeration and has a size within its
-- bounds; an object in it, at any depth, has every required field and none but those that its schema
-- names, and each field and each item conforms to its own schema.
unfoldable mutual
  pub Conforms : (String → Option ℤ) → Value → Value → Type 0
  Conforms parse (obj value) schema =
      Plain (obj value) (as_fields schema)
      × Complete value (as_fields schema)
      × Members parse value (as_fields (get "properties" (as_fields schema)))
  Conforms parse (arr xs) schema =
      Plain (arr xs) (as_fields schema)
      × Sized parse "minItems" "maxItems" (as_fields schema) (count_items xs)
      × Elements parse xs (as_fields schema)
  Conforms parse (str s) schema =
      Plain (str s) (as_fields schema)
      × Sized parse "minLength" "maxLength" (as_fields schema) (code_points s)
  Conforms parse null schema = Plain null (as_fields schema)
  Conforms parse (bool b) schema = Plain (bool b) (as_fields schema)
  Conforms parse (int n) schema = Plain (int n) (as_fields schema)

  pub Members : (String → Option ℤ) → Fields → Fields → Type 0
  Members parse end properties = Unit
  Members parse (field name child d) properties =
      ((schema : Value) × (find name properties ≡ some schema) × Conforms parse child schema)
      × Members parse d properties

  pub Elements : (String → Option ℤ) → Items → Fields → Type 0
  Elements parse nil schema = Unit
  Elements parse (cons child xs) schema =
      ((items : Value) × (find "items" schema ≡ some items) × Conforms parse child items)
      × Elements parse xs schema

some-injective : {A : Type 0} (a b : A) → some a ≡ some b → a ≡ b
some-injective a b h = cc

nothing_left : {A : Type 0} {a : A} → none ≡ some a → ⊥
nothing_left h = cc

negated : (b : Bool) → not b ≡ true → b ≡ false
negated b h = ground arith

require_passed : (t : Bool) (e : Error) (u : Unit {0}) → require t e ≡ ok u → t ≡ true
require_passed true e u p = refl
require_passed false e u p = cc

const-Constant :
    (v : Value) (schema : Fields) (o : Option Value)
    → find "const" schema ≡ o
    → elim o [ none ↦ true | some c ↦ value_eq v c ] ≡ true
    → Constant v schema
const-Constant v schema none at h c e = absurd (nothing_left (sym at ∙ e))
const-Constant v schema (some d) at h c e =
    subst (λ x. value_eq v x ≡ true) (some-injective d c (sym at ∙ e)) h

enum-Enumerated :
    (v : Value) (schema : Fields) (o : Option Value) (u : Unit {0})
    → find "enum" schema ≡ o
    → elim o [
      | none ↦ ok tt
      | some allowed ↦ (among v allowed >>= λ admitted. require admitted output_schema)
    ]
      ≡ ok u
    → Enumerated v schema
enum-Enumerated v schema none u at h c e = absurd (nothing_left (sym at ∙ e))
enum-Enumerated v schema (some d) u at h c e =
    let (admitted, found, h1) = >>=-eq-ok (among v d) _ h in
    subst (λ x. among v x ≡ ok true) (some-injective d c (sym at ∙ e))
      (found ∙ ap ok (require_passed admitted _ u h1))

-- The lower bound, given or 0, and the upper bound
low-Sized :
    (parse : String → Option ℤ) (least : String) (schema : Fields) (size : ℕ) (o : Option Value)
    (low : ℤ)
    → find least schema ≡ o
    → elim o [ none ↦ ok (pos 0) | some v ↦ to_int parse v ] ≡ ok low
    → below size low ≡ false
    → (v : Value) → find least schema ≡ some v
    → (n : ℤ) × (to_int parse v ≡ ok n) × (below size n ≡ false)
low-Sized parse least schema size none low at h b v e = absurd (nothing_left (sym at ∙ e))
low-Sized parse least schema size (some w) low at h b v e =
    (low, ap (to_int parse) (some-injective v w (sym e ∙ at)) ∙ h, b)

high-Sized :
    (parse : String → Option ℤ) (most : String) (schema : Fields) (size : ℕ) (o : Option Value)
    (u : Unit {0})
    → find most schema ≡ o
    → elim o [
      | none ↦ ok tt
      | some v ↦ (to_int parse v >>= λ high. require (not (above size high)) output_schema)
    ]
      ≡ ok u
    → (v : Value) → find most schema ≡ some v
    → (n : ℤ) × (to_int parse v ≡ ok n) × (above size n ≡ false)
high-Sized parse most schema size none u at h v e = absurd (nothing_left (sym at ∙ e))
high-Sized parse most schema size (some w) u at h v e =
    let (high, found, h1) = >>=-eq-ok (to_int parse w) _ h in
    (
      high,
      ap (to_int parse) (some-injective v w (sym e ∙ at)) ∙ found,
      negated _ (require_passed (not (above size high)) _ u h1),
    )

within-Sized :
    (parse : String → Option ℤ) (least most : String) (schema : Fields) (size : ℕ) (u : Unit {0})
    → within parse least most schema size ≡ ok u
    → Sized parse least most schema size
unfolding within
within-Sized parse least most schema size u h =
    let (low, found, h1) =
      >>=-eq-ok (elim (find least schema) [ none ↦ ok (pos 0) | some v ↦ to_int parse v ]) _ h in
    let (fits, h2) = require-eq-ok (not (below size low)) _ _ h1 in
    (
      low-Sized parse least schema size (find least schema) low refl found (negated _ fits),
      high-Sized parse most schema size (find most schema) u refl h2,
    )

flat_checks-Plain :
    (v : Value) (schema : Fields) (u : Unit {0}) → flat_checks v schema ≡ ok u → Plain v schema
unfolding flat_checks get
flat_checks-Plain v schema u h =
    let (t, found, h1) = or_raise-eq-ok (find "type" schema) _ _ h in
    let (types, e, h2) = or_raise-eq-ok (types_of t) _ _ h1 in
    let (m, h3) = require-eq-ok (any (matches_type v) types) _ _ h2 in
    let (c, h4) =
      require-eq-ok (elim (find "const" schema) [ none ↦ true | some c ↦ value_eq v c ]) _ _ h3 in
    (
      (types, rw (found, e), m),
      const-Constant v schema (find "const" schema) refl c,
      enum-Enumerated v schema (find "enum" schema) u refl h4,
    )

contains-object :
    (value : Fields) (types : List String)
    → any (matches_type (obj value)) types ≡ true
    → contains "object" types ≡ true
unfolding matches_type
contains-object value [] h = h
contains-object value (t ∷ ts) h =
    ground (arith, eq_iff t "object", eq_iff "object" t, contains-object value ts)

-- The schema of an object says that there are no other fields.
object_shape-closed :
    (schema : Fields) (u : Unit {0})
    → object_shape schema ≡ ok u
    → is_false (get "additionalProperties" schema) ≡ true
unfolding object_shape
object_shape-closed schema u h = closed_by (get "properties" schema) h
  where
    closed_by :
        (v : Value)
        → elim v [
          | obj properties ↦
              require (is_false (get "additionalProperties" schema)) output_schema
              >> (or_raise (required_of schema) output_schema >>= λ required.
                  require (all (λ name. has name properties) required) output_schema)
          | _ ↦ err output_schema
        ]
          ≡ ok u
        → is_false (get "additionalProperties" schema) ≡ true
    closed_by (obj properties) e =
        (require-eq-ok (is_false (get "additionalProperties" schema)) _ _ e).0
    closed_by null e = absurd (ground arith)
    closed_by (bool b) e = absurd (ground arith)
    closed_by (int n) e = absurd (ground arith)
    closed_by (str s) e = absurd (ground arith)
    closed_by (arr xs) e = absurd (ground arith)

supported-closed :
    (value schema : Fields) (u : Unit {0})
    → validate_supported_schema (obj schema) ≡ ok u
    → Typed (obj value) schema
    → is_false (get "additionalProperties" schema) ≡ true
unfolding validate_supported_schema
supported-closed value schema u h (types, e, m) =
    let (known, h1) = require-eq-ok (all (λ k. contains k supported_keys) (keys schema)) _ _ h in
    let (types', e', h2) = or_raise-eq-ok (types_of (get "type" schema)) _ _ h1 in
    let same = some-injective types types' (sym e ∙ e') in
    let is_object =
      subst (λ ts. contains "object" ts ≡ true) same (contains-object value types m) in
    let (v, h3, h4) = >>=-eq-ok (if contains "object" types' then _ else ok tt) _ h2 in
    let (w, h5, h6) = >>=-eq-ok (object_shape schema) _ (sym (if-true _ _ _ is_object) ∙ h3) in
    object_shape-closed schema w h5

-- The same of any document as a schema
schema-closed :
    (value : Fields) (schema : Value) (u : Unit {0})
    → validate_supported_schema schema ≡ ok u
    → Typed (obj value) (as_fields schema)
    → is_false (get "additionalProperties" (as_fields schema)) ≡ true
unfolding validate_supported_schema
schema-closed value (obj schema) u h typed = supported-closed value schema u h typed
schema-closed value null u h typed = cc
schema-closed value (bool b) u h typed = cc
schema-closed value (int n) u h typed = cc
schema-closed value (str s) u h typed = cc
schema-closed value (arr xs) u h typed = cc

-- The checks of the fields of an object whose schema admits no others
field_checks-Complete :
    (value schema : Fields) (u : Unit {0})
    → field_checks value schema ≡ ok u
    → is_false (get "additionalProperties" schema) ≡ true
    → Complete value schema
      × (all (λ k. has k (as_fields (get "properties" schema))) (keys value) ≡ true)
unfolding field_checks
field_checks-Complete value schema u h closed =
    let (required, r, h1) = or_raise-eq-ok (required_of schema) _ _ h in
    let (complete, h2) = require-eq-ok (all (λ k. has k value) required) _ _ h1 in
    let known = all (λ k. has k (as_fields (get "properties" schema))) (keys value) in
    let open_or = require_ok (known || not (is_false (get "additionalProperties" schema))) _ h2 in
    ((required, r, complete), or_closed known _ closed open_or)
  where
    require_ok : (t : Bool) (e : Error) {w : Unit {0}} → require t e ≡ ok w → t ≡ true
    require_ok true e p = refl
    require_ok false e p = cc

    or_closed : (a b : Bool) → b ≡ true → (a || not b) ≡ true → a ≡ true
    or_closed a b p q = ground arith

-- The checks that every value passes first
first-Plain :
    (v schema : Value) (rest : Result (Unit {0})) (u : Unit {0})
    → (validate_supported_schema schema >> (flat_checks v (as_fields schema) >> rest)) ≡ ok u
    → Plain v (as_fields schema) × (rest ≡ ok u)
first-Plain v schema rest u h =
    let (u1, supported, h1) = >>=-eq-ok (validate_supported_schema schema) _ h in
    let (u2, flat, h2) = >>=-eq-ok (flat_checks v (as_fields schema)) _ h1 in
    (flat_checks-Plain v (as_fields schema) u2 flat, h2)

last-Plain :
    (v schema : Value) (u : Unit {0})
    → (validate_supported_schema schema >> flat_checks v (as_fields schema)) ≡ ok u
    → Plain v (as_fields schema)
last-Plain v schema u h =
    let (u1, supported, flat) = >>=-eq-ok (validate_supported_schema schema) _ h in
    flat_checks-Plain v (as_fields schema) u flat

-- A field that is known, and whose child has passed, is a member.
member :
    (P : Value → Type 0) (check : Value → Result (Unit {0})) (name : String) (properties : Fields)
    (rest : Result (Unit {0})) (u : Unit {0})
    → has name properties ≡ true
    → (elim (find name properties) [ none ↦ ok tt | some schema ↦ check schema ] >> rest) ≡ ok u
    → ((schema : Value) (w : Unit {0}) → check schema ≡ ok w → P schema)
    → ((schema : Value) × (find name properties ≡ some schema) × P schema) × (rest ≡ ok u)
unfolding has
member P check name properties rest u known h conforms =
    elim (Option-cases (find name properties)) [
      | inl n ↦ absurd (ground (arith, n, known))
      | inr (schema, e) ↦
          let (w, passed, h1) = >>=-eq-ok (check schema) (λ done. rest) (rw e at h) in
          ((schema, e, conforms schema w passed), h1)
    ]

-- Passing is conforming.
mutual
  unfolding validate_output validate_members validate_items Conforms Members Elements keys

  validated :
      (parse : String → Option ℤ) (v schema : Value) (u : Unit {0})
      → validate_output parse v schema ≡ ok u
      → Conforms parse v schema
  validated parse (obj d) schema u h =
      let (u1, supported, h1) = >>=-eq-ok (validate_supported_schema schema) _ h in
      let (u2, flat, h2) = >>=-eq-ok (flat_checks (obj d) (as_fields schema)) _ h1 in
      let (u3, checked, members) = >>=-eq-ok (field_checks d (as_fields schema)) _ h2 in
      let typed = flat_checks-Plain (obj d) (as_fields schema) u2 flat in
      let (complete, known) =
        field_checks-Complete d (as_fields schema) u3 checked
          (schema-closed d schema u1 supported typed.0) in
      (
        typed,
        complete,
        validated-Members parse d (as_fields (get "properties" (as_fields schema))) u known members,
      )
  validated parse (arr xs) schema u h =
      let (typed, h1) = first-Plain (arr xs) schema _ u h in
      let (w, sized, h2) =
        >>=-eq-ok (within parse "minItems" "maxItems" (as_fields schema) (count_items xs)) _ h1 in
      (
        typed,
        within-Sized parse "minItems" "maxItems" (as_fields schema) (count_items xs) w sized,
        validated-Elements parse xs (as_fields schema) u h2,
      )
  validated parse (str s) schema u h =
      let (typed, h1) = first-Plain (str s) schema _ u h in
      (typed, within-Sized parse "minLength" "maxLength" (as_fields schema) (code_points s) u h1)
  validated parse null schema u h = last-Plain null schema u h
  validated parse (bool b) schema u h = last-Plain (bool b) schema u h
  validated parse (int n) schema u h = last-Plain (int n) schema u h

  validated-Members :
      (parse : String → Option ℤ) (d properties : Fields) (u : Unit {0})
      → all (λ k. has k properties) (keys d) ≡ true
      → validate_members parse d properties ≡ ok u
      → Members parse d properties
  validated-Members parse end properties u known h = tt
  validated-Members parse (field name child d) properties u known h =
      let (here, h1) =
        member (Conforms parse child) (validate_output parse child) name properties
          (validate_members parse d properties) u (and_left (has name properties) _ known) h
          (λ schema w. validated parse child schema w) in
      (here, validated-Members parse d properties u (and_right (has name properties) _ known) h1)

  validated-Elements :
      (parse : String → Option ℤ) (xs : Items) (schema : Fields) (u : Unit {0})
      → validate_items parse xs schema ≡ ok u
      → Elements parse xs schema
  validated-Elements parse nil schema u h = tt
  validated-Elements parse (cons child xs) schema u h =
      let (items, e, h1) = or_raise-eq-ok (find "items" schema) _ _ h in
      let (w, passed, h2) = >>=-eq-ok (validate_output parse child items) _ h1 in
      ((items, e, validated parse child items w passed), validated-Elements parse xs schema u h2)

-- An output that `validate_output` passes has a type of the schema, equals its constant, is in its
-- enumeration, and has a length or a number of items within its bounds; every object in it, at any
-- depth, has each required field and no field that its schema does not name; and every field and
-- item conforms to its own schema in the same way.
pub validate_output-Conforms :
    (parse : String → Option ℤ) (v schema : Value)
    → validate_output parse v schema ≡ ok tt
    → Conforms parse v schema
validate_output-Conforms parse v schema h = validated parse v schema tt h

pub passes-Conforms :
    (parse : String → Option ℤ) (v schema : Value)
    → passes parse schema v ≡ true
    → Conforms parse v schema
unfolding passes
passes-Conforms parse v schema h = validate_output-Conforms parse v schema (returned _ h)
  where
    returned :
        (r : Result (Unit {0})) → elim r [ ok done ↦ true | err e ↦ false ] ≡ true → r ≡ ok tt
    returned (ok tt) p = refl
    returned (err e) p = absurd (ground arith)
