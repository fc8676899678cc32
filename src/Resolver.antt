-- ===== src/Resolver.antt =====
-- dev-integration/profiles/governed-ai-gateway/runtime/model_profile_resolver.py: the readers of the
-- documents that the profiles are resolved from. A document is its content and its digest.
pub mod Tasks
pub mod Binding
pub mod Access
pub mod Evidence
pub mod Stages
pub mod Eligible
pub mod Retired
pub mod Contracts
mod Tests
use Prim.Native.String
use platform_engineering.Prelude.{
  ◌≡◌, String, Bool, true, false, not, ◌&&◌, ◌||◌, Option, none, some, List, [], ◌∷◌, ◌==◌,
  if◌then◌else◌, contains, is_empty, is_some,
}
use platform_engineering.Dict.{Dict, has, insert}
use platform_engineering.Json.{
  Value, null, bool, int, str, arr, obj, Items, nil, cons, Fields, end, field, find, get, is_text,
  is_null, truthy, mem_items,
}
use platform_engineering.Text.{strip}
use platform_engineering.Result.{
  Result, ok, err, Error, resolution, type_error, require, ◌>>=◌, ◌>>◌,
}

-- `_load_yaml`, after the parse: an empty document is an empty mapping.
abbrev pub load : Value → Result Fields
load (obj d) = ok d
load v = if truthy v then err resolution else ok end

-- `_mapping`
abbrev pub mapping : Value → Result Fields
mapping (obj d) = ok d
mapping _ = err resolution

-- `_non_empty_string`
abbrev pub non_empty_string : Value → Result String
non_empty_string (str s) = let text = strip s in if text == "" then err resolution else ok text
non_empty_string _ = err resolution

-- `_optional_non_empty_string`
unfoldable pub optional_string : Value → Result (Option String)
optional_string v =
    if is_null v then ok none else elim (non_empty_string v) [ ok s ↦ ok (some s) | err e ↦ err e ]

-- `[_non_empty_string(item) for item in value]`
unfoldable pub strings_of : Items → Result (List String)
strings_of nil = ok []
strings_of (cons x xs) = do s ← non_empty_string x; rest ← strings_of xs; ok (s ∷ rest)

unfoldable pub has_repeats : List String → Bool
has_repeats [] = false
has_repeats (x ∷ xs) = contains x xs || has_repeats xs

-- `_string_list`
unfoldable pub string_list : (allow_empty : Bool) → Value → Result (List String)
string_list allow_empty (arr xs) = do
  values ← strings_of xs
  require (allow_empty || not (is_empty values)) resolution
  require (not (has_repeats values)) resolution
  ok values
string_list allow_empty _ = err resolution

pub record SchemaRef : Type 0 where
  pub repo : String
  pub path : String

-- `_schema_ref`
unfoldable pub schema_ref : Value → Result SchemaRef
schema_ref value = do
  fields ← mapping value
  repo ← non_empty_string (get "repo" fields)
  path ← non_empty_string (get "path" fields)
  ok (record { repo = repo; path = path })

-- Its text, `repo/path`
abbrev pub ref_text : SchemaRef → String
ref_text r = String.◌++◌ r.repo (String.◌++◌ "/" r.path)

-- The rows of a list that come after those already indexed
unfoldable pub index_items : (key_name : String) → Dict Fields → Items → Result (Dict Fields)
index_items key_name indexed nil = ok indexed
index_items key_name indexed (cons x xs) = do
  row ← mapping x
  key ← non_empty_string (get key_name row)
  require (not (has key indexed)) resolution
  index_items key_name (insert key row indexed) xs

-- `_index_mappings`
unfoldable pub index_mappings :
    (allow_empty : Bool) → (key_name : String) → Value → Result (Dict Fields)
index_mappings allow_empty key_name (arr nil) = if allow_empty then ok [] else err resolution
index_mappings allow_empty key_name (arr (cons x xs)) = index_items key_name [] (cons x xs)
index_mappings allow_empty key_name _ = err resolution

abbrev or_default : Value → Option Value → Value
or_default v none = v
or_default v (some w) = w

-- `d.get(k, default)`
abbrev pub get_or : String → Value → Fields → Value
get_or k default d = or_default default (find k d)

-- `profile_id in (v or [])`; a text is searched for it.
abbrev pub granted_in : (text_has : String → String → Bool) → String → Value → Result Bool
granted_in text_has id null = ok false
granted_in text_has id (bool b) = if b then err type_error else ok false
granted_in text_has id (int n) = if truthy (int n) then err type_error else ok false
granted_in text_has id (str s) = ok (not (s == "") && text_has id s)
granted_in text_has id (arr xs) = ok (mem_items (str id) xs)
granted_in text_has id (obj d) = ok (is_some (find id d))
