-- ===== src/Configuration/Validation.antt =====
-- `validate` and `validate_route` of model_configuration.py.
use platform_engineering.Prelude.{
  ℕ, String, Bool, true, false, not, ◌&&◌, ◌||◌, Option, none, some, List, [], ◌∷◌, ◌==◌, ltb, leb,
  if◌then◌else◌, length, all, contains,
}
use Prim.Native.String
use platform_engineering.Dict.{Dict, lookup, has}
use platform_engineering.Json.{
  Value, null, bool, str, arr, obj, Items, nil, cons, Fields, end, field, get, find, is_text,
  value_eq, count_items, mem_items, keys, as_fields, is_dict, is_null,
}
use platform_engineering.Identifier.{is_digest}
use platform_engineering.Result.{
  Result, ok, err, Error, configuration, type_error, key_error, ◌>>=◌, ◌>>◌, require, or_raise,
  for_each,
}
use platform_engineering.Configuration.{
  ProfileRow, Owner, Configuration, closed, in_table, digest, model_identity,
}

-- `row.get("capability_id", profile_id)`
abbrev pub capability_of : String → ProfileRow → String
capability_of profile_id row = elim row.capability_id [ none ↦ profile_id | some c ↦ c ]

abbrev belongs : String → String → Option ProfileRow → Bool
belongs capability profile_id none = false
belongs capability profile_id (some row) = capability_of profile_id row == capability

-- Both are registered, and belong to the capability.
unfoldable pub is_compatible : Owner → String → String → Bool
is_compatible owner capability profile_id =
    belongs capability capability (lookup capability owner.profiles)
    && belongs capability profile_id (lookup profile_id owner.profiles)

unfoldable pub validate_assignment : Owner → String × String → Result (Unit {0})
unfolding is_compatible
validate_assignment owner (capability, profile_id) =
    require (is_compatible owner capability profile_id) (configuration "profile-not-compatible")

abbrev pub assigned : Configuration → Dict String
assigned config = elim config.profile_assignments [ none ↦ [] | some d ↦ d ]

unfoldable pub validate_backend : Owner → String × Value → Result (Unit {0})
validate_backend owner (key, backend) = do
  require (has key owner.backends) (configuration "backend-not-admitted")
  require (value_eq backend (obj (field "backend_id" (str key) end)))
      (configuration "invalid-registration")

-- A text of one to `limit` characters
abbrev pub is_text_within : ℕ → Value → Bool
is_text_within limit (str s) = ltb 0 (String.count s) && leb (String.count s) limit
is_text_within limit _ = false

-- `None`, a text or a bool
abbrev pub is_effort : Value → Bool
is_effort null = true
is_effort (str s) = true
is_effort (bool b) = true
is_effort _ = false

unfoldable pub all_efforts : Items → Bool
all_efforts nil = true
all_efforts (cons x xs) = is_effort x && all_efforts xs

-- `len(set(xs)) == len(xs)`
unfoldable pub no_repeats : Items → Bool
no_repeats nil = true
no_repeats (cons x xs) = not (mem_items x xs) && no_repeats xs

abbrev pub is_catalogue : Value → Bool
unfolding all_efforts no_repeats
is_catalogue (arr (cons x xs)) = all_efforts (cons x xs) && no_repeats (cons x xs)
is_catalogue _ = false

abbrev pub is_reference : Value → Bool
is_reference (str s) = is_digest s
is_reference _ = false

abbrev pub model_keys : List String
model_keys =
    "backend_id" ∷ "model" ∷ "supported_efforts" ∷ "model_digest" ∷ "runtime_version"
    ∷ "verification_ref" ∷ []

abbrev pub is_optional_within : ℕ → Value → Bool
is_optional_within limit v = is_null v || is_text_within limit v

unfoldable pub validate_model :
    (Value → String) → Configuration → String × Value → Result (Unit {0})
unfolding is_catalogue
validate_model hexdigest config (model_id, value) = do
  model ← closed value model_keys
  registered ← in_table (get "backend_id" model) config.backends
  require
      (registered
        && model_id
          == digest hexdigest (model_identity (get "backend_id" model) (get "model" model)))
      (configuration "invalid-registration")
  require (is_text_within 200 (get "model" model)) (configuration "invalid-registration")
  require (is_optional_within 2048 (get "runtime_version" model))
      (configuration "invalid-registration")
  require (is_optional_within 200 (get "model_digest" model)) (configuration "invalid-registration")
  require (is_catalogue (get "supported_efforts" model)) (configuration "invalid-registration")
  require (is_reference (get "verification_ref" model)) (configuration "invalid-registration")

-- A selection that was seen: `(model_id, effort)`
abbrev pub Seen : Type 0
Seen = List (String × Value)

unfoldable pub is_seen : String → Value → Seen → Bool
is_seen model_id effort [] = false
is_seen model_id effort ((m, e) ∷ seen) =
    m == model_id && value_eq e effort || is_seen model_id effort seen

-- `effort in efforts`
abbrev pub in_items : Value → Value → Result Bool
in_items v (arr xs) = ok (mem_items v xs)
in_items v _ = err type_error

-- `d[key]`
abbrev pub item : String → Value → Result Value
item key (obj d) = or_raise (find key d) key_error
item key _ = err type_error

-- `backend_id in self.backends and task in self.backends[backend_id]["allowed_tasks"]`
abbrev pub admits : Owner → String → Value → Result Bool
admits owner task (str key) =
    ok (elim (lookup key owner.backends) [ none ↦ false | some b ↦ contains task b.allowed_tasks ])
admits owner task (arr xs) = err type_error
admits owner task (obj d) = err type_error
admits owner task _ = ok false

abbrev pub text_or : Value → Error → Result String
text_or (str s) e = ok s
text_or _ e = err e

-- The body of the loop over the targets: the key that it adds to `seen`
unfoldable pub validate_target :
    Owner → Configuration → String → Seen → Value → Result (String × Value)
validate_target owner config task seen value = do
  target ← closed value ("model_id" ∷ "effort" ∷ [])
  let effort = get "effort" target
  model_id ← text_or (get "model_id" target) (configuration "invalid-selection")
  require (is_effort effort) (configuration "invalid-selection")
  model ← or_raise (lookup model_id config.models) (configuration "model-not-registered")
  efforts ← item "supported_efforts" model
  supported ← in_items effort efforts
  require supported (configuration "effort-not-supported")
  backend ← item "backend_id" model
  admitted ← admits owner task backend
  require admitted (configuration "task-not-admitted")
  require (not (is_seen model_id effort seen)) (configuration "invalid-fallback")
  ok (model_id, effort)

unfoldable pub validate_targets : Owner → Configuration → String → Seen → Items → Result (Unit {0})
validate_targets owner config task seen nil = ok tt
validate_targets owner config task seen (cons target targets) = do
  key ← validate_target owner config task seen target
  validate_targets owner config task (key ∷ seen) targets

-- `route["on_exhausted"] == "fail-closed"`, and a list of at most four fallbacks
abbrev pub fallbacks_of : Fields → Result Items
fallbacks_of route = elim (get "fallbacks" route) [
  | arr xs ↦
      if is_text (get "on_exhausted" route) "fail-closed" && leb (count_items xs) 4
      then ok xs
      else err (configuration "invalid-fallback")
  | _ ↦ err (configuration "invalid-fallback")
]

abbrev pub route_keys : List String
route_keys = "primary" ∷ "fallbacks" ∷ "on_exhausted" ∷ []

-- `validate_route`
unfoldable pub validate_route : Owner → Configuration → String → Value → Result (Unit {0})
validate_route owner config task value = do
  route ← closed value route_keys
  fallbacks ← fallbacks_of route
  validate_targets owner config task [] (cons (get "primary" route) fallbacks)

-- `config["overrides"].get(task, config["default"])`
abbrev pub route_of : Configuration → String → Value
route_of config task = elim (find task (as_fields config.overrides)) [
  | none ↦ config.default
  | some r ↦ r
]

unfoldable pub validate_task : Owner → Configuration → String → Result (Unit {0})
validate_task owner config task =
    if is_null (route_of config task)
    then ok tt
    else validate_route owner config task (route_of config task)

-- `validate`
unfoldable pub validate : (Value → String) → Owner → Configuration → Result (Unit {0})
validate hexdigest owner config = do
  require (leb (length (assigned config)) 128) (configuration "profile-selection-invalid")
  for_each (validate_assignment owner) (assigned config)
  require (is_dict config.overrides) (configuration "invalid-configuration")
  for_each (validate_backend owner) config.backends
  for_each (validate_model hexdigest config) config.models
  require (all (λ task. contains task owner.tasks) (keys (as_fields config.overrides)))
      (configuration "task-not-admitted")
  for_each (validate_task owner config) owner.tasks
