-- ===== src/Configuration/Actions.antt =====
-- The actions of `ModelConfiguration.command` of model_configuration.py: what each makes of the
-- configuration, before it is validated and committed.
use platform_engineering.Prelude.{
  String, Bool, true, false, not, ◌&&◌, Option, none, some, [], ◌∷◌, if◌then◌else◌,
}
use platform_engineering.Dict.{Dict, lookup, has, insert, erase}
use platform_engineering.Json.{
  pos, Value, int, str, obj, Fields, end, field, get, is_text, truthy, value_eq,
}
use platform_engineering.Result.{
  Result, ok, err, Error, configuration, ◌>>=◌, ◌>>◌, require, or_raise,
}
use platform_engineering.Configuration.{
  ProfileRow, Owner, Configuration, State, at_revision, closed, digest, model_identity,
}
use platform_engineering.Configuration.Validation.{is_compatible, assigned, item, text_or}

-- What an action makes of the configuration, and the model that it registers.
pub record Applied : Type 0 where
  pub config : Configuration
  pub registered : Option (String × Fields)

abbrev pub unregistered : Configuration → Applied
unregistered config = record { config = config; registered = none }

-- `isinstance(key, str) and key in table`, else the error
abbrev pub key_in {ℓ} : {A : Type ℓ} → Value → Dict A → Error → Result String
key_in (str k) table e = if has k table then ok k else err e
key_in _ table e = err e

unfoldable pub register_backend : Owner → Configuration → Value → Result Applied
register_backend owner config value = do
  payload ← closed value ("backend_id" ∷ [])
  key ← key_in (get "backend_id" payload) owner.backends (configuration "backend-not-admitted")
  ok (
      unregistered (record config {
        backends = insert key (obj (field "backend_id" (str key) end)) config.backends;
      }))

-- `any(model["backend_id"] == key for model in models.values())`
unfoldable pub uses_backend : String → Dict Value → Result Bool
uses_backend key [] = ok false
uses_backend key ((model_id, model) ∷ models) = do
  backend ← item "backend_id" model
  if is_text backend key then ok true else uses_backend key models

unfoldable pub remove_backend : Configuration → Value → Result Applied
remove_backend config value = do
  payload ← closed value ("backend_id" ∷ [])
  key ← key_in (get "backend_id" payload) config.backends (configuration "backend-not-registered")
  used ← uses_backend key config.models
  require (not used) (configuration "backend-in-use")
  ok (unregistered (record config { backends = erase key config.backends }))

-- The metadata is there, and names this backend and this model.
abbrev pub is_verified : Option Fields → String → Value → Bool
is_verified none backend model = false
is_verified (some v) backend model =
    is_text (get "backend_id" v) backend && value_eq (get "model" v) model

abbrev pub metadata : Option Fields → Fields
metadata none = end
metadata (some v) = v

unfoldable pub register_model :
    (Value → String) → Owner → Configuration → Option Fields → Value → Result Applied
register_model hexdigest owner config verified value = do
  payload ← closed value ("backend_id" ∷ "model" ∷ [])
  let unregistered_backend = configuration "backend-not-registered"
  backend ← key_in (get "backend_id" payload) owner.backends unregistered_backend
  require (has backend config.backends) unregistered_backend
  require (is_verified verified backend (get "model" payload))
      (configuration "model-verification-required")
  let model_id = digest hexdigest (model_identity (str backend) (get "model" payload))
  ok (record {
    config = record config { models = insert model_id (obj (metadata verified)) config.models };
    registered = some (model_id, metadata verified);
  })

unfoldable pub remove_model : Configuration → Value → Result Applied
remove_model config value = do
  payload ← closed value ("model_id" ∷ [])
  key ← key_in (get "model_id" payload) config.models (configuration "model-not-registered")
  ok (unregistered (record config { models = erase key config.models }))

-- Registered, active and eligible
abbrev pub is_selectable : Option ProfileRow → Bool
is_selectable none = false
is_selectable (some row) = is_text row.profile_status "active" && truthy row.activation_eligible

unfoldable pub assign_profile : Owner → Configuration → Value → Result Applied
assign_profile owner config value = do
  payload ← closed value ("capability_id" ∷ "profile_id" ∷ [])
  capability ← text_or (get "capability_id" payload) (configuration "invalid-command")
  profile_id ← text_or (get "profile_id" payload) (configuration "invalid-command")
  require (is_compatible owner capability profile_id) (configuration "profile-not-compatible")
  require
      (is_selectable (lookup profile_id owner.profiles)
        && is_selectable (lookup capability owner.profiles))
      (configuration "profile-not-active")
  ok (
      unregistered (record config {
        profile_assignments = some (insert capability profile_id (assigned config));
      }))

unfoldable pub save_routing : Configuration → Value → Result Applied
save_routing config value = do
  payload ← closed value ("default" ∷ "overrides" ∷ [])
  ok (
      unregistered
        (record config { default = get "default" payload; overrides = get "overrides" payload }))

-- `history[str(v)]` for an int `v`
abbrev pub revision_of : Value → State → Option Configuration
revision_of (int (pos r)) state = at_revision r state.history
revision_of _ state = none

unfoldable pub roll_back : State → Value → Result Applied
roll_back state value = do
  payload ← closed value ("revision" ∷ [])
  config ←
      or_raise (revision_of (get "revision" payload) state) (configuration "revision-not-found")
  ok (unregistered config)

-- The chain of `if action == …`
unfoldable pub apply_action :
    (Value → String) → Owner → State → Option Fields → Value → Value → Result Applied
apply_action hexdigest owner state verified action value =
    if is_text action "backend.register"
    then register_backend owner state.configuration value
    else if is_text action "backend.remove"
    then remove_backend state.configuration value
    else if is_text action "model.register"
    then register_model hexdigest owner state.configuration verified value
    else if is_text action "model.remove"
    then remove_model state.configuration value
    else if is_text action "profile.assign"
    then assign_profile owner state.configuration value
    else if is_text action "routing.save"
    then save_routing state.configuration value
    else if is_text action "routing.rollback"
    then roll_back state value
    else err (configuration "action-not-allowed")
