-- ===== src/Configuration/Snapshot.antt =====
-- `snapshot` and `selection` of model_configuration.py: what a reader is shown of the state, and
-- the route that is frozen for one invocation.
use platform_engineering.Prelude.{
  ℕ, String, Option, none, some, List, [], ◌∷◌, leb, if◌then◌else◌, contains,
}
use platform_engineering.Dict.{Dict, lookup, insert}
use platform_engineering.Json.{pos, Value, int, arr, Items, nil, cons, get, as_fields, is_null}
use platform_engineering.Result.{
  Result, ok, err, configuration, type_error, key_error, ◌>>=◌, ◌>>◌, require, or_raise,
}
use platform_engineering.Configuration.{
  Owner, Configuration, State, History, at_revision, read, digest, configuration_json,
}
use platform_engineering.Configuration.Validation.{route_of, validate_route, item, text_or}

pub record Snapshot : Type 0 where
  pub revision : ℕ
  pub current_revision : ℕ
  pub digest : String
  pub configuration : Configuration
  pub history : List (ℕ × String)

insert_by_revision : ℕ × String → List (ℕ × String) → List (ℕ × String)
insert_by_revision e [] = e ∷ []
insert_by_revision e (x ∷ xs) =
    let rest = insert_by_revision e xs in if leb e.0 x.0 then e ∷ x ∷ xs else x ∷ rest

-- `sorted(history, key=int)` with the digest of each entry
unfoldable pub listing : (Value → String) → History → List (ℕ × String)
unfolding insert_by_revision
listing hexdigest [] = []
listing hexdigest ((r, c) ∷ h) =
    insert_by_revision (r, digest hexdigest (configuration_json c)) (listing hexdigest h)

abbrev selected_revision : State → Option Value → Result ℕ
selected_revision state none = ok state.revision
selected_revision state (some (int (pos r))) = ok r
selected_revision state (some _) = err (configuration "revision-not-found")

-- `snapshot(revision)`
unfoldable pub snapshot : (Value → String) → State → Option Value → Result Snapshot
snapshot hexdigest state asked = do
  current ← read hexdigest state
  revision ← selected_revision current asked
  config ← or_raise (at_revision revision current.history) (configuration "revision-not-found")
  ok (record {
    revision = revision;
    current_revision = current.revision;
    digest = digest hexdigest (configuration_json config);
    configuration = config;
    history = listing hexdigest current.history;
  })

pub record Selection : Type 0 where
  pub revision : ℕ
  pub configuration_digest : String
  pub task : String
  pub route : Value
  pub models : Dict Value
  pub policy_profile_id : Option String

-- `[route["primary"], *route["fallbacks"]]`
abbrev pub targets_of : Value → Items
targets_of route =
    cons (get "primary" (as_fields route))
      (elim (get "fallbacks" (as_fields route)) [ arr xs ↦ xs | _ ↦ nil ])

-- `{x["model_id"]: config["models"][x["model_id"]] for x in targets}`
unfoldable pub models_of : Configuration → Dict Value → Items → Result (Dict Value)
models_of config done nil = ok done
models_of config done (cons target targets) = do
  id ← item "model_id" target
  name ← text_or id type_error
  model ← or_raise (lookup name config.models) key_error
  models_of config (insert name model done) targets

-- `selection(snapshot, task)`; without a route the source-selected binding is kept.
unfoldable pub selection : Owner → Snapshot → String → Result (Option Selection)
selection owner s task = do
  require (contains task owner.tasks) (configuration "task-not-admitted")
  let route = route_of s.configuration task
  if is_null route then ok none else do
    validate_route owner s.configuration task route
    models ← models_of s.configuration [] (targets_of route)
    ok (
        some (record {
          revision = s.revision;
          configuration_digest = s.digest;
          task = task;
          route = route;
          models = models;
          policy_profile_id = none;
        }))
