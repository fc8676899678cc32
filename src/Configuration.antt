-- ===== src/Configuration.antt =====
-- dev-integration/profiles/governed-ai-gateway/runtime/model_configuration.py: the data of
-- `ModelConfiguration`. The state file is a value of `State`, a command takes the state to the next
-- one, and an error leaves the file as it was: the code writes it once, at the end, under a lock.
-- `hexdigest v` stands for `hashlib.sha256(json.dumps(v, …).encode()).hexdigest()`.
pub mod Validation
pub mod Actions
pub mod Commands
pub mod Observed
pub mod Snapshot
pub mod Step
pub mod Accepted
pub mod Invariant
pub mod Replay
pub mod Lost
pub mod Revisions
pub mod Routes
mod Tests
use Prim.Native.String
use platform_engineering.Prelude.{
  ℕ, zero, suc, ◌≡◌, String, Bool, true, false, not, ◌&&◌, Option, none, some, List, [], ◌∷◌, ◌==◌,
  eqb, if◌then◌else◌,
}
use platform_engineering.Dict.{Dict, lookup, has}
use platform_engineering.Json.{
  ℤ, pos, Value, null, int, str, obj, Fields, end, field, is_dict, as_fields, has_exactly, value_eq,
}
use platform_engineering.Result.{Result, ok, err, Error, configuration, type_error}

-- An admitted backend: the tasks that it may serve, and its whole policy document.
pub record Backend : Type 0 where
  pub allowed_tasks : List String
  pub policy : Value

-- A resolved permission profile, as far as configuration reads it.
pub record ProfileRow : Type 0 where
  pub capability_id : Option String
  pub profile_status : Value
  pub activation_eligible : Value

-- What `ModelConfiguration.__init__` is given.
pub record Owner : Type 0 where
  pub tasks : List String
  pub backends : Dict Backend
  pub profiles : Dict ProfileRow

-- `state["configuration"]`; what a client may save stays a JSON value until `validate` has read it.
pub record Configuration : Type 0 where
  pub backends : Dict Value
  pub models : Dict Value
  pub default : Value
  pub overrides : Value
  pub profile_assignments : Option (Dict String)

pub record Receipt : Type 0 where
  pub command_id : Value
  pub command_digest : String
  pub actor : String
  pub action : Value
  pub previous_revision : ℕ
  pub revision : ℕ
  pub configuration_digest : String
  pub receipt_digest : String

-- `state["provider_outcomes"][model_id]`
pub record ProviderOutcome : Type 0 where
  pub binding : String
  pub at : String
  pub code : String
  pub last_success : Value

abbrev pub History : Type 0
History = List (ℕ × Configuration)

pub record State : Type 0 where
  pub revision : ℕ
  pub configuration : Configuration
  pub history : History
  pub commands : Dict Receipt
  pub provider_outcomes : Dict ProviderOutcome

-- `history.get(str(revision))`
unfoldable pub at_revision : ℕ → History → Option Configuration
at_revision r [] = none
at_revision r ((q, c) ∷ h) = if eqb q r then some c else at_revision r h

-- `history[str(revision)] = config`
unfoldable pub set_revision : ℕ → Configuration → History → History
set_revision r c [] = (r, c) ∷ []
set_revision r c ((q, d) ∷ h) = if eqb q r then (q, c) ∷ h else (q, d) ∷ set_revision r c h

abbrev pub empty_configuration : Configuration
empty_configuration = record {
  backends = [];
  models = [];
  default = null;
  overrides = obj end;
  profile_assignments = none;
}

-- `ModelConfiguration.initial`
abbrev pub initial : State
initial = record {
  revision = 0;
  configuration = empty_configuration;
  history = (0, empty_configuration) ∷ [];
  commands = [];
  provider_outcomes = [];
}

-- `closed`: a dictionary with exactly these keys
abbrev pub closed : Value → List String → Result Fields
closed (obj d) names = if has_exactly names d then ok d else err (configuration "invalid-command")
closed _ names = err (configuration "invalid-command")

-- `v in table`: a list or an object is not hashable.
abbrev pub in_table {ℓ} : {A : Type ℓ} → Value → Dict A → Result Bool
in_table (str s) table = ok (has s table)
in_table (Value.arr xs) table = err type_error
in_table (obj d) table = err type_error
in_table _ table = ok false

unfoldable pub dict_json {ℓ} : {A : Type ℓ} → (A → Value) → Dict A → Fields
dict_json json [] = end
dict_json json ((k, v) ∷ d) = field k (json v) (dict_json json d)

abbrev assignments_json : Option (Dict String) → Fields
assignments_json none = end
assignments_json (some d) = field "profile_assignments" (obj (dict_json str d)) end

-- The dictionary that is stored and digested.
unfoldable pub configuration_json : Configuration → Value
unfolding dict_json
configuration_json c = obj (
    field "backends" (obj (dict_json (λ v. v) c.backends)) (
      field "models" (obj (dict_json (λ v. v) c.models)) (
        field "default" c.default
          (field "overrides" c.overrides (assignments_json c.profile_assignments)))))

-- `digest`
unfoldable pub digest : (Value → String) → Value → String
digest hexdigest v = String.◌++◌ "sha256:" (hexdigest v)

-- `digest({"backend_id": …, "model": …})`
abbrev pub model_identity : Value → Value → Value
model_identity backend model = obj (field "backend_id" backend (field "model" model end))

-- `digest({"actor": actor, "command": command})`
unfoldable pub fingerprint : (Value → String) → String → Value → String
fingerprint hexdigest actor command =
    digest hexdigest (obj (field "actor" (str actor) (field "command" command end)))

-- `digest(state["configuration"]) == digest(history[str(revision)])`
abbrev matches_history : (Value → String) → Configuration → Option Configuration → Bool
matches_history hexdigest config none = false
matches_history hexdigest config (some c) =
    digest hexdigest (configuration_json config) == digest hexdigest (configuration_json c)

-- `_read` on a state file of this shape: a damaged history is refused, and never reset.
unfoldable pub read : (Value → String) → State → Result State
read hexdigest state =
    if matches_history hexdigest state.configuration (at_revision state.revision state.history)
    then ok state
    else err (configuration "configuration-unavailable")
