-- ===== src/Configuration/Tests.antt =====
-- The theorems on `ModelConfiguration` at a small owner: one backend, one task.
use platform_engineering.Prelude.{
  ℕ, ◌+◌, ◌≡◌, ◌⊎◌, refl, String, true, none, some, [], ◌∷◌, if◌then◌else◌, ◌≤◌,
}
use platform_engineering.Dict.{lookup, has, insert}
use platform_engineering.Json.{
  pos, Value, null, int, str, obj, arr, nil, cons, Fields, end, field, find, get, keys, is_text,
  is_null, value_eq, mem_items,
}
use platform_engineering.Identifier.{is_identifier, is_digest, show}
use platform_engineering.Result.{Result, ok, err, type_error, for_each}
use platform_engineering.Configuration.{
  Owner, Backend, Configuration, Receipt, State, ProviderOutcome, at_revision, set_revision, read,
  initial, digest, fingerprint, configuration_json, empty_configuration,
}
use platform_engineering.Configuration.Validation.{
  validate, validate_backend, validate_model, validate_task, validate_route, validate_target,
  validate_targets, route_of, no_repeats, all_efforts, is_seen,
}
use platform_engineering.Configuration.Actions.{
  apply_action, register_backend, roll_back, revision_of,
}
use platform_engineering.Configuration.Commands.{
  command, execute, accept, commit, receipt_for, natural, record_outcome, observed_in,
  outcome_recorded, outcome_binding, registered_only,
}
use platform_engineering.Configuration.Observed.{outcome, outcome-record_outcome}
use platform_engineering.Configuration.Invariant.{IsValid, command-IsValid, initial-IsValid}
use platform_engineering.Configuration.Replay.{here, commanded}
use platform_engineering.Configuration.Lost.{command-replays}
use platform_engineering.Configuration.Revisions.{command-appends, command_rollback}
use platform_engineering.Configuration.Routes.{IsRoute, validate-IsRoute}

-- A digest that tells the actors apart
abbrev hexdigest : Value → String
unfolding get
hexdigest (obj d) = if is_text (get "actor" d) "alice" then "a" else "b"
hexdigest _ = "c"

abbrev owner : Owner
owner = record {
  tasks = "intake-v1/classify" ∷ [];
  backends = ("local", record { allowed_tasks = "intake-v1/classify" ∷ []; policy = null }) ∷ [];
  profiles = [];
}

abbrev a_command : Value → ℕ → String → Fields → Fields
a_command id revision action input = field "command_id" id (
    field "expected_revision" (int (pos revision))
      (field "action" (str action) (field "input" (obj input) end)))

abbrev register : Value → ℕ → Fields
register id revision =
    a_command id revision "backend.register" (field "backend_id" (str "local") end)

abbrev registered : Configuration
registered = record empty_configuration {
  backends = ("local", obj (field "backend_id" (str "local") end)) ∷ [];
}

abbrev receipt_of : Value → Receipt
receipt_of id = record {
  command_id = id;
  command_digest = "sha256:a";
  actor = "alice";
  action = str "backend.register";
  previous_revision = 0;
  revision = 1;
  configuration_digest = "sha256:b";
  receipt_digest = "sha256:a";
}

abbrev state_of : Value → String → State
state_of id key = record {
  revision = 1;
  configuration = registered;
  history = (0, empty_configuration) ∷ (1, registered) ∷ [];
  commands = (key, receipt_of id) ∷ [];
  provider_outcomes = [];
}

-- `alice` or another operator sends a command.
send : State → Fields → String → Result (Receipt × State)
unfolding command execute accept commit receipt_for apply_action register_backend roll_back read
    validate for_each validate_backend validate_task digest fingerprint configuration_json
    at_revision set_revision lookup has insert find get keys value_eq is_identifier show
send s fields actor = command hexdigest owner "t0" s (obj fields) actor none null

command-registers :
    command hexdigest owner "t0" initial (obj (register (str "c1") 0)) "alice" none null
    ≡ ok (receipt_of (str "c1"), state_of (str "c1") "c1")
unfolding send
command-registers = refl

state_of-IsValid : IsValid hexdigest owner (state_of (str "c1") "c1")
state_of-IsValid =
    command-IsValid hexdigest owner "t0" initial (obj (register (str "c1") 0)) "alice" none null
      (receipt_of (str "c1")) (state_of (str "c1") "c1") (initial-IsValid hexdigest owner)
      command-registers

command-IsValid_example : IsValid hexdigest owner (state_of (str "c1") "c1")
command-IsValid_example =
    command-IsValid hexdigest owner "t0" initial (obj (register (str "c1") 0)) "alice" none null
      (receipt_of (str "c1")) (state_of (str "c1") "c1") (initial-IsValid hexdigest owner)
      command-registers

-- `bob` goes back to the first configuration.
abbrev back : Fields
back = a_command (str "c2") 1 "routing.rollback" (field "revision" (int (pos 0)) end)

abbrev back_receipt : Receipt
back_receipt = record {
  command_id = str "c2";
  command_digest = "sha256:b";
  actor = "bob";
  action = str "routing.rollback";
  previous_revision = 1;
  revision = 2;
  configuration_digest = "sha256:b";
  receipt_digest = "sha256:b";
}

abbrev back_state : State
back_state = record {
  revision = 2;
  configuration = empty_configuration;
  history = (0, empty_configuration) ∷ (1, registered) ∷ (2, empty_configuration) ∷ [];
  commands = ("c1", receipt_of (str "c1")) ∷ ("c2", back_receipt) ∷ [];
  provider_outcomes = [];
}

command-rolls_back :
    command hexdigest owner "t1" (state_of (str "c1") "c1") (obj back) "bob" none null
    ≡ ok (back_receipt, back_state)
unfolding send
command-rolls_back = refl

command-replays_example :
    command hexdigest owner "t2" back_state (obj (register (str "c1") 0)) "alice" none null
    ≡ ok (receipt_of (str "c1"), back_state)
command-replays_example =
    command-replays hexdigest owner "t0" initial (register (str "c1") 0) "c1" "alice" none null
      (receipt_of (str "c1")) (state_of (str "c1") "c1") (initial-IsValid hexdigest owner)
      (unfold get find in refl) command-registers back_state "t2" none null
      (commanded "t1" (obj back) "bob" none null back_receipt here command-rolls_back)

command-appends_example :
    (natural (get "expected_revision" (register (str "c1") 0)) ≡ ok 0)
    × (1 ≡ 0 + 1)
    × (1 ≡ 0 + 1)
    × (at_revision 1 (state_of (str "c1") "c1").history ≡ some registered)
    × ((r : ℕ)
        → r ≤ 0
        → at_revision r (state_of (str "c1") "c1").history ≡ at_revision r initial.history)
command-appends_example =
    command-appends hexdigest owner "t0" initial (register (str "c1") 0) "alice" none null
      (receipt_of (str "c1")) (state_of (str "c1") "c1") (initial-IsValid hexdigest owner)
      (unfold get find lookup in refl) command-registers

command_rollback_example :
    (d : Fields) × (get "input" back ≡ obj d)
    × (revision_of (get "revision" d) (state_of (str "c1") "c1") ≡ some empty_configuration)
command_rollback_example =
    command_rollback hexdigest owner "t1" (state_of (str "c1") "c1") back "bob" none null
      back_receipt back_state (unfold get find lookup in refl) (unfold get find in refl)
      command-rolls_back

-- Beside a receipt, an identity that is a number cannot be sorted, and nothing is written.
number_refused :
    send
      (state_of (str "c1") "c1")
      (a_command (int (pos 7)) 1 "routing.rollback" (field "revision" (int (pos 0)) end))
      "bob"
    ≡ err type_error
unfolding send
number_refused = refl

-- A default route to one registered model
abbrev reference : String
reference = "sha256:0123456789abcdef0123456789abcdef0123456789abcdef0123456789abcdef"

abbrev model : Value
model = obj (
    field "backend_id" (str "local") (
      field "model" (str "m1") (
        field "supported_efforts" (arr (cons null nil)) (
          field "model_digest" (str "d1")
            (field "runtime_version" null (field "verification_ref" (str reference) end))))))

abbrev routed : Configuration
routed = record registered {
  models = ("sha256:b", model) ∷ [];
  default = obj (
      field "primary" (obj (field "model_id" (str "sha256:b") (field "effort" null end)))
        (field "fallbacks" (arr nil) (field "on_exhausted" (str "fail-closed") end)));
}

validate-routed : validate hexdigest owner routed ≡ ok tt
unfolding send validate_model validate_route validate_targets validate_target all_efforts no_repeats
    is_seen mem_items is_digest
validate-routed = refl

validate-IsRoute_example :
    (is_null (route_of routed "intake-v1/classify") ≡ true)
    ⊎ IsRoute owner routed "intake-v1/classify" (route_of routed "intake-v1/classify")
validate-IsRoute_example =
    validate-IsRoute hexdigest owner routed "intake-v1/classify" validate-routed refl

abbrev local_backend : Backend
local_backend = record { allowed_tasks = "intake-v1/classify" ∷ []; policy = null }

-- A digest that tells two accounts apart
abbrev by_account : Value → String
unfolding get
by_account (obj d) = if is_text (get "account" d) "second" then "2" else "1"
by_account _ = "c"

abbrev local_model : Fields
local_model = field "backend_id" (str "local") (field "model" (str "m") end)

abbrev with_model : Configuration
with_model = record empty_configuration { models = ("sha256:1", obj local_model) ∷ [] }

abbrev before_call : State
before_call = record {
  revision = 0;
  configuration = with_model;
  history = (0, with_model) ∷ [];
  commands = [];
  provider_outcomes = [];
}

abbrev produced : ProviderOutcome
produced = record {
  binding = "sha256:1";
  at = "t9";
  code = "provider-unavailable";
  last_success = null;
}

recorded :
    record_outcome by_account owner "t9" before_call local_model "provider-unavailable" "r"
      (str "first")
    ≡ ok (record before_call { provider_outcomes = ("sha256:1", produced) ∷ [] })
unfolding record_outcome observed_in outcome_recorded outcome_binding registered_only read
    configuration_json at_revision digest lookup has insert get find value_eq keys
recorded = refl

outcome-record_outcome_example :
    (o : ProviderOutcome) × (o.code ≡ "provider-unavailable")
    × (o.at ≡ "t9")
    × (outcome by_account owner
          (record before_call { provider_outcomes = ("sha256:1", produced) ∷ [] })
          "sha256:1"
          local_model
          (str "first")
        ≡ ok (some o))
    × (outcome by_account owner
          (record before_call { provider_outcomes = ("sha256:1", produced) ∷ [] })
          "sha256:1"
          local_model
          (str "second")
        ≡ ok none)
unfolding recorded
outcome-record_outcome_example =
    outcome-record_outcome by_account owner owner "t9" before_call
      (record before_call { provider_outcomes = ("sha256:1", produced) ∷ [] }) local_model
      "provider-unavailable" "r" "local" (str "first") (str "second") (obj local_model)
      local_backend local_backend recorded refl refl refl refl refl refl refl
