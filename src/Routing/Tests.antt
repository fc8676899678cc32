-- ===== src/Routing/Tests.antt =====
-- The theorems on `TaskRouting` at two models of one backend, the first of which is unavailable.
use platform_engineering.Prelude.{
  Option, ℕ, zero, suc, ◌≤◌, ◌≡◌, refl, String, Bool, true, false, none, some, List, [], ◌∷◌,
  length, if◌then◌else◌,
}
use platform_engineering.Dict.{Dict, lookup, has, insert}
use platform_engineering.Text.{code_points}
use platform_engineering.Json.{
  int, pos, ℤ, Value, null, str, obj, arr, nil, cons, Items, Fields, end, field, find, get, keys,
  is_text, value_eq, mem_items,
}
use platform_engineering.Identifier.{is_digest, after}
use platform_engineering.Result.{Result, ok, err, configuration}
use platform_engineering.Configuration.{
  read, at_revision, configuration_json, Owner, Configuration, initial, digest, empty_configuration,
  dict_json,
}
use platform_engineering.Configuration.Validation.{
  validate_route, validate_target, validate_targets, no_repeats, all_efforts, is_seen,
}
use platform_engineering.Configuration.Commands.{record_outcome, observed_in}
use platform_engineering.Configuration.Snapshot.{Snapshot, Selection, selection, models_of}
use platform_engineering.Journal.{
  Journal, Invocation, Opened, invocation, pending, finished, finish,
}
use platform_engineering.Routing.{
  RoutedProfile, Complete, Answer, source_selection, effective_selection, identity_of,
  selection_json, selection_ref, evidence_of, observe_from, conclude, dispatch, task_of, invoke,
  or_null,
}
use platform_engineering.Routing.Candidates.{
  Provider, completed, unavailable, Attempt, candidate_of, proceed, run_from,
}
use platform_engineering.Routing.Loop.{ButLast, Unsubmitted, IsProduced}
use platform_engineering.Routing.Output.{run_from-Conforms}
use platform_engineering.Schema.{
  passes, validate_output, validate_supported_schema, flat_checks, types_of, texts_of, matches_type,
  within,
}
use platform_engineering.Schema.Conforms.{Conforms}
use platform_engineering.Routing.Dispatch.{invoke_attempts}
use platform_engineering.Routing.Once.{invoke_again, invoke_conflict, invoke_lost}

-- A digest that tells the two requests apart
abbrev hexdigest : Value → String
unfolding get
hexdigest (obj d) = if is_text (get "input" d) "other" then "o" else "r"
hexdigest _ = "c"

abbrev owner : Owner
owner = record {
  tasks = "intake-v1/classify" ∷ [];
  backends = ("local", record { allowed_tasks = "intake-v1/classify" ∷ []; policy = null }) ∷ [];
  profiles = [];
}

abbrev model_named : String → Value
model_named name = obj (
    field "backend_id" (str "local") (
      field "model" (str name) (
        field "supported_efforts" (arr (cons null nil)) (
          field "model_digest" (str "d") (
            field "runtime_version" null (
              field "verification_ref"
                (str "sha256:0123456789abcdef0123456789abcdef0123456789abcdef0123456789abcdef")
                end))))))

abbrev target : String → Value
target id = obj (field "model_id" (str id) (field "effort" null end))

abbrev models : Dict Value
models = ("a", model_named "first") ∷ ("b", model_named "second") ∷ []

abbrev targets : Items
targets = cons (target "a") (cons (target "b") nil)

abbrev configured : Configuration
configured = record empty_configuration {
  backends = ("local", obj (field "backend_id" (str "local") end)) ∷ [];
  models = models;
  default = obj (
      field "primary" (target "a") (
        field "fallbacks" (arr (cons (target "b") nil))
          (field "on_exhausted" (str "fail-closed") end)));
}

abbrev shown : Snapshot
shown = record {
  revision = 3;
  current_revision = 3;
  digest = "sha256:c";
  configuration = configured;
  history = [];
}

abbrev cleared : Snapshot
cleared = record {
  revision = 4;
  current_revision = 4;
  digest = "sha256:c";
  configuration = empty_configuration;
  history = [];
}

abbrev profile : RoutedProfile
profile = record {
  profile_id = "intake-v1";
  upstream_model = str "m";
  model_digest = str "d";
  runtime_version = null;
  selected_policy_profile_id = none;
}

abbrev request_of : String → Fields
request_of input =
    field "caller_identity"
      (obj (field "caller_id" (str "console") (field "decision_or_correlation_id" (str "n1") end)))
      (field "operator_identity" (obj (field "operator_id" (str "alice") end))
        (field "input" (str input) end))

abbrev identity : Value
identity = obj (
    field "caller" (str "console") (
      field "operator" (str "alice") (
        field "profile" (str "intake-v1")
          (field "task" (str "classify") (field "invocation" (str "n1") end)))))

-- The first target is unavailable, the second answers.
abbrev provider : Provider
provider zero used effort = record { ending = unavailable; account = null }
provider (suc i) used effort = record { ending = completed (str "yes"); account = null }

-- Providers that would answer something else
abbrev provider' : Provider
provider' i used effort = record { ending = completed (str "no"); account = null }

abbrev accepts : Value → Bool
accepts v = true

abbrev now : ℕ → String
now i = "t"

abbrev said : Option Value → Option String → Value
said result none = or_null result
said result (some failure) = str failure

-- A callback that counts its calls
abbrev complete : Complete
complete = record {
  Ledger = ℕ;
  reply = λ calls result evidence attempts failure. (suc calls, ok (said result failure));
}

abbrev attempt_of : String → String → Attempt
attempt_of name outcome = record {
  backend_id = "local";
  model = str name;
  effort = null;
  outcome = outcome;
}

abbrev two_attempts : List Attempt
two_attempts =
    attempt_of "first" "provider-unavailable" ∷ attempt_of "second" "suggestion-produced" ∷ []

abbrev frozen : Selection
frozen = record {
  revision = 3;
  configuration_digest = "sha256:c";
  task = "intake-v1/classify";
  route = configured.default;
  models = models;
  policy_profile_id = none;
}

abbrev record_of : Selection → Invocation
record_of s = record {
  identity = identity;
  request_digest = "sha256:r";
  selection = s;
  state = pending;
  result = none;
}

abbrev done : Journal
done = ("r", record (record_of frozen) { state = finished; result = some (str "yes") }) ∷ []

abbrev answer : Answer complete
answer = record {
  response = ok (str "yes");
  journal = done;
  state = initial;
  ledger = 1;
  attempts = two_attempts;
}

call : Snapshot → Journal → Fields → Provider → Result (Answer complete)
unfolding invoke effective_selection selection validate_route validate_targets validate_target
    all_efforts no_repeats is_seen mem_items is_digest models_of find get keys value_eq lookup has
    insert identity_of digest invocation dispatch run_from proceed candidate_of conclude evidence_of
    selection_ref selection_json dict_json observe_from record_outcome observed_in read at_revision
    configuration_json finish source_selection task_of after
call s j request p =
    invoke hexdigest accepts p now complete owner initial 0 false j request profile "classify" s

first_call :
    invoke hexdigest accepts provider now complete owner initial 0 false []
      (request_of "text")
      profile
      "classify"
      shown
    ≡ ok answer
unfolding call
first_call = refl

cleared_selection :
    effective_selection owner cleared profile (task_of profile "classify")
    ≡ ok (source_selection cleared profile "intake-v1/classify")
unfolding call
cleared_selection = refl

nothing_there : (id : Value) (r : Invocation) → lookup (hexdigest id) [] ≡ some r → ⊥
unfolding lookup
nothing_there id r e = cc

-- The configuration was cleared since, and the providers answer differently.
invoke_again_example :
    invoke hexdigest accepts provider' now complete owner initial 1 false done
      (request_of "text")
      profile
      "classify"
      cleared
    ≡ ok (record {
      response = ok (str "yes");
      journal = done;
      state = initial;
      ledger = 1;
      attempts = [];
    })
invoke_again_example =
    invoke_again hexdigest complete complete (request_of "text") profile "classify" accepts accepts
      provider provider' now now owner owner initial initial 0 1 false [] shown cleared
      (source_selection cleared profile "intake-v1/classify") answer (str "yes") first_call refl
      (λ id r i e. absurd (nothing_there id r e)) cleared_selection

invoke_conflict_example :
    invoke hexdigest accepts provider' now complete owner initial 1 false done
      (request_of "other")
      profile
      "classify"
      cleared
    ≡ err (configuration "invocation-conflict")
invoke_conflict_example =
    invoke_conflict hexdigest complete complete (request_of "text") (request_of "other") profile
      "classify" accepts accepts provider provider' now now owner owner initial initial 0 1 false []
      shown cleared (source_selection cleared profile "intake-v1/classify") answer first_call
      cleared_selection (unfold identity_of get find in refl) (unfold digest get find in refl)

abbrev opened : Opened
opened = record { current = record_of frozen; fresh = true; journal = ("r", record_of frozen) ∷ [] }

invoke_lost_example :
    invoke hexdigest accepts provider' now complete owner initial 1 false opened.journal
      (request_of "text")
      profile
      "classify"
      cleared
    ≡ ok (record {
      response = ok (str "provider-completion-unknown");
      journal = opened.journal;
      state = initial;
      ledger = 2;
      attempts = [];
    })
invoke_lost_example =
    invoke_lost hexdigest complete (request_of "text") profile "classify" [] identity frozen opened
      accepts provider' now owner initial 1 cleared
      (source_selection cleared profile "intake-v1/classify") (unfold identity_of get find in refl)
      (unfold invocation digest get find lookup insert in refl) refl cleared_selection

invoke_attempts_example : ButLast Unsubmitted two_attempts × (length two_attempts ≤ 5)
invoke_attempts_example =
    invoke_attempts hexdigest accepts provider now complete owner initial 0 false []
      (request_of "text") profile "classify" shown answer first_call

abbrev parse : String → Option ℤ
parse s = none

abbrev verdict : Value
verdict = obj (
    field "type" (arr (cons (str "string") (cons (str "null") nil)))
      (field "maxLength" (int (pos 5)) end))

run_from-Conforms_example :
    (v : Value) × ((run_from (passes parse verdict) provider models 0 targets).result ≡ some v)
    × Conforms parse v verdict
    × IsProduced provider 0 (run_from (passes parse verdict) provider models 0 targets).made v
unfolding call passes validate_output validate_supported_schema flat_checks types_of texts_of
    matches_type within code_points
run_from-Conforms_example = run_from-Conforms parse verdict provider models targets refl
