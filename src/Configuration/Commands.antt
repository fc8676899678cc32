-- ===== src/Configuration/Commands.antt =====
-- `command`, `command_result`, `_outcome` and `record_outcome` of model_configuration.py: the one
-- write of a new revision, its receipt and its history, and the outcomes of the providers.
use platform_engineering.Prelude.{
  ℕ, ◌+◌, String, Bool, true, false, not, Option, none, some, List, [], ◌∷◌, ◌==◌, eqb,
  if◌then◌else◌, keep, is_empty,
}
use platform_engineering.Dict.{Dict, lookup, has, insert}
use platform_engineering.Json.{
  pos, Value, null, bool, int, str, obj, Fields, end, field, get, value_eq,
}
use platform_engineering.Identifier.{is_identifier, show}
use platform_engineering.Result.{
  Result, ok, err, configuration, type_error, ◌>>=◌, ◌>>◌, require, or_raise,
}
use platform_engineering.Configuration.{
  Owner, Configuration, Receipt, ProviderOutcome, State, set_revision, closed, read, read, digest,
  fingerprint, model_identity, configuration_json,
}
use platform_engineering.Configuration.Validation.{validate}
use platform_engineering.Configuration.Actions.{Applied, apply_action}

-- `re.fullmatch(…, str(command_id))`: the key under which the receipt is retained once the state
-- has been written as JSON and read again. A command id that is not a text passes too.
abbrev pub command_key : Value → Option String
command_key (str s) = if is_identifier s then some s else none
command_key null = some "null"
command_key (bool true) = some "true"
command_key (bool false) = some "false"
command_key (int (pos n)) = if is_identifier (show n) then some (show n) else none
command_key _ = none

-- `state["commands"].get(command_id)` on the state that was read: its keys are texts.
abbrev pub retained : Value → State → Option Receipt
retained (str s) state = lookup s state.commands
retained _ state = none

-- `sort_keys=True` on `state["commands"]`: the keys that were read are texts, so a new key that is not
-- a text can be sorted only when it is alone.
abbrev pub is_sortable : Value → Dict Receipt → Bool
is_sortable (str s) commands = true
is_sortable _ commands = is_empty commands

abbrev pub natural : Value → Result ℕ
natural (int (pos n)) = ok n
natural _ = err (configuration "invalid-command")

-- `{"model": …, "policy": …, "account": …}`, digested
unfoldable pub outcome_binding : (Value → String) → Owner → Fields → Value → String
outcome_binding hexdigest owner model account =
    let policy : Value = elim (get "backend_id" model) [
      | str b ↦ elim (lookup b owner.backends) [ none ↦ null | some k ↦ k.policy ]
      | _ ↦ null
    ] in
    digest hexdigest
      (obj (field "model" (obj model) (field "policy" policy (field "account" account end))))

abbrev last_success_of : String → Option ProviderOutcome → Value
last_success_of binding none = null
last_success_of binding (some o) = if o.binding == binding then o.last_success else null

-- `{key: value for key, value in outcomes.items() if key in models}`
unfoldable pub registered_only {ℓ} : {A : Type ℓ} → Dict Value → Dict A → Dict A
registered_only models = keep (λ e. has e.0 models)

-- `_outcome`
unfoldable pub outcome_recorded :
    (Value → String)
    → Owner
    → (now : String) → State
    → (model_id : String) → Fields
    → (kind code reference : String) → (account : Value) → State
outcome_recorded hexdigest owner now state model_id model kind code reference account =
    let binding = outcome_binding hexdigest owner model account in
    let success : Value =
      if code == "suggestion-produced"
      then obj
          (field "kind" (str kind) (field "at" (str now) (field "reference" (str reference) end)))
      else last_success_of binding (lookup model_id state.provider_outcomes) in
    record state {
      provider_outcomes = registered_only state.configuration.models (
          insert model_id
            (record { binding = binding; at = now; code = code; last_success = success })
            state.provider_outcomes);
    }

-- What is written for a receipt: its own digest is over the other fields.
abbrev receipt_json : Receipt → Value
receipt_json r = obj (
    field "command_id" r.command_id (
      field "command_digest" (str r.command_digest) (
        field "actor" (str r.actor) (
          field "action" r.action (
            field "previous_revision" (int (pos r.previous_revision)) (
              field "revision" (int (pos r.revision))
                (field "configuration_digest" (str r.configuration_digest) end)))))))

unfoldable pub receipt_for : (Value → String) → State → Fields → String → Configuration → Receipt
receipt_for hexdigest state command actor config =
    let draft : Receipt = record {
      command_id = get "command_id" command;
      command_digest = fingerprint hexdigest actor (obj command);
      actor = actor;
      action = get "action" command;
      previous_revision = state.revision;
      revision = state.revision + 1;
      configuration_digest = digest hexdigest (configuration_json config);
      receipt_digest = "";
    } in
    record draft { receipt_digest = digest hexdigest (receipt_json draft) }

-- The state that one accepted command writes.
unfoldable pub commit : State → String → Receipt → Configuration → State
commit state key receipt config = record state {
  revision = state.revision + 1;
  configuration = config;
  history = set_revision (state.revision + 1) config state.history;
  commands = insert key receipt state.commands;
}

abbrev pub with_verification :
    (Value → String) → Owner → String → Option (String × Fields) → String → Value → State → State
with_verification hexdigest owner now none reference account state = state
with_verification hexdigest owner now (some (model_id, model)) reference account state =
    outcome_recorded hexdigest owner now state model_id model "verification" "suggestion-produced"
      reference account

-- The receipt and the state of an action that was accepted.
unfoldable pub accept :
    (Value → String)
    → Owner
    → (now : String) → State
    → Fields
    → (key : String) → (actor : String) → (account : Value) → Applied
    → Receipt × State
accept hexdigest owner now state command key actor account applied =
    let receipt = receipt_for hexdigest state command actor applied.config in
    (
      receipt,
      with_verification hexdigest owner now applied.registered receipt.receipt_digest account
          (commit state key receipt applied.config),
    )

-- A command that is new: everything behind the look-up of its receipt
unfoldable pub execute :
    (Value → String)
    → Owner
    → (now : String) → State
    → Fields
    → (key : String) → (actor : String) → (expected : ℕ) → Option Fields
    → (account : Value) → Result (Receipt × State)
execute hexdigest owner now state command key actor expected verified account = do
  require (eqb state.revision expected) (configuration "revision-conflict")
  applied ← apply_action hexdigest owner state verified (get "action" command) (get "input" command)
  validate hexdigest owner applied.config
  require (is_sortable (get "command_id" command) state.commands) type_error
  ok (accept hexdigest owner now state command key actor account applied)

-- A command whose receipt is there: the same content and actor, or a conflict
abbrev pub replay : (Value → String) → State → String → Fields → Receipt → Result (Receipt × State)
replay hexdigest state actor command previous =
    if previous.command_digest == fingerprint hexdigest actor (obj command)
    then ok (previous, state)
    else err (configuration "command-conflict")

abbrev pub command_keys : List String
command_keys = "command_id" ∷ "expected_revision" ∷ "action" ∷ "input" ∷ []

-- `ModelConfiguration.command`: the receipt, and the state file behind it.
unfoldable pub command :
    (Value → String)
    → Owner
    → (now : String) → State
    → Value
    → (actor : String) → Option Fields
    → (account : Value) → Result (Receipt × State)
command hexdigest owner now state value actor verified account = do
  fields ← closed value command_keys
  require (not (actor == "")) (configuration "invalid-command")
  key ← or_raise (command_key (get "command_id" fields)) (configuration "invalid-command")
  expected ← natural (get "expected_revision" fields)
  current ← read hexdigest state
  elim (retained (get "command_id" fields) current) [
    | some previous ↦ replay hexdigest current actor fields previous
    | none ↦ execute hexdigest owner now current fields key actor expected verified account
  ]

-- `command_result`: the receipt of an earlier command, before any provider is asked
unfoldable pub command_result :
    (Value → String) → State → Fields → (actor : String) → Result (Option Receipt)
command_result hexdigest state fields actor = elim (retained (get "command_id" fields) state) [
  | none ↦ ok none
  | some previous ↦
      if previous.command_digest == fingerprint hexdigest actor (obj fields)
      then ok (some previous)
      else err (configuration "command-conflict")
]

-- The observation of a call, unless its registration has changed
unfoldable pub observed_in :
    (Value → String)
    → Owner
    → (now : String) → State
    → (model : Fields) → (code reference : String) → (account : Value) → State
observed_in hexdigest owner now state model code reference account =
    let model_id = digest hexdigest (model_identity (get "backend_id" model) (get "model" model)) in
    elim (lookup model_id state.configuration.models) [
      | none ↦ state
      | some current ↦
          if value_eq current (obj model)
          then outcome_recorded hexdigest owner now state model_id model "request" code reference
              account
          else state
    ]

-- `record_outcome`: a call that capacity refused records nothing; a damaged state raises.
unfoldable pub record_outcome :
    (Value → String)
    → Owner
    → (now : String) → State
    → (model : Fields) → (code reference : String) → (account : Value) → Result State
record_outcome hexdigest owner now state model code reference account =
    if code == "provider-busy" then ok state else (do
      current ← read hexdigest state
      ok (observed_in hexdigest owner now current model code reference account))
