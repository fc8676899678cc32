-- ===== src/Connections/Admission.antt =====
-- The parts of `ProviderConnections.command` (provider_connections.py) that write nothing: `_admit`, the
-- checks of a new connection, and what a change of a connection makes of a pending operation.
use Prim.Native.String
use platform_engineering.Prelude.{
  ℕ, String, Bool, true, false, not, ◌&&◌, Option, none, some, List, [], ◌∷◌, ◌==◌, eqb, leb, ltb,
  if◌then◌else◌, contains,
}
use platform_engineering.Dict.{lookup}
use platform_engineering.Json.{
  pos, Value, int, str, arr, obj, Fields, end, field, get, is_text, truthy,
}
use platform_engineering.Identifier.{is_identifier, is_connection_id}
use platform_engineering.Text.{strip, first_chars, code_points}
use platform_engineering.Result.{
  Result, ok, err, configuration, type_error, require, or_raise, ◌>>=◌, ◌>>◌,
}
use platform_engineering.Configuration.{closed, fingerprint}
use platform_engineering.Configuration.Commands.{command_keys}
use platform_engineering.Connections.{
  Book, Connection, Operation, active, pending, cancelled, is_removed, count_kept, put_operation,
}

-- `identifier`
abbrev pub identifier : Value → Result String
identifier (str s) = if is_identifier s then ok s else err (configuration "invalid-command")
identifier _ = err (configuration "invalid-command")

-- The checks of `lock_connection`
abbrev pub lockable : Value → Result String
lockable (str s) = if is_connection_id s then ok s else err (configuration "invalid-connection")
lockable _ = err (configuration "invalid-connection")

-- A command that names a connection takes its lock first.
abbrev pub locked_first : Value → Result (Unit {0})
locked_first (obj command) = elim (get "input" command) [
  | obj input ↦
      if truthy (get "connection_id" input)
      then elim (lockable (get "connection_id" input)) [ ok id ↦ ok tt | err e ↦ err e ]
      else ok tt
  | _ ↦ ok tt
]
locked_first _ = ok tt

abbrev pub found_as : String → Option Connection → Result (String × Connection)
found_as id none = err (configuration "connection-not-found")
found_as id (some item) = ok (id, item)

-- `_connection`
abbrev pub connection_of : Book → Value → Result (String × Connection)
connection_of book (str id) = found_as id (lookup id book.connections)
connection_of book _ = err (configuration "connection-not-found")

-- The operation of a command: its key, the object, and the file with it in memory
pub record Admitted : Type 0 where
  pub key : String
  pub operation : Operation
  pub book : Book

abbrev pub is_revision : ℕ → Value → Bool
is_revision n (int (pos m)) = eqb m n
is_revision n _ = false

abbrev pub new_operation : String → String → String → Value → Operation
new_operation id fingerprint actor action = record {
  command_id = id;
  command_digest = fingerprint;
  actor = actor;
  action = action;
  connection_id = none;
  state = pending;
  receipt = none;
  vault_version = none;
  previous_vault_version = none;
}

-- What `_admit` makes of the operation that is there
abbrev pub admitted_by :
    Book → String → String → String → Fields → Option Operation → Result Admitted
admitted_by book id fingerprint actor fields (some old) =
    if old.command_digest == fingerprint
    then ok (record { key = id; operation = old; book = book })
    else err (configuration "command-conflict")
admitted_by book id fingerprint actor fields none =
    let made = new_operation id fingerprint actor (get "action" fields) in
    if is_revision book.revision (get "expected_revision" fields)
    then ok (record { key = id; operation = made; book = put_operation id made book })
    else err (configuration "revision-conflict")

-- `_admit`
unfoldable pub admit : (Value → String) → Book → Value → (actor : String) → Result Admitted
admit hexdigest book command actor = do
  fields ← closed command command_keys
  id ← identifier (get "command_id" fields)
  operator ← identifier (str actor)
  admitted_by book id (fingerprint hexdigest actor command) actor fields (lookup id book.operations)

-- The provider and the name of `connection.create`
abbrev pub provider_in : List String → Value → Result (Option String)
provider_in providers (str s) = ok (if contains s providers then some s else none)
provider_in providers (arr xs) = err type_error
provider_in providers (obj d) = err type_error
provider_in providers _ = ok none

abbrev pub name_in : Value → Option String
name_in (str s) =
    let name = strip s in
    if ltb 0 (code_points name) && leb (code_points name) 100 then some name else none
name_in _ = none

unfoldable pub connection_id_of : (Value → String) → (actor command_id : String) → String
connection_id_of hexdigest actor command_id = String.◌++◌ "api-" (
    first_chars 32
      (hexdigest (obj (field "actor" (str actor) (field "command" (str command_id) end)))))

-- `connection.create`: the new connection
unfoldable pub create :
    (Value → String)
    → (providers : List String) → (now : String) → Book
    → (actor command_id : String) → Value
    → Result Connection
create hexdigest providers now book actor command_id value = do
  payload ← closed value ("provider" ∷ "name" ∷ [])
  found ← provider_in providers (get "provider" payload)
  provider ← or_raise found (configuration "invalid-connection")
  name ← or_raise (name_in (get "name" payload)) (configuration "invalid-connection")
  require (ltb (count_kept book.connections) 16) (configuration "connection-limit")
  ok (record {
    connection_id = connection_id_of hexdigest actor command_id;
    provider = provider;
    name = name;
    state = active;
    credential_generation = none;
    pending_operation = none;
    updated_at = now;
  })

pub data Change : Type 0 where
  disconnect reconnect remove : Change

abbrev is_reconnect : Change → Bool
is_reconnect reconnect = true
is_reconnect _ = false

abbrev cancels : Change → Operation → Bool
cancels change prior = not (is_reconnect change) && is_text prior.action "connection.credentials"

-- Another operation that is pending on the connection: an unfinished write of a secret is fenced, any
-- other has to be reconciled first.
abbrev pub fence_prior : Change → Book → String → Option Operation → Result Book
fence_prior change book key none = err (configuration "credential-reconcile-required")
fence_prior change book key (some prior) =
    if cancels change prior
    then ok (put_operation key (record prior { state = cancelled; receipt = none }) book)
    else err (configuration "credential-reconcile-required")

unfoldable pub fence_pending :
    Change → Book → (operation_key : String) → Option String → Result Book
fence_pending change book operation_key none = ok book
fence_pending change book operation_key (some key) =
    if key == operation_key
    then ok book
    else fence_prior change book key (lookup key book.operations)

-- The connection that a change is for, the operation bound to it, and the file with both in memory
pub record Bound : Type 0 where
  pub key : String
  pub item : Connection
  pub operation : Operation
  pub book : Book

unfoldable pub bind : Change → Admitted → Value → Result Bound
bind change admitted value = do
  payload ← closed value ("connection_id" ∷ [])
  found ← connection_of admitted.book (get "connection_id" payload)
  require (not (is_removed found.1.state)) (configuration "connection-removed")
  fenced ← fence_pending change admitted.book admitted.key found.1.pending_operation
  let operation : Operation = record (admitted.operation) {
    connection_id = some found.1.connection_id;
  }
  ok (record {
    key = found.0;
    item = found.1;
    operation = operation;
    book = put_operation admitted.key operation fenced;
  })

-- `action`: `create`, one of the changes, or not admitted
pub data Action : Type 0 where
  creates : Action
  changes : Change → Action

unfoldable pub action_of : Value → Result Action
action_of (str s) =
    if s == "connection.create"
    then ok creates
    else if s == "connection.disconnect"
    then ok (changes disconnect)
    else if s == "connection.reconnect"
    then ok (changes reconnect)
    else if s == "connection.remove"
    then ok (changes remove)
    else err (configuration "action-not-allowed")
action_of (arr xs) = err type_error
action_of (obj d) = err type_error
action_of _ = err (configuration "action-not-allowed")
