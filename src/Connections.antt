-- ===== src/Connections.antt =====
-- dev-integration/profiles/governed-ai-gateway/runtime/provider_connections.py: the data of
-- `ProviderConnections`. The file is a value of `Book`; the secret store behind it is a parameter.
pub mod Calls
pub mod Admission
pub mod Commands
pub mod Credentials
pub mod Kept
pub mod Removed
pub mod Gone
pub mod History
pub mod Replay
mod Tests
use Prim.Native.String
use platform_engineering.Prelude.{
  ℕ, suc, ◌+◌, ◌≡◌, String, Bool, true, false, not, ◌&&◌, Option, none, some, List, [], ◌∷◌, ◌==◌,
  if◌then◌else◌, is_some, length, contains,
}
use platform_engineering.Dict.{Dict, lookup, insert}
use platform_engineering.Json.{
  ℤ, pos, Value, null, bool, int, str, arr, obj, Items, nil, cons, Fields, end, field,
  optional_text,
}
use platform_engineering.Text.{first_chars}

pub data ConnectionState : Type 0 where
  active disconnected removing removed : ConnectionState

pub record Connection : Type 0 where
  pub connection_id : String
  pub provider : String
  pub name : String
  pub state : ConnectionState
  pub credential_generation : Option String
  pub pending_operation : Option String
  pub updated_at : String

pub record ConnectionReceipt : Type 0 where
  pub command_id : String
  pub command_digest : String
  pub actor : String
  pub action : Value
  pub connection_id : String
  pub previous_revision : ℕ
  pub revision : ℕ
  pub state_digest : String
  pub receipt_digest : String

pub data OperationState : Type 0 where
  pending finished cancelled : OperationState

pub record Operation : Type 0 where
  pub command_id : String
  pub command_digest : String
  pub actor : String
  pub action : Value
  pub connection_id : Option String
  pub state : OperationState
  pub receipt : Option ConnectionReceipt
  pub vault_version : Option ℕ
  pub previous_vault_version : Option ℕ

-- The content of provider-connections.json
pub record Book : Type 0 where
  pub revision : ℕ
  pub connections : Dict Connection
  pub operations : Dict Operation

-- What `_read` returns without a file
abbrev pub empty_book : Book
empty_book = record { revision = 0; connections = []; operations = [] }

abbrev pub is_removed : ConnectionState → Bool
is_removed removed = true
is_removed _ = false

abbrev pub is_active : ConnectionState → Bool
is_active active = true
is_active _ = false

abbrev pub state_name : ConnectionState → String
state_name active = "active"
state_name disconnected = "disconnected"
state_name removing = "removing"
state_name removed = "removed"

-- One row of `_public`
abbrev public_connection : Connection → Value
public_connection c = obj (
    field "connection_id" (str c.connection_id) (
      field "provider" (str c.provider) (
        field "name" (str c.name) (
          field "state" (str (state_name c.state)) (
            field "credential_generation" (optional_text c.credential_generation) (
              field "pending_operation" (optional_text c.pending_operation) (
                field "updated_at" (str c.updated_at) (
                  field "experimental" (bool true) (
                    field "qualification" (str "real-account-verification-pending") (
                      field "credential_present" (bool (is_some c.credential_generation))
                        end))))))))))

public_connections : Dict Connection → Items
public_connections [] = nil
public_connections ((k, c) ∷ d) =
    let rest = public_connections d in
    if is_removed c.state then rest else cons (public_connection c) rest

-- `_public`; `presets` is the table of api_provider_adapter.py.
unfoldable pub public : (presets : Value) → Book → Value
unfolding public_connections
public presets book = obj (
    field "revision" (int (pos book.revision)) (
      field "presets" presets
        (field "connections" (arr (public_connections book.connections)) end)))

-- `len([x for x in … if x["state"] != "removed"])`
unfoldable pub count_kept : Dict Connection → ℕ
count_kept [] = 0
count_kept ((k, c) ∷ d) = let rest = count_kept d in if is_removed c.state then rest else suc rest

-- A change of the object that the tables hold under a key
abbrev pub put_connection : String → Connection → Book → Book
put_connection key c book = record book { connections = insert key c book.connections }

abbrev pub put_operation : String → Operation → Book → Book
put_operation key o book = record book { operations = insert key o book.operations }

abbrev receipt_json : ConnectionReceipt → Value
receipt_json r = obj (
    field "command_id" (str r.command_id) (
      field "command_digest" (str r.command_digest) (
        field "actor" (str r.actor) (
          field "action" r.action (
            field "connection_id" (str r.connection_id) (
              field "previous_revision" (int (pos r.previous_revision)) (
                field "revision" (int (pos r.revision))
                  (field "state_digest" (str r.state_digest) end))))))))

-- `_finish`: the connection and the operation as they are then, and the file
unfoldable pub finish :
    (Value → String)
    → (presets : Value) → (now : String) → Book
    → (operation_key : String) → Operation
    → (connection_key : String) → Connection
    → ConnectionReceipt × Book
unfolding public
finish hexdigest presets now book operation_key operation connection_key connection =
    let closed_connection : Connection = record connection {
      pending_operation = none;
      updated_at = now;
    } in
    let moved : Book = record (put_connection connection_key closed_connection book) {
      revision = book.revision + 1;
    } in
    let draft : ConnectionReceipt = record {
      command_id = operation.command_id;
      command_digest = operation.command_digest;
      actor = operation.actor;
      action = operation.action;
      connection_id = connection.connection_id;
      previous_revision = book.revision;
      revision = book.revision + 1;
      state_digest = String.◌++◌ "sha256:" (hexdigest (public presets moved));
      receipt_digest = "";
    } in
    let receipt : ConnectionReceipt = record draft {
      receipt_digest = String.◌++◌ "sha256:" (hexdigest (receipt_json draft));
    } in
    (
      receipt,
      put_operation operation_key (record operation { state = finished; receipt = some receipt })
          moved,
    )
