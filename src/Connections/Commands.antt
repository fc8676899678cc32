-- ===== src/Connections/Commands.antt =====
-- `ProviderConnections.command` of provider_connections.py and `_fence`: what is written, and
-- when. The locks make a call one step; `now` is the time that it writes.
use Prim.Native.String
use platform_engineering.Prelude.{String, not, ◌&&◌, Option, none, some, List, if◌then◌else◌}
use platform_engineering.Dict.{has}
use platform_engineering.Json.{
  pos, Value, null, int, str, obj, Fields, end, field, get, is_text, is_null, as_fields,
}
use platform_engineering.Result.{Result, ok, err, configuration}
use platform_engineering.Program.{Call, returning, lift, check, world, ◌>>=◌, ◌>>◌}
use platform_engineering.Configuration.{Receipt, Owner, State}
use platform_engineering.Configuration.Actions.{uses_backend}
use platform_engineering.Configuration.Commands.{command_keys}
use platform_engineering.Configuration.Commands
use platform_engineering.Configuration.Snapshot.{Snapshot, snapshot}
use platform_engineering.Connections.{
  Book, Connection, ConnectionReceipt, Operation, OperationState, active, disconnected, removing,
  removed, pending, finished, cancelled, put_connection, finish,
}
use platform_engineering.Connections.Calls.{
  Vault, World, retained_book, save, read_vault, write_vault,
}
use platform_engineering.Connections.Admission.{
  Action, Admitted, Bound, Change, disconnect, reconnect, remove, creates, changes, locked_first,
  admit, create, bind, action_of,
}

-- `_fence`: a tombstone under the next version of the store
unfoldable pub fence : {vault : Vault} → Connection → Operation → Call (World vault) (Unit {0})
fence item operation = do
  retained ← read_vault item.connection_id none
  if is_text (get "operation_id" retained.content) operation.command_id
        && is_null (get "api_key" retained.content)
      then returning tt
      else write_vault item.connection_id retained.version (
          field "operation_id" (str operation.command_id)
            (field "actor" (str operation.actor) (field "api_key" null end)))

-- The command that takes the connection out of the model configuration
abbrev backend_removal : (Value → String) → Snapshot → Operation → Connection → Value
backend_removal hexdigest config operation item = obj (
    field "command_id"
      (str (String.◌++◌ "remove-connection:" (hexdigest (str operation.command_id))))
      (field "expected_revision" (int (pos config.revision)) (
        field "action" (str "backend.remove")
          (field "input" (obj (field "backend_id" (str item.connection_id) end)) end))))

-- The service that a call runs in: the presets of the adapter, the owner of the model configuration, and
-- the times that the connections and the configuration write
pub record Service : Type 0 where
  pub hexdigest : Value → String
  pub presets : Value
  pub providers : List String
  pub owner : Owner
  pub now : String
  pub configuration_now : String

abbrev pub configured :
    {vault : Vault} → World vault → Result (Receipt × State) → World vault × Result (Unit {0})
configured w (ok (receipt, models)) = (record w { models = models }, ok tt)
configured w (err e) = (w, err e)

module _ {vault : Vault} (service : Service) where
  open service use {hexdigest, presets, providers, owner, now, configuration_now}

  -- `_finish`, with its write
  unfoldable pub finish_call :
      Book
      → (operation_key : String) → Operation
      → (connection_key : String) → Connection
      → Call (World vault) (Option ConnectionReceipt)
  finish_call book operation_key operation connection_key item = do
    let (receipt, written) =
        finish hexdigest presets now book operation_key operation connection_key item
    save written
    returning (some receipt)

  -- `self.configuration.command(…)`
  unfoldable pub configure : Value → String → Call (World vault) (Unit {0})
  configure value actor w =
      configured w
        (Commands.command hexdigest owner configuration_now w.models value actor none null)

  -- `connection.remove`
  unfoldable pub remove_connection :
      String → Bound → (actor : String) → Call (World vault) (Option ConnectionReceipt)
  remove_connection operation_key b actor = do
    w ← world
    config ← lift (snapshot hexdigest w.models none)
    used ← lift (uses_backend b.item.connection_id config.configuration.models)
    check (not used) (configuration "connection-in-use")
    let leaving : Connection = record (b.item) {
      state = removing;
      pending_operation = some operation_key;
    }
    let book = put_connection b.key leaving b.book
    save book
    if has b.item.connection_id config.configuration.backends
        then configure (backend_removal hexdigest config b.operation b.item) actor
        else returning tt
    fence b.item b.operation
    finish_call book operation_key b.operation b.key
        (record leaving { state = removed; credential_generation = none })

  -- `connection.disconnect`
  unfoldable pub disconnect_connection :
      String → Bound → Call (World vault) (Option ConnectionReceipt)
  disconnect_connection operation_key b = do
    let leaving : Connection = record (b.item) {
      state = disconnected;
      pending_operation = some operation_key;
    }
    let book = put_connection b.key leaving b.book
    save book
    fence b.item b.operation
    finish_call book operation_key b.operation b.key
        (record leaving { credential_generation = none })

  abbrev pub apply_change :
      Change → String → Bound → (actor : String) → Call (World vault) (Option ConnectionReceipt)
  apply_change remove key b actor = remove_connection key b actor
  apply_change disconnect key b actor = disconnect_connection key b
  apply_change reconnect key b actor =
      finish_call b.book key b.operation b.key (record (b.item) { state = active })

  abbrev pub perform :
      Action → Admitted → Fields → (actor : String) → Call (World vault) (Option ConnectionReceipt)
  perform creates admitted command actor = do
    item ←
        lift (create hexdigest providers now admitted.book actor admitted.key (get "input" command))
    let operation : Operation = record (admitted.operation) {
      connection_id = some item.connection_id;
    }
    finish_call (put_connection item.connection_id item admitted.book) admitted.key operation
        item.connection_id item
  perform (changes change) admitted command actor = do
    bound ← lift (bind change admitted (get "input" command))
    apply_change change admitted.key bound actor

  -- The action of an operation that is not finished
  unfoldable pub act :
      Admitted → Fields → (actor : String) → Call (World vault) (Option ConnectionReceipt)
  act admitted command actor = do
    action ← lift (action_of (get "action" command))
    perform action admitted command actor

  abbrev pub answer :
      OperationState
      → Admitted
      → Fields
      → (actor : String) → Call (World vault) (Option ConnectionReceipt)
  answer finished admitted command actor = returning admitted.operation.receipt
  answer pending admitted command actor = act admitted command actor
  answer cancelled admitted command actor = act admitted command actor

  -- `ProviderConnections.command`
  unfoldable pub command : Value → (actor : String) → Call (World vault) (Option ConnectionReceipt)
  command value actor = do
    lift (locked_first value)
    book ← retained_book
    admitted ← lift (admit hexdigest book value actor)
    answer admitted.operation.state admitted (as_fields value) actor
