-- ===== src/Connections/Credentials.antt =====
-- `ProviderConnections.credentials`, `operation` and `credential` of provider_connections.py: a secret goes
-- to the store under an operation, is reconciled, and is used.
use platform_engineering.Prelude.{
  ℕ, String, Bool, true, false, not, ◌&&◌, Option, none, some, ◌==◌, eqb, leb, if◌then◌else◌,
  is_some,
}
use platform_engineering.Dict.{lookup}
use platform_engineering.Json.{pos, Value, int, str, obj, Fields, end, field, get, is_text, is_str}
use platform_engineering.Identifier.{all_chars}
use platform_engineering.Result.{
  Result, ok, err, configuration, provider_unavailable, provider_integrity, key_error, or_raise,
}
use platform_engineering.Program.{Call, returning, lift, raise, check, ◌>>=◌, ◌>>◌}
use platform_engineering.Configuration.{digest}
use platform_engineering.Connections.{
  Book, Connection, ConnectionReceipt, Operation, OperationState, pending, finished, cancelled,
  is_active, put_connection, put_operation,
}
use platform_engineering.Connections.Calls.{
  Vault, World, Retained, retained_book, save, read_vault, write_vault,
}
use platform_engineering.Connections.Admission.{
  Admitted, identifier, lockable, connection_of, admit,
}
use platform_engineering.Connections.Commands.{Service, finish_call}

-- 8 to 8192 visible ASCII characters
unfoldable pub api_key_of : Value → Result String
api_key_of (str s) =
    if all_chars (λ c. leb 33 c && leb c 126) 8 8192 s
    then ok s
    else err (configuration "invalid-api-key")
api_key_of _ = err (configuration "invalid-api-key")

abbrev pub credentials_command : (command_id expected_revision connection_id : Value) → Value
credentials_command command_id expected_revision connection_id = obj (
    field "command_id" command_id (
      field "expected_revision" expected_revision (
        field "action" (str "connection.credentials")
          (field "input" (obj (field "connection_id" connection_id end)) end))))

unfoldable pub generation_of :
    (Value → String) → (connection_id : String) → (version : ℕ) → (operation : Value) → String
generation_of hexdigest connection_id version operation = digest hexdigest (
    obj (
      field "connection" (str connection_id)
        (field "version" (int (pos version)) (field "operation" operation end))))

-- What the store holds is the secret of this operation and operator.
abbrev pub is_own : Fields → (command_id actor : String) → Bool
is_own content command_id actor =
    is_text (get "operation_id" content) command_id && is_text (get "actor" content) actor

abbrev pub is_free : Option String → String → Bool
is_free none key = true
is_free (some p) key = p == key

abbrev pub unchanged : Option ℕ → ℕ → Bool
unchanged none version = true
unchanged (some v) version = eqb version v

abbrev pub is_reconcilable : Bool → Operation → Bool
is_reconcilable reconcile operation =
    reconcile
    && elim operation.state [ pending ↦ true | _ ↦ false ]
    && is_text operation.action "connection.credentials"

-- The connection of an operation, if there is one
abbrev pub bound_to : Book → Option String → Result (String × Connection)
bound_to book none = err (configuration "connection-not-found")
bound_to book (some id) = connection_of book (str id)

module _ {vault : Vault} (service : Service) where
  open service use {hexdigest}

  -- The write of the secret, unless the store has it from an earlier attempt
  unfoldable pub deposit :
      (key : String)
      → (connection_id : String) → (api_key actor : String) → Book
      → Operation
      → Retained
      → Call (World vault) (Book × Operation × Retained)
  deposit key connection_id api_key actor book operation retained =
      if is_text (get "operation_id" retained.content) key
      then returning (book, operation, retained)
      else (do
        check (unchanged operation.previous_vault_version retained.version)
            (configuration "credential-generation-changed")
        let noted : Operation = record operation { previous_vault_version = some retained.version }
        let written = put_operation key noted book
        save written
        write_vault connection_id retained.version (
            field "operation_id" (str key)
              (field "actor" (str actor) (field "api_key" (str api_key) end)))
        now_retained ← read_vault connection_id none
        returning (written, noted, now_retained))

  -- An operation that is pending
  unfoldable pub store_secret :
      Admitted
      → (connection_id : String) → Connection
      → (api_key actor : String) → Call (World vault) (Option ConnectionReceipt)
  store_secret admitted connection_id item api_key actor = do
    check (is_active item.state && is_free item.pending_operation admitted.key)
        (configuration "connection-not-active")
    let operation : Operation = record (admitted.operation) { connection_id = some connection_id }
    let held : Connection = record item { pending_operation = some admitted.key }
    let book =
        put_connection connection_id held (put_operation admitted.key operation admitted.book)
    save book
    retained ← read_vault connection_id none
    deposited ← deposit admitted.key connection_id api_key actor book operation retained
    let (written, noted, content) = deposited
    check
        (is_own content.content admitted.key actor
          && is_text (get "api_key" content.content) api_key)
        provider_integrity
    finish_call service written admitted.key (record noted { vault_version = some content.version })
        connection_id
        (record held {
          credential_generation =
              some (generation_of hexdigest connection_id content.version (str admitted.key));
        })

  -- A finished operation: the same secret, or a conflict
  unfoldable pub same_secret :
      Operation
      → (connection_id : String) → (api_key : String)
      → Call (World vault) (Option ConnectionReceipt)
  same_secret operation connection_id api_key = do
    version ← lift (or_raise operation.vault_version key_error)
    retained ← read_vault connection_id (some version)
    check (is_text (get "api_key" retained.content) api_key) (configuration "command-conflict")
    returning operation.receipt

  abbrev pub answer_credentials :
      OperationState
      → Admitted
      → (connection_id : String) → Connection
      → (api_key actor : String) → Call (World vault) (Option ConnectionReceipt)
  answer_credentials cancelled admitted connection_id item api_key actor =
      raise (configuration "operation-cancelled")
  answer_credentials finished admitted connection_id item api_key actor =
      same_secret admitted.operation connection_id api_key
  answer_credentials pending admitted connection_id item api_key actor =
      store_secret admitted connection_id item api_key actor

  -- `credentials`
  unfoldable pub credentials :
      (command_id expected_revision connection_id api_key : Value)
      → (actor : String) → Call (World vault) (Option ConnectionReceipt)
  credentials command_id expected_revision connection_id api_key actor = do
    id ← lift (identifier command_id)
    secret ← lift (api_key_of api_key)
    locked ← lift (lockable connection_id)
    book ← retained_book
    admitted ← lift (
        admit hexdigest book (credentials_command command_id expected_revision connection_id) actor)
    found ← lift (connection_of admitted.book connection_id)
    answer_credentials admitted.operation.state admitted found.0 found.1 secret actor

  -- The reconciliation of a pending write of a secret
  unfoldable pub reconciled :
      Book → (key : String) → Operation → (actor : String) → Call (World vault) Operation
  reconciled book key operation actor = do
    found ← lift (bound_to book operation.connection_id)
    let (connection_id, item) = found
    retained ← read_vault item.connection_id none
    let done : Operation = record operation { vault_version = some retained.version }
    if is_own retained.content key actor && is_str (get "api_key" retained.content)
        then (do
          receipt ← finish_call service book key done connection_id (record item {
            credential_generation =
                some (generation_of hexdigest item.connection_id retained.version (str key));
          })
          returning (record done { state = finished; receipt = receipt }))
        else returning operation

  -- `operation`
  unfoldable pub operation_result :
      Value → (actor : String) → (reconcile : Bool) → Call (World vault) Operation
  operation_result command_id actor reconcile = do
    key ← lift (identifier command_id)
    book ← retained_book
    operation ← lift (or_raise (lookup key book.operations) (configuration "operation-not-found"))
    check (operation.actor == actor) (configuration "operation-not-found")
    if is_reconcilable reconcile operation
        then reconciled book key operation actor
        else returning operation

  -- `credential`: the secret and its generation, while both locks are held
  unfoldable pub credential : Value → Call (World vault) (String × String)
  credential connection_id = do
    id ← lift (lockable connection_id)
    book ← retained_book
    found ← lift (connection_of book connection_id)
    let (key, item) = found
    check (is_active item.state && not (is_some item.pending_operation)) provider_unavailable
    generation ← lift (or_raise item.credential_generation provider_unavailable)
    retained ← read_vault key none
    check
        (generation_of hexdigest key retained.version (get "operation_id" retained.content)
          == generation)
        provider_integrity
    elim (get "api_key" retained.content) [
      | str secret ↦ returning (secret, generation)
      | _ ↦ raise provider_integrity
    ]
