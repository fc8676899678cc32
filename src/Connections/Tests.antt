-- ===== src/Connections/Tests.antt =====
-- The theorems on `ProviderConnections` with a store of one document and a fixed digest.
use platform_engineering.Prelude.{
  ℕ, ◌+◌, ◌≡◌, refl, String, false, Option, none, some, List, [], ◌∷◌, ◌==◌,
}
use platform_engineering.Dict.{lookup}
use platform_engineering.Json.{pos, Value, null, int, str, obj, Fields, end, field, find, get, keys}
use platform_engineering.Identifier.{is_identifier, is_connection_id}
use platform_engineering.Result.{ok, err, provider_unavailable}
use platform_engineering.Text.{strip, first_chars, code_points}
use platform_engineering.Program.{returning, lift, ◌>>=◌, ◌>>◌}
use platform_engineering.Configuration.{initial}
use platform_engineering.Connections.{
  Connection, ConnectionReceipt, removed, empty_book, finish, count_kept,
}
use platform_engineering.Connections.Calls.{Vault, World, retained_book, save}
use platform_engineering.Connections.Admission.{admit, create, connection_id_of, action_of}
use platform_engineering.Connections.Commands.{Service, command, finish_call, act}
use platform_engineering.Connections.Credentials.{credential}
use platform_engineering.Connections.Removed.{IsRemoved}
use platform_engineering.Connections.History.{Request, commanded, stored, serve_all, no_revival}
use platform_engineering.Connections.Replay.{at_times, command_again}

-- A store of one document
abbrev small_vault : Vault
small_vault = record {
  Store = ℕ × Value;
  fetch = λ s id version. ok (some (obj (field "data" (obj (field "data" s.1 end)) end)));
  post = λ s id document. (
    (s.0 + 1, document),
    ok (obj (field "data" (obj (field "version" (int (pos (s.0 + 1))) end)) end)),
  );
}

abbrev service : Service
service = record {
  hexdigest = λ v. "ffffffffffffffffffffffffffffffff";
  presets = null;
  providers = "zai" ∷ [];
  owner = record { tasks = []; backends = []; profiles = [] };
  now = "t1";
  configuration_now = "t1";
}

abbrev start : World small_vault
start = record { book = empty_book; store = (0, null); models = initial }

abbrev a_command : String → String → Fields → Value
a_command id action input = obj (
    field "command_id" (str id) (
      field "expected_revision" (int (pos 0))
        (field "action" (str action) (field "input" (obj input) end))))

abbrev creation : Value
creation =
    a_command "first" "connection.create"
      (field "provider" (str "zai") (field "name" (str " mine ") end))

abbrev created : World small_vault
created = (command service creation "alice" start).0

abbrev first_receipt : Option ConnectionReceipt
first_receipt = elim (command service creation "alice" start).1 [ ok r ↦ r | err e ↦ none ]

creation_returns : command service creation "alice" start ≡ (created, ok first_receipt)
unfolding command lift retained_book ◌>>=◌ ◌>>◌ admit get find returning finish_call finish save act
    create keys is_identifier lookup action_of code_points strip count_kept
creation_returns = refl

command_again_example :
    command (at_times "t2" "t3" service) creation "alice" created ≡ (created, ok first_receipt)
command_again_example =
    command_again service "t2" "t3" creation "alice" start created first_receipt creation_returns

abbrev gone : String
gone = "api-0123456789abcdef0123456789abcdef"

abbrev gone_connection : Connection
gone_connection = record {
  connection_id = gone;
  provider = "zai";
  name = "old";
  state = removed;
  credential_generation = none;
  pending_operation = none;
  updated_at = "t0";
}

abbrev without : World small_vault
without = record start { book = record empty_book { connections = (gone, gone_connection) ∷ [] } }

-- It is created again, reconnected, and given a secret.
abbrev attempts : List (Service × Request)
attempts =
    (service, commanded creation "alice")
    ∷ (
      service,
      commanded (a_command "second" "connection.reconnect" (field "connection_id" (str gone) end))
          "alice",
    )
    ∷ (service, stored (str "third") (int (pos 1)) (str gone) (str "secret-key") "alice")
    ∷ []

other_identity : (id : String) → (connection_id_of service.hexdigest "alice" id == gone) ≡ false
unfolding connection_id_of first_chars
other_identity id = refl

no_revival_example :
    IsRemoved gone (serve_all attempts without).book
    × (credential service (str gone) (serve_all attempts without)
        ≡ (serve_all attempts without, err provider_unavailable))
unfolding is_connection_id lookup
no_revival_example =
    no_revival gone service attempts without refl
      (λ id e. other_identity id, (λ id e. other_identity id, (tt, tt)))
      (gone_connection, refl, refl)
