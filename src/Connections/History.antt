-- ===== src/Connections/History.antt =====
-- Histories of calls of `ProviderConnections` (provider_connections.py), and what they leave of a
-- connection that was removed.
use platform_engineering.Prelude.{◌≡◌, String, Bool, true, List, [], ◌∷◌}
use platform_engineering.Json.{Value, str}
use platform_engineering.Result.{err, provider_unavailable, Every}
use platform_engineering.Program.{lift, check, ◌>>=◌, ◌>>◌}
use platform_engineering.Connections.Calls.{Vault, World, retained_book}
use platform_engineering.Identifier.{is_connection_id}
use platform_engineering.Connections.Commands.{Service, command}
use platform_engineering.Connections.Credentials.{credentials, operation_result, credential}
use platform_engineering.Connections.Removed.{IsRemoved}
use platform_engineering.Connections.Gone.{
  IsNew, command-Gone, credentials-Gone, operation_result-Gone,
}

-- A call that may change something
pub data Request : Type 0 where
  commanded : (value : Value) → (actor : String) → Request
  stored : (command_id expected_revision connection_id api_key : Value) → (actor : String) → Request
  asked : (command_id : Value) → (actor : String) → (reconcile : Bool) → Request

-- The world after a request, whether it has returned or raised
abbrev pub serve : {vault : Vault} → Service → Request → World vault → World vault
serve service (commanded value actor) w = (command service value actor w).0
serve service (stored id revision connection key actor) w =
    (credentials service id revision connection key actor w).0
serve service (asked id actor reconcile) w = (operation_result service id actor reconcile w).0

-- Each request has its service: the times differ.
unfoldable pub serve_all : {vault : Vault} → List (Service × Request) → World vault → World vault
serve_all [] w = w
serve_all ((service, request) ∷ rest) w = serve_all rest (serve service request w)

-- The request does not carry the identity that `c` was made from.
abbrev pub IsOther : String → Service × Request → Type 0
IsOther c (service, commanded value actor) = IsNew service c value actor
IsOther c (service, stored id revision connection key actor) = Unit
IsOther c (service, asked id actor reconcile) = Unit

serve-IsRemoved :
    {vault : Vault} (c : String) (service : Service) (request : Request) (w : World vault)
    → IsOther c (service, request)
    → IsRemoved c w.book
    → IsRemoved c (serve service request w).book
serve-IsRemoved c service (commanded value actor) w other r =
    ((command-Gone service c value actor other).keeps w r).0
serve-IsRemoved c service (stored id revision connection key actor) w other r =
    ((credentials-Gone service c id revision connection key actor).keeps w r).0
serve-IsRemoved c service (asked id actor reconcile) w other r =
    ((operation_result-Gone service c id actor reconcile).keeps w r).0

serve_all-IsRemoved :
    {vault : Vault} (c : String) (requests : List (Service × Request)) (w : World vault)
    → Every (IsOther c) requests
    → IsRemoved c w.book
    → IsRemoved c (serve_all requests w).book
unfolding serve_all
serve_all-IsRemoved c [] w others r = r
serve_all-IsRemoved c ((service, request) ∷ rest) w (other, others) r =
    serve_all-IsRemoved c rest (serve service request w) others
      (serve-IsRemoved c service request w other r)

-- The secret of a removed connection
credential-IsRemoved :
    {vault : Vault} (c : String) (service : Service) (w : World vault)
    → is_connection_id c ≡ true
    → IsRemoved c w.book
    → credential service (str c) w ≡ (w, err provider_unavailable)
unfolding credential ◌>>=◌ ◌>>◌ lift check retained_book
credential-IsRemoved c service w named (item, found, gone) = rw (named, found, gone)

-- As long as no command carries the identity, of the same operator, that it was created from, a
-- connection that was removed stays removed, and its secret cannot be used, after any further other
-- commands, writes of secrets and reconciliations by any operators at any times, whichever of them
-- raise and whatever the secret store answers.
pub no_revival :
    {vault : Vault} (c : String) (service : Service) (requests : List (Service × Request))
    (w : World vault)
    → is_connection_id c ≡ true
    → Every (IsOther c) requests
    → IsRemoved c w.book
    → IsRemoved c (serve_all requests w).book
      × (credential service (str c) (serve_all requests w)
          ≡ (serve_all requests w, err provider_unavailable))
no_revival c service requests w named others r =
    let r' = serve_all-IsRemoved c requests w others r in
    (r', credential-IsRemoved c service (serve_all requests w) named r')
