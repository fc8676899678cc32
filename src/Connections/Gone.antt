-- ===== src/Connections/Gone.antt =====
-- What a call of `ProviderConnections` (provider_connections.py) does to a connection that was removed: it
-- stays removed, unless a command carries the identity that the connection was created from.
use mathlib.Core.Path.{subst}
use platform_engineering.Prelude.{
  ltb, ◌≡◌, String, Bool, true, false, Option, none, some, ◌==◌, inl, arith, and_left,
}
use platform_engineering.Dict.{lookup}
use platform_engineering.Json.{Value, str, Fields, get, as_fields}
use platform_engineering.Result.{ok-injective, >>=-eq-ok, or_raise-eq-ok, require-eq-ok, ok}
use platform_engineering.Program.{Call, returning}
use platform_engineering.Program.Keeps.{
  Keeps, bind-Keeps, then-Keeps, tested-Keeps, check-Keeps, lift-Keeps, lift-any, if-Keeps,
  returning-Keeps, raise-Keeps, world-Keeps, returned-Keeps,
}
use platform_engineering.Configuration.{closed}
use platform_engineering.Connections.{
  Book, Connection, ConnectionState, Operation, OperationState, pending, finished, cancelled,
  is_removed, is_active, count_kept, put_operation,
}
use platform_engineering.Connections.Calls.{Vault, World, Retained}
use platform_engineering.Connections.Admission.{
  provider_in, name_in, Action, Admitted, Bound, Change, disconnect, reconnect, remove, creates,
  changes, create, connection_id_of,
}
use platform_engineering.Connections.Commands.{
  Service, finish_call, remove_connection, disconnect_connection, apply_change, perform, answer,
  act, command,
}
use platform_engineering.Connections.Credentials.{
  deposit, store_secret, same_secret, answer_credentials, credentials, reconciled, operation_result,
  bound_to,
}
use platform_engineering.Connections.Kept.{
  Holds, save-Keeps, retained_book-Keeps, read_vault-Keeps, write_vault-Keeps, fence-Keeps,
  configure-Keeps, finish_call-Keeps,
}
use platform_engineering.Connections.Removed.{
  found-Spares, IsRemoved, Spares, put_connection-IsRemoved, finish-IsRemoved, unremoved-Spares,
  connection_of-found, admit-same, bind-other, moved,
}

-- A new connection has another identity.
create-other :
    (service : Service) (c : String) (book : Book) (actor key : String) (value : Value)
    (item : Connection)
    → create service.hexdigest service.providers service.now book actor key value ≡ ok item
    → (connection_id_of service.hexdigest actor key == c) ≡ false
    → (item.connection_id == c) ≡ false
unfolding create
create-other service c book actor key value item h other =
    let (payload, shape, h1) = >>=-eq-ok (closed value _) _ h in
    let (found, f, h2) = >>=-eq-ok (provider_in service.providers (get "provider" payload)) _ h1 in
    let (provider, p, h3) = or_raise-eq-ok found _ _ h2 in
    let (name, n, h4) = or_raise-eq-ok (name_in (get "name" payload)) _ _ h3 in
    let (room, h5) = require-eq-ok (ltb (count_kept book.connections) 16) _ _ h4 in
    subst (λ (x : Connection). (x.connection_id == c) ≡ false) (ok-injective _ item h5) other

-- The identity that derives `c` is not the command's.
abbrev pub IsNew : Service → String → Value → String → Type 0
IsNew service c value actor =
    (id : String)
    → get "command_id" (as_fields value) ≡ str id
    → (connection_id_of service.hexdigest actor id == c) ≡ false

-- The connection of an operation
bound_to-Spares :
    (c : String) (book : Book) (k : String) (item : Connection) (o : Option String)
    → bound_to book o ≡ ok (k, item)
    → IsRemoved c book
    → Spares c k item
bound_to-Spares c book k item none at r = absurd (ground arith)
bound_to-Spares c book k item (some id) at r =
    found-Spares c k item book r (connection_of-found book (str id) k item at)

module _ {vault : Vault} (service : Service) (c : String) where
  abbrev Gone : World vault → Type 0
  Gone = Holds (IsRemoved c)

  abbrev Safe {κ} : {A : Type κ} → Call (World vault) A → Type 0
  Safe m = Keeps Gone (λ a. Unit) m

  -- A write of a finished operation that does not bring `c` back
  finished-Gone :
      (book : Book) (operation_key : String) (operation : Operation) (key : String)
      (item : Connection)
      → Spares c key item
      → IsRemoved c book
      → Safe (finish_call service book operation_key operation key item)
  finished-Gone book operation_key operation key item spares r =
      finish_call-Keeps (IsRemoved c) service book operation_key operation key item (
        finish-IsRemoved service.hexdigest service.presets service.now c book operation_key
          operation key item spares r)

  remove_connection-Gone :
      (operation_key : String) (b : Bound) (actor : String)
      → (b.key == c) ≡ false
      → IsRemoved c b.book
      → Safe (remove_connection service operation_key b actor)
  unfolding remove_connection
  remove_connection-Gone operation_key b actor other r =
      let r' = put_connection-IsRemoved c b.key _ b.book (inl other) r in
      bind-Keeps Gone Gone (world-Keeps Gone) λ w p.
        bind-Keeps Gone (λ x. Unit) (lift-any Gone _)
          λ config u.
            bind-Keeps Gone (λ x. Unit) (lift-any Gone _)
              λ used v. then-Keeps Gone (check-Keeps Gone _ _) (
                then-Keeps Gone (save-Keeps (IsRemoved c) _ r') (
                  then-Keeps Gone
                    (if-Keeps Gone _ (configure-Keeps (IsRemoved c) service _ actor)
                      (returning-Keeps Gone tt))
                    (then-Keeps Gone (fence-Keeps (IsRemoved c) _ _)
                      (finished-Gone _ operation_key _ b.key _ (inl other) r'))))

  disconnect_connection-Gone :
      (operation_key : String) (b : Bound)
      → (b.key == c) ≡ false
      → IsRemoved c b.book
      → Safe (disconnect_connection service operation_key b)
  unfolding disconnect_connection
  disconnect_connection-Gone operation_key b other r =
      let r' = put_connection-IsRemoved c b.key _ b.book (inl other) r in
      then-Keeps Gone (save-Keeps (IsRemoved c) _ r') (
        then-Keeps Gone (fence-Keeps (IsRemoved c) _ _)
          (finished-Gone _ operation_key _ b.key _ (inl other) r'))

  apply_change-Gone :
      (change : Change) (key : String) (b : Bound) (actor : String)
      → (b.key == c) ≡ false
      → IsRemoved c b.book
      → Safe (apply_change service change key b actor)
  apply_change-Gone remove key b actor other r = remove_connection-Gone key b actor other r
  apply_change-Gone disconnect key b actor other r = disconnect_connection-Gone key b other r
  apply_change-Gone reconnect key b actor other r =
      finished-Gone b.book key b.operation b.key _ (inl other) r

  perform-Gone :
      (action : Action) (a : Admitted) (fields : Fields) (actor : String)
      → (connection_id_of service.hexdigest actor a.key == c) ≡ false
      → IsRemoved c a.book
      → Safe (perform service action a fields actor)
  perform-Gone creates a fields actor fresh r = bind-Keeps Gone _ (lift-Keeps Gone _) λ item made.
      let other = create-other service c a.book actor a.key (get "input" fields) item made fresh in
      finished-Gone _ a.key _ item.connection_id item (inl other)
        (put_connection-IsRemoved c item.connection_id item a.book (inl other) r)
  perform-Gone (changes change) a fields actor fresh r =
      bind-Keeps Gone _ (lift-Keeps Gone _) λ b bound.
        let (other, r') = bind-other c change a (get "input" fields) b r bound in
        apply_change-Gone change a.key b actor other r'

  answer-Gone :
      (s : OperationState) (a : Admitted) (fields : Fields) (actor : String)
      → (connection_id_of service.hexdigest actor a.key == c) ≡ false
      → IsRemoved c a.book
      → Safe (answer service s a fields actor)
  unfolding act
  answer-Gone finished a fields actor fresh r = returning-Keeps Gone _
  answer-Gone pending a fields actor fresh r =
      bind-Keeps Gone (λ x. Unit) (lift-any Gone _)
        λ action u. perform-Gone action a fields actor fresh r
  answer-Gone cancelled a fields actor fresh r =
      bind-Keeps Gone (λ x. Unit) (lift-any Gone _)
        λ action u. perform-Gone action a fields actor fresh r

  pub command-Gone :
      (value : Value) (actor : String)
      → IsNew service c value actor
      → Safe (command service value actor)
  unfolding command
  command-Gone value actor fresh = then-Keeps Gone (lift-any Gone _) (
      bind-Keeps Gone (IsRemoved c) (retained_book-Keeps (IsRemoved c)) λ book r.
        bind-Keeps Gone _ (lift-Keeps Gone _) λ a admitted.
          let (same, named) = admit-same service.hexdigest book value actor a admitted in
          answer-Gone a.operation.state a (as_fields value) actor (fresh a.key named)
            (moved c a.book book same r))

  -- A deposit writes the file only with another operation.
  deposit-Gone :
      (key connection_id api_key actor : String) (book : Book) (operation : Operation)
      (retained : Retained)
      → IsRemoved c book
      → Keeps Gone
          (λ d. IsRemoved c d.0)
          (deposit service key connection_id api_key actor book operation retained)
  unfolding deposit
  deposit-Gone key connection_id api_key actor book operation retained r =
      if-Keeps Gone _ (returning-with (book, operation, retained) r) (
        then-Keeps Gone (check-Keeps Gone _ _) (
          then-Keeps Gone (save-Keeps (IsRemoved c) _ r) (
            then-Keeps Gone (write_vault-Keeps (IsRemoved c) _ _ _) (
              bind-Keeps Gone (λ x. Unit) (read_vault-Keeps (IsRemoved c) _ _)
                λ content u. returning-with _ r))))
    where
      returning-with :
          (d : Book × Operation × Retained)
          → IsRemoved c d.0
          → Keeps Gone (λ e. IsRemoved c e.0) (returning d)
      returning-with d r = returned-Keeps Gone _ d r

  store_secret-Gone :
      (a : Admitted) (connection_id : String) (item : Connection) (api_key actor : String)
      → lookup connection_id a.book.connections ≡ some item
      → IsRemoved c a.book
      → Safe (store_secret service a connection_id item api_key actor)
  unfolding store_secret
  store_secret-Gone a connection_id item api_key actor found r = tested-Keeps Gone _ _ λ usable.
      let other =
        unremoved-Spares c connection_id item a.book r found
          (active_kept item.state (and_left (is_active item.state) _ usable)) in
      let r' =
        put_connection-IsRemoved c connection_id _
          (put_operation a.key (record (a.operation) { connection_id = some connection_id }) a.book)
          (inl other) r in
      then-Keeps Gone (save-Keeps (IsRemoved c) _ r') (
        bind-Keeps Gone (λ x. Unit) (read_vault-Keeps (IsRemoved c) _ _)
          λ retained u.
            bind-Keeps Gone (λ d. IsRemoved c d.0)
              (deposit-Gone a.key connection_id api_key actor _ _ retained r')
              λ d r''.
                then-Keeps Gone (check-Keeps Gone _ _)
                  (finished-Gone d.0 a.key _ connection_id _ (inl other) r''))
    where
      active_kept : (s : ConnectionState) → is_active s ≡ true → is_removed s ≡ false
      active_kept s p = ground arith

  same_secret-Gone :
      (operation : Operation) (connection_id api_key : String)
      → Safe (same_secret service operation connection_id api_key)
  unfolding same_secret
  same_secret-Gone operation connection_id api_key =
      bind-Keeps Gone (λ x. Unit) (lift-any Gone _)
        λ version u.
          bind-Keeps Gone (λ x. Unit) (read_vault-Keeps (IsRemoved c) _ _)
            λ retained v. then-Keeps Gone (check-Keeps Gone _ _) (returning-Keeps Gone _)

  answer_credentials-Gone :
      (s : OperationState) (a : Admitted) (connection_id : String) (item : Connection)
      (api_key actor : String)
      → lookup connection_id a.book.connections ≡ some item
      → IsRemoved c a.book
      → Safe (answer_credentials service s a connection_id item api_key actor)
  answer_credentials-Gone cancelled a connection_id item api_key actor found r = raise-Keeps Gone _
  answer_credentials-Gone finished a connection_id item api_key actor found r =
      same_secret-Gone a.operation connection_id api_key
  answer_credentials-Gone pending a connection_id item api_key actor found r =
      store_secret-Gone a connection_id item api_key actor found r

  pub credentials-Gone :
      (command_id expected_revision connection_id api_key : Value) (actor : String)
      → Safe (credentials service command_id expected_revision connection_id api_key actor)
  unfolding credentials
  credentials-Gone command_id expected_revision connection_id api_key actor =
      bind-Keeps Gone (λ x. Unit) (lift-any Gone _)
        λ id u.
          bind-Keeps Gone (λ x. Unit) (lift-any Gone _)
            λ secret v.
              bind-Keeps Gone (λ x. Unit) (lift-any Gone _)
                λ locked t.
                  bind-Keeps Gone (IsRemoved c) (retained_book-Keeps (IsRemoved c)) λ book r.
                    bind-Keeps Gone _ (lift-Keeps Gone _) λ a admitted.
                      bind-Keeps Gone _ (lift-Keeps Gone _) λ found at.
                        let (same, named) = admit-same service.hexdigest book _ actor a admitted in
                        answer_credentials-Gone a.operation.state a found.0 found.1 secret actor
                          (connection_of-found a.book connection_id found.0 found.1 at)
                          (moved c a.book book same r)

  reconciled-Gone :
      (book : Book) (key : String) (operation : Operation) (actor : String)
      → IsRemoved c book
      → Safe (reconciled service book key operation actor)
  unfolding reconciled
  reconciled-Gone book key operation actor r = bind-Keeps Gone _ (lift-Keeps Gone _) λ found at.
      bind-Keeps Gone (λ x. Unit) (read_vault-Keeps (IsRemoved c) _ _)
        λ retained u.
          if-Keeps Gone _
            (bind-Keeps Gone (λ x. Unit)
              (finished-Gone book key _ found.0 _
                (bound_to-Spares c book found.0 found.1 operation.connection_id at r) r)
              λ receipt v. returning-Keeps Gone _)
            (returning-Keeps Gone _)

  pub operation_result-Gone :
      (command_id : Value) (actor : String) (reconcile : Bool)
      → Safe (operation_result service command_id actor reconcile)
  unfolding operation_result
  operation_result-Gone command_id actor reconcile =
      bind-Keeps Gone (λ x. Unit) (lift-any Gone _)
        λ key u. bind-Keeps Gone (IsRemoved c) (retained_book-Keeps (IsRemoved c)) λ book r.
          bind-Keeps Gone (λ x. Unit) (lift-any Gone _)
            λ operation v. then-Keeps Gone (check-Keeps Gone _ _) (
              if-Keeps Gone _ (reconciled-Gone book key operation actor r) (returning-Keeps Gone _))
