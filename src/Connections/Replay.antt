-- ===== src/Connections/Replay.antt =====
-- A command of `ProviderConnections` (provider_connections.py) that has returned is not done again.
use mathlib.Core.Path.{subst}
use platform_engineering.Prelude.{
  ◌≡◌, refl, sym, ap, ◌∙◌, String, not, Option, none, some, ◌==◌, eq_iff, eq_refl,
}
use platform_engineering.Dict.{lookup, lookup-inserted}
use platform_engineering.Json.{Value, str, Fields, get, as_fields}
use platform_engineering.Identifier.{is_identifier}
use platform_engineering.Result.{ok, ok-injective, >>=-eq-ok, require-eq-ok, if-eq-ok}
use platform_engineering.Program.{returning, lift, ◌>>=◌, ◌>>◌}
use platform_engineering.Program.Ends.{
  Ends, bind-Ends, then-Ends, lift-Ends, returned-Ends, lift-returned, lift-passed,
}
use platform_engineering.Configuration.{closed, fingerprint}
use platform_engineering.Configuration.Commands.{command_keys}
use platform_engineering.Connections.{
  Book, Connection, ConnectionReceipt, Operation, OperationState, pending, finished, cancelled,
  is_removed, finish,
}
use platform_engineering.Connections.Calls.{Vault, World, retained_book, save}
use platform_engineering.Connections.Admission.{
  Action, Admitted, Bound, Change, disconnect, reconnect, remove, creates, changes, identifier,
  admitted_by, admit, connection_of, bind, locked_first, fence_pending,
}
use platform_engineering.Connections.Commands.{
  Service, finish_call, remove_connection, disconnect_connection, apply_change, perform, act,
  answer, command,
}

pending_not_finished : pending ≡ finished → ⊥
pending_not_finished h = cc

-- The operation is finished, with this receipt.
abbrev IsDone : {vault : Vault} → String → String → World vault → Option ConnectionReceipt → Type 0
IsDone key print w receipt =
    (o : Operation) × (lookup key w.book.operations ≡ some o)
    × (o.state ≡ finished)
    × (o.command_digest ≡ print)
    × (o.receipt ≡ receipt)

bind-digest :
    (change : Change) (a : Admitted) (value : Value) (b : Bound)
    → bind change a value ≡ ok b
    → b.operation.command_digest ≡ a.operation.command_digest
unfolding bind
bind-digest change a value b h =
    let (payload, shape, h1) = >>=-eq-ok (closed value _) _ h in
    let (found, f, h2) = >>=-eq-ok (connection_of a.book (get "connection_id" payload)) _ h1 in
    let (kept, h3) = require-eq-ok (not (is_removed found.1.state)) _ _ h2 in
    let (fenced, g, h4) =
      >>=-eq-ok (fence_pending change a.book a.key found.1.pending_operation) _ h3 in
    ap (λ (x : Bound). x.operation.command_digest) (sym (ok-injective _ b h4))

module _ {vault : Vault} (service : Service) where
  finish_call-Ends :
      (book : Book) (key : String) (o : Operation) (connection_key : String) (item : Connection)
      → Ends {World = World vault}
          (IsDone key o.command_digest)
          (finish_call service book key o connection_key item)
  unfolding finish_call finish save returning ◌>>◌
  finish_call-Ends book key o connection_key item = record {
    ends = λ w w' r e.
        returned-Ends (IsDone key o.command_digest) _ w' _ r e
          (_, lookup-inserted key _ _, refl, refl, refl);
  }

  apply_change-Ends :
      (change : Change) (key : String) (b : Bound) (actor : String)
      → Ends {World = World vault}
          (IsDone key b.operation.command_digest)
          (apply_change service change key b actor)
  unfolding remove_connection disconnect_connection
  apply_change-Ends remove key b actor = bind-Ends _ _ λ w. bind-Ends _ _ λ config.
      bind-Ends _ _ λ used.
        then-Ends _ _ (
          then-Ends _ _
            (then-Ends _ _ (then-Ends _ _ (finish_call-Ends _ key b.operation b.key _))))
  apply_change-Ends disconnect key b actor =
      then-Ends _ _ (then-Ends _ _ (finish_call-Ends _ key b.operation b.key _))
  apply_change-Ends reconnect key b actor = finish_call-Ends b.book key b.operation b.key _

  perform-Ends :
      (action : Action) (a : Admitted) (fields : Fields) (actor : String)
      → Ends {World = World vault}
          (IsDone {vault = vault} a.key a.operation.command_digest)
          (perform service action a fields actor)
  perform-Ends creates a fields actor =
      bind-Ends _ _ λ item. finish_call-Ends _ a.key _ item.connection_id item
  perform-Ends (changes change) a fields actor = lift-Ends _ _ λ b e.
      subst (λ d. Ends (IsDone {vault = vault} a.key d) (apply_change service change a.key b actor))
        (bind-digest change a (get "input" fields) b e) (apply_change-Ends change a.key b actor)

  act-Ends :
      (a : Admitted) (fields : Fields) (actor : String)
      → Ends {World = World vault}
          (IsDone {vault = vault} a.key a.operation.command_digest)
          (act service a fields actor)
  unfolding act
  act-Ends a fields actor = bind-Ends _ _ λ action. perform-Ends action a fields actor

-- The service at other times
abbrev pub at_times : String → String → Service → Service
at_times now configuration_now service = record service {
  now = now;
  configuration_now = configuration_now;
}

-- What `_admit` finds out about an identity
admitted_by-ok :
    (book : Book) (id print actor : String) (fields : Fields) (found : Option Operation)
    (a : Admitted)
    → lookup id book.operations ≡ found
    → admitted_by book id print actor fields found ≡ ok a
    → (a.key ≡ id)
      × (a.operation.command_digest ≡ print)
      × ((a.operation.state ≡ finished) → lookup id book.operations ≡ some a.operation)
admitted_by-ok book id print actor fields (some old) a f h =
    let (same, e) = if-eq-ok (old.command_digest == print) _ _ h in
    (
      ap (λ (x : Admitted). x.key) (sym e),
      ap (λ (x : Admitted). x.operation.command_digest) (sym e)
          ∙ (eq_iff old.command_digest print).0 same,
      λ _. f ∙ ap (λ (x : Admitted). some x.operation) e,
    )
admitted_by-ok book id print actor fields none a f h =
    let (same, e) = if-eq-ok _ _ _ h in
    (
      ap (λ (x : Admitted). x.key) (sym e),
      ap (λ (x : Admitted). x.operation.command_digest) (sym e),
      λ s. absurd (pending_not_finished (ap (λ (x : Admitted). x.operation.state) e ∙ s)),
    )

module _ {vault : Vault} (service : Service) (value : Value) (actor : String) where
  -- What a command that returns has gone through
  abbrev Through : World vault → World vault → Option ConnectionReceipt → Type 0
  Through w w' r =
      (fields : Fields) × (id : String) × (a : Admitted) × (locked_first value ≡ ok tt)
      × (closed value command_keys ≡ ok fields)
      × (identifier (get "command_id" fields) ≡ ok id)
      × (identifier (str actor) ≡ ok actor)
      × (admitted_by w.book id (fingerprint service.hexdigest actor value) actor fields
            (lookup id w.book.operations)
          ≡ ok a)
      × (answer service a.operation.state a (as_fields value) actor w ≡ (w', ok r))

  command-Through :
      (w w' : World vault) (r : Option ConnectionReceipt)
      → command service value actor w ≡ (w', ok r)
      → Through w w' r
  unfolding command retained_book ◌>>=◌ admit
  command-Through w w' r h =
      let (locked, h1) = lift-passed _ _ w w' r h in
      let (a, admitted, h2) =
        lift-returned (admit service.hexdigest w.book value actor)
          (λ a. answer service a.operation.state a (as_fields value) actor) w w' r h1 in
      let (fields, shape, h3) = >>=-eq-ok (closed value command_keys) _ admitted in
      let (id, named, h4) = >>=-eq-ok (identifier (get "command_id" fields)) _ h3 in
      let (operator, known, h5) = >>=-eq-ok (identifier (str actor)) _ h4 in
      let (is_id, e) = if-eq-ok (is_identifier actor) actor _ known in
      (fields, id, a, locked, shape, named, rw (is_id), h5, h2)

  -- The end of a command that returns
  answered :
      (w w' : World vault) (r : Option ConnectionReceipt) (id : String) (a : Admitted)
      (s : OperationState)
      → a.operation.state ≡ s
      → a.key ≡ id
      → ((a.operation.state ≡ finished) → lookup id w.book.operations ≡ some a.operation)
      → answer service s a (as_fields value) actor w ≡ (w', ok r)
      → IsDone id a.operation.command_digest w' r
  unfolding returning
  answered w w' r id a finished e same found h =
      returned-Ends (IsDone id a.operation.command_digest) w w' a.operation.receipt r h
        (a.operation, found e, e, refl, refl)
  answered w w' r id a pending e same found h =
      subst (λ k. IsDone k a.operation.command_digest w' r) same
        ((act-Ends service a (as_fields value) actor).ends w w' r h)
  answered w w' r id a cancelled e same found h =
      subst (λ k. IsDone k a.operation.command_digest w' r) same
        ((act-Ends service a (as_fields value) actor).ends w w' r h)

-- A command whose operation is done
command-done :
    {vault : Vault} (service : Service) (value : Value) (actor : String) (fields : Fields)
    (id : String) (w : World vault) (r : Option ConnectionReceipt)
    → locked_first value ≡ ok tt
    → closed value command_keys ≡ ok fields
    → identifier (get "command_id" fields) ≡ ok id
    → identifier (str actor) ≡ ok actor
    → IsDone id (fingerprint service.hexdigest actor value) w r
    → command service value actor w ≡ (w, ok r)
unfolding command retained_book ◌>>=◌ ◌>>◌ lift admit returning
command-done service value actor fields id w r locked shape named known
      (o, found, done, print, receipt) =
    rw (
      locked,
      shape,
      named,
      known,
      found,
      print,
      eq_refl (fingerprint service.hexdigest actor value),
      done,
      receipt,
    )

-- A command on the connections that has returned can be sent again at any later time: it returns its
-- first receipt, and writes neither the file, nor the secret store, nor the model configuration.
pub command_again :
    {vault : Vault} (service : Service) (now configuration_now : String) (value : Value)
    (actor : String) (w w' : World vault) (r : Option ConnectionReceipt)
    → command service value actor w ≡ (w', ok r)
    → command (at_times now configuration_now service) value actor w' ≡ (w', ok r)
command_again service now configuration_now value actor w w' r h =
    let (fields, id, a, locked, shape, named, known, admitted, h1) =
      command-Through service value actor w w' r h in
    let (key, print, found) = admitted_by-ok w.book id _ actor fields _ a refl admitted in
    let done = answered service value actor w w' r id a a.operation.state refl key found h1 in
    command-done (at_times now configuration_now service) value actor fields id w' r locked shape
      named known (subst (λ d. IsDone id d w' r) print done)
