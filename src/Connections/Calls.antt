-- ===== src/Connections/Calls.antt =====
-- The calls of `ProviderConnections` (provider_connections.py) as programs over a world: the
-- connections file, the secret store behind `VaultApiCredentials._request`, and the model
-- configuration. What was written before an error stays written.
use platform_engineering.Prelude.{
  ℕ, ◌+◌, String, Bool, true, false, Option, none, some, eqb, ltb, if◌then◌else◌,
}
use platform_engineering.Json.{pos, Value, null, int, obj, Fields, end, field, get}
use platform_engineering.Identifier.{is_connection_id}
use platform_engineering.Result.{Result, ok, err, configuration, provider_unavailable}
use platform_engineering.Configuration.{State}
use platform_engineering.Program.{Call, lift, check, world, ◌>>=◌, ◌>>◌}
use platform_engineering.Connections.{Book}

-- The store over HTTP: a document at a version or at the latest one, and the answer to a write.
-- A write may fail before or after its effect.
pub record Vault : Type 1 where
  pub Store : Type 0
  pub fetch : Store → String → Option ℕ → Result (Option Value)
  pub post : Store → String → Value → Store × Result Value

-- What `VaultApiCredentials.read` returns
pub record Retained : Type 0 where
  pub version : ℕ
  pub content : Fields

pub record World (vault : Vault) : Type 0 where
  pub book : Book
  pub store : vault.Store
  pub models : State

abbrev pub is_version : Option ℕ → Bool
is_version none = true
is_version (some n) = ltb 0 n

abbrev number_of : Value → Result ℕ
number_of (int (pos n)) = if ltb 0 n then ok n else err provider_unavailable
number_of _ = err provider_unavailable

abbrev data_of : Value → Result Fields
data_of (obj d) = ok d
data_of _ = err provider_unavailable

abbrev both : Result ℕ → Result Fields → Result Retained
both (ok n) (ok d) = ok (record { version = n; content = d })
both (ok n) (err e) = err e
both (err e) d = err e

abbrev inner : String → Value → Value
inner k (obj d) = get k d
inner k _ = null

unfoldable pub retained_of : Option Value → Result Retained
retained_of none = ok (record { version = 0; content = end })
retained_of (some v) =
    both (number_of (inner "version" (inner "metadata" (inner "data" v))))
      (data_of (inner "data" (inner "data" v)))

abbrev pub version_in : Value → Value
version_in answer = inner "version" (inner "data" answer)

abbrev pub is_number : ℕ → Value → Bool
is_number n (int (pos m)) = eqb m n
is_number n _ = false

module _ {vault : Vault} where
  open vault use {Store, fetch, post}

  -- `_read`
  unfoldable pub retained_book : Call (World vault) Book
  retained_book w = (w, ok w.book)

  -- `atomic_json(self.path, state)`
  unfoldable pub save : Book → Call (World vault) (Unit {0})
  save book w = (record w { book = book }, ok tt)

  -- `VaultApiCredentials.read`
  unfoldable pub read_vault : String → Option ℕ → Call (World vault) Retained
  unfolding retained_of
  read_vault id version = do
    check (is_connection_id id) (configuration "invalid-connection")
    check (is_version version) (configuration "invalid-credential-version")
    w ← world
    document ← lift (fetch w.store id version)
    lift (retained_of document)

  unfoldable pub put_document : String → Value → Call (World vault) Value
  put_document id document w =
      let (store, answer) = post w.store id document in (record w { store = store }, answer)

  -- `VaultApiCredentials.write`: a compare-and-set on the version
  unfoldable pub write_vault :
      String → (previous_version : ℕ) → Fields → Call (World vault) (Unit {0})
  write_vault id previous_version content = do
    check (is_connection_id id) (configuration "invalid-connection")
    answer ← put_document id (
        obj (
          field "options" (obj (field "cas" (int (pos previous_version)) end))
            (field "data" (obj content) end)))
    check (is_number (previous_version + 1) (version_in answer)) provider_unavailable
