-- ===== src/Journal.antt =====
-- `InvocationJournal` of dev-integration/profiles/governed-ai-gateway/runtime/model_configuration.py:
-- one record for each invocation identity, kept under the digest of the identity. `held` says that
-- another process has the lock of the record.
use platform_engineering.Prelude.{
  String, Bool, true, false, Option, none, some, ◌==◌, if◌then◌else◌,
}
use platform_engineering.Dict.{Dict, lookup, insert}
use platform_engineering.Json.{Value}
use platform_engineering.Result.{Result, ok, err, configuration}
use platform_engineering.Configuration.Snapshot.{Selection}

pub data Progress : Type 0 where
  pending finished : Progress

pub record Invocation : Type 0 where
  pub identity : Value
  pub request_digest : String
  pub selection : Selection
  pub state : Progress
  pub result : Option Value

abbrev pub Journal : Type 0
Journal = Dict Invocation

-- What `invocation` yields: the record, whether this call has made it, and the files.
pub record Opened : Type 0 where
  pub current : Invocation
  pub fresh : Bool
  pub journal : Journal

abbrev pub open_found :
    Journal → String → Value → String → Selection → Option Invocation → Result Opened
open_found journal key identity request_digest selection none =
    let made : Invocation = record {
      identity = identity;
      request_digest = request_digest;
      selection = selection;
      state = pending;
      result = none;
    } in
    ok (record { current = made; fresh = true; journal = insert key made journal })
open_found journal key identity request_digest selection (some current) =
    if current.request_digest == request_digest
    then ok (record { current = current; fresh = false; journal = journal })
    else err (configuration "invocation-conflict")

-- `invocation`, up to its `yield`
unfoldable pub invocation :
    (Value → String)
    → (held : Bool) → Journal
    → (identity : Value) → (request_digest : String) → Selection
    → Result Opened
invocation hexdigest held journal identity request_digest selection =
    if held
    then err (configuration "invocation-in-progress")
    else open_found journal (hexdigest identity) identity request_digest selection
        (lookup (hexdigest identity) journal)

abbrev pub is_pending : Progress → Bool
is_pending pending = true
is_pending finished = false

-- `finish`, in the block of the call that has made the record
unfoldable pub finish : (Value → String) → Opened → Value → Result Journal
finish hexdigest opened result =
    if opened.fresh
    then if is_pending opened.current.state
      then ok (
          insert (hexdigest opened.current.identity)
            (record (opened.current) { state = finished; result = some result }) opened.journal)
      else err (configuration "invocation-conflict")
    else err (configuration "invocation-conflict")
