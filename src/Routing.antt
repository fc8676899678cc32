-- ===== src/Routing.antt =====
-- dev-integration/profiles/governed-ai-gateway/runtime/task_routing.py: `TaskRouting.invoke`, which
-- freezes one selection for an invocation, asks its targets in order (Routing/Candidates), and
-- writes the answer into the journal. The providers, the clock, the `complete` callback and the
-- check of an output are parameters.
pub mod Candidates
pub mod Loop
pub mod Dispatch
pub mod Output
pub mod Met
pub mod Once
mod Tests
use Prim.Native.String
use platform_engineering.Prelude.{
  ℕ, suc, ◌+◌, ◌≡◌, String, Bool, true, false, not, Option, none, some, List, [], ◌∷◌, ◌==◌,
  if◌then◌else◌,
}
use platform_engineering.Dict.{Dict, lookup}
use platform_engineering.Json.{
  ℤ, pos, Value, null, int, str, arr, obj, Items, nil, cons, Fields, end, field, as_fields,
}
use platform_engineering.Identifier.{after}
use platform_engineering.Result.{
  Result, ok, err, Error, configuration, type_error, key_error, ◌>>=◌, ◌>>◌, require, or_raise,
}
use platform_engineering.Configuration.{Owner, State, digest, dict_json}
use platform_engineering.Configuration.Validation.{item, text_or}
use platform_engineering.Configuration.Commands.{record_outcome}
use platform_engineering.Configuration.Snapshot.{Snapshot, Selection, selection, targets_of}
use platform_engineering.Journal.{
  Journal, Invocation, Progress, pending, finished, Opened, invocation, finish,
}
use platform_engineering.Routing.Candidates.{
  Ending, ProviderCall, Attempt, Settled, settle, Made, Run, Candidate, candidate_of, made_by,
  Provider, proceed, run_from, completed, unavailable, busy, completion_unknown, timeout,
  output_invalid, failed,
}

-- The resolved profile, as far as routing reads it
pub record RoutedProfile : Type 0 where
  pub profile_id : String
  pub upstream_model : Value
  pub model_digest : Value
  pub runtime_version : Value
  pub selected_policy_profile_id : Option String

abbrev pub source_binding : String → String
source_binding profile_id = String.◌++◌ "source-binding:" profile_id

-- The selection that stands for an unchanged source binding
unfoldable pub source_selection : Snapshot → RoutedProfile → String → Selection
source_selection s profile task_id =
    let model_id = source_binding profile.profile_id in
    record {
      revision = s.revision;
      configuration_digest = s.digest;
      task = task_id;
      route = obj (
          field "primary" (obj (field "model_id" (str model_id) (field "effort" null end)))
            (field "fallbacks" (arr nil) (field "on_exhausted" (str "fail-closed") end)));
      models =
          (
            model_id,
            obj (
                field "backend_id" (str model_id) (
                  field "model" profile.upstream_model (
                    field "model_digest" profile.model_digest
                      (field "runtime_version" profile.runtime_version end)))),
          )
          ∷ [];
      policy_profile_id = none;
    }

abbrev pub or_source : Snapshot → RoutedProfile → String → Option Selection → Selection
or_source s profile task_id none = source_selection s profile task_id
or_source s profile task_id (some chosen) = chosen

-- The selection of this invocation, before the journal is asked
unfoldable pub effective_selection : Owner → Snapshot → RoutedProfile → String → Result Selection
effective_selection owner s profile task_id = do
  chosen ← selection owner s task_id
  ok (record (or_source s profile task_id chosen) {
    policy_profile_id = profile.selected_policy_profile_id;
  })

unfoldable pub identity_of : Fields → String → String → Result Value
identity_of request profile_id task_kind = do
  caller ← item "caller_identity" (obj request)
  caller_id ← item "caller_id" caller
  operator ← item "operator_identity" (obj request)
  operator_id ← item "operator_id" operator
  decision ← item "decision_or_correlation_id" caller
  ok (
      obj (
        field "caller" caller_id (
          field "operator" operator_id (
            field "profile" (str profile_id)
              (field "task" (str task_kind) (field "invocation" decision end))))))

abbrev policy_json : Option String → Fields
policy_json none = end
policy_json (some p) = field "policy_profile_id" (str p) end

unfoldable pub selection_json : Selection → Value
selection_json s = obj (
    field "revision" (int (pos s.revision)) (
      field "configuration_digest" (str s.configuration_digest) (
        field "task" (str s.task) (
          field "route" s.route (
            field "models" (obj (dict_json (λ v. v) s.models))
              (policy_json s.policy_profile_id))))))

-- `"ai-routing-selection:" + digest({"selection": …, "identity": …})` without the prefix of `digest`
unfoldable pub selection_ref : (Value → String) → Selection → Value → String
selection_ref hexdigest s identity =
    String.◌++◌ "ai-routing-selection:"
      (hexdigest (obj (field "selection" (selection_json s) (field "identity" identity end))))

pub record Evidence : Type 0 where
  pub revision : ℕ
  pub configuration_digest : String
  pub task : String
  pub attempts : List Attempt
  pub policy_profile_id : Option String
  pub selection_ref : String

abbrev pub attempts_of : List Made → List Attempt
attempts_of [] = []
attempts_of (m ∷ ms) = m.attempt ∷ attempts_of ms

unfoldable pub evidence_of : (Value → String) → Selection → Value → List Attempt → Evidence
evidence_of hexdigest s identity attempts = record {
  revision = s.revision;
  configuration_digest = s.configuration_digest;
  task = s.task;
  attempts = attempts;
  policy_profile_id = s.policy_profile_id;
  selection_ref = selection_ref hexdigest s identity;
}

-- What `self.observe` leaves: an error of the observation is passed over.
abbrev observed : State → Result State → State
observed state (ok noted) = noted
observed state (err e) = state

-- `self.observe` after each attempt, but for a source binding
unfoldable pub observe_from :
    (Value → String)
    → Owner
    → (now : ℕ → String) → (reference : String) → ℕ
    → List Made
    → State
    → State
observe_from hexdigest owner now reference i [] state = state
observe_from hexdigest owner now reference i (m ∷ ms) state =
    let noted = observed state (
      record_outcome hexdigest owner (now i) state (as_fields m.used) m.attempt.outcome reference
        m.account) in
    let next = if (after "source-binding:" m.attempt.backend_id).0 then state else noted in
    observe_from hexdigest owner now reference (suc i) ms next

-- The `complete` callback: it writes the audit ledger and reads the clock, and may raise.
pub record Complete : Type 1 where
  pub Ledger : Type 0
  pub reply :
      Ledger → Option Value → Evidence → List Attempt → Option String → Ledger × Result Value

-- What a call of `invoke` that has met its record leaves behind: what it returns or raises, the journal,
-- the configuration state, the ledger of the callback, and the attempts that it has made.
pub record Answer (complete : Complete) : Type 0 where
  pub response : Result Value
  pub journal : Journal
  pub state : State
  pub ledger : complete.Ledger
  pub attempts : List Attempt

abbrev pub or_null : Option Value → Value
or_null none = null
or_null (some r) = r

module _ (hexdigest : Value → String) (complete : Complete) where
  -- A record that was there: its result, or an answer that completion is unknown
  abbrev pub resume : complete.Ledger → State → Value → Opened → Answer complete
  resume ledger state identity opened =
      let frozen = opened.current.selection in
      let said : complete.Ledger × Result Value = elim opened.current.state [
        | finished ↦ (ledger, ok (or_null opened.current.result))
        | pending ↦
            complete.reply ledger none (evidence_of hexdigest frozen identity []) []
              (some "provider-completion-unknown")
      ] in
      record {
        response = said.1;
        journal = opened.journal;
        state = state;
        ledger = said.0;
        attempts = [];
      }

  -- An error leaves the record pending.
  abbrev pub raises : Opened → State → List Attempt → complete.Ledger → Error → Answer complete
  raises opened state attempts ledger e = record {
    response = err e;
    journal = opened.journal;
    state = state;
    ledger = ledger;
    attempts = attempts;
  }

  abbrev pub after_finish :
      Opened → State → List Attempt → complete.Ledger → Value → Result Journal → Answer complete
  after_finish opened state attempts ledger response (err e) = raises opened state attempts ledger e
  after_finish opened state attempts ledger response (ok journal) = record {
    response = ok response;
    journal = journal;
    state = state;
    ledger = ledger;
    attempts = attempts;
  }

  -- `finish(response)`
  abbrev pub after_reply :
      Opened → State → List Attempt → complete.Ledger × Result Value → Answer complete
  after_reply opened state attempts (ledger, err e) = raises opened state attempts ledger e
  after_reply opened state attempts (ledger, ok response) =
      after_finish opened state attempts ledger response (finish hexdigest opened response)

  -- `complete(result, evidence, attempts, failure)`, unless an error has left the loop
  abbrev pub after_run :
      Opened
      → State
      → List Attempt
      → complete.Ledger
      → complete.Ledger × Result Value
      → Option Error
      → Answer complete
  after_run opened state attempts ledger said (some e) = raises opened state attempts ledger e
  after_run opened state attempts ledger said none = after_reply opened state attempts said

  -- After the loop: the answer is built and written.
  unfoldable pub conclude :
      (now : ℕ → String)
      → Owner
      → State
      → complete.Ledger
      → Value
      → Selection
      → Opened
      → Run
      → Answer complete
  conclude now owner state ledger identity chosen opened run =
      let attempts = attempts_of run.made in
      let noted =
        observe_from hexdigest owner now (selection_ref hexdigest chosen identity) 0 run.made
          state in
      after_run opened noted attempts ledger
        (complete.reply ledger run.result (evidence_of hexdigest chosen identity attempts) attempts
          run.failure)
        run.escaped

  -- A record that this call has made: the targets are asked.
  unfoldable pub dispatch :
      (Value → Bool)
      → Provider
      → (now : ℕ → String) → Owner
      → State
      → complete.Ledger
      → Value
      → Selection
      → Opened
      → Answer complete
  dispatch accepts provider now owner state ledger identity chosen opened =
      conclude now owner state ledger identity chosen opened
        (run_from accepts provider chosen.models 0 (targets_of chosen.route))

-- `task_id`
unfoldable pub task_of : RoutedProfile → String → String
task_of profile task_kind = String.◌++◌ profile.profile_id (String.◌++◌ "/" task_kind)

-- `TaskRouting.invoke`: an error before the record is there changes nothing.
unfoldable pub invoke :
    (Value → String)
    → (Value → Bool)
    → Provider
    → (now : ℕ → String) → (complete : Complete) → Owner
    → State
    → complete.Ledger
    → (held : Bool) → Journal
    → (request : Fields) → RoutedProfile
    → (task_kind : String) → Snapshot
    → Result (Answer complete)
invoke hexdigest accepts provider now complete owner state ledger held journal request profile
      task_kind s =
    do
      chosen ← effective_selection owner s profile (task_of profile task_kind)
      identity ← identity_of request profile.profile_id task_kind
      opened ← invocation hexdigest held journal identity (digest hexdigest (obj request)) chosen
      ok (
          if opened.fresh
          then dispatch hexdigest complete accepts provider now owner state ledger identity chosen
              opened
          else resume hexdigest complete ledger state identity opened)
