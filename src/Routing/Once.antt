-- ===== src/Routing/Once.antt =====
-- How `TaskRouting.invoke` of task_routing.py meets the records of the journal: what a second call
-- of one invocation does, after a first that has returned and after one that was lost.
use platform_engineering.Prelude.{
  ℕ, ◌≡◌, ap, ◌∙◌, String, Bool, true, false, none, some, [], arith, ◌==◌,
}
use platform_engineering.Dict.{lookup}
use platform_engineering.Json.{Value, obj, Fields}
use platform_engineering.Result.{ok, err, configuration}
use platform_engineering.Configuration.{Owner, State, digest}
use platform_engineering.Configuration.Snapshot.{Snapshot, Selection}
use platform_engineering.Journal.{Journal, Invocation, finished, Opened, invocation}
use platform_engineering.Routing.{
  task_of, RoutedProfile, Complete, Answer, resume, invoke, effective_selection, identity_of,
  evidence_of,
}
use platform_engineering.Routing.Candidates.{Provider}
use platform_engineering.Routing.Met.{
  found, made, invocation-IsOpened, invoke-found, invoke-Met, resume-finished,
}

-- When a call of `invoke` has returned, and its record was not left pending by an earlier one, the
-- same request, sent again under any providers, clock, callback, configuration and snapshot whose
-- selection for the task can be made, returns the same response, asks no provider, and changes
-- neither the journal, nor the configuration state, nor the ledger of the callback.
pub invoke_again :
    (hexdigest : Value → String) (complete complete' : Complete) (request : Fields)
    (profile : RoutedProfile) (task_kind : String) (accepts accepts' : Value → Bool)
    (provider provider' : Provider) (now now' : ℕ → String) (owner owner' : Owner)
    (state state' : State) (ledger : complete.Ledger) (ledger' : complete'.Ledger) (held : Bool)
    (j : Journal) (s s' : Snapshot) (chosen : Selection) (answer : Answer complete)
    (response : Value)
    → invoke hexdigest accepts provider now complete owner state ledger held j request profile
        task_kind s
      ≡ ok answer
    → answer.response ≡ ok response
    → ((identity : Value) (r : Invocation)
        → identity_of request profile.profile_id task_kind ≡ ok identity
        → lookup (hexdigest identity) j ≡ some r
        → r.state ≡ finished)
    → effective_selection owner' s' profile (task_of profile task_kind) ≡ ok chosen
    → invoke hexdigest accepts' provider' now' complete' owner' state' ledger' false answer.journal
        request profile task_kind s'
      ≡ ok (record {
        response = ok response;
        journal = answer.journal;
        state = state';
        ledger = ledger';
        attempts = [];
      })
invoke_again hexdigest complete complete' request profile task_kind accepts accepts' provider
      provider' now now' owner owner' state state' ledger ledger' held j s s' chosen answer response
      h returned settled c =
    let (identity, i, r, l, d, result) =
      invoke-Met hexdigest request profile task_kind complete accepts provider now owner state
        ledger held j s answer h in
    let (f, same) = result settled response returned in
    let reopened : Opened = record { current = r; fresh = false; journal = answer.journal } in
    invoke-found hexdigest request profile task_kind complete' accepts' provider' now' owner' state'
      ledger' answer.journal s' chosen identity r c i l d
    ∙ ap ok (resume-finished hexdigest complete' ledger' state' identity reopened f)
    ∙ ap
        (λ v. ok (record {
          response = ok v;
          journal = answer.journal;
          state = state';
          ledger = ledger';
          attempts = [];
        }))
        same

-- When a call of `invoke` has opened its record, whether it then returned or raised, another
-- request with the same identity (the same caller, operator, profile, task and correlation id) but with
-- another digest is refused, under any providers, clock, callback, configuration and snapshot whose
-- selection for the task can be made.
pub invoke_conflict :
    (hexdigest : Value → String) (complete complete' : Complete) (request request' : Fields)
    (profile : RoutedProfile) (task_kind : String) (accepts accepts' : Value → Bool)
    (provider provider' : Provider) (now now' : ℕ → String) (owner owner' : Owner)
    (state state' : State) (ledger : complete.Ledger) (ledger' : complete'.Ledger) (held : Bool)
    (j : Journal) (s s' : Snapshot) (chosen : Selection) (answer : Answer complete)
    → invoke hexdigest accepts provider now complete owner state ledger held j request profile
        task_kind s
      ≡ ok answer
    → effective_selection owner' s' profile (task_of profile task_kind) ≡ ok chosen
    → identity_of request' profile.profile_id task_kind
      ≡ identity_of request profile.profile_id task_kind
    → (digest hexdigest (obj request) == digest hexdigest (obj request')) ≡ false
    → invoke hexdigest accepts' provider' now' complete' owner' state' ledger' false answer.journal
        request' profile task_kind s'
      ≡ err (configuration "invocation-conflict")
unfolding invoke invocation
invoke_conflict hexdigest complete complete' request request' profile task_kind accepts accepts'
      provider provider' now now' owner owner' state state' ledger ledger' held j s s' chosen answer
      h c who other =
    let (identity, i, r, l, d, result) =
      invoke-Met hexdigest request profile task_kind complete accepts provider now owner state
        ledger held j s answer h in
    rw (c, who, i, l, d, other)

-- A record that was written but not finished, as after a process is lost during its dispatch: the
-- same request, sent again under any providers, clock, configuration and snapshot whose selection for
-- the task can be made, asks no provider, leaves the journal and the configuration state as they
-- are, and is answered by the callback with the failure provider-completion-unknown on the evidence
-- of the frozen selection.
pub invoke_lost :
    (hexdigest : Value → String) (complete : Complete) (request : Fields) (profile : RoutedProfile)
    (task_kind : String) (j : Journal) (identity : Value) (frozen : Selection) (opened : Opened)
    (accepts : Value → Bool) (provider : Provider) (now : ℕ → String) (owner : Owner)
    (state : State) (ledger : complete.Ledger) (s : Snapshot) (chosen : Selection)
    → identity_of request profile.profile_id task_kind ≡ ok identity
    → invocation hexdigest false j identity (digest hexdigest (obj request)) frozen ≡ ok opened
    → opened.fresh ≡ true
    → effective_selection owner s profile (task_of profile task_kind) ≡ ok chosen
    → invoke hexdigest accepts provider now complete owner state ledger false opened.journal request
        profile task_kind s
      ≡ ok (record {
        response =
            (complete.reply ledger none
              (evidence_of hexdigest frozen identity [])
              []
              (some "provider-completion-unknown")).1;
        journal = opened.journal;
        state = state;
        ledger =
            (complete.reply ledger none
              (evidence_of hexdigest frozen identity [])
              []
              (some "provider-completion-unknown")).0;
        attempts = [];
      })
invoke_lost hexdigest complete request profile task_kind j identity frozen opened accepts provider
      now owner state ledger s chosen who written fresh c =
    elim (invocation-IsOpened hexdigest false j identity (digest hexdigest (obj request)) frozen
      opened written) [
        | found r l d same ↦ absurd (not_fresh (ap (λ (o : Opened). o.fresh) same))
        | made f e l ↦
            invoke-found hexdigest request profile task_kind complete accepts provider now owner
              state ledger opened.journal s chosen identity opened.current c who l
              (ap (λ (r : Invocation). r.request_digest) e)
            ∙ ap
                (λ r. ok (
                  resume hexdigest complete ledger state identity
                    (record { current = r; fresh = false; journal = opened.journal })))
                e
      ]
  where
    not_fresh : opened.fresh ≡ false → ⊥
    not_fresh p = ground arith
