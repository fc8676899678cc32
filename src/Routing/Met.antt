-- ===== src/Routing/Met.antt =====
-- What a call of `TaskRouting.invoke` of task_routing.py meets under its identity in the journal, and
-- what it leaves there.
use mathlib.Core.Path.{subst}
use platform_engineering.Prelude.{
  ℕ, ◌≡◌, refl, sym, ap, ◌∙◌, String, Bool, true, false, Option, none, some, List, [], ◌==◌,
  eq_refl, eq_iff, if◌then◌else◌, Bool-cases, inl, inr, if-true,
}
use platform_engineering.Dict.{lookup, insert, lookup-insert, lookup-inserted}
use platform_engineering.Json.{Value, obj, Fields}
use platform_engineering.Result.{Result, Error, ok, err, configuration, ok-injective, >>=-eq-ok}
use platform_engineering.Configuration.{Owner, State, digest}
use platform_engineering.Configuration.Snapshot.{Snapshot, Selection, targets_of}
use platform_engineering.Journal.{
  Journal, Invocation, pending, finished, Opened, open_found, invocation, finish,
}
use platform_engineering.Routing.{
  conclude, after_run, after_finish, or_null, task_of, RoutedProfile, Complete, Answer, resume,
  dispatch, invoke, effective_selection, identity_of, attempts_of,
}
use platform_engineering.Routing.Candidates.{Provider, Attempt, run_from}

-- What `invocation` has done
pub data IsOpened (hexdigest : Value → String) (j : Journal) (identity : Value) (d : String)
    (chosen : Selection) (opened : Opened) : Type 0 where
  found :
      (r : Invocation)
      → lookup (hexdigest identity) j ≡ some r
      → r.request_digest ≡ d
      → opened ≡ record { current = r; fresh = false; journal = j }
      → IsOpened hexdigest j identity d chosen opened
  made :
      opened.fresh ≡ true
      → opened.current ≡ record {
        identity = identity;
        request_digest = d;
        selection = chosen;
        state = pending;
        result = none;
      }
      → lookup (hexdigest identity) opened.journal ≡ some opened.current
      → IsOpened hexdigest j identity d chosen opened

-- The two ways in which a record is opened
open_found-IsOpened :
    (hexdigest : Value → String) (j : Journal) (identity : Value) (d : String) (chosen : Selection)
    (opened : Opened) (o : Option Invocation)
    → lookup (hexdigest identity) j ≡ o
    → open_found j (hexdigest identity) identity d chosen o ≡ ok opened
    → IsOpened hexdigest j identity d chosen opened
open_found-IsOpened hexdigest j identity d chosen opened none e h =
    let same = sym (ok-injective _ _ h) in
    let made_record : Invocation = record {
      identity = identity;
      request_digest = d;
      selection = chosen;
      state = pending;
      result = none;
    } in
    let stored : lookup (hexdigest identity) (insert (hexdigest identity) made_record j)
        ≡ some made_record =
      rw (lookup-insert, eq_refl (hexdigest identity)) in
    made (ap (λ (o : Opened). o.fresh) same) (ap (λ (o : Opened). o.current) same) (
      ap (λ (o : Opened). lookup (hexdigest identity) o.journal) same
      ∙ stored
      ∙ ap (λ (o : Opened). some o.current) (sym same))
open_found-IsOpened hexdigest j identity d chosen opened (some r) e h =
    elim (Bool-cases (r.request_digest == d)) [
      | inl t ↦ found r e ((eq_iff r.request_digest d).0 t) (sym (ok-injective _ _ (rw t at h)))
      | inr f ↦ absurd (refused (rw f at h))
    ]
  where
    refused : err (configuration "invocation-conflict") ≡ ok opened → ⊥
    refused p = cc

pub invocation-IsOpened :
    (hexdigest : Value → String) (held : Bool) (j : Journal) (identity : Value) (d : String)
    (chosen : Selection) (opened : Opened)
    → invocation hexdigest held j identity d chosen ≡ ok opened
    → IsOpened hexdigest j identity d chosen opened
unfolding invocation
invocation-IsOpened hexdigest true j identity d chosen opened h = cc
invocation-IsOpened hexdigest false j identity d chosen opened h =
    open_found-IsOpened hexdigest j identity d chosen opened (lookup (hexdigest identity) j) refl h

-- The record that is under an identity, and is of the same request, is opened as it is.
invocation-found :
    (hexdigest : Value → String) (j : Journal) (identity : Value) (chosen : Selection)
    (r : Invocation)
    → lookup (hexdigest identity) j ≡ some r
    → invocation hexdigest false j identity r.request_digest chosen
      ≡ ok (record { current = r; fresh = false; journal = j })
unfolding invocation
invocation-found hexdigest j identity chosen r e = rw (e, eq_refl r.request_digest)

module _ (hexdigest : Value → String) where
  finish-fresh :
      (opened : Opened) (v : Value)
      → opened.fresh ≡ true
      → opened.current.state ≡ pending
      → finish hexdigest opened v
        ≡ ok (
            insert
              (hexdigest opened.current.identity)
              (record (opened.current) { state = finished; result = some v })
              opened.journal)
  unfolding finish
  finish-fresh opened v f p = rw (f, p)

  -- How a call ends that has made its record: it raises, or it writes its response into the record.
  data Ends (opened : Opened) (response : Result Value) (journal : Journal) : Type 0 where
    left_pending :
        (e : Error) → response ≡ err e → journal ≡ opened.journal → Ends opened response journal
    filled :
        (v : Value)
        → response ≡ ok v
        → journal
          ≡ insert
              (hexdigest opened.current.identity)
              (record (opened.current) { state = finished; result = some v })
              opened.journal
        → Ends opened response journal

  after_run-Ends :
      (complete : Complete) (opened : Opened) (state : State) (attempts : List Attempt)
      (ledger : complete.Ledger) (said : complete.Ledger × Result Value) (escaped : Option Error)
      → opened.fresh ≡ true
      → opened.current.state ≡ pending
      → Ends opened
          (after_run hexdigest complete opened state attempts ledger said escaped).response
          (after_run hexdigest complete opened state attempts ledger said escaped).journal
  after_run-Ends complete opened state attempts ledger said (some e) f p = left_pending e refl refl
  after_run-Ends complete opened state attempts ledger (l, err e) none f p =
      left_pending e refl refl
  after_run-Ends complete opened state attempts ledger (l, ok v) none f p =
      subst
        (λ w.
          Ends opened (after_finish hexdigest complete opened state attempts l v w).response
            (after_finish hexdigest complete opened state attempts l v w).journal)
        (sym (finish-fresh opened v f p)) (filled v refl refl)

  -- The record under an identity, which is of the given request. If the call has returned, the record is
  -- finished, and its result is what was returned.
  abbrev Left : Value → String → Result Value → Journal → Type 0
  Left identity d response journal =
      (r : Invocation) × (lookup (hexdigest identity) journal ≡ some r)
      × (r.request_digest ≡ d)
      × ((v : Value) → response ≡ ok v → (r.state ≡ finished) × (or_null r.result ≡ v))

  Ends-Left :
      (opened : Opened) (identity : Value) (d : String) (response : Result Value)
      (journal : Journal)
      → opened.current.identity ≡ identity
      → opened.current.request_digest ≡ d
      → lookup (hexdigest identity) opened.journal ≡ some opened.current
      → Ends opened response journal
      → Left identity d response journal
  Ends-Left opened identity d response journal i e l (left_pending x r same) =
      (opened.current, ap (lookup (hexdigest identity)) same ∙ l, e, λ v p. absurd (raised v p))
    where
      raised : (v : Value) → response ≡ ok v → ⊥
      raised v p = cc
  Ends-Left opened identity d response journal i e l (filled v r same) = (
    record (opened.current) { state = finished; result = some v },
    ap (lookup (hexdigest identity)) same ∙ stored,
    e,
    λ w p. (refl, ok-injective v w (sym r ∙ p)),
  )
    where
      stored :
          lookup (hexdigest identity) (
            insert
              (hexdigest opened.current.identity)
              (record (opened.current) { state = finished; result = some v })
              opened.journal)
          ≡ some (record (opened.current) { state = finished; result = some v })
      stored =
          ap
            (λ k. lookup (hexdigest identity) (
              insert (hexdigest k) (record (opened.current) { state = finished; result = some v })
                opened.journal))
            i
          ∙ lookup-inserted (hexdigest identity) _ opened.journal

  pub resume-finished :
      (complete : Complete) (ledger : complete.Ledger) (state : State) (identity : Value)
      (opened : Opened)
      → opened.current.state ≡ finished
      → resume hexdigest complete ledger state identity opened ≡ record {
        response = ok (or_null opened.current.result);
        journal = opened.journal;
        state = state;
        ledger = ledger;
        attempts = [];
      }
  resume-finished complete ledger state identity opened p = rw p

module _ (hexdigest : Value → String) (request : Fields) (profile : RoutedProfile)
    (task_kind : String) where
  -- What is under the identity of a call answers it, when it is of the same request.
  pub invoke-found :
      (complete : Complete) (accepts : Value → Bool) (provider : Provider) (now : ℕ → String)
      (owner : Owner) (state : State) (ledger : complete.Ledger) (j : Journal) (s : Snapshot)
      (chosen : Selection) (identity : Value) (r : Invocation)
      → effective_selection owner s profile (task_of profile task_kind) ≡ ok chosen
      → identity_of request profile.profile_id task_kind ≡ ok identity
      → lookup (hexdigest identity) j ≡ some r
      → r.request_digest ≡ digest hexdigest (obj request)
      → invoke hexdigest accepts provider now complete owner state ledger false j request profile
          task_kind s
        ≡ ok (
            resume hexdigest complete ledger state identity
              (record { current = r; fresh = false; journal = j }))
  unfolding invoke
  invoke-found complete accepts provider now owner state ledger j s chosen identity r chose who
        stored same =
      rw (chose, who, sym same, invocation-found hexdigest j identity chosen r stored)

  -- No record under the identity of the call is pending.
  abbrev pub NonePending : Journal → Type 0
  NonePending j =
      (identity : Value) (r : Invocation)
      → identity_of request profile.profile_id task_kind ≡ ok identity
      → lookup (hexdigest identity) j ≡ some r
      → r.state ≡ finished

  -- The record that a call leaves, and what is under its identity before
  abbrev pub Met : (j : Journal) → {complete : Complete} → Answer complete → Type 0
  Met j answer =
      (identity : Value) × (identity_of request profile.profile_id task_kind ≡ ok identity)
      × (r : Invocation) × (lookup (hexdigest identity) answer.journal ≡ some r)
      × (r.request_digest ≡ digest hexdigest (obj request))
      × (NonePending j
          → (v : Value) → answer.response ≡ ok v
          → (r.state ≡ finished) × (or_null r.result ≡ v))

  pub invoke-Met :
      (complete : Complete) (accepts : Value → Bool) (provider : Provider) (now : ℕ → String)
      (owner : Owner) (state : State) (ledger : complete.Ledger) (held : Bool) (j : Journal)
      (s : Snapshot) (answer : Answer complete)
      → invoke hexdigest accepts provider now complete owner state ledger held j request profile
          task_kind s
        ≡ ok answer
      → Met j answer
  unfolding invoke dispatch conclude
  invoke-Met complete accepts provider now owner state ledger held j s answer h =
      let (chosen, c, h1) =
        >>=-eq-ok (effective_selection owner s profile (task_of profile task_kind)) _ h in
      let (identity, i, h2) = >>=-eq-ok (identity_of request profile.profile_id task_kind) _ h1 in
      let (opened, o, h3) =
        >>=-eq-ok (invocation hexdigest held j identity (digest hexdigest (obj request)) chosen) _
          h2 in
      let same = ok-injective _ answer h3 in
      elim (invocation-IsOpened hexdigest held j identity _ chosen opened o) [
        | found r l d e ↦
            let resumed : resume hexdigest complete ledger state identity
                  (record { current = r; fresh = false; journal = j })
                ≡ answer =
              sym (
                ap
                  (λ (x : Opened).
                    if x.fresh
                    then dispatch hexdigest complete accepts provider now owner state ledger
                        identity chosen x
                    else resume hexdigest complete ledger state identity x)
                  e)
              ∙ same in
            (
              identity,
              i,
              r,
              ap (λ (a : Answer complete). lookup (hexdigest identity) a.journal) (sym resumed) ∙ l,
              d,
              λ settled v p.
                  let f = settled identity r i l in
                  let answers =
                    sym (
                      resume-finished hexdigest complete ledger state identity
                        (record { current = r; fresh = false; journal = j }) f)
                    ∙ resumed in
                  (f, ok-injective _ v (ap (λ (a : Answer complete). a.response) answers ∙ p)),
            )
        | made f e l ↦
            let run = run_from accepts provider chosen.models 0 (targets_of chosen.route) in
            let dispatched = sym (if-true opened.fresh _ _ f) ∙ same in
            let (r, stored, d, result) =
              Ends-Left hexdigest opened identity (digest hexdigest (obj request)) answer.response
                answer.journal (ap (λ (x : Invocation). x.identity) e)
                (ap (λ (x : Invocation). x.request_digest) e) l
                (subst (λ (a : Answer complete). Ends hexdigest opened a.response a.journal)
                  dispatched
                  (after_run-Ends hexdigest complete opened _ (attempts_of run.made) ledger _
                    run.escaped f (ap (λ (x : Invocation). x.state) e))) in
            (identity, i, r, stored, d, λ settled. result)
      ]
