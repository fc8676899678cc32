-- ===== src/Routing/Loop.antt =====
-- The loop over the targets in `TaskRouting.invoke` of task_routing.py: after which endings it
-- goes on, and what it returns.
use mathlib.Core.Path.{subst}
use platform_engineering.Prelude.{
  ℕ, suc, ◌+◌, ◌≤◌, ◌≡◌, refl, sym, String, Bool, true, false, Option, none, some, List, [], ◌∷◌,
  arith, length, ◌⊎◌, inl, inr, Bool-cases, if-true, if-false,
}
use platform_engineering.Dict.{Dict}
use platform_engineering.Json.{Value, Items, nil, cons, count_items}
use platform_engineering.Result.{Result, Error, ok, err}
use platform_engineering.Routing.{attempts_of}
use platform_engineering.Routing.Candidates.{
  Provider, Ending, completed, unavailable, busy, completion_unknown, timeout, output_invalid,
  failed, raised, settle, no_more, last_of, ask_target, Attempt, Made, Run, Candidate, candidate_of,
  made_by, proceed, run_from,
}

-- The outcomes after which no turn can have been submitted
abbrev pub IsUnsubmitted : String → Type 0
IsUnsubmitted outcome = (outcome ≡ "provider-unavailable") ⊎ (outcome ≡ "provider-busy")

-- Every attempt but the last
abbrev pub ButLast : (Attempt → Type 0) → List Attempt → Type 0
ButLast P [] = Unit
ButLast P (m ∷ []) = Unit
ButLast P (m ∷ n ∷ ms) = P m × ButLast P (n ∷ ms)

-- The loop, as a relation: a target whose fields cannot be read, an attempt that ends it, or one that
-- no turn was submitted for and that is followed by the next target.
pub data Runs (accepts : Value → Bool) (provider : Provider) (models : Dict Value)
    : ℕ → Items → Run → Type 0 where
  exhausted : {i : ℕ} → Runs accepts provider models i nil (no_more none)
  unreadable :
      {i : ℕ} {target : Value} {targets : Items} (e : Error)
      → Runs accepts provider models i (cons target targets) (no_more (some e))
  ended :
      {i : ℕ} {target : Value} {targets : Items} (c : Candidate)
      → (settle accepts (provider i c.used c.effort).ending).continues ≡ false
      → Runs accepts provider models i (cons target targets) (
          last_of
            (made_by c
              (provider i c.used c.effort)
              (settle accepts (provider i c.used c.effort).ending))
            (settle accepts (provider i c.used c.effort).ending))
  went_on :
      {i : ℕ} {target : Value} {targets : Items} {r : Run} (c : Candidate)
      → (settle accepts (provider i c.used c.effort).ending).continues ≡ true
      → Runs accepts provider models (suc i) targets r
      → Runs accepts provider models i (cons target targets) (
          proceed
            (made_by c
              (provider i c.used c.effort)
              (settle accepts (provider i c.used c.effort).ending))
            r)

settle-continues :
    (accepts : Value → Bool) (e : Ending)
    → (settle accepts e).continues ≡ true
    → IsUnsubmitted ((settle accepts e).outcome)
settle-continues accepts (completed v) h = ground arith
settle-continues accepts unavailable h = inl refl
settle-continues accepts busy h = inr refl
settle-continues accepts completion_unknown h = ground arith
settle-continues accepts timeout h = ground arith
settle-continues accepts output_invalid h = ground arith
settle-continues accepts (failed c) h = ground arith
settle-continues accepts (raised e) h = ground arith

ask_target-Runs :
    (accepts : Value → Bool) (provider : Provider) (models : Dict Value) (i : ℕ) (t : Value)
    (ts : Items) (o : Result Candidate) (r : Run)
    → Runs accepts provider models (suc i) ts r
    → Runs accepts provider models i (cons t ts) (ask_target accepts provider i o r)
ask_target-Runs accepts provider models i t ts (err e) r rest = unreadable e
ask_target-Runs accepts provider models i t ts (ok c) r rest =
    elim (Bool-cases ((settle accepts (provider i c.used c.effort).ending).continues)) [
      | inl g ↦
          subst (Runs accepts provider models i (cons t ts)) (sym (if-true _ _ _ g))
            (went_on c g rest)
      | inr f ↦
          subst (Runs accepts provider models i (cons t ts)) (sym (if-false _ _ _ f)) (ended c f)
    ]

pub run_from-Runs :
    (accepts : Value → Bool) (provider : Provider) (models : Dict Value) (i : ℕ) (targets : Items)
    → Runs accepts provider models i targets (run_from accepts provider models i targets)
unfolding run_from
run_from-Runs accepts provider models i nil = exhausted
run_from-Runs accepts provider models i (cons t ts) =
    ask_target-Runs accepts provider models i t ts (candidate_of models t) _
      (run_from-Runs accepts provider models (suc i) ts)

ButLast-cons :
    (P : Attempt → Type 0) (m : Attempt) (ms : List Attempt)
    → P m
    → ButLast P ms
    → ButLast P (m ∷ ms)
ButLast-cons P m [] p q = tt
ButLast-cons P m (n ∷ ns) p q = (p, q)

-- No turn was submitted for the attempt.
abbrev pub Unsubmitted : Attempt → Type 0
Unsubmitted a = IsUnsubmitted a.outcome

-- Attempts of which the last alone may have submitted a turn, and not more of them than there are targets
abbrev pub AreFew : Items → List Attempt → Type 0
AreFew targets attempts = ButLast Unsubmitted attempts × (length attempts ≤ count_items targets)

pub Runs-AreFew :
    (accepts : Value → Bool) (provider : Provider) (models : Dict Value) (i : ℕ) (targets : Items)
    (run : Run)
    → Runs accepts provider models i targets run
    → AreFew targets (attempts_of run.made)
unfolding proceed
Runs-AreFew accepts provider models i targets run exhausted = (tt, omega arith)
Runs-AreFew accepts provider models i targets run (unreadable e) = (tt, omega arith)
Runs-AreFew accepts provider models i targets run (ended c f) = (tt, omega arith)
Runs-AreFew accepts provider models i targets run (went_on {targets = ts} {r = r} c g rest) =
    let (before, few) = Runs-AreFew accepts provider models (suc i) ts r rest in
    let call = provider i c.used c.effort in
    (
      ButLast-cons Unsubmitted ((made_by c call (settle accepts call.ending)).attempt)
          (attempts_of r.made) (settle-continues accepts call.ending g) before,
      omega (arith, few),
    )

-- The last attempt
abbrev pub last_made : List Made → Option Made
last_made [] = none
last_made (m ∷ []) = some m
last_made (m ∷ n ∷ ms) = last_made (n ∷ ms)

-- The output is what the provider has returned to the last of the attempts, which are numbered from `i`.
abbrev pub IsProduced : Provider → ℕ → List Made → Value → Type 0
IsProduced provider i made v =
    (m : Made) × (n : ℕ) × (last_made made ≡ some m)
    × (suc n ≡ i + length made)
    × ((provider n m.used m.attempt.effort).ending ≡ completed v)
    × (m.attempt.outcome ≡ "suggestion-produced")

settle-result :
    (accepts : Value → Bool) (e : Ending)
    → (settle accepts e).failure ≡ none
    → (v : Value) × ((settle accepts e).result ≡ some v)
      × (accepts v ≡ true)
      × (e ≡ completed v)
      × ((settle accepts e).outcome ≡ "suggestion-produced")
settle-result accepts (completed v) h = elim (Bool-cases (accepts v)) [
  | inl t ↦ (v, rw t, t, refl, rw t)
  | inr f ↦ absurd (failed_none _ (rw f at h))
]
  where
    failed_none : (c : String) → some c ≡ none → ⊥
    failed_none c p = ground arith
settle-result accepts unavailable h = ground arith
settle-result accepts busy h = ground arith
settle-result accepts completion_unknown h = ground arith
settle-result accepts timeout h = ground arith
settle-result accepts output_invalid h = ground arith
settle-result accepts (failed c) h = ground arith
settle-result accepts (raised c) h = ground arith

last_made-cons : (m n : Made) (ms : List Made) → last_made ms ≡ some n → last_made (m ∷ ms) ≡ some n
last_made-cons m n [] p = ground arith
last_made-cons m n (k ∷ ks) p = p

Runs-result :
    (accepts : Value → Bool) (provider : Provider) (models : Dict Value) (i : ℕ) (targets : Items)
    (run : Run)
    → Runs accepts provider models i targets run
    → run.failure ≡ none
    → (v : Value) × (run.result ≡ some v) × (accepts v ≡ true) × IsProduced provider i run.made v
unfolding proceed
Runs-result accepts provider models i targets run exhausted h = ground arith
Runs-result accepts provider models i targets run (unreadable e) h = ground arith
Runs-result accepts provider models i targets run (ended c f) h =
    let (v, r, a, e, o) = settle-result accepts ((provider i c.used c.effort).ending) h in
    (v, r, a, (_, i, refl, omega arith, e, o))
Runs-result accepts provider models i targets run (went_on {targets = ts} {r = r} c g rest) h =
    let call = provider i c.used c.effort in
    let (v, e, a, (m, n, last, count, made, outcome)) =
      Runs-result accepts provider models (suc i) ts r rest h in
    (
      v,
      e,
      a,
      (
        m,
        n,
        last_made-cons (made_by c call (settle accepts call.ending)) m r.made last,
        omega (arith, count),
        made,
        outcome,
      ),
    )

-- If the loop over the targets ends without a failure, it returns an output that passes the schema
-- of the task, and that the provider has returned to the last attempt.
pub run_from_result :
    (accepts : Value → Bool) (provider : Provider) (models : Dict Value) (targets : Items)
    → (run_from accepts provider models 0 targets).failure ≡ none
    → (v : Value) × ((run_from accepts provider models 0 targets).result ≡ some v)
      × (accepts v ≡ true)
      × IsProduced provider 0 (run_from accepts provider models 0 targets).made v
run_from_result accepts provider models targets e =
    Runs-result accepts provider models 0 targets (run_from accepts provider models 0 targets)
      (run_from-Runs accepts provider models 0 targets) e
