-- ===== src/Login/Alone.antt =====
-- At most one sign-in of `ModelLogin` (model_login.py) runs, and what `read` tells an operator.
use mathlib.Core.Path.{subst}
use platform_engineering.Prelude.{
  ◌≤◌, ◌≡◌, refl, sym, ◌∙◌, String, Bool, true, false, ◌||◌, some, [], ◌∷◌, ◌==◌, arith, length,
  is_empty, ◌⊎◌, if◌then◌else◌, if-true, if-false, Bool-cases, Option-cases, inl, inr, eq_refl,
  eq_iff,
}
use platform_engineering.Dict.{Dict, lookup, has, insert, erase, lookup-insert}
use platform_engineering.Json.{Value}
use platform_engineering.Result.{Result, ok, err, configuration, require-eq-ok, or_raise-eq-ok}
use platform_engineering.Login.{
  is_path, Name, Login, Logins, is_terminal, file_of, write, start, begin_login, first_login,
  request_digest_of, read, reconciled, request_cancel, publish, conclude, fail, leave,
}
use platform_engineering.Login.Steps.{
  Step, Steps, started, was_read, asked, published, concluded, did_fail, left, lost, stay, next,
}
use platform_engineering.Login.Settled.{returned_state, no_return}

length-insert :
    (k : String) (v : Bool) (d : Dict Bool) → has k d ≡ true → length (insert k v d) ≡ length d
unfolding has lookup insert
length-insert k v [] h = ground arith
length-insert k v ((j, w) ∷ d) h = ground (arith, length-insert k v d)

length-erase : (k : String) (d : Dict Bool) → length (erase k d) ≤ length d
unfolding erase
length-erase k [] = omega arith
length-erase k ((j, w) ∷ d) = ground (arith, length-erase k d)

length-insert-empty :
    (k : String) (v : Bool) (d : Dict Bool) → is_empty d ≡ true → length (insert k v d) ≤ 1
unfolding insert
length-insert-empty k v [] h = omega arith
length-insert-empty k v (e ∷ d) h = ground arith

abbrev pub AtMostOne : Logins → Type 0
AtMostOne w = length w.active ≤ 1

begin_login-AtMostOne :
    (name : Name) (w w' : Logins) (new got : Login)
    → begin_login name w new ≡ ok (got, w')
    → AtMostOne w'
unfolding begin_login
begin_login-AtMostOne name w w' new got h = elim (Bool-cases (is_empty w.active)) [
  | inl e ↦
      subst AtMostOne (returned_state new got _ w' _ (if-true _ _ _ e) h)
        (length-insert-empty new.command_id false w.active e)
  | inr e ↦ absurd (no_return _ got w' _ (if-false _ _ _ e) h)
]

-- A call that may leave the state as it is
abbrev answers : Bool → Login × Logins → Login × Logins → Result (Login × Logins)
answers t a b = if t then ok a else ok b

if-AtMostOne :
    (t : Bool) (l now got : Login) (w v w' : Logins)
    → answers t (l, w) (now, v) ≡ ok (got, w')
    → AtMostOne w
    → AtMostOne v
    → AtMostOne w'
if-AtMostOne true l now got w v w' h p q = subst AtMostOne (returned_state l got w w' _ refl h) p
if-AtMostOne false l now got w v w' h p q = subst AtMostOne (returned_state now got v w' _ refl h) q

start-AtMostOne :
    (hexdigest : Value → String) (name : Name) (supports : String → Bool) (w w' : Logins)
    (id backend_id actor : String) (got : Login)
    → start hexdigest name supports w id backend_id actor ≡ ok (got, w')
    → AtMostOne w
    → AtMostOne w'
unfolding start
start-AtMostOne hexdigest name supports w w' id backend_id actor got h one =
    let (s, h1) = require-eq-ok (supports backend_id) _ _ h in
    let (p, h2) = require-eq-ok (is_path id) _ _ h1 in
    let digest = request_digest_of hexdigest id backend_id actor in
    elim (Option-cases (file_of name id w)) [
      | inl n ↦
          begin_login-AtMostOne name w w' (first_login id digest backend_id actor) got (rw n at h2)
      | inr (found, e) ↦ replayed found digest (rw e at h2)
    ]
  where
    replay : Login → String → Result (Login × Logins)
    replay found digest =
        if found.request_digest == digest
        then ok (found, w)
        else err (configuration "command-conflict")

    replayed : (found : Login) (digest : String) → replay found digest ≡ ok (got, w') → AtMostOne w'
    replayed found digest h = elim (Bool-cases (found.request_digest == digest)) [
      | inl t ↦ subst AtMostOne (returned_state found got w w' _ (if-true _ _ _ t) h) one
      | inr f ↦ absurd (no_return _ got w' _ (if-false _ _ _ f) h)
    ]

request_cancel-AtMostOne :
    (name : Name) (w w' : Logins) (id : String) (got : Login)
    → request_cancel name w id ≡ ok (got, w')
    → AtMostOne w
    → AtMostOne w'
unfolding request_cancel
request_cancel-AtMostOne name w w' id got h one =
    let (found, e, h1) = or_raise-eq-ok (file_of name id w) _ _ h in
    if-AtMostOne (is_terminal found.state) found _ got w _ w' h1 one
      (flagged (Bool-cases (has id w.active)))
  where
    flagged :
        (has id w.active ≡ true) ⊎ (has id w.active ≡ false)
        → length (if has id w.active then insert id true w.active else w.active) ≤ 1
    flagged (inl t) =
        let one_more : length (insert id true w.active) ≤ 1 =
          omega (arith, one, length-insert id true w.active t) in
        subst (λ (d : Dict Bool). length d ≤ 1) (sym (if-true (has id w.active) _ _ t)) one_more
    flagged (inr f) =
        subst (λ (d : Dict Bool). length d ≤ 1) (sym (if-false (has id w.active) _ _ f)) one

read-AtMostOne :
    (name : Name) (completed : String → Bool) (w w' : Logins) (id actor : String) (got : Login)
    → read name completed w id actor ≡ ok (got, w')
    → AtMostOne w
    → AtMostOne w'
unfolding read
read-AtMostOne name completed w w' id actor got h one =
    let (p, h1) = require-eq-ok (is_path id) _ _ h in
    let (found, e, h2) = or_raise-eq-ok (file_of name id w) _ _ h1 in
    let (own, h3) = require-eq-ok (found.actor == actor) _ _ h2 in
    if-AtMostOne (is_terminal found.state || has id w.active) found _ got w _ w' h3 one one

Step-AtMostOne :
    (hexdigest : Value → String) (name : Name) (supports : String → Bool) (w w' : Logins)
    → Step hexdigest name supports w w'
    → AtMostOne w
    → AtMostOne w'
unfolding publish conclude fail leave
Step-AtMostOne hexdigest name supports w w' (started j backend_id actor got h) one =
    start-AtMostOne hexdigest name supports w w' j backend_id actor got h one
Step-AtMostOne hexdigest name supports w w' (was_read completed j actor got h) one =
    read-AtMostOne name completed w w' j actor got h one
Step-AtMostOne hexdigest name supports w w' (asked j got h) one =
    request_cancel-AtMostOne name w w' j got h one
Step-AtMostOne hexdigest name supports w w' (published j url code current true e) one = one
Step-AtMostOne hexdigest name supports w w' (published j url code current false e) one = one
Step-AtMostOne hexdigest name supports w w' (concluded l stopped e) one = one
Step-AtMostOne hexdigest name supports w w' (did_fail l stopped e) one = one
Step-AtMostOne hexdigest name supports w w' (left j) one =
    omega (arith, one, length-erase j w.active)
Step-AtMostOne hexdigest name supports w w' lost one = omega arith

-- From a service without running logins, no sequence of calls, thread blocks and process losses leads
-- to more than one login thread.
pub Steps-AtMostOne :
    (hexdigest : Value → String) (name : Name) (supports : String → Bool) (w w' : Logins)
    → Steps hexdigest name supports w w'
    → AtMostOne w
    → AtMostOne w'
Steps-AtMostOne hexdigest name supports w w' stay one = one
Steps-AtMostOne hexdigest name supports w w' (next {w' = v} step steps) one =
    Steps-AtMostOne hexdigest name supports v w' steps
      (Step-AtMostOne hexdigest name supports w v step one)

-- What an operator can rely on when `read` has returned
abbrev pub IsTold : Name → String → String → Login → Logins → Type 0
IsTold name id actor l v =
    ((is_terminal l.state || has id v.active) ≡ true)
    × (file_of name id v ≡ some l)
    × (l.actor ≡ actor)

IsTold-as :
    (name : Name) (id actor : String) (l got : Login) (v w' : Logins) (r : Result (Login × Logins))
    → r ≡ ok (l, v)
    → r ≡ ok (got, w')
    → IsTold name id actor l v
    → IsTold name id actor got w'
IsTold-as name id actor l got v w' r e h told =
    let same : l ≡ got = cc in
    subst (λ w. IsTold name id actor got w) (returned_state l got v w' r e h)
      (subst (λ x. IsTold name id actor x v) same told)

reconciled-ended : (b : Bool) (l : Login) → is_terminal (reconciled b l).state ≡ true
reconciled-ended true l = refl
reconciled-ended false l = refl

-- A login that `read` returns is the caller's, is what its file then holds, and has ended or has a
-- running thread: a login whose thread is gone is not left open.
pub read_settles :
    (name : Name) (completed : String → Bool) (w w' : Logins) (id actor : String) (got : Login)
    → read name completed w id actor ≡ ok (got, w')
    → IsTold name id actor got w'
unfolding read
read_settles name completed w w' id actor got h =
    let (p, h1) = require-eq-ok (is_path id) _ _ h in
    let (found, e, h2) = or_raise-eq-ok (file_of name id w) _ _ h1 in
    let (own, h3) = require-eq-ok (found.actor == actor) _ _ h2 in
    let now = reconciled (completed id) found in
    let mine = (eq_iff found.actor actor).0 own in
    elim (Bool-cases (is_terminal found.state || has id w.active)) [
      | inl t ↦ IsTold-as name id actor found got w w' _ (if-true _ _ _ t) h3 (t, e, mine)
      | inr f ↦ IsTold-as name id actor now got (write name id now w) w' _ (if-false _ _ _ f) h3 (
        or_left _ _ (reconciled-ended (completed id) found),
        lookup-insert (name id) (name id) now w.files ∙ if-true _ _ _ (eq_refl (name id)),
        mine,
      )
    ]
  where
    or_left : (a b : Bool) → a ≡ true → (a || b) ≡ true
    or_left a b q = ground arith
