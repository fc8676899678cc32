-- ===== src/Login/Settled.antt =====
-- What no step of `ModelLogin` (model_login.py) changes, and that one login runs at a time.
use mathlib.Core.Path.{subst}
use mathlib.Core.Bool.{false≢true}
use platform_engineering.Prelude.{
  ◌≡◌, refl, sym, ap, ◌∙◌, String, Bool, true, false, ◌||◌, ◌⊎◌, inl, inr, none, some, ◌==◌, arith,
  is_empty, if◌then◌else◌, if-true, if-false, Bool-cases, Option-cases, eq_iff,
}
use platform_engineering.Dict.{Dict, lookup, has, insert, erase, lookup-insert, lookup-erase}
use platform_engineering.Json.{Value}
use platform_engineering.Result.{
  Result, ok, err, configuration, Error, require-eq-ok, or_raise-eq-ok,
}
use platform_engineering.Login.{
  is_path, cancel_requested, Name, Login, Logins, is_terminal, file_of, write, start, begin_login,
  first_login, request_digest_of, read, reconciled, request_cancel, publish, conclude, fail, leave,
}
use platform_engineering.Login.Steps.{
  Step, Steps, started, was_read, asked, published, concluded, did_fail, left, lost, stay, next,
}

-- The identities have different files.
abbrev pub Apart : Name → Type 0
Apart name = (a b : String) → name a ≡ name b → a ≡ b

-- The login is in its file, has ended, and no thread runs for it.
abbrev pub IsSettled : Name → String → Login → Logins → Type 0
IsSettled name id login w =
    (file_of name id w ≡ some login)
    × (is_terminal login.state ≡ true)
    × (lookup id w.active ≡ none)

write-other :
    (name : Name)
    → Apart name
    → (id j : String) (l : Login) (w : Logins) → (j == id) ≡ false
    → file_of name id (write name j l w) ≡ file_of name id w
write-other name apart id j l w other =
    lookup-insert (name j) (name id) l w.files
    ∙ if-false _ _ _ (differ (Bool-cases (name j == name id)))
  where
    differ :
        ((name j == name id) ≡ true) ⊎ ((name j == name id) ≡ false) → (name j == name id) ≡ false
    differ (inl t) =
        absurd
          (ground (arith, other, (eq_iff j id).1 (apart j id ((eq_iff (name j) (name id)).0 t))))
    differ (inr f) = f

-- A thread that runs is not of a settled login.
active-other :
    (active : Dict Bool) (id j : String) (stopped : Bool)
    → lookup id active ≡ none
    → lookup j active ≡ some stopped
    → (j == id) ≡ false
active-other active id j stopped n s = elim (Bool-cases (j == id)) [
  | inl t ↦ absurd (clash (sym n ∙ ap (λ k. lookup k active) (sym ((eq_iff j id).0 t)) ∙ s))
  | inr f ↦ f
]
  where
    clash : none ≡ some stopped → ⊥
    clash p = ground arith

insert-none :
    (active : Dict Bool) (id j : String) (v : Bool)
    → (j == id) ≡ false
    → lookup id active ≡ none
    → lookup id (insert j v active) ≡ none
insert-none active id j v other n = lookup-insert j id v active ∙ if-false _ _ _ other ∙ n

-- A block of a thread, on the file of another login
thread-IsSettled :
    (name : Name)
    → Apart name
    → (id : String) (login : Login) (w : Logins) (j : String) (l : Login) (stopped : Bool)
    → lookup j w.active ≡ some stopped
    → IsSettled name id login w
    → IsSettled name id login (write name j l w)
thread-IsSettled name apart id login w j l stopped s (f, t, n) =
    (write-other name apart id j l w (active-other w.active id j stopped n s) ∙ f, t, n)

-- The state of a call that has returned
some-injective : {A : Type 0} (a b : A) → some a ≡ some b → a ≡ b
some-injective a b h = cc

pub returned_state :
    (l got : Login) (w w' : Logins) (r : Result (Login × Logins))
    → r ≡ ok (l, w)
    → r ≡ ok (got, w')
    → w ≡ w'
returned_state l got w w' r e h = cc

pub no_return :
    (e : Error) (got : Login) (w' : Logins) (r : Result (Login × Logins))
    → r ≡ err e
    → r ≡ ok (got, w')
    → ⊥
no_return e got w' r f p = cc

begin_login-IsSettled :
    (name : Name)
    → Apart name
    → (id : String) (login new got : Login) (w w' : Logins) → file_of name new.command_id w ≡ none
    → begin_login name w new ≡ ok (got, w')
    → IsSettled name id login w
    → IsSettled name id login w'
unfolding begin_login
begin_login-IsSettled name apart id login new got w w' fresh h (f, t, n) =
    elim (Bool-cases (is_empty w.active)) [
      | inl e ↦
          let same = returned_state new got _ w' _ (if-true _ _ _ e) h in
          subst (IsSettled name id login) same (
            write-other name apart id new.command_id new w other ∙ f,
            t,
            insert-none w.active id new.command_id false other n,
          )
      | inr e ↦ absurd (no_return _ got w' _ (if-false _ _ _ e) h)
    ]
  where
    clash : none ≡ some login → ⊥
    clash p = ground arith

    other : (new.command_id == id) ≡ false
    other = elim (Bool-cases (new.command_id == id)) [
      | inl e ↦
          absurd
            (clash (sym fresh ∙ ap (λ k. file_of name k w) ((eq_iff new.command_id id).0 e) ∙ f))
      | inr e ↦ e
    ]

-- A login that has not ended is another one.
unsettled-other :
    (name : Name) (id j : String) (login found : Login) (w : Logins)
    → file_of name id w ≡ some login
    → is_terminal login.state ≡ true
    → file_of name j w ≡ some found
    → is_terminal found.state ≡ false
    → (j == id) ≡ false
unsettled-other name id j login found w f t g u = elim (Bool-cases (j == id)) [
  | inl e ↦ absurd (clash (sym (ap (λ k. file_of name k w) ((eq_iff j id).0 e)) ∙ g))
  | inr e ↦ e
]
  where
    clash : file_of name id w ≡ some found → ⊥
    clash p =
        let same : some login ≡ some found = sym f ∙ p in
        let l : login ≡ found = some-injective login found same in
        false≢true (sym u ∙ sym (ap (λ (x : Login). is_terminal x.state) l) ∙ t)

start-IsSettled :
    (hexdigest : Value → String) (name : Name)
    → Apart name
    → (supports : String → Bool)
    → (id : String) (login got : Login) (w w' : Logins) (command_id backend_id actor : String)
    → start hexdigest name supports w command_id backend_id actor ≡ ok (got, w')
    → IsSettled name id login w
    → IsSettled name id login w'
unfolding start first_login
start-IsSettled hexdigest name apart supports id login got w w' command_id backend_id actor h
      settled =
    let (s, h1) = require-eq-ok (supports backend_id) _ _ h in
    let (p, h2) = require-eq-ok (is_path command_id) _ _ h1 in
    let digest = request_digest_of hexdigest command_id backend_id actor in
    elim (Option-cases (file_of name command_id w)) [
      | inl n ↦
          begin_login-IsSettled name apart id login (first_login command_id digest backend_id actor)
            got w w' n (rw n at h2) settled
      | inr (found, e) ↦ replayed found digest (rw e at h2)
    ]
  where
    replay : Login → String → Result (Login × Logins)
    replay found digest =
        if found.request_digest == digest
        then ok (found, w)
        else err (configuration "command-conflict")

    replayed :
        (found : Login) (digest : String)
        → replay found digest ≡ ok (got, w')
        → IsSettled name id login w'
    replayed found digest h = elim (Bool-cases (found.request_digest == digest)) [
      | inl t ↦
          subst (IsSettled name id login) (returned_state found got w w' _ (if-true _ _ _ t) h)
            settled
      | inr t ↦ absurd (no_return _ got w' _ (if-false _ _ _ t) h)
    ]

read-IsSettled :
    (name : Name)
    → Apart name
    → (completed : String → Bool)
    → (id : String) (login got : Login) (w w' : Logins) (command_id actor : String)
    → read name completed w command_id actor ≡ ok (got, w')
    → IsSettled name id login w
    → IsSettled name id login w'
unfolding read
read-IsSettled name apart completed id login got w w' command_id actor h (f, t, n) =
    let (p, h1) = require-eq-ok (is_path command_id) _ _ h in
    let (found, e, h2) = or_raise-eq-ok (file_of name command_id w) _ _ h1 in
    let (own, h3) = require-eq-ok (found.actor == actor) _ _ h2 in
    let kept = is_terminal found.state || has command_id w.active in
    elim (Bool-cases kept) [
      | inl k ↦
          subst (IsSettled name id login) (returned_state found got w w' _ (if-true _ _ _ k) h3)
            (f, t, n)
      | inr k ↦
          let other =
            unsettled-other name id command_id login found w f t e
              (not_or (is_terminal found.state) _ k) in
          let now = reconciled (completed command_id) found in
          subst (IsSettled name id login) (returned_state now got _ w' _ (if-false _ _ _ k) h3)
            (write-other name apart id command_id now w other ∙ f, t, n)
    ]
  where
    not_or : (a b : Bool) → (a || b) ≡ false → a ≡ false
    not_or a b p = ground arith

request_cancel-IsSettled :
    (name : Name)
    → Apart name
    → (id : String) (login got : Login) (w w' : Logins) (command_id : String)
    → request_cancel name w command_id ≡ ok (got, w')
    → IsSettled name id login w
    → IsSettled name id login w'
unfolding request_cancel
request_cancel-IsSettled name apart id login got w w' command_id h (f, t, n) =
    let (found, e, h1) = or_raise-eq-ok (file_of name command_id w) _ _ h in
    elim (Bool-cases (is_terminal found.state)) [
      | inl k ↦
          subst (IsSettled name id login) (returned_state found got w w' _ (if-true _ _ _ k) h1)
            (f, t, n)
      | inr k ↦
          let other = unsettled-other name id command_id login found w f t e k in
          let now : Login = record found { state = cancel_requested } in
          subst (IsSettled name id login) (returned_state now got _ w' _ (if-false _ _ _ k) h1) (
            write-other name apart id command_id now w other ∙ f,
            t,
            stopped_none (has command_id w.active) other,
          )
    ]
  where
    stopped_none :
        (running : Bool)
        → (command_id == id) ≡ false
        → lookup id (if running then insert command_id true w.active else w.active) ≡ none
    stopped_none true other = insert-none w.active id command_id true other n
    stopped_none false other = n

-- A step keeps a login that has ended and has no thread.
Step-IsSettled :
    (hexdigest : Value → String) (name : Name)
    → Apart name
    → (supports : String → Bool) → (id : String) (login : Login) (w w' : Logins)
    → Step hexdigest name supports w w'
    → IsSettled name id login w
    → IsSettled name id login w'
unfolding publish conclude fail leave lookup
Step-IsSettled hexdigest name apart supports id login w w' (started j backend_id actor got h) s =
    start-IsSettled hexdigest name apart supports id login got w w' j backend_id actor h s
Step-IsSettled hexdigest name apart supports id login w w' (was_read completed j actor got h) s =
    read-IsSettled name apart completed id login got w w' j actor h s
Step-IsSettled hexdigest name apart supports id login w w' (asked j got h) s =
    request_cancel-IsSettled name apart id login got w w' j h s
Step-IsSettled hexdigest name apart supports id login w w' (published j url code current true e) s =
    s
Step-IsSettled hexdigest name apart supports id login w w' (published j url code current false e)
      s =
    thread-IsSettled name apart id login w j _ false e s
Step-IsSettled hexdigest name apart supports id login w w' (concluded l stopped e) s =
    thread-IsSettled name apart id login w l.command_id _ stopped e s
Step-IsSettled hexdigest name apart supports id login w w' (did_fail l stopped e) s =
    thread-IsSettled name apart id login w l.command_id _ stopped e s
Step-IsSettled hexdigest name apart supports id login w w' (left j) (f, t, n) =
    (f, t, erased (j == id) (lookup-erase j id w.active))
  where
    erased :
        (b : Bool)
        → lookup id (erase j w.active) ≡ (if b then none else lookup id w.active)
        → lookup id (erase j w.active) ≡ none
    erased true e = e
    erased false e = e ∙ n
Step-IsSettled hexdigest name apart supports id login w w' lost (f, t, n) = (f, t, refl)

-- A login that has ended (connected, cancelled, failed or interrupted) and whose thread has left keeps
-- its record through any further calls of any operators, blocks of other threads and losses of the
-- process, and no thread runs for it again. The identities are taken to have different file names.
pub Steps-IsSettled :
    (hexdigest : Value → String) (name : Name)
    → Apart name
    → (supports : String → Bool) → (id : String) (login : Login) (w w' : Logins)
    → Steps hexdigest name supports w w'
    → IsSettled name id login w
    → IsSettled name id login w'
Steps-IsSettled hexdigest name apart supports id login w w' stay s = s
Steps-IsSettled hexdigest name apart supports id login w w' (next {w' = v} step steps) s =
    Steps-IsSettled hexdigest name apart supports id login v w' steps
      (Step-IsSettled hexdigest name apart supports id login w v step s)
