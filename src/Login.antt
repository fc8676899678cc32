-- ===== src/Login.antt =====
-- dev-integration/profiles/governed-ai-gateway/runtime/model_login.py: the device sign-in of an operator.
-- The journal files of the logins and `self.active` are one state; each function here is one block
-- under the lock of a login. The thread of a login is a sequence of such blocks.
pub mod Steps
pub mod Settled
pub mod Alone
mod Tests
use platform_engineering.Prelude.{
  ◌≡◌, String, Bool, true, false, not, ◌&&◌, ◌||◌, Option, none, some, List, [], ◌∷◌, ◌==◌, leb,
  if◌then◌else◌, is_empty,
}
use platform_engineering.Dict.{Dict, lookup, has, insert, erase}
use platform_engineering.Text.{code_points}
use platform_engineering.Json.{Value, str, obj, field, end}
use platform_engineering.Result.{
  Result, ok, err, Error, configuration, key_error, ◌>>=◌, ◌>>◌, require, or_raise,
}
use platform_engineering.Configuration.{digest}

pub data LoginState : Type 0 where
  starting waiting_for_operator cancel_requested : LoginState
  connected cancelled failed interrupted : LoginState

-- `TERMINAL`
abbrev pub is_terminal : LoginState → Bool
is_terminal starting = false
is_terminal waiting_for_operator = false
is_terminal cancel_requested = false
is_terminal connected = true
is_terminal cancelled = true
is_terminal failed = true
is_terminal interrupted = true

pub record Login : Type 0 where
  pub command_id : String
  pub request_digest : String
  pub backend_id : String
  pub actor : String
  pub state : LoginState
  pub verification_url : Option String
  pub user_code : Option String
  pub failure : Option String

-- The files under the digests of the identities, and the cancel event of each thread that runs
pub record Logins : Type 0 where
  pub files : Dict Login
  pub active : Dict Bool

abbrev pub Name : Type 0
Name = String → String

-- `_paths`: an identity of 1 to 200 characters
abbrev pub is_path : String → Bool
is_path id = not (id == "") && leb (code_points id) 200

-- A file is written.
abbrev pub write : Name → String → Login → Logins → Logins
write name id login w = record w { files = insert (name id) login w.files }

abbrev pub file_of : Name → String → Logins → Option Login
file_of name id w = lookup (name id) w.files

unfoldable pub request_digest_of :
    (Value → String) → (command_id backend_id actor : String) → String
request_digest_of hexdigest command_id backend_id actor = digest hexdigest (
    obj (
      field "command_id" (str command_id)
        (field "backend_id" (str backend_id) (field "actor" (str actor) end))))

unfoldable pub first_login : (command_id request_digest backend_id actor : String) → Login
first_login command_id request_digest backend_id actor = record {
  command_id = command_id;
  request_digest = request_digest;
  backend_id = backend_id;
  actor = actor;
  state = starting;
  verification_url = none;
  user_code = none;
  failure = none;
}

-- A new login: one at a time
unfoldable pub begin_login : Name → Logins → Login → Result (Login × Logins)
begin_login name w login =
    if is_empty w.active
    then ok (
      login,
      record {
        files = insert (name login.command_id) login w.files;
        active = insert login.command_id false w.active;
      },
    )
    else err (configuration "login-busy")

-- `start`; `supports` says which backends have a native account.
unfoldable pub start :
    (Value → String)
    → Name
    → (supports : String → Bool) → Logins
    → (command_id backend_id actor : String) → Result (Login × Logins)
start hexdigest name supports w command_id backend_id actor = do
  require (supports backend_id) (configuration "login-not-supported")
  require (is_path command_id) (configuration "invalid-command")
  let fingerprint = request_digest_of hexdigest command_id backend_id actor
  elim (file_of name command_id w) [
    | some login ↦
        if login.request_digest == fingerprint
        then ok (login, w)
        else err (configuration "command-conflict")
    | none ↦ begin_login name w (first_login command_id fingerprint backend_id actor)
  ]

-- What `read` makes of a login whose thread is gone: `completed` says whether the custody has it.
abbrev pub reconciled : (completed : Bool) → Login → Login
reconciled completed login = record login {
  state = if completed then connected else interrupted;
  verification_url = none;
  user_code = none;
  failure = if completed then none else some "native-login-process-interrupted";
}

-- `read`
unfoldable pub read :
    Name
    → (completed : String → Bool) → Logins
    → (command_id actor : String) → Result (Login × Logins)
read name completed w command_id actor = do
  require (is_path command_id) (configuration "invalid-command")
  login ← or_raise (file_of name command_id w) (configuration "login-not-found")
  require (login.actor == actor) (configuration "login-forbidden")
  let now = reconciled (completed command_id) login
  if is_terminal login.state || has command_id w.active
      then ok (login, w)
      else ok (now, write name command_id now w)

-- The second block of `cancel`
unfoldable pub request_cancel : Name → Logins → String → Result (Login × Logins)
request_cancel name w command_id = do
  login ← or_raise (file_of name command_id w) key_error
  let asked = if has command_id w.active then insert command_id true w.active else w.active
  let now : Login = record login { state = cancel_requested }
  if is_terminal login.state
      then ok (login, w)
      else ok (now, write name command_id now (record w { active = asked }))

-- `cancel`, when no other block comes between its two
unfoldable pub cancel :
    Name
    → (completed : String → Bool) → Logins
    → (command_id actor : String) → Result (Login × Logins)
cancel name completed w command_id actor = do
  found ← read name completed w command_id actor
  if is_terminal found.0.state then ok found else request_cancel name found.1 command_id

-- The blocks of `_run`. The thread shows its instructions, unless it is cancelled.
unfoldable pub publish : Name → Logins → (command_id url code : String) → Login → Bool → Logins
publish name w command_id url code current stopped =
    if stopped
    then w
    else write name command_id
        (record current {
          state = waiting_for_operator;
          verification_url = some url;
          user_code = some code;
        })
        w

-- It ends by the answer of the provider or by the cancel event, on its own copy of the record.
unfoldable pub conclude : Name → Logins → Login → (stopped : Bool) → Logins
conclude name w login stopped =
    write name login.command_id
      (record login {
        state = if stopped then cancelled else connected;
        verification_url = none;
        user_code = none;
      })
      w

-- It fails.
unfoldable pub fail : Name → Logins → Login → Logins
fail name w login =
    write name login.command_id
      (record login {
        state = failed;
        verification_url = none;
        user_code = none;
        failure = some "native-login-unavailable";
      })
      w

-- It leaves `self.active`.
unfoldable pub leave : Logins → String → Logins
leave w command_id = record w { active = erase command_id w.active }
