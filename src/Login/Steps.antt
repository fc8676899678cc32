-- ===== src/Login/Steps.antt =====
-- The blocks of `ModelLogin` (model_login.py) as steps of the service: the calls of the operators, the
-- blocks of the login threads, and the loss of the process.
use platform_engineering.Prelude.{◌≡◌, String, Bool, some, []}
use platform_engineering.Dict.{lookup}
use platform_engineering.Json.{Value}
use platform_engineering.Result.{ok}
use platform_engineering.Login.{
  Name, Login, Logins, start, read, request_cancel, publish, conclude, fail, leave,
}

module _ (hexdigest : Value → String) (name : Name) (supports : String → Bool) where
  -- A block of a thread needs the thread to be in `self.active`.
  pub data Step : Logins → Logins → Type 0 where
    started :
        {w w' : Logins} (id backend_id actor : String) (login : Login)
        → start hexdigest name supports w id backend_id actor ≡ ok (login, w')
        → Step w w'
    was_read :
        {w w' : Logins} (completed : String → Bool) (id actor : String) (login : Login)
        → read name completed w id actor ≡ ok (login, w')
        → Step w w'
    asked :
        {w w' : Logins} (id : String) (login : Login)
        → request_cancel name w id ≡ ok (login, w')
        → Step w w'
    published :
        {w : Logins} (id url code : String) (current : Login) (stopped : Bool)
        → lookup id w.active ≡ some stopped
        → Step w (publish name w id url code current stopped)
    concluded :
        {w : Logins} (login : Login) (stopped : Bool)
        → lookup login.command_id w.active ≡ some stopped
        → Step w (conclude name w login stopped)
    did_fail :
        {w : Logins} (login : Login) (stopped : Bool)
        → lookup login.command_id w.active ≡ some stopped
        → Step w (fail name w login)
    left : {w : Logins} (id : String) → Step w (leave w id)
    lost : {w : Logins} → Step w (record w { active = [] })

  pub data Steps : Logins → Logins → Type 0 where
    stay : {w : Logins} → Steps w w
    next : {w w' w'' : Logins} → Step w w' → Steps w' w'' → Steps w w''
