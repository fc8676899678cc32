-- ===== src/Login/Tests.antt =====
-- The theorems on `ModelLogin` at one login that is connected, and a second that starts.
use platform_engineering.Prelude.{◌≡◌, refl, String, Bool, true, false, none, [], ◌∷◌, arith}
use platform_engineering.Dict.{lookup, has, insert}
use platform_engineering.Text.{code_points}
use platform_engineering.Json.{Value}
use platform_engineering.Result.{ok}
use platform_engineering.Configuration.{digest}
use platform_engineering.Login.{
  Name, Login, Logins, connected, starting, first_login, request_digest_of, start, begin_login,
  read,
}
use platform_engineering.Login.Steps.{Steps, started, lost, next, stay}
use platform_engineering.Login.Settled.{IsSettled, Steps-IsSettled}
use platform_engineering.Login.Alone.{AtMostOne, IsTold, Steps-AtMostOne, read_settles}

abbrev hexdigest : Value → String
hexdigest v = "d"

abbrev name : Name
name id = id

abbrev supports : String → Bool
supports backend_id = true

abbrev login_of : String → String → Login
login_of id actor = record {
  command_id = id;
  request_digest = "sha256:d";
  backend_id = "codex";
  actor = actor;
  state = starting;
  verification_url = none;
  user_code = none;
  failure = none;
}

abbrev done : Login
done = record (login_of "c1" "alice") { state = connected }

abbrev one_done : Logins
one_done = record { files = ("c1", done) ∷ []; active = [] }

abbrev second_running : Logins
second_running = record {
  files = ("c1", done) ∷ ("c2", login_of "c2" "bob") ∷ [];
  active = ("c2", false) ∷ [];
}

second_start :
    start hexdigest name supports one_done "c2" "codex" "bob"
    ≡ ok (login_of "c2" "bob", second_running)
unfolding start begin_login first_login request_digest_of digest code_points lookup insert
second_start = refl

-- The second login starts, and the process is lost.
abbrev steps : Steps hexdigest name supports one_done (record second_running { active = [] })
steps = next (started "c2" "codex" "bob" (login_of "c2" "bob") second_start) (next lost stay)

Steps-IsSettled_example : IsSettled name "c1" done (record second_running { active = [] })
Steps-IsSettled_example =
    Steps-IsSettled hexdigest name (λ a b e. e) supports "c1" done one_done
      (record second_running { active = [] }) steps (unfold lookup in (refl, refl, refl))

Steps-AtMostOne_example : AtMostOne second_running
Steps-AtMostOne_example =
    Steps-AtMostOne hexdigest name supports one_done second_running
      (next (started "c2" "codex" "bob" (login_of "c2" "bob") second_start) stay) (omega arith)

told : read name (λ id. false) second_running "c2" "bob" ≡ ok (login_of "c2" "bob", second_running)
unfolding read lookup has code_points
told = refl

read_settles_example : IsTold name "c2" "bob" (login_of "c2" "bob") second_running
read_settles_example =
    read_settles name (λ id. false) second_running second_running "c2" "bob" (login_of "c2" "bob")
      told
