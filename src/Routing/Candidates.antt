-- ===== src/Routing/Candidates.antt =====
-- The loop over the targets of a selection in `TaskRouting.invoke` of
-- dev-integration/profiles/governed-ai-gateway/runtime/task_routing.py: what an attempt is, how a call
-- can end, and what follows from its end.
use platform_engineering.Prelude.{
  ℕ, suc, String, Bool, true, false, Option, none, some, List, [], ◌∷◌, if◌then◌else◌,
}
use platform_engineering.Dict.{Dict, lookup}
use platform_engineering.Json.{Value, Items, nil, cons}
use platform_engineering.Result.{Result, Error, ok, err, type_error, key_error, ◌>>=◌, or_raise}
use platform_engineering.Configuration.Validation.{item, text_or}

-- How a call to an adapter ends: a result, one of the errors that `invoke` tells apart, or any other
-- error, which leaves `invoke`.
pub data Ending : Type 0 where
  completed : Value → Ending
  unavailable busy completion_unknown timeout output_invalid : Ending
  failed : String → Ending
  raised : Error → Ending

-- The ending, with the account that it was bound to
pub record ProviderCall : Type 0 where
  pub ending : Ending
  pub account : Value

pub record Attempt : Type 0 where
  pub backend_id : String
  pub model : Value
  pub effort : Value
  pub outcome : String

-- What one call makes of `attempt["outcome"]`, `failure` and `result`, whether the loop goes on,
-- and the error that leaves it
pub record Settled : Type 0 where
  pub outcome : String
  pub failure : Option String
  pub result : Option Value
  pub continues : Bool
  pub escaped : Option Error

abbrev pub settle : (Value → Bool) → Ending → Settled
settle accepts (completed output) =
    if accepts output
    then record {
      outcome = "suggestion-produced";
      failure = none;
      result = some output;
      continues = false;
      escaped = none;
    }
    else record {
      outcome = "provider-output-invalid";
      failure = some "provider-output-invalid";
      result = some output;
      continues = false;
      escaped = none;
    }
settle accepts unavailable = record {
  outcome = "provider-unavailable";
  failure = some "no-suitable-fallback";
  result = none;
  continues = true;
  escaped = none;
}
settle accepts busy = record {
  outcome = "provider-busy";
  failure = some "no-suitable-fallback";
  result = none;
  continues = true;
  escaped = none;
}
settle accepts completion_unknown = record {
  outcome = "provider-completion-unknown";
  failure = some "provider-completion-unknown";
  result = none;
  continues = false;
  escaped = none;
}
settle accepts timeout = record {
  outcome = "provider-completion-unknown";
  failure = some "provider-completion-unknown";
  result = none;
  continues = false;
  escaped = none;
}
settle accepts output_invalid = record {
  outcome = "provider-output-invalid";
  failure = some "provider-output-invalid";
  result = none;
  continues = false;
  escaped = none;
}
settle accepts (failed code) = record {
  outcome = code;
  failure = some code;
  result = none;
  continues = false;
  escaped = none;
}
settle accepts (raised e) = record {
  outcome = "pending";
  failure = some "no-suitable-fallback";
  result = none;
  continues = false;
  escaped = some e;
}

-- An attempt with the model that it used, its account, and the profile's end of the loop
pub record Made : Type 0 where
  pub attempt : Attempt
  pub used : Value
  pub account : Value

pub record Run : Type 0 where
  pub made : List Made
  pub result : Option Value
  pub failure : Option String
  pub escaped : Option Error

pub record Candidate : Type 0 where
  pub used : Value
  pub backend_id : String
  pub model : Value
  pub effort : Value

-- `selection["models"][candidate["model_id"]]` and the fields of the attempt
unfoldable pub candidate_of : Dict Value → Value → Result Candidate
candidate_of models target = do
  id ← item "model_id" target
  name ← text_or id type_error
  used ← or_raise (lookup name models) key_error
  backend ← item "backend_id" used
  backend_id ← text_or backend type_error
  model ← item "model" used
  effort ← item "effort" target
  ok (record { used = used; backend_id = backend_id; model = model; effort = effort })

abbrev pub made_by : Candidate → ProviderCall → Settled → Made
made_by c call s = record {
  attempt = record {
    backend_id = c.backend_id;
    model = c.model;
    effort = c.effort;
    outcome = s.outcome;
  };
  used = c.used;
  account = call.account;
}

-- `provider i model effort`: the call of the `i`-th attempt of this invocation
abbrev pub Provider : Type 0
Provider = ℕ → Value → Value → ProviderCall

-- An attempt before the rest of the loop
unfoldable pub proceed : Made → Run → Run
proceed m r = record {
  made = m ∷ r.made;
  result = r.result;
  failure = r.failure;
  escaped = r.escaped;
}

-- An attempt that is the last
abbrev pub last_of : Made → Settled → Run
last_of m s = record { made = m ∷ []; result = s.result; failure = s.failure; escaped = s.escaped }

-- A loop that makes no further attempt
abbrev pub no_more : Option Error → Run
no_more e = record { made = []; result = none; failure = some "no-suitable-fallback"; escaped = e }

-- One target: its fields cannot be read, or it is asked, before the rest of the targets.
abbrev pub ask_target : (Value → Bool) → Provider → ℕ → Result Candidate → Run → Run
ask_target accepts provider i (err e) rest = no_more (some e)
ask_target accepts provider i (ok c) rest =
    let call = provider i c.used c.effort in
    let s = settle accepts call.ending in
    if s.continues then proceed (made_by c call s) rest else last_of (made_by c call s) s

-- The loop over the candidates
unfoldable pub run_from : (Value → Bool) → Provider → Dict Value → ℕ → Items → Run
run_from accepts provider models i nil = no_more none
run_from accepts provider models i (cons target targets) =
    let rest = run_from accepts provider models (suc i) targets in
    ask_target accepts provider i (candidate_of models target) rest
