-- ===== src/Routing/Output.antt =====
-- The output that `TaskRouting.invoke` (task_routing.py) hands to the caller, with `validate_output` of
-- strict_output_schema.py as its check.
use platform_engineering.Prelude.{String, ◌≡◌, Option, none, some}
use platform_engineering.Dict.{Dict}
use platform_engineering.Json.{ℤ, Value, Items}
use platform_engineering.Schema.{passes}
use platform_engineering.Schema.Conforms.{Conforms, passes-Conforms}
use platform_engineering.Routing.Candidates.{Provider, run_from}
use platform_engineering.Routing.Loop.{IsProduced, run_from_result}

-- If the loop over the targets ends without a failure, it returns an output that conforms to the
-- task's schema at every depth, and that output is what the provider has returned to the last attempt,
-- whichever backend was asked.
pub run_from-Conforms :
    (parse : String → Option ℤ) (schema : Value) (provider : Provider) (models : Dict Value)
    (targets : Items)
    → (run_from (passes parse schema) provider models 0 targets).failure ≡ none
    → (v : Value) × ((run_from (passes parse schema) provider models 0 targets).result ≡ some v)
      × Conforms parse v schema
      × IsProduced provider 0 (run_from (passes parse schema) provider models 0 targets).made v
run_from-Conforms parse schema provider models targets e =
    let (v, returned, passed, last) =
      run_from_result (passes parse schema) provider models targets e in
    (v, returned, passes-Conforms parse v schema passed, last)
