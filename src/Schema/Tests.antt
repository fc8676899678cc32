-- ===== src/Schema/Tests.antt =====
-- The validation of an output at one schema: an object with a required text.
use platform_engineering.Prelude.{◌≡◌, refl, String, false, Option, none}
use platform_engineering.Text.{code_points}
use platform_engineering.Json.{
  ℤ, Value, null, bool, str, arr, obj, nil, cons, end, field, find, get, has, keys,
}
use platform_engineering.Result.{ok, err, output_schema}
use platform_engineering.Schema.{
  types_of, texts_of, matches_type, required_of, object_shape, validate_supported_schema,
  flat_checks, field_checks, validate_output, within,
}
use platform_engineering.Schema.Conforms.{Conforms, validate_output-Conforms}

abbrev parse : String → Option ℤ
parse s = none

abbrev schema : Value
schema = obj (
    field "type" (str "object") (
      field "properties" (obj (field "verdict" (obj (field "type" (str "string") end)) end)) (
        field "required" (arr (cons (str "verdict") nil))
          (field "additionalProperties" (bool false) end))))

abbrev output : Value
output = obj (field "verdict" (str "keep") end)

passes_output : validate_output parse output schema ≡ ok tt
unfolding validate_output validate_supported_schema types_of texts_of matches_type required_of
    object_shape flat_checks field_checks within code_points find get has keys
passes_output = refl

refuses_unexpected :
    validate_output parse (obj (field "verdict" (str "keep") (field "note" null end))) schema
    ≡ err output_schema
unfolding validate_output validate_supported_schema types_of texts_of matches_type required_of
    object_shape flat_checks field_checks within code_points find get has keys
refuses_unexpected = refl

validate_output-Conforms_example : Conforms parse output schema
validate_output-Conforms_example = validate_output-Conforms parse output schema passes_output
