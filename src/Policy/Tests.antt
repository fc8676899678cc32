-- ===== src/Policy/Tests.antt =====
-- A profile, an admissible request, and the theorems on the policy at them.
use platform_engineering.Prelude.{
  ◌≡◌, refl, Bool, true, none, some, [], ◌∷◌, ap, ◌∙◌, ◌==◌, Bool-cases, inl, inr, sorted, join,
  from_keys,
}
use mathlib.Core.Option.{some-injective}
use platform_engineering.Dict.{Dict, lookup}
use platform_engineering.Json.{
  pos, bool, int, str, obj, Fields, end, field, get, has, keys, value_eq, mem_texts,
}
use platform_engineering.Json.Length.{encoded_length}
use platform_engineering.Profile.{Task, Profile, InvocationDecision, returns}
use platform_engineering.Policy.{
  split_slash, evaluate, resolve_task, decide_for, all_reasons, version_reasons, caller_reasons,
  size_reasons, missing_fields, input_reasons, activation_reasons, operator_reasons,
}
use platform_engineering.Policy.Evaluate.{IsAdmitted, HaveDefaults, evaluate-IsAdmitted}
use platform_engineering.Policy.Admission.{IsInput}

abbrev classify : Task
classify = record {
  task_kind = "classify";
  contract_ref = str "contracts/classify";
  contract_version = str "v1";
  provider_output_schema_ref = str "platform-engineering/classify.json";
  input_contract = record {
    allowed_fields = "text" ∷ "hint" ∷ [];
    required_fields = "text" ∷ [];
    model_safe_packet_required_fields = [];
  };
}

abbrev pub intake : Profile
intake = record {
  allowed_callers = "oos/intake" ∷ [];
  max_request_bytes = int (pos 600);
  task_contracts = ("classify", classify) ∷ [];
  default_task_kind = none;
  profile_status = str "active";
  binding_status = str "active";
  provider_route_status = str "active";
  profile_activation_allowed = bool true;
  activation_eligible = bool true;
}

abbrev profiles : Dict Profile
profiles = ("intake-v1", intake) ∷ []

abbrev caller : Fields
caller = field "caller_id" (str "oos/intake") (
    field "caller_repo" (str "oos") (
      field "caller_workflow" (str "intake") (
        field "decision_or_correlation_id" (str "d-1")
          (field "requested_profile_id" (str "intake-v1") end))))

abbrev named_task : Fields
named_task =
    field "kind" (str "classify")
      (field "contract_ref" (str "contracts/classify") (field "version" (str "v1") end))

abbrev pub request : Fields
request = field "profile_id" (str "intake-v1") (
    field "caller_identity" (obj caller) (
      field "task" (obj named_task) (
        field "provider_output_schema_ref" (str "platform-engineering/classify.json") (
          field "operator_identity" (obj (field "operator_id" (str "op-7") end))
            (field "input" (obj (field "text" (str "hello") end)) end)))))

abbrev decision : InvocationDecision
decision = record {
  allowed = true;
  reasons = [];
  profile = some intake;
  task = some classify;
  input_payload = field "text" (str "hello") end;
  compatibility_mode = Bool.false;
}

evaluate-request : evaluate profiles request ≡ returns decision
unfolding evaluate resolve_task decide_for all_reasons version_reasons caller_reasons size_reasons
    missing_fields input_reasons activation_reasons operator_reasons lookup get has keys value_eq
    mem_texts encoded_length split_slash sorted join from_keys
evaluate-request = refl

nothing_given : {A : Type 0} {a : A} → none ≡ some a → ⊥
nothing_given h = cc

-- The one profile has no default task.
have_defaults : HaveDefaults profiles
unfolding lookup
have_defaults id kind entry known named = elim (Bool-cases ("intake-v1" == id)) [
  | inl e ↦ absurd (
      nothing_given (
        ap (λ (p : Profile). p.default_task_kind) (some-injective intake entry (rw e at known))
        ∙ named))
  | inr e ↦ absurd (nothing_given (rw e at known))
]

evaluate-IsAdmitted_example :
    IsAdmitted profiles request decision
    × ((t : Task) × (decision.task ≡ some t)
        × (value_eq (get "provider_output_schema_ref" request) t.provider_output_schema_ref ≡ true)
        × IsInput t.input_contract decision.input_payload)
evaluate-IsAdmitted_example =
    evaluate-IsAdmitted profiles request decision have_defaults evaluate-request refl
