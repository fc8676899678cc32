-- ===== src/Policy/Evaluate.antt =====
-- The decision of `GatewayPolicy.evaluate` (gateway_policy.py) as a whole.
use mathlib.Core.Path.{subst}
use platform_engineering.Prelude.{
  ◌≡◌, refl, sym, ◌∙◌, String, true, false, inl, inr, Option, none, some, ◌⊎◌, ℕ, ◌≤◌, arith,
  is_empty, Option-cases,
}
use platform_engineering.Dict.{Dict, lookup}
use platform_engineering.Json.{
  pos, Value, null, bool, int, str, arr, obj, Fields, get, has, as_fields, is_dict, truthy, number,
  value_eq,
}
use platform_engineering.Json.Length.{encoded_length}
use platform_engineering.Profile.{
  Task, Profile, InvocationDecision, Outcome, returns, type_error, get_by,
}
use platform_engineering.Policy.{
  Resolution, resolve_task, schema_reasons, task_input_reasons, all_reasons, decide_for,
  decide_found, decide_looked_up, evaluate,
}
use platform_engineering.Policy.Reasons.{
  empty-append_left, empty-append_right, when-empty_rest, when-empty_last, version_reasons-empty,
  size_reasons-empty, operator_reasons-empty, caller_reasons-empty, activation_reasons-empty,
  IsCaller, IsActive,
}
use platform_engineering.Policy.Admission.{
  IsInput, IsTask, by_default, by_request, input_reasons-empty, resolve_task-IsTask,
  returns-injective,
}

-- What an allowed request has shown.
pub record IsAdmitted (profiles : Dict Profile) (request : Fields) (d : InvocationDecision)
    : Type 0 where
  pub id : String
  pub entry : Profile
  pub asked : get "profile_id" request ≡ str id
  pub known : lookup id profiles ≡ some entry
  pub granted : d.profile ≡ some entry
  pub version :
      (has "selection_evidence_version" request ≡ false)
      ⊎ (get "selection_evidence_version" request ≡ int (pos 1))
  pub caller : IsCaller entry (str id) (as_fields (get "caller_identity" request))
  pub size :
      (limit : ℕ) × (number entry.max_request_bytes ≡ some (pos limit))
      × (encoded_length (obj request) ≤ limit)
  pub contract : IsTask entry (get "task" request) d.task
  pub schema :
      (t : Task)
      → d.task ≡ some t
      → value_eq (get "provider_output_schema_ref" request) t.provider_output_schema_ref ≡ true
  pub active : IsActive entry
  pub operator :
      (o : Fields) × (get "operator_identity" request ≡ obj o)
      × (truthy (get "operator_id" o) ≡ true)
  pub payload : get "input" request ≡ obj d.input_payload
  pub input : (t : Task) → d.task ≡ some t → IsInput t.input_contract d.input_payload

is_dict→obj : (v : Value) → is_dict v ≡ true → v ≡ obj (as_fields v)
is_dict→obj (obj d) h = refl
is_dict→obj null h = ground arith
is_dict→obj (bool b) h = ground arith
is_dict→obj (int n) h = ground arith
is_dict→obj (str s) h = ground arith
is_dict→obj (arr xs) h = ground arith

schema_reasons-empty :
    (o : Option Task) (ref : Value)
    → is_empty (schema_reasons o ref) ≡ true
    → (t : Task) → o ≡ some t
    → value_eq ref t.provider_output_schema_ref ≡ true
schema_reasons-empty none ref h t e = cc
schema_reasons-empty (some u) ref h t e =
    subst
      (λ (x : Option Task).
        is_empty (schema_reasons x ref) ≡ true → value_eq ref t.provider_output_schema_ref ≡ true)
      (sym e) (when-empty_last (value_eq ref t.provider_output_schema_ref) _) h

task_input_reasons-empty :
    (o : Option Task) (input : Fields)
    → is_empty (task_input_reasons o input) ≡ true
    → (t : Task) → o ≡ some t
    → IsInput t.input_contract input
task_input_reasons-empty o input h t e =
    input_reasons-empty t.input_contract input
      (subst (λ (x : Option Task). is_empty (task_input_reasons x input) ≡ true) e h)

decide_for-IsAdmitted :
    (profiles : Dict Profile) (request : Fields) (id : String) (entry : Profile)
    (found : Resolution)
    → get "profile_id" request ≡ str id
    → lookup id profiles ≡ some entry
    → resolve_task entry (get "task" request) ≡ returns found
    → (decide_for entry request found).allowed ≡ true
    → IsAdmitted profiles request (decide_for entry request found)
unfolding decide_for all_reasons
decide_for-IsAdmitted profiles request id entry found asked known task h =
    let r₁ = empty-append_right _ _ h in
    let r₂ = empty-append_right _ _ r₁ in
    let r₃ = empty-append_right _ _ r₂ in
    let r₄ = empty-append_right _ _ r₃ in
    let r₅ = empty-append_right _ _ r₄ in
    let r₆ = empty-append_right _ _ r₅ in
    let r₇ = empty-append_right _ _ r₆ in
    let (dict, inputs) = when-empty_rest (is_dict (get "input" request)) _ _ r₇ in
    record {
      id = id;
      entry = entry;
      asked = asked;
      known = known;
      granted = refl;
      version = version_reasons-empty request (empty-append_left _ _ h);
      caller = rw asked at (
          caller_reasons-empty entry (get "profile_id" request)
            (as_fields (get "caller_identity" request)) (empty-append_left _ _ r₁));
      size = size_reasons-empty entry request (empty-append_left _ _ r₂);
      contract =
          resolve_task-IsTask entry (get "task" request) found task (empty-append_left _ _ r₃);
      schema =
          schema_reasons-empty found.task (get "provider_output_schema_ref" request)
            (empty-append_left _ _ r₄);
      active = activation_reasons-empty entry (empty-append_left _ _ r₅);
      operator =
          operator_reasons-empty (get "operator_identity" request) (empty-append_left _ _ r₆);
      payload = is_dict→obj (get "input" request) dict;
      input = task_input_reasons-empty found.task (as_fields (get "input" request)) inputs;
    }

decide_found-IsAdmitted :
    (profiles : Dict Profile) (request : Fields) (id : String) (entry : Profile)
    (o : Outcome Resolution) (d : InvocationDecision)
    → get "profile_id" request ≡ str id
    → lookup id profiles ≡ some entry
    → resolve_task entry (get "task" request) ≡ o
    → decide_found entry request o ≡ returns d
    → d.allowed ≡ true
    → IsAdmitted profiles request d
decide_found-IsAdmitted profiles request id entry type_error d asked known task e h = cc
decide_found-IsAdmitted profiles request id entry (returns found) d asked known task e h =
    let same = returns-injective _ d e in
    subst (IsAdmitted profiles request) same (
      decide_for-IsAdmitted profiles request id entry found asked known task
        (subst (λ (x : InvocationDecision). x.allowed ≡ true) (sym same) h))

unknown_denies :
    (request : Fields) (d : InvocationDecision)
    → decide_looked_up request (returns none) ≡ returns d
    → d.allowed ≡ true
    → ⊥
unknown_denies request d e h = ground arith

decide_looked_up-IsAdmitted :
    (profiles : Dict Profile) (request : Fields) (v : Value) (d : InvocationDecision)
    → get "profile_id" request ≡ v
    → decide_looked_up request (get_by v profiles) ≡ returns d
    → d.allowed ≡ true
    → IsAdmitted profiles request d
decide_looked_up-IsAdmitted profiles request (str id) d asked e h =
    elim (Option-cases (lookup id profiles)) [
      | inl e₀ ↦ absurd (unknown_denies request d (rw e₀ at e) h)
      | inr (entry, e₁) ↦
          decide_found-IsAdmitted profiles request id entry
            (resolve_task entry (get "task" request)) d asked e₁ refl (rw e₁ at e) h
    ]
decide_looked_up-IsAdmitted profiles request null d asked e h =
    absurd (unknown_denies request d e h)
decide_looked_up-IsAdmitted profiles request (bool b) d asked e h =
    absurd (unknown_denies request d e h)
decide_looked_up-IsAdmitted profiles request (int n) d asked e h =
    absurd (unknown_denies request d e h)
decide_looked_up-IsAdmitted profiles request (arr xs) d asked e h = cc
decide_looked_up-IsAdmitted profiles request (obj o) d asked e h = cc

-- The default task of each profile, where it has one, is among its contracts.
abbrev pub HaveDefaults : Dict Profile → Type 0
HaveDefaults profiles =
    (id kind : String) (entry : Profile)
    → lookup id profiles ≡ some entry
    → entry.default_task_kind ≡ some kind
    → (t : Task) × (lookup kind entry.task_contracts ≡ some t)

IsTask-known :
    (entry : Profile) (asked : Value) (o : Option Task)
    → IsTask entry asked o
    → ((kind : String)
        → entry.default_task_kind ≡ some kind
        → (t : Task) × (lookup kind entry.task_contracts ≡ some t))
    → (t : Task) × (o ≡ some t)
IsTask-known entry asked o (by_default kind e d same) defaults =
    let (t, found) = defaults kind d in (t, same ∙ found)
IsTask-known entry asked o (by_request provided named e same c) defaults = (named, same)

-- A decision that allows a request comes only with a known profile, an identified and listed
-- caller, a size within the profile's limit, a task contract, an output schema and an input that match
-- it, an active release state and an identified operator. The profiles are ones whose default task, if
-- there is one, is among their contracts, as the resolver demands.
pub evaluate-IsAdmitted :
    (profiles : Dict Profile) (request : Fields) (d : InvocationDecision)
    → HaveDefaults profiles
    → evaluate profiles request ≡ returns d
    → d.allowed ≡ true
    → IsAdmitted profiles request d
      × ((t : Task) × (d.task ≡ some t)
          × (value_eq (get "provider_output_schema_ref" request) t.provider_output_schema_ref
              ≡ true)
          × IsInput t.input_contract d.input_payload)
unfolding evaluate
evaluate-IsAdmitted profiles request d defaults e h =
    let a = decide_looked_up-IsAdmitted profiles request (get "profile_id" request) d refl e h in
    let (t, found) =
      IsTask-known a.entry (get "task" request) d.task a.contract
        (λ kind named. defaults a.id kind a.entry a.known named) in
    (a, (t, found, a.schema t found, a.input t found))
