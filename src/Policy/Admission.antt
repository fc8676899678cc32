-- ===== src/Policy/Admission.antt =====
-- What a request has to show to be admissible, and what the parts of `evaluate` (gateway_policy.py) that
-- append no reason say of it.
use platform_engineering.Prelude.{
  ◌≡◌, refl, sym, ◌∙◌, ap, String, Bool, true, false, not, ◌&&◌, Option, none, some, List, [], ◌∷◌,
  inl, inr, arith, is_empty, contains, from_keys, sorted, Bool-cases, Option-cases, keep,
}
use mathlib.Core.Path.{subst}
use platform_engineering.Prelude.Sets.{Each, Each-at, is_empty-sorted, contains-from_keys}
use platform_engineering.Dict.{lookup}
use platform_engineering.Json.{
  Value, null, bool, int, str, arr, obj, Fields, get, has, keys, value_eq, has_exactly,
}
use platform_engineering.Profile.{InputContract, Task, Profile, returns, get_by}
use platform_engineering.Policy.{
  when, Resolution, resolve_task, default_task, expected_task, task_keys, is_blank, is_packet,
  input_reasons, missing_fields,
}
use platform_engineering.Policy.Reasons.{when-empty_rest, when-empty_last, missing_fields-empty}

-- The input has only allowed fields, and every required one with a value that is not blank.
pub record IsInput (contract : InputContract) (input : Fields) : Type 0 where
  pub allowed : Each (λ f. contains f contract.allowed_fields ≡ true) (keys input)
  pub required :
      (f : String) → contains f contract.required_fields ≡ true → is_blank (get f input) ≡ false
  pub packet :
      is_empty contract.model_safe_packet_required_fields ≡ false
      → has "model_safe_packet" input ≡ true
      → is_packet contract.model_safe_packet_required_fields (get "model_safe_packet" input) ≡ true

keep-empty :
    (p : String → Bool) (xs : List String)
    → is_empty (keep (λ f. not (p f)) xs) ≡ true
    → Each (λ f. p f ≡ true) xs
keep-empty p [] h = tt
keep-empty p (x ∷ xs) h = elim (Bool-cases (p x)) [
  | inl e ↦ (e, keep-empty p xs (rw e at h))
  | inr e ↦ ground (arith, e)
]

packet_tests :
    (unused given fits : Bool) (r : String)
    → is_empty (when (not unused && given && not fits) r) ≡ true
    → unused ≡ false
    → given ≡ true
    → fits ≡ true
packet_tests unused given fits r h p q = ground arith

pub input_reasons-empty :
    (contract : InputContract) (input : Fields)
    → is_empty (input_reasons contract input) ≡ true
    → IsInput contract input
unfolding input_reasons
input_reasons-empty contract input h =
    let unexpected = keep (λ f. not (contains f contract.allowed_fields)) (keys input) in
    let missing = missing_fields is_blank (from_keys contract.required_fields) input in
    let (a, rest) = when-empty_rest (is_empty (sorted unexpected)) _ _ h in
    let (b, last) = when-empty_rest (is_empty (sorted missing)) _ _ rest in
    let each =
      missing_fields-empty is_blank (from_keys contract.required_fields) input
        (sym (is_empty-sorted missing) ∙ b) in
    record {
      allowed =
          keep-empty (λ f. contains f contract.allowed_fields) (keys input)
            (sym (is_empty-sorted unexpected) ∙ a);
      required = λ f m.
          Each-at (λ g. is_blank (get g input) ≡ false) (from_keys contract.required_fields) f
            (contains-from_keys f contract.required_fields m) each;
      packet =
          λ e k. packet_tests (is_empty contract.model_safe_packet_required_fields) _ _ _ last e k;
    }

-- A task that the request names fits the contract of that kind in the profile.
pub record IsContract (profile : Profile) (provided : Fields) (task : Task) : Type 0 where
  pub kind : String
  pub named : get "kind" provided ≡ str kind
  pub admitted : lookup kind profile.task_contracts ≡ some task
  pub exact : has_exactly task_keys provided ≡ true
  pub same_ref : value_eq (get "contract_ref" provided) task.contract_ref ≡ true
  pub same_version : value_eq (get "version" provided) task.contract_version ≡ true

-- How the task of an allowed request was found: the profile's default, or the one that it names.
pub data IsTask (profile : Profile) (asked : Value) (task : Option Task) : Type 0 where
  by_default :
      (kind : String)
      → asked ≡ null
      → profile.default_task_kind ≡ some kind
      → task ≡ lookup kind profile.task_contracts
      → IsTask profile asked task
  by_request :
      (provided : Fields) (named : Task)
      → asked ≡ obj provided
      → task ≡ some named
      → IsContract profile provided named
      → IsTask profile asked task

default_task-kind :
    (profile : Profile) (o : Option String) (found : Resolution)
    → default_task profile o ≡ found
    → is_empty found.reasons ≡ true
    → (kind : String) × (o ≡ some kind) × (found.task ≡ lookup kind profile.task_contracts)
default_task-kind profile none found e h = absurd (ground arith)
default_task-kind profile (some kind) found e h = (kind, refl, ground arith)

pub returns-injective {ℓ} : {A : Type ℓ} (a b : A) → returns a ≡ returns b → a ≡ b
returns-injective a b h = cc

contract_of_none :
    (provided : Fields) (found : Resolution)
    → expected_task provided (returns none) ≡ returns found
    → is_empty found.reasons ≡ true
    → ⊥
contract_of_none provided found e h = ground arith

contract_of_some :
    (provided : Fields) (task : Task) (found : Resolution)
    → expected_task provided (returns (some task)) ≡ returns found
    → is_empty found.reasons ≡ true
    → (found.task ≡ some task)
      × (has_exactly task_keys provided ≡ true)
      × (value_eq (get "contract_ref" provided) task.contract_ref ≡ true)
      × (value_eq (get "version" provided) task.contract_version ≡ true)
contract_of_some provided task found e h =
    let same = returns-injective _ found e in
    let empty = subst (λ (r : Resolution). is_empty r.reasons ≡ true) (sym same) h in
    let (a, rest) = when-empty_rest (has_exactly task_keys provided) _ _ empty in
    let (b, last) =
      when-empty_rest (value_eq (get "contract_ref" provided) task.contract_ref) _ _ rest in
    (
      sym (ap (λ (r : Resolution). r.task) same),
      a,
      b,
      when-empty_last (value_eq (get "version" provided) task.contract_version) _ last,
    )

expected_task-IsContract :
    (profile : Profile) (provided : Fields) (v : Value) (found : Resolution)
    → v ≡ get "kind" provided
    → expected_task provided (get_by v profile.task_contracts) ≡ returns found
    → is_empty found.reasons ≡ true
    → IsTask profile (obj provided) found.task
expected_task-IsContract profile provided (str kind) found k e h =
    elim (Option-cases (lookup kind profile.task_contracts)) [
      | inl e₀ ↦ absurd (contract_of_none provided found (rw e₀ at e) h)
      | inr (task, e₁) ↦
          let (same, exact, ref, version) = contract_of_some provided task found (rw e₁ at e) h in
          by_request provided task refl same (record {
            kind = kind;
            named = sym k;
            admitted = e₁;
            exact = exact;
            same_ref = ref;
            same_version = version;
          })
    ]
expected_task-IsContract profile provided null found k e h =
    absurd (contract_of_none provided found e h)
expected_task-IsContract profile provided (bool b) found k e h =
    absurd (contract_of_none provided found e h)
expected_task-IsContract profile provided (int n) found k e h =
    absurd (contract_of_none provided found e h)
expected_task-IsContract profile provided (arr xs) found k e h = ground arith
expected_task-IsContract profile provided (obj d) found k e h = ground arith

pub resolve_task-IsTask :
    (profile : Profile) (v : Value) (found : Resolution)
    → resolve_task profile v ≡ returns found
    → is_empty found.reasons ≡ true
    → IsTask profile v found.task
unfolding resolve_task
resolve_task-IsTask profile null found e h =
    let (kind, d, t) =
      default_task-kind profile profile.default_task_kind found (returns-injective _ found e) h in
    by_default kind refl d t
resolve_task-IsTask profile (obj provided) found e h =
    expected_task-IsContract profile provided (get "kind" provided) found refl e h
resolve_task-IsTask profile (str s) found e h = ground arith
resolve_task-IsTask profile (arr s) found e h = ground arith
resolve_task-IsTask profile (bool s) found e h = ground arith
resolve_task-IsTask profile (int s) found e h = ground arith
