-- ===== src/Resolver/Contracts.antt =====
-- What the task contracts of a resolved profile are
-- (dev-integration/profiles/governed-ai-gateway/runtime/model_profile_resolver.py).
use mathlib.Core.Path.{subst}
use platform_engineering.Prelude.{
  ◌≡◌, refl, String, Bool, true, false, not, ◌||◌, Option, some, List, [], ◌∷◌, ◌==◌, eq_iff,
  contains, all, is_some, is_empty, sorted, Bool-cases, inl, inr,
}
use platform_engineering.Dict.{Dict, insert}
use platform_engineering.Json.{Value, str, arr, nil, Fields, get, keys}
use platform_engineering.Result.{
  Result, ok, err, Every, >>=-returned, require-eq-ok, or_raise-eq-ok, ok-injective,
}
use platform_engineering.Schema.{validate_supported_schema}
use platform_engineering.Resolver.{
  SchemaRef, mapping, non_empty_string, optional_string, string_list, schema_ref, get_or,
}
use platform_engineering.Resolver.Tasks.{
  Files, InputFields, TaskContract, schema_checked, read_schema, packet_fields, input_fields,
  instruction, task_contract, contracts_from, is_known, task_contracts,
}
use platform_engineering.Resolver.Evidence.{Resolved, Platform, resolve}
use platform_engineering.Resolver.Stages.{resolve-Stages}

-- A document that the repository holds at the reference, within the supported subset of schemas
abbrev pub IsSchemaAt : Files → SchemaRef → Value → Type 0
IsSchemaAt files output document =
    (output.repo ≡ "platform-engineering")
    × (files.is_inside output.path ≡ true)
    × (files.document output.path ≡ some document)
    × (validate_supported_schema document ≡ ok tt)

-- The required fields are allowed ones.
abbrev pub IsInput : InputFields → Type 0
IsInput i = all (λ f. contains f i.allowed_fields) i.required_fields ≡ true

-- Instructions of the gateway have a version.
abbrev pub IsInstruction : String → Option String → Type 0
IsInstruction source version = (not (source == "gateway-profile") || is_some version) ≡ true

abbrev pub IsContract : Files → TaskContract → Type 0
IsContract files c =
    IsSchemaAt files c.output_ref c.output_document
    × IsInput c.input_contract
    × IsInstruction c.instruction_source c.prompt_version

schema_checked-ok : (r : Result (Unit {0})) (u : Unit {0}) → schema_checked r ≡ ok u → r ≡ ok tt
schema_checked-ok (ok tt) u h = refl
schema_checked-ok (err e) u h = cc

read_schema-IsSchemaAt :
    (files : Files) (output : SchemaRef) (document : Value)
    → read_schema files output ≡ ok document
    → IsSchemaAt files output document
unfolding read_schema
read_schema-IsSchemaAt files output document h =
    let (owned, h1) = require-eq-ok (output.repo == "platform-engineering") _ _ h in
    let (inside, h2) = require-eq-ok (files.is_inside output.path) _ _ h1 in
    let (found, e, h3) = or_raise-eq-ok (files.document output.path) _ _ h2 in
    >>=-returned (schema_checked (validate_supported_schema found)) _ h3 λ u supported h4.
      subst (IsSchemaAt files output) (ok-injective found document h4) (
        (eq_iff output.repo "platform-engineering").0 owned,
        inside,
        e,
        schema_checked-ok _ u supported,
      )

input_fields-IsInput : (task : Fields) (i : InputFields) → input_fields task ≡ ok i → IsInput i
unfolding input_fields
input_fields-IsInput task i h =
    >>=-returned (mapping (get "input_contract" task)) _ h λ contract e h1.
      >>=-returned (string_list false (get "allowed_fields" contract)) _ h1 λ allowed e1 h2.
        >>=-returned (string_list false (get "required_fields" contract)) _ h2 λ required e2 h3.
          let (within, h4) =
            require-eq-ok (all (λ f. contains f (sorted allowed)) (sorted required)) _ _ h3 in
          >>=-returned
            (packet_fields (sorted allowed)
              (get_or "model_safe_packet_required_fields" (arr nil) contract))
            _ h4 λ packet e4 h5. subst IsInput (ok-injective _ i h5) within

instruction-IsInstruction :
    (task : Fields) (written : String × Option String)
    → instruction task ≡ ok written
    → IsInstruction written.0 written.1
unfolding instruction
instruction-IsInstruction task written h =
    >>=-returned (non_empty_string (get "instruction_source" task)) _ h λ source e h1.
      let (known, h2) = require-eq-ok (source == "caller" || source == "gateway-profile") _ _ h1 in
      >>=-returned (optional_string (get "prompt_version" task)) _ h2 λ version e2 h3.
        let (versioned, h4) =
          require-eq-ok (not (source == "gateway-profile") || is_some version) _ _ h3 in
        subst (λ (w : String × Option String). IsInstruction w.0 w.1)
          (ok-injective (source, version) written h4) versioned

task_contract-IsContract :
    (hexdigest : Value → String) (files : Files) (kind : String) (value : Value) (c : TaskContract)
    → task_contract hexdigest files kind value ≡ ok c
    → IsContract files c
unfolding task_contract
task_contract-IsContract hexdigest files kind value c h =
    >>=-returned (mapping value) _ h λ task e h1.
      >>=-returned (non_empty_string (str kind)) _ h1 λ name e1 h2.
        >>=-returned (schema_ref (get "contract_source_ref" task)) _ h2 λ source e2 h3.
          >>=-returned (schema_ref (get "provider_output_schema_ref" task)) _ h3 λ output e3 h4.
            >>=-returned (read_schema files output) _ h4 λ document read h5.
              >>=-returned (input_fields task) _ h5 λ input given h6.
                >>=-returned (instruction task) _ h6 λ written told h7.
                  >>=-returned (non_empty_string (get "contract_ref" task)) _ h7 λ a e7 h8.
                    >>=-returned (non_empty_string (get "contract_version" task)) _ h8 λ b e8 h9.
                      >>=-returned (non_empty_string (get "instruction_owner_repo" task)) _ h9
                        λ owner e9 h10. subst (IsContract files) (ok-injective _ c h10) (
                          read_schema-IsSchemaAt files output document read,
                          input_fields-IsInput task input given,
                          instruction-IsInstruction task written told,
                        )

-- Every contract of a table
abbrev pub AreContracts : Files → Dict TaskContract → Type 0
AreContracts files = Every (λ (row : String × TaskContract). IsContract files row.1)

insert-AreContracts :
    (files : Files) (k : String) (c : TaskContract) (d : Dict TaskContract)
    → IsContract files c
    → AreContracts files d
    → AreContracts files (insert k c d)
unfolding insert
insert-AreContracts files k c [] here all_ = (here, tt)
insert-AreContracts files k c ((j, x) ∷ d) here (first, rest) = elim (Bool-cases (j == k)) [
  | inl e ↦ rw (e) (here, rest)
  | inr e ↦ rw (e) (first, insert-AreContracts files k c d here rest)
]

contracts_from-AreContracts :
    (hexdigest : Value → String) (files : Files) (allowed : Fields)
    (start contracts : Dict TaskContract) (kinds : List String)
    → contracts_from hexdigest files allowed start kinds ≡ ok contracts
    → AreContracts files start
    → AreContracts files contracts
unfolding contracts_from
contracts_from-AreContracts hexdigest files allowed start contracts [] h before =
    subst (AreContracts files) (ok-injective start contracts h) before
contracts_from-AreContracts hexdigest files allowed start contracts (k ∷ ks) h before =
    >>=-returned (task_contract hexdigest files k (get k allowed)) _ h λ c made h1.
      contracts_from-AreContracts hexdigest files allowed (insert c.task_kind c start) contracts ks
        h1
        (insert-AreContracts files c.task_kind c start
          (task_contract-IsContract hexdigest files k (get k allowed) c made) before)

-- When a profile is resolved, each of its task contracts names an output schema of this repository that
-- is there and is of the supported subset, requires only input fields that it allows, and has a
-- prompt version when the gateway writes the instructions; the default task, if there is one, is
-- among them.
pub resolve_contracts :
    (platform : Platform) (registry access : Value × String) (profile_id environment : String)
    (require_active : Bool) (r : Resolved)
    → resolve platform registry access profile_id environment require_active ≡ ok r
    → AreContracts platform.files r.evidence.registered.task_contracts
      × (is_known r.evidence.registered.default_task_kind r.evidence.registered.task_contracts
          ≡ true)
unfolding task_contracts
resolve_contracts platform registry access profile_id environment require_active r h =
    let f = r.evidence.registered in
    let stages =
      resolve-Stages platform registry access profile_id environment require_active r h in
    >>=-returned (mapping (get "task_contracts" f.capability.profile)) _ stages.registry.tasked
      λ root e h1. >>=-returned (mapping (get "allowed" root)) _ h1 λ allowed e1 h2.
        let (some_, h3) = require-eq-ok (not (is_empty (keys allowed))) _ _ h2 in
        >>=-returned
          (contracts_from platform.hexdigest platform.files allowed [] (sorted (keys allowed))) _ h3
          λ contracts made h4.
            >>=-returned (optional_string (get "default_task_kind" root)) _ h4 λ default e4 h5.
              let (known, h6) = require-eq-ok (is_known default contracts) _ _ h5 in
              subst
                (λ (x : Dict TaskContract × Option String).
                  AreContracts platform.files x.0 × (is_known x.1 x.0 ≡ true))
                (ok-injective (contracts, default) (f.task_contracts, f.default_task_kind) h6)
                (
                  contracts_from-AreContracts platform.hexdigest platform.files allowed [] contracts
                      _ made tt,
                  known,
                )
