-- ===== src/Resolver/Tasks.antt =====
-- `_task_contracts` of dev-integration/profiles/governed-ai-gateway/runtime/model_profile_resolver.py.
-- The schema files are a parameter.
use platform_engineering.Prelude.{
  String, Bool, true, false, not, ◌||◌, Option, none, some, List, [], ◌∷◌, ◌==◌, if◌then◌else◌,
  contains, is_empty, is_some, all, sorted,
}
use platform_engineering.Dict.{Dict, has, insert}
use platform_engineering.Json.{Value, str, arr, Items, nil, cons, Fields, get, keys, truthy}
use platform_engineering.Result.{
  Result, ok, err, Error, resolution, output_schema, require, or_raise, ◌>>=◌, ◌>>◌,
}
use platform_engineering.Configuration.{digest}
use platform_engineering.Schema.{validate_supported_schema}
use platform_engineering.Resolver.{
  SchemaRef, mapping, non_empty_string, optional_string, string_list, schema_ref, get_or,
}

-- The files below the root of the platform: whether a path stays below it, and the JSON that is there
pub record Files : Type 0 where
  pub is_inside : String → Bool
  pub document : String → Option Value

pub record InputFields : Type 0 where
  pub allowed_fields : List String
  pub required_fields : List String
  pub packet_required_fields : Value

pub record TaskContract : Type 0 where
  pub task_kind : String
  pub contract_ref : String
  pub contract_version : String
  pub contract_source_ref : SchemaRef
  pub instruction_owner_repo : String
  pub instruction_source : String
  pub prompt_version : Option String
  pub output_ref : SchemaRef
  pub output_document : Value
  pub output_digest : String
  pub input_contract : InputFields

-- An `OutputSchemaError` is raised again as a resolution error.
abbrev as_resolution : Error → Error
as_resolution output_schema = resolution
as_resolution e = e

abbrev pub schema_checked : Result (Unit {0}) → Result (Unit {0})
schema_checked (ok u) = ok u
schema_checked (err e) = err (as_resolution e)

-- The schema document of a task
unfoldable pub read_schema : Files → SchemaRef → Result Value
read_schema files output = do
  require (output.repo == "platform-engineering") resolution
  require (files.is_inside output.path) resolution
  document ← or_raise (files.document output.path) resolution
  schema_checked (validate_supported_schema document)
  ok document

abbrev text_items : List String → Items
text_items [] = nil
text_items (x ∷ xs) = cons (str x) (text_items xs)

-- A list of texts as a value
abbrev pub texts : List String → Value
texts xs = arr (text_items xs)

-- `model_safe_packet_required_fields`: a value that is false is kept as it is.
unfoldable pub packet_fields : (allowed_fields : List String) → Value → Result Value
packet_fields allowed_fields value =
    if truthy value
    then (do
      values ← string_list false value
      require (contains "model_safe_packet" allowed_fields) resolution
      ok (texts (sorted values)))
    else ok value

-- `task["input_contract"]`
unfoldable pub input_fields : Fields → Result InputFields
input_fields task = do
  contract ← mapping (get "input_contract" task)
  allowed ← string_list false (get "allowed_fields" contract)
  required ← string_list false (get "required_fields" contract)
  require (all (λ f. contains f (sorted allowed)) (sorted required)) resolution
  packet ←
      packet_fields (sorted allowed) (get_or "model_safe_packet_required_fields" (arr nil) contract)
  ok (record {
    allowed_fields = sorted allowed;
    required_fields = sorted required;
    packet_required_fields = packet;
  })

-- Who writes the instructions of a task, and in which version
unfoldable pub instruction : Fields → Result (String × Option String)
instruction task = do
  source ← non_empty_string (get "instruction_source" task)
  require (source == "caller" || source == "gateway-profile") resolution
  version ← optional_string (get "prompt_version" task)
  require (not (source == "gateway-profile") || is_some version) resolution
  ok (source, version)

-- One task of `task_contracts.allowed`
unfoldable pub task_contract :
    (Value → String) → Files → (task_kind : String) → Value → Result TaskContract
task_contract hexdigest files task_kind value = do
  task ← mapping value
  kind ← non_empty_string (str task_kind)
  source_ref ← schema_ref (get "contract_source_ref" task)
  output ← schema_ref (get "provider_output_schema_ref" task)
  document ← read_schema files output
  input ← input_fields task
  written ← instruction task
  contract_ref ← non_empty_string (get "contract_ref" task)
  contract_version ← non_empty_string (get "contract_version" task)
  owner ← non_empty_string (get "instruction_owner_repo" task)
  ok (record {
    task_kind = kind;
    contract_ref = contract_ref;
    contract_version = contract_version;
    contract_source_ref = source_ref;
    instruction_owner_repo = owner;
    instruction_source = written.0;
    prompt_version = written.1;
    output_ref = output;
    output_document = document;
    output_digest = digest hexdigest document;
    input_contract = input;
  })

-- `for task_kind in sorted(allowed)`
unfoldable pub contracts_from :
    (Value → String)
    → Files
    → (allowed : Fields) → Dict TaskContract
    → List String
    → Result (Dict TaskContract)
contracts_from hexdigest files allowed contracts [] = ok contracts
contracts_from hexdigest files allowed contracts (k ∷ ks) = do
  contract ← task_contract hexdigest files k (get k allowed)
  contracts_from hexdigest files allowed (insert contract.task_kind contract contracts) ks

abbrev pub is_known : Option String → Dict TaskContract → Bool
is_known none contracts = true
is_known (some kind) contracts = has kind contracts

-- `_task_contracts`
unfoldable pub task_contracts :
    (Value → String) → Files → Value → Result (Dict TaskContract × Option String)
task_contracts hexdigest files value = do
  task_root ← mapping value
  allowed ← mapping (get "allowed" task_root)
  require (not (is_empty (keys allowed))) resolution
  contracts ← contracts_from hexdigest files allowed [] (sorted (keys allowed))
  default_task_kind ← optional_string (get "default_task_kind" task_root)
  require (is_known default_task_kind contracts) resolution
  ok (contracts, default_task_kind)
