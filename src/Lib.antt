-- ===== src/Lib.antt =====
-- The governed AI gateway of this repository: the service under
-- dev-integration/profiles/governed-ai-gateway/runtime that stands between the products of the
-- platform and the model providers.
--
-- A request comes to `GatewayRuntime.invoke` (gateway_app.py). The policy (gateway_policy.py) decides
-- on it. An admitted request goes to the task routing (task_routing.py), which asks the model
-- configuration (model_configuration.py, `ModelConfiguration`) for the route of its task, opens the
-- record of the invocation in the journal (model_configuration.py, `InvocationJournal`), asks the
-- targets of the route in order, notes the outcomes in the configuration, and writes the answer
-- into the record. Operators change the configuration by commands that are idempotent by identity.
-- They keep the accounts at API providers as connections (provider_connections.py), whose secrets are in a
-- separate store; the removal of a connection takes its backend out of the configuration.
--
-- Which file models what:
--   Prelude, Dict, Json, Result, Identifier: Boolean tests and lists, Python dictionaries, JSON
--     values with the byte length and the equality of Python, calls that may raise, and the regular
--     expressions of identities and digests.
--   Profile: the profiles and tasks that the policy reads.
--   Policy: `GatewayPolicy.evaluate`, `_resolve_task`, `_validate_input`. Policy/Admission states what
--     an admissible request is, independently of the order in which the code collects reasons;
--     Policy/Reasons and Policy/Evaluate relate the two.
--   Configuration: the state file and `_read`; Configuration/Validation is `validate` and
--     `validate_route`, Configuration/Actions has the actions of a command, Configuration/Commands
--     is `command`, `command_result`, `_outcome` and `record_outcome`, Configuration/Snapshot is
--     `snapshot` and `selection`. Configuration/Step and Configuration/Accepted say how a
--     command can return, Configuration/Invariant what it keeps, Configuration/Replay and
--     Configuration/Lost what its repetition gives, Configuration/Revisions what it does to the
--     history, Configuration/Observed what an observation shows, Configuration/Routes what a valid configuration routes to.
--   Journal: `InvocationJournal.invocation` and its `finish`.
--   Schema: strict_output_schema.py; Schema/Conforms says what an accepted output is.
--   Routing: `TaskRouting.invoke`, with the loop over its targets in Routing/Candidates. An error that is
--     raised after the record was opened is a part of the answer, since the record is kept. Routing/Loop is
--     about that loop, Routing/Output joins it to the schema, Routing/Dispatch is about the attempts of
--     a call, Routing/Met about its record, Routing/Once about repeated calls.
--   Text: Python's `strip`, slices and lengths of texts. Program: calls that change a world and may
--     raise; what they changed before an error stays. Program/Keeps and Program/Ends reason on them.
--   Connections: `ProviderConnections` of provider_connections.py, the named accounts at API providers.
--     Connections/Calls has the store of secrets, Connections/Admission what writes nothing,
--     Connections/Commands `command` and `_fence`, Connections/Credentials the secrets themselves.
--     Connections/Kept, Removed, Gone and History are about a connection that was removed,
--     Connections/Replay about a command that is sent again.
--   Resolver: model_profile_resolver.py, which makes the table of profiles that the gateway starts with.
--     Resolver/Tasks, Binding and Access are the parts of `resolve_model_profile`, Resolver/Evidence is
--     the whole; Resolver/Stages says what it has gone through, Resolver/Eligible, Retired and
--     Contracts what a resolved profile is.
--   Gateway: the decision of `GatewayRuntime.invoke` in gateway_app.py, which asks the policy and applies the
--     preset that the configuration assigns; Gateway/Narrow says what an allowed request has.
--   Login: `ModelLogin` of model_login.py, the sign-in of an operator at a provider. Login/Steps is its
--     blocks as steps, Login/Settled and Login/Alone what they keep.
--
-- How state is modelled: a state file is a value that an operation takes and returns. The file locks
-- make an operation atomic, so a history of calls is a sequence of them; where a lock is not waited
-- for, a Boolean says whether another process holds it. A raised error is a value of `Error`.
--
-- Parameters: `hexdigest` is the hexadecimal SHA-256 of the sorted JSON text of a value. Nothing is
-- assumed of it: where two digests must differ, a hypothesis says so. The providers, the clock, the
-- callback that builds the response and writes the audit ledger, which it takes and returns and in which it
-- may raise, and the check of an output are parameters of the routing;
-- Routing/Output takes `validate_output` as the check. `parse` is Python's `int` on a text.
-- A `Vault` is the HTTP exchange with the store of secrets: a document at a version, and the answer to
-- a write; a write may fail before or after its effect, and nothing is assumed of it.
-- `Platform` holds what the resolver reads beside its two documents: the schema files below the root of the
-- repository, and whether a text has another in it.
-- `name` gives the file of a login: a digest, of which Login/Settled takes it that no two identities
-- share one.
--
-- Bounds: natural numbers have no bound in Python nor here. The loops recur on the lists that they
-- read. JSON numbers are integers: a request with a fraction is outside the model.
--
-- Not modelled: the HTTP server, the adapters of the providers, the discovery of models (model_management.py),
-- the audit events, the damage of the connections file, the writing of files, and the rest of the
-- repository (deployment scripts, validators, charts).
pub mod Prelude
pub mod Dict
pub mod Json
pub mod Result
pub mod Identifier
pub mod Text
pub mod Program
pub mod Profile
pub mod Policy
pub mod Configuration
pub mod Journal
pub mod Schema
pub mod Routing
pub mod Login
pub mod Connections
pub mod Resolver
pub mod Gateway
