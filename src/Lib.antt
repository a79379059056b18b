-- ===== src/Lib.antt =====
-- Eoduksini: a local controller that runs approved agent attempts, a governor that locks a part of a
-- project for an outside reviewer, and engine primitives for planning and admission. The models
-- below are translations of its source; paths are from the root of the repository.
--
-- The parts, and how they interact:
-- - Controller: the journal reducer, core/controller/state.mjs. A state is what is left of a journal
--   of events; `reduce` takes one event, after `event_contract` and the check of its digest, and
--   `replay` takes a journal. Controller.Types has the events and the state, Controller.Event
--   `eventContract`, Controller.Dispatch the life of an attempt (PREPARED, COMMAND_PREPARED,
--   COMMAND_STARTED, COMMAND_FINISHED, FINISHED), Controller.PostRun the reviews, adoptions, costs
--   and energy recorded after it, Controller.Reduce approvals, semantic assessments, recovery and
--   the dispatch on the type of the event. `approvalContract` and `resultContract` of
--   core/controller/contracts.mjs are in Controller.Event. The contracts of the other files
--   are the fields of the record Controller.Contracts.Contracts, a parameter.
-- - Governor: core/governor.mjs. Governor.Scope has `scope` and `scopeOverlap`, Governor.Lock has
--   `issueLock`, `lockState`, `writerGate`, `heartbeat`, `providerFailed`, `validateDecision` and
--   `unlock`. Times are safe integers, counted from the least of them. SHA-256 and the printing of numbers and texts are the record Digests, a parameter.
-- - Requirement: packages/engine-primitives/requirement-graph.mjs, from a JSON value to a normalized
--   draft, a record with its digests, and its authorization. Requirement.Check has the guards,
--   Requirement.Facts sets, facts and selectors, Requirement.Nodes and Requirement.Order `normalizeNodes`, Requirement.Constraints
--   `normalizeConstraints` and the approval intents, Requirement.Draft `validateContext` and
--   `normalizeGraphDraft`, Requirement.Record `finalizeRequirementGraph` and the check of a record,
--   Requirement.Stamp `normalizeTimestamp`, Requirement.Authorization the authorizations.
--   Requirement.Canonical is packages/engine-primitives/canonical.mjs. The reading of a valid date,
--   the printing of numbers and texts and SHA-256 are the records Clock and Engine, parameters.
-- - Resource: packages/engine-primitives/resource-quota.mjs, scheduler.mjs and resource.mjs:
--   admission under a quota, GPU admission, the choice of a node.
-- - Network: the addresses of packages/engine-primitives/network-policy.mjs, as the codes of their
--   text; Network.Ipv6 has `selectPublicAddress`. `isIP` of the runtime is an argument.
-- - Store: core/controller/store.mjs. Store.Encode has `makeEvent` and the JSON of an event,
--   Store.Paths `inspectPath` and `separate`, Store.Read `readStore`, Store.Append the session's
--   `append` and `evidencePath`, Store.Owner `initializeStore` and the owner of `withStore`. The
--   files are a record, one view of them for each call of the store, so that anything may happen to
--   them in between; a write may fail behind any character. The journal is a list of code points
--   and its size is that of its UTF-8. `JSON.parse` and Node's `path` are the record Runtime.
-- - Pattern: `matches` of core/contracts.mjs, whose regular expression is a list of items. What the
--   platform does to a path before it compares it (lower case on Windows) is an argument.
-- - Semantic: footprints and admission of core/semantic.mjs; Semantic.Compare has
--   `compareSemanticFootprints`, Semantic.Admission `assessSemanticAdmission`. The JSON schema of a
--   footprint is a parameter.
-- - Runner: core/controller/runner.mjs. A run is the variables of the promise in `executeCommand`;
--   Runner.Steps has a function for each callback, and a list of callbacks is any order in which
--   they may come. A timer that is not set does not fire.
-- - Gates: core/controller/gates.mjs. `checkApprovalTime` and `checkDispatch`, over the state of the
--   reducer, the writer gate of the governor and the quota; `prepareRequest`, which reads the
--   repository, is a parameter, with what the gate reads of a document.
-- - Base: tests on numbers and texts, lists, dictionaries (JavaScript objects in insertion order),
--   results (`throw` is the case `err`), JSON with its canonical text, safe paths, stable sort.
--
-- Numbers are natural numbers, with the bounds of `Number.isSafeInteger` written out; integers are
-- those of Base.Int where the source allows a negative one. Memory in Resource is counted in
-- 2^-20 GiB, on which the sums of doubles are exact. Each module has its own type of reasons; labels
-- and values in a message are left out. The loop that orders the nodes of a graph takes fuel, one
-- turn for each node. The sort of texts compares code points.
--
-- Not modelled: property descriptors, prototypes and cycles of JavaScript values (JSON data is a data
-- type here), freezing and cloning (values are not mutated), and the rest of the repository: the
-- processes of the controller, metering, the scan of a repository for its footprint,
-- the allow lists of URLs, the web studio, the agent and the scripts. Of the store, the bytes of a
-- journal that is no UTF-8 (the code refuses it), the synchronising of directories and the paths
-- of Windows.
pub mod Base
pub mod Controller
pub mod Governor
pub mod Requirement
pub mod Resource
pub mod Network
pub mod Store
pub mod Pattern
pub mod Semantic
pub mod Runner
pub mod Gates
