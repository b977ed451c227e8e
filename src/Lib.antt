-- ===== src/Lib.antt =====
-- The Scheduler of Public Intelligence: an OpenAI-compatible control plane that registers nodes,
-- observes them, chooses one for each request, and meters what they serve. The paths below are
-- those of the repository; `scheduler/` stands for packages/scheduler/src/scheduler/.
--
-- How the parts interact: the registry, the invites, the meter and the ledger each keep their
-- state in dicts in memory, and write what must outlive the process through to one SQLite file.
-- At startup each `load`s what it wrote. The canary verifier keeps its state in memory only.
--
-- - Prelude: the library names that the files share, lists and dicts as Python has them (a dict
--   is an association list in the order of insertion), and the interface of floats.
-- - Models (scheduler/models/node.py, heartbeat.py, and the records of the core modules): the
--   records, one field for each field of the pydantic model.
-- - Store (scheduler/persistence/sqlite_store.py): each method as what its SQL statement does to
--   tables of rows. The JSON of a node is the parameter `Codec`.
-- - Registry (scheduler/registry/node_registry.py): `NodeRegistry`, one function for each method.
--   Registry/Calls has the calls as data, Registry/Valid the invariant of the dicts,
--   Registry/Sync the agreement with the store, Registry/Restart what `load` brings back.
-- - Invites (scheduler/core/invites.py): `InviteRegistry`. SHA-256 is the parameter `hash`. No
--   law of it is assumed: where two codes have one hash they are one code.
-- - Metering (scheduler/core/metering.py): `UsageMeter`, its tail and its totals.
-- - Credits (scheduler/core/credit_ledger.py): `CreditLedger`.
-- - Canary (scheduler/core/canary.py): scoring and quarantine. The text methods `lower` and
--   `strip` are the parameter `TextMethods`; the words of a text are computed.
-- - Matchmaker (scheduler/core/matchmaker.py): `CapabilityMatchmaker`, which reads the registry's
--   heartbeats and telemetry and the canary verifier's quarantine. Conversions between texts and
--   floats are the parameter `FloatTexts`; `list.sort` is a stable insertion sort.
-- - Selection (scheduler/scheduler/algorithm.py): `Scheduler.select_node`, which reads the
--   registry and raises the dampener of the node that it selects.
-- - Radix (packages/node/src/node/core/radix_cache.py): `RadixTrieCache` of the node agent.
--   Radix/Texts has the prefixes of texts, Radix/Members which prompts a trie holds and the shape
--   of a trie, Radix/Insertion, Radix/Search, Radix/Cache and Radix/Lookup the proofs on the
--   operations. `insert_node` runs on fuel: each call takes at least one token off the prompt,
--   and it is given one unit more than the prompt has tokens.
-- - Mesh (packages/shared/src/pi_shared/mesh_protocol.py): the requests that the scheduler sends
--   to a node over the mesh. Mesh/Values has the data, the errors and the parameters for UTF-8,
--   JSON and hashing, Mesh/Cache the `NonceCache`, Mesh the building and the verification;
--   Mesh/Nonces, Mesh/Requests, Mesh/Replay and Mesh/Roundtrip the proofs.
-- - Pipeline (scheduler/models/pipeline.py): the validators of pipelines. Pipeline/Partition has
--   what they ensure.
-- - Engine (scheduler/core/engine.py, scheduler/core/strategy.py): `SchedulingEngine` over a
--   `Strategy`, which `CapabilityMatchmaker` is one of. It reads the registry's heartbeats and
--   raises telemetry queue depths and dampeners. Engine/Allocation has the partition of layers,
--   Engine/Stages the loop that builds stages and counts their load, Engine/Split the split chain
--   and the restitching, Engine/Single the task on one node; Engine/Chain, Engine/Scheduled,
--   Engine/Boundary, Engine/Refusals and Engine/Restitched the proofs.
-- - Envelope (packages/shared/src/pi_shared/mesh_auth.py): `seal` and `open_envelope`. AES-GCM,
--   SHA-256, base64 and JSON are the parameters `Ciphers`, `Payloads` and `Json`.
--   Envelope/Opening has the proofs, Envelope/Sample one concrete message.
-- - Router (scheduler/core/zenoh_router.py): `ZenohRouter`, whose handlers change the registry. A
--   handler is a task of `MeshTask`. Router/Topics has the parsing of topics, Router/Session the
--   session and the callbacks, Router/Evidence what a message must show, Router/Changes what one
--   task changes, Router/Eviction and Router/Beating the stale sweep.
-- - Stream (scheduler/core/mesh_inference_client.py): `MeshInferenceClient` and `MeshStream`.
--   Stream/Replies has the replies of mesh_protocol.py, Stream/Server those that
--   packages/node/src/node/clients/mesh_inference_server.py sends, Stream/Ended and Stream/Served
--   the proofs. An iteration runs for a number of rounds; two more than the queue has items are
--   enough.
-- - Routes (scheduler/api/nodes.py, heartbeat.py, schedule.py, auth.py): the routes that change
--   the registry. Routes/Codes has what a registration does to the invite codes, Routes/Admission
--   how many registrations a code admits.
-- - Dispatch (scheduler/core/node_dispatch.py, and `proxy_inference` of
--   scheduler/api/schedule.py): the choice between the mesh and HTTP, over the interface
--   `MeshClient`, which Dispatch/Client fills from Stream, and the parameter `Http`.
-- - Ingress (scheduler/api/ingress.py): the check of a token, over the parameter `Jwt` for PyJWT,
--   and `submit_task`, which asks the limiter and then the engine. Ingress/Keys has which tokens
--   are accepted.
-- - Accounting (`_meter` of scheduler/api/openai.py): what a served request does to the meter and
--   the ledger.
-- - Limiter (scheduler/core/rate_limiter.py): `TokenBucketLimiter`. Limiter/Timed has the
--   invariant of its two dicts, Limiter/Eviction the sweep against an acquisition without one.
-- - Examples: the parameters and the data of the tests. Each component's Tests module runs its
--   code and applies its theorems at concrete inputs.
--
-- Conventions: an async method that holds the lock, or has no await between its first read and
-- its last write, is one step. Floats are a type `F` with the instance `Floats F` of the
-- operations that the code uses, and no law of arithmetic is built in. Logging is left out. A
-- method that raises returns its error beside the state that it reached. The components share one
-- store object in the program; their tables are disjoint, so each model carries its own.
--
-- Not modelled: the HTTP and Zenoh transports, the OpenAI gateway, settings, the node agent
-- besides its cache and its mesh inference server, the web site, scripts and the experimental
-- tree.
pub mod Prelude
pub mod Models
pub mod Store
pub mod Registry
pub mod Invites
pub mod Metering
pub mod Credits
pub mod Canary
pub mod Matchmaker
pub mod Selection
pub mod Radix
pub mod Limiter
pub mod Mesh
pub mod Pipeline
pub mod Engine
pub mod Envelope
pub mod Router
pub mod Stream
pub mod Routes
pub mod Dispatch
pub mod Ingress
pub mod Accounting
pub mod Examples
