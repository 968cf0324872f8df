-- ===== src/Lib.antt =====
-- A model of the agent core of bzlove178100/-keirin-ai-web, with the theorems that make it correct.
--
-- The agent core runs bounded tasks for a host. This library models how it keeps and refreshes
-- credentials, how it runs, resumes and reconciles tasks whose state is saved step by step, and how a
-- hosted worker claims, checks and releases a task through a queue kept elsewhere.
--
-- Prelude, Outcome: shared names, Python texts and dicts, the exceptions that the program raises, and
-- methods as functions from a state to a result and a state.
--
-- Credentials: `_seconds`, `_capabilities` and `_validate_times` of agent_core/credential_provider.py on
-- untrusted values, and the bindings and grants of agent_core/refresh_credentials.py. Credentials.Snapshot
-- is `CredentialSnapshot` and `StaticInMemoryCredentialProvider`, with the clock as an argument;
-- Credentials.Issuing is about the snapshots that are issued. Credentials.Refreshing is the state of
-- `RefreshingCredentialProvider` and its tests, and Credentials.Renewing its `snapshot`, with the clocks,
-- the source and revocations by other threads as a parameter; Credentials.Accepting is about its grants,
-- Credentials.Settling and Credentials.Ending about the calls of `snapshot`, and Credentials.Names about
-- sorted sets of texts.
--
-- Secrets: agent_core/versioned_secret_store.py. Secrets.Record is `RefreshSecretRecord`;
-- Secrets.Store is the protocol `VersionedSecretStore` with the laws that its docstrings document;
-- Secrets.Memory is `InMemoryVersionedSecretStore`, and Secrets.Memory.Contract relates it to
-- the protocol; Secrets.Source is `VersionedHostCredentialSource`, method by method. The provider's
-- exchange is a parameter, which answers a reply and the store as other hosts leave it meanwhile.
-- Secrets.Order is the order in which versions of a record follow each other, Secrets.Evolution
-- proves each method against it, and Secrets.History is about sequences of calls.
--
-- Secrets.Durable is agent_core/durable_secret_store.py: Codec has `_encode_record` and
-- `_decode_record`, Backend the protocol of the backend, which is a parameter, and Adapter `read` and
-- `compare_and_swap`; RoundTrip is about the codec, and Contract about what a
-- compare-and-swap does to the payload in a backend that swaps atomically. The digest that makes the key
-- of a record is a parameter.
--
-- Json: JSON values. Tools: `ToolRegistry` of agent_core/adapters.py (Tools.Registry), what a
-- registration leaves (Tools.Registered, Tools.Reading) and what `require_read_only` makes sure of.
--
-- Hosted: Hosted.Lease, Hosted.Transport, Hosted.Replies and Hosted.Queue are
-- agent_core/hosted_queue.py, Hosted.Events, Hosted.Listing and Hosted.Activity
-- agent_core/hosted_activity.py, and Hosted.Worker is agent_core/hosted_worker.py. Hosted.Forbidden is
-- the search for forbidden keys that both clients have. The transport is a parameter: it answers a mode and
-- a payload, or raises, and changes the world outside. Python's `str` of a value is a parameter too.
-- Hosted.Model is `TaskState` with its JSON form, of which the artifacts and the progress, and the reading
-- of a specification, are an interface. Hosted.Fenced, Hosted.Promises, Hosted.Saves and Hosted.Changes
-- are about the leases that come back, Hosted.Rising and Hosted.Ledger about the events, and Hosted.Found,
-- Hosted.Preflight, Hosted.Releasing and Hosted.Decision about the worker.
--
-- Tasks: agent_core/model.py (Tasks.Model, Tasks.Artifacts; Tasks.Uses has the actions that a task uses),
-- agent_core/store.py (Tasks.Store) and agent_core/runner.py (Tasks.Runner). The actions are a parameter:
-- each answers a call and may change the world outside. Runner.Session has what the runner passes around
-- and its changes of the state, Runner.Attempts the `while True` loop around an action, Runner.Steps the
-- loop over the steps, and Runner.Entry `run` with its tests. The loop is on fuel, the step's
-- `max_attempts`: each turn counts an attempt, and Runner.Armed and Runner.Bounds prove that the fuel is
-- enough. Runner.Flows and Runner.Completion are about what the loops keep, Runner.Checks what the tests
-- establish, and Runner.Recovery, Runner.Outcomes and Tasks.Reconciling what this means for whole runs and
-- for `reconcile_blocked_step`.
--
-- Planning: agent_core/queue_planner.py. Planning.Queue is `QueueEntry`, its validation and
-- `plan_queue`; a datetime is naive or an instant. Planning.Claims and Planning.Order are about the
-- plan.
--
-- Orchestrator: agent_core/orchestrator.py, which checks a task against the registry and hands it to the
-- runner with the registered actions. Orchestrator.Report has `preflight`, `run` and `describe` of the
-- registry, and Orchestrator.Guard what the runner gets.
--
-- The parts share Prelude, Outcome and `sorted_set`; actions that use credentials are among the
-- parameters of the runner. The worker calls the queue, the ledger and the registry as they are modelled.
--
-- Not modelled: `to_safe_dict` and `__repr__`, which print; timestamps, metadata of artifacts, the texts
-- and data of events, and diagnostics, which no decision of the modelled code reads; the JSON form of
-- specifications, of artifacts and of the progress of a state; the path of a forbidden key in a message;
-- the GitHub adapter, which calls a host; faults of the file system; the digests that name tasks and key
-- records, which are parameters; and the lock of a task, of which the definitions take whether another
-- process holds it.
pub mod Prelude
pub mod Outcome
pub mod Credentials
pub mod Secrets
pub mod Tasks
pub mod Json
pub mod Tools
pub mod Hosted
pub mod Planning
pub mod Orchestrator
