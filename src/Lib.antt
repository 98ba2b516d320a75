-- ===== src/Lib.antt =====
-- The hosting of Claude agent sessions on batch compute: the control plane, the job that runs an
-- agent, and the store between them.
--
-- A frontend asks the control plane (`ControlClient`) for a run. The control plane reserves it in
-- the chat store, starts an execution on a backend and later reconciles the two. The execution is a
-- job (`JobRunner`) that claims the run, stores the agent's events, asks the user's questions
-- through the store, and commits how the run ended. The paths are the repository's.
--
--   Errors      cas_hosting_adapter/errors.py, and the builtin exceptions that the code raises
--   Models      cas_hosting_adapter/models.py: RunStates (RunState, the table of moves), Records (the
--               frozen models), Json (payloads), Ids (derived UUIDs), Titles, Questions with
--               Answers, Batches and Inputs (the validators and from_input)
--   InMemory    cas_hosting_adapter/in_memory_chat_store.py: State (the fields), Sessions, Runs with
--               Reserve and Pages, Events, Leases, Questions with Create; one definition for each
--               method, under the method's name. Steps is the store as a state machine, Invariant
--               what every step keeps, Port the store as a ChatStore
--   Ports       the protocols ChatStore and ExecutionBackend of cas_hosting_adapter/protocols.py, and in
--               Objects SnapshotStore and WorkspaceStore
--   Fakes       the fakes of cas_hosting_adapter/protocols.py: Objects (snapshots, workspaces, run
--               locks) and Executions (the execution backend)
--   Control     cas_hosting_adapter/control_client.py: start_session, reserve_and_start, cancel and
--               reconcile, over any ChatStore and any ExecutionBackend; Calls (what is passed on to
--               the store), Feed (subscribe_from_cursor, and the store's subscribe for a callback that
--               may raise)
--   JobRunner   cas_hosting_adapter/job_runner.py: claim, the commits and, in Loop, persist_events
--   Retry       cas_hosting_adapter/retry.py
--   Codec       cas_hosting_adapter/firestore_codec.py
--   Lifecycle   cas_hosting_adapter/lifecycle.py: RunLifecycle.run
--   Firestore   cas_hosting_adapter/firestore_chat_store.py: Documents (the documents and what is asked
--               of Firestore), Sessions, Runs with Reserve, Events, Leases, Questions with Answers
--   Workspace   cas_hosting_adapter/workspace_store.py: Paths, Locks (the run lock of a session),
--               Archives (packing, the checks of members, extraction), Snapshots
--   Backends    the execution backends: Provider (what the three share), Batch
--               (cas_hosting_adapter/batch_backend.py), Gke (gke_backend.py, with Manifests and
--               States), CloudRun (cloud_run_backend.py, with Executions)
--   Chat        example/chat: Events, Tasks and Interactions (events.py: the common events, the tasks and
--               the open questions that a log leaves), Streams (service.py: the loop of stream) and
--               Service (service.py: the other calls)
--   Prelude, Text, Dict, Exec   shared: tests, lists, sorting, texts and the search in them,
--               dictionaries, and methods that change a state and may raise
--   Witnesses   the results below at concrete inputs
--
-- The representation. A method is a function of the state to a result or an error beside the state
-- after it, since what a method wrote before it raised stays written; the lock of the store makes
-- each method one step. A dictionary is an association list in the order of insertion. A UUID is
-- its 128-bit integer and a `datetime` a number of microseconds. `datetime.now(UTC)` is the field
-- `clock` of the state, which a step of its own moves; a callback of the store is known by a
-- number, and that it was called is recorded in `delivered`; in Control.Feed it is an action that may
-- raise. A cursor of a page of runs is what base64 and JSON make of its text. The two calls of
-- `uuid4` in create_session are arguments. SHA-256 is a parameter. Logging is left out.
--
-- What is not in the repository is a parameter: the clients of the clouds are functions of a state
-- of their own to an answer or an exception, of which a backend reads the code, the status and the
-- text; Firestore is a state with reads, writes and queries of typed documents, where a transaction is
-- one step and `_now` one time within a method; the file system and tarfile are what they list, pack,
-- write and extract. A theorem names what it needs of them as hypotheses.
--
-- Loops are structural recursion on the lists that they go over; retry_safe recurs on the
-- attempts left of its three. `decimal` gives the digits of n on fuel n + 1, which is enough
-- (Text.Laws.digits_enough). The loop of persist_events has no bound of its own: its environment
-- is a list of rounds (what the clock and the shutdown flag show, what others do to the store,
-- what the agent's stream does when it is asked, cancelled or closed), and `none` says that the list
-- ended before the loop did, or that the loop waits for a stream that hangs. The agent, the
-- archive and the upload of a snapshot are parameters of Lifecycle. The polling of a GKE cancel
-- recurs on the attempts left of cancel_poll_attempts, and the search for the execution of a Cloud
-- Run operation on its ten rounds. The loop of ChatService.stream has a list of rounds too.
--
-- Not modelled: the adapter of the agent SDK, the factory, the release configuration and the checks of
-- Terraform, the runtime settings, the translation of requests into the types of Google's and
-- Kubernetes' clients, the frontends and the scripts. Of the modelled files,
-- JobInvocation.from_environment, the parsing of timestamps, the temporary directories of a request,
-- the watches of Firestore, the costs and durations of a shown event and the history of a session
-- are left out.
mod Prelude
pub mod Errors
pub mod Exec
pub mod Dict
pub mod Text
pub mod Models
pub mod InMemory
pub mod Ports
pub mod Control
pub mod JobRunner
pub mod Retry
pub mod Lifecycle
pub mod Fakes
pub mod Codec
pub mod Backends
pub mod Workspace
pub mod Chat
pub mod Firestore
mod Witnesses
