-- ===== src/Lib.antt =====
-- Little actors: actors whose state is a sequence of snapshots. A host that owns an actor writes
-- each snapshot to replicas, and the authority, a bucket of records with generations, decides who
-- owns the actor and which replicas belong to the owner's session.
--
-- Prelude: the results of fallible code, actions on a state, maps, texts (UTF-8 bytes) and tests.
-- Json, Snapshot, Lease, Actor: the records and their validation (src/state_log.rs,
--   src/host_leases.rs, src/actor/protocol.rs, src/actor_state.rs). Actor/Outcome has invocations and
--   what comes of them.
-- Naming: the names of snapshots (src/replication/stream.rs, and `snapshot_position` of
--   src/bucket/runtime.rs).
-- Wire: JSON, SHA-256 and base64, as the parameter `Codec`.
-- Replica: a replica's store (src/replication/store.rs). Replica/Store has the state and its helpers,
--   Replica/Store/Operations `append` and the other operations of the trait ReplicaStore, as functions
--   from a state to a result; `serve` is one call, `serve_all` a list of them, and
--   Replica/Store/Restoring opens the directory again. Replica/Ticket is the
--   validation of src/replication/mod.rs, Replica/Access the capabilities (src/replication/access.rs),
--   with the packages that they use as the parameter `Signing`. The other files prove.
-- Authority: the records of the bucket. Authority/Bucket is the trait with the laws that its callers
--   rely on and `replace` (src/bucket.rs), Authority/FileBucket the directory (src/bucket/file.rs),
--   Authority/Paths the keys, with Authority/Paths/Objects the names of snapshots
--   (src/storage_paths.rs, src/storage.rs), Authority/Peers what the replicas answer (src/bucket/peers.rs), Authority/Sealing, Authority/Recovery, Authority/Latest,
--   Authority/Newest, Authority/Leasing and Authority/Activation the operations of RuntimeStorage
--   (src/bucket/runtime.rs and the files under src/bucket/runtime).
-- Host: the mailbox of an actor (src/host/actor_host/admission.rs), as a machine over the events that
--   its loop receives. A closed channel, which ends the loop, is the end of the list of events.
--   Host/Runtime is the runtime of one actor (src/host/actor_runtime.rs): what it asks of the storage,
--   the snapshot writer, the publisher, the executor and the clock is a history of calls, and the
--   answers are any functions of it (`Surroundings`). Host/Runtime/Publishing commits a state,
--   Host/Runtime/Invoking and Host/Runtime/Operations are what comes before and after an execution,
--   Host/Runtime/Mailbox gives the mailbox its runtime, Host/Runtime/Serial is the loop of an actor
--   without a mailbox (src/host/actor_host.rs); the other files prove. Host/Queues has the requests
--   that wait (src/host/queues.rs).
-- ControlPlane: the groups of replicas of the sessions (src/control_plane/replication/store.rs). The
--   table is a map from identifiers to rows, and each statement or transaction is a function of it.
-- Sockets: the connections of a host (src/sockets/mod.rs, src/actor/executor_connection.rs) and the
--   limits on what an actor sends to them (Sockets/Validation, src/actor/socket.rs).
-- Tests: runs on concrete inputs, with a codec whose documents are the records themselves.
--
-- Operations of the authority are actions on the bucket's state: what was written before an error
-- stays written. The loops of `start_recovery` and `finish_recovery` take fuel; without another
-- writer in between, one round is enough. `commit_ready` takes as many rounds as snapshots are
-- ready, which is enough, since each round removes one. Several calls to peers at once are a list of
-- answers in the order in which they complete. Clocks and fresh identifiers are arguments.
--
-- Not modelled: the file system's failures, gRPC and HTTP, the control plane except its groups of
-- replicas, sandboxes, request traces, and the driver of an actor's executor, which a host tells
-- what to execute and which answers by an event.
pub mod Actor
pub mod Authority
pub mod ControlPlane
pub mod Host
pub mod Json
pub mod Lease
pub mod Naming
pub mod Prelude
pub mod Replica
pub mod Snapshot
pub mod Sockets
pub mod Tests
pub mod Wire
