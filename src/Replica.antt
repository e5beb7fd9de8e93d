-- ===== src/Replica.antt =====
-- Replicas: the records they exchange (src/replication/stream.rs, src/replication/mod.rs).
pub mod Frame
pub mod Identity
pub mod Steps
pub mod Fence
pub mod Accounting
pub mod Serving
pub mod Acknowledged
pub mod Progress
pub mod Restorable
pub mod Access
pub mod Restarting
pub mod Loading
pub mod Pruning
pub mod Acceptance
pub mod Store
pub mod Ticket
use little_actors.Prelude.{ℕ, Bool, Option, List, ◌&&◌, ◌==◌, eqb}
use little_actors.Prelude.Text.{Text, text_eq}
use little_actors.Actor.{ActorKey}

pub record ReplicaStream : Type 0 where
  pub session : Text
  pub prefix : Text
  pub owner_epoch : ℕ
  pub base_version : ℕ

pub record SnapshotRef : Type 0 where
  pub object : Text
  pub state_version : ℕ
  pub request_id : Text
  pub digest : Text

pub record StreamHead : Type 0 where
  pub stream : ReplicaStream
  pub latest : Option SnapshotRef

pub record SessionHead : Type 0 where
  pub session : Text
  pub initialized : Bool
  pub sealed : Bool
  pub streams : List StreamHead

pub record ReplicaTarget : Type 0 where
  pub host_id : Text
  pub url : Text
  pub region : Text

pub record ReplicaScope : Type 0 where
  pub actor : ActorKey
  pub host : Text
  pub session : Text
  pub region : Text

abbrev pub max_replicas : ℕ
max_replicas = 8

-- `#[derive(PartialEq)]`
unfoldable pub stream_beq : ReplicaStream → ReplicaStream → Bool
stream_beq a b =
    a.session == b.session
    && a.prefix == b.prefix
    && eqb a.owner_epoch b.owner_epoch
    && eqb a.base_version b.base_version

unfoldable pub snapshot_beq : SnapshotRef → SnapshotRef → Bool
snapshot_beq a b =
    a.object == b.object
    && eqb a.state_version b.state_version
    && a.request_id == b.request_id
    && a.digest == b.digest
