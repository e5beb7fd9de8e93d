-- ===== src/Authority.antt =====
-- The records that the authority bucket holds (src/bucket/runtime.rs, src/bucket/runtime/session.rs)
-- and the placement read from them (src/placement.rs).
pub mod Advance
pub mod Paths
pub mod Peers
pub mod Sealing
pub mod Recovery
pub mod Newest
pub mod Latest
pub mod Leasing
pub mod Activation
pub mod Growth
pub mod Coverage
pub mod Bucket
pub mod FileBucket
use little_actors.Prelude.{ℕ, Option, none, some, List}
use little_actors.Prelude.Text.{Text}
use little_actors.Actor.{ActorKey, storage_key}
use little_actors.Lease.{HostLease, ActivationInventory}
use little_actors.Replica.{SnapshotRef, ReplicaTarget, ReplicaScope}

pub data RecoveryState : Type 0 where
  is_open recovering sealed : RecoveryState

pub record Session : Type 0 where
  pub id : Text
  pub region : Text
  pub replicas : List ReplicaTarget
  pub state : RecoveryState

pub record Ownership : Type 0 where
  pub inventory : ActivationInventory
  pub lease : HostLease
  pub mutation : Text
  pub actor : ActorKey
  pub epoch : ℕ
  pub region : Text
  pub base : Option SnapshotRef

pub record ObjectPlacement : Type 0 where
  pub lease : HostLease
  pub object : Text
  pub owner : Text
  pub owner_epoch : ℕ
  pub home_region : Text
  pub state_version : ℕ
  pub state_object : Option Text
  pub last_request_id : Option Text

-- `Ownership::scope`
unfoldable pub scope : Ownership → ReplicaScope
scope o = record {
  actor = o.actor;
  host = o.lease.id;
  session = o.lease.session_id;
  region = o.region;
}

unfoldable pub apply_snapshot : ObjectPlacement → Option SnapshotRef → ObjectPlacement
apply_snapshot placement none = placement
apply_snapshot placement (some snapshot) = record placement {
  state_version = snapshot.state_version;
  state_object = some snapshot.object;
  last_request_id = some snapshot.request_id;
}

-- `Ownership::placement`
unfoldable pub placement : Ownership → ObjectPlacement
unfolding apply_snapshot
placement o =
    apply_snapshot
      (record {
        lease = o.lease;
        object = storage_key o.actor;
        owner = o.lease.id;
        owner_epoch = o.epoch;
        home_region = o.region;
        state_version = 0;
        state_object = none;
        last_request_id = none;
      })
      o.base
