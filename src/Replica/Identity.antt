-- ===== src/Replica/Identity.antt =====
-- Equality of streams and snapshot references, as `#[derive(PartialEq)]` makes it
-- (src/replication/stream.rs).
use little_actors.Prelude.{true, ◌≡◌, ◌↔◌, ==_iff, eqb_iff, arith}
use little_actors.Prelude.Text.{text_eq}
use little_actors.Replica.{ReplicaStream, SnapshotRef, stream_beq, snapshot_beq}

pub stream_beq_iff : (a b : ReplicaStream) → (stream_beq a b ≡ true) ↔ (a ≡ b)
unfolding stream_beq
stream_beq_iff a b = ground (
  arith,
  ==_iff a.session b.session,
  ==_iff a.prefix b.prefix,
  eqb_iff a.owner_epoch b.owner_epoch,
  eqb_iff a.base_version b.base_version,
)

pub snapshot_beq_iff : (a b : SnapshotRef) → (snapshot_beq a b ≡ true) ↔ (a ≡ b)
unfolding snapshot_beq
snapshot_beq_iff a b = ground (
  arith,
  ==_iff a.object b.object,
  eqb_iff a.state_version b.state_version,
  ==_iff a.request_id b.request_id,
  ==_iff a.digest b.digest,
)
