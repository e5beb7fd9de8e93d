-- ===== src/Authority/Peers.antt =====
-- The replicas as the authority reaches them (`ReplicaPeers` of src/bucket/peers.rs and the capability
-- writes of src/state_transport.rs), and how it seeds new ones (src/bucket/runtime/repair.rs).
use little_actors.Prelude.{
  ◌==◌, Option, none, some, List, [], ◌∷◌, any, Result, ok, Checked, ◌>>=◌, ◌>>◌, ensure,
  if◌then◌else◌,
}
use little_actors.Prelude.Text.{Text, text_eq}
use little_actors.Replica.{ReplicaTarget, ReplicaStream, StreamHead, SessionHead}
use little_actors.Replica.Store.{stream_snapshot}
use little_actors.Wire.{Codec}

-- What the peers answer during an operation. Calls made together answer in the order in which they
-- complete.
pub record Peers (Bytes : Type 0) : Type 0 where
  pub heads : List ReplicaTarget → ReplicaStream → List (Result StreamHead)
  pub seals : List ReplicaTarget → Text → List (Result SessionHead)
  pub read : ReplicaTarget → Text → Result Bytes
  pub initialize : ReplicaTarget → Text → Checked
  pub append : ReplicaTarget → ReplicaStream → Bytes → Checked

module _ (c : Codec) (peers : Peers (Codec.Bytes c)) where
  unfoldable pub initialize_new : Text → List ReplicaTarget → List ReplicaTarget → Checked
  initialize_new session previous [] = ok tt
  initialize_new session previous (target ∷ targets) = do
    if any (λ old. old.host_id == target.host_id) previous
        then ok tt
        else peers.initialize target session
    initialize_new session previous targets

  unfoldable pub append_all : ReplicaStream → Codec.Bytes c → List ReplicaTarget → Checked
  append_all stream bytes [] = ok tt
  append_all stream bytes (target ∷ targets) = do
    peers.append target stream bytes
    append_all stream bytes targets

  unfoldable pub seed_latest :
      Text → List ReplicaTarget → Option (ReplicaStream × Codec.Bytes c) → Checked
  seed_latest session replicas none = ok tt
  seed_latest session replicas (some (stream, bytes)) = do
    ensure (stream.session == session) "repair snapshot belongs to another activation"
    _ ← stream_snapshot c stream bytes
    append_all stream bytes replicas

  -- `seed_replicas`, with the stream of the write plan
  unfoldable pub seed_replicas :
      Text
      → List ReplicaTarget
      → List ReplicaTarget
      → Option (ReplicaStream × Codec.Bytes c)
      → Checked
  unfolding initialize_new seed_latest
  seed_replicas session replicas previous latest = do
    initialize_new session previous replicas
    seed_latest session replicas latest
