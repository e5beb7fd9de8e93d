-- ===== src/Authority/Latest.antt =====
-- Finding the newest snapshot of an actor and keeping it in the bucket (src/bucket/runtime.rs,
-- `restore_session`, `recover_session` and `retire_replication` of src/bucket/runtime/session.rs).
-- The answers of peers that are asked together come in the order in which they complete.
pub mod Keeping
pub mod Covering
use little_actors.Prelude.{
  ℕ, Bool, true, false, ◌&&◌, Option, none, some, List, [], ◌∷◌, ◌==◌, Result, ok, err, ensure,
  context, if◌then◌else◌,
}
use little_actors.Prelude.Action.{Action, ◌>>=◌, ◌>>◌, pure, fail, lift, read_with}
use little_actors.Prelude.Text.{Text, text_eq, starts_with}
use little_actors.Naming.{Position, snapshot_position}
use little_actors.Replica.{ReplicaTarget, SnapshotRef, snapshot_beq}
use little_actors.Replica.Store.{verify}
use little_actors.Authority.{Session, Ownership, scope}
use little_actors.Authority.Advance.{position_ltb}
use little_actors.Authority.Bucket.{Bucket, BucketObject, replace}
use little_actors.Authority.Paths.{stream, snapshots, owner}
use little_actors.Authority.Peers.{Peers}
use little_actors.Authority.Recovery.{Storage, get_object, replica_members}
use little_actors.Authority.Newest.{
  LoadedSnapshot, reference_of, newest_key, candidate_of, decode_snapshot,
}
use little_actors.Wire.{Codec}

-- `if loaded.as_ref().is_none_or(|s| s.reference != snapshot)`
abbrev pub is_loaded : {Bytes : Type 0} → Option (LoadedSnapshot Bytes) → SnapshotRef → Bool
is_loaded none snapshot = false
is_loaded (some loaded) snapshot = snapshot_beq loaded.reference snapshot

abbrev pub is_at : {Bytes : Type 0} → Option (LoadedSnapshot Bytes) → Text → Bool
is_at none key = false
is_at (some loaded) key = loaded.reference.object == key

abbrev pub is_newer : {Bytes : Type 0} → SnapshotRef → Option (LoadedSnapshot Bytes) → Bool
is_newer snapshot none = true
is_newer snapshot (some loaded) =
    position_ltb (snapshot_position loaded.reference.object) (snapshot_position snapshot.object)

module _ (c : Codec) (b : Bucket (Codec.Bytes c)) (peers : Peers (Codec.Bytes c)) where
  abbrev Bytes : Type 0
  Bytes = Codec.Bytes c

  unfoldable pub persist : Text → Bytes → Action (Storage c b) (Unit {0})
  persist object bytes = do
    written ← replace ⦃e = c.bytes_eq⦄ b object none bytes
    lift (ensure written "conflicting immutable snapshot")

  -- A peer's answer, and what follows if it failed.
  unfoldable pub recover_answer :
      SnapshotRef → Action (Storage c b) Bytes → Result Bytes → Action (Storage c b) Bytes
  unfolding persist
  recover_answer snapshot others (err e) = others
  recover_answer snapshot others (ok bytes) = do
    lift (verify c snapshot bytes)
    persist snapshot.object bytes
    pure bytes

  unfoldable pub recover_from : SnapshotRef → List ReplicaTarget → Action (Storage c b) Bytes
  unfolding recover_answer
  recover_from snapshot [] = fail "acknowledged snapshot is unavailable"
  recover_from snapshot (peer ∷ targets) =
      recover_answer snapshot (recover_from snapshot targets) (peers.read peer snapshot.object)

  unfoldable pub recover_found :
      List ReplicaTarget → SnapshotRef → Option (BucketObject Bytes) → Action (Storage c b) Bytes
  unfolding recover_from
  recover_found replicas snapshot (some object) = do
    lift (verify c snapshot object.bytes)
    pure object.bytes
  recover_found replicas snapshot none = recover_from snapshot replicas

  unfoldable pub recover_snapshot : List ReplicaTarget → SnapshotRef → Action (Storage c b) Bytes
  unfolding recover_found
  recover_snapshot replicas snapshot = do
    object ← get_object c b snapshot.object
    recover_found replicas snapshot object

  -- The newest snapshot that the bucket lists, unless it is the one that is known.
  unfoldable pub load_key :
      Option (LoadedSnapshot Bytes)
      → Option (Position × Text)
      → Action (Storage c b) (Option (LoadedSnapshot Bytes))
  load_key known none = pure known
  load_key known (some (position, key)) = if is_at known key then pure known else (do
    object ← get_object c b key
    found ← lift (context object "listed snapshot disappeared")
    loaded ← lift (decode_snapshot c key found.bytes)
    pure (some loaded))

  unfoldable pub load_candidate :
      List ReplicaTarget
      → Option (LoadedSnapshot Bytes)
      → Option SnapshotRef
      → Action (Storage c b) (Option (LoadedSnapshot Bytes))
  unfolding recover_snapshot
  load_candidate replicas loaded none = pure loaded
  load_candidate replicas loaded (some snapshot) =
      if is_loaded loaded snapshot then pure loaded else (do
        bytes ← recover_snapshot replicas snapshot
        pure (some (record { reference = snapshot; bytes = bytes })))

  unfoldable pub latest :
      Ownership
      → Option (LoadedSnapshot Bytes)
      → Action (Storage c b) (Option (LoadedSnapshot Bytes))
  unfolding load_key load_candidate
  latest o known = do
    own ← lift (stream c o)
    keys ← read_with (λ s. b.list s own.prefix)
    loaded ← load_key known (newest_key o.epoch none keys)
    replicas ← replica_members c b (scope o)
    candidate ←
        lift (candidate_of own replicas o.base (reference_of loaded) (peers.heads replicas own))
    load_candidate replicas loaded candidate

  -- The newest of the recovered snapshots that is the actor's own.
  unfoldable pub restore_from :
      Text
      → List ReplicaTarget
      → Option (LoadedSnapshot Bytes)
      → List SnapshotRef
      → Action (Storage c b) (Option (LoadedSnapshot Bytes))
  unfolding recover_snapshot
  restore_from prefix replicas loaded [] = pure loaded
  restore_from prefix replicas loaded (snapshot ∷ rest) = do
    bytes ← recover_snapshot replicas snapshot
    restore_from prefix replicas
        (if starts_with prefix snapshot.object && is_newer snapshot loaded
          then some (record { reference = snapshot; bytes = bytes })
          else loaded)
        rest

  unfoldable pub restore_session :
      Ownership → Session → List SnapshotRef → Action (Storage c b) (Option (LoadedSnapshot Bytes))
  unfolding restore_from
  restore_session o session refs = do
    prefix ← lift (snapshots c o.actor)
    restore_from prefix session.replicas none refs

  -- `load`, with the generation
  unfoldable pub read_owner : Option (BucketObject Bytes) → Result (Option (ℕ × Ownership))
  read_owner none = ok none
  read_owner (some object) = elim (c.read_ownership object.bytes) [
    | ok o ↦ ok (some (object.generation, o))
    | err e ↦ err e
  ]

  unfoldable pub load : Text → Action (Storage c b) (Option (ℕ × Ownership))
  unfolding read_owner
  load object = do key ← lift (owner c object); found ← get_object c b key; lift (read_owner found)
