-- ===== src/Replica/Store.antt =====
-- The replica's store (src/replication/store.rs) and the naming of snapshots in a stream
-- (src/replication/stream.rs). The directory is part of the state: a blob file holds its metadata
-- and the bytes, and a file is named after the hash of its object, which is taken to be one to one.
-- The file system calls succeed, but for reading, creating or removing a file that the state lacks
-- or already has.
pub mod Operations
pub mod Restoring
use little_actors.Prelude.{
  ℕ, String, ◌+◌, ◌-◌, Bool, true, false, not, ◌&&◌, ◌||◌, Option, none, some, List, [], ◌∷◌, ◌==◌,
  Eq, ltb, leb, eqb, Result, ok, err, Checked, ◌>>=◌, ◌>>◌, ensure, context, if◌then◌else◌,
}
use little_actors.Prelude.Dict.{Dict, lookup, insert, remove}
use little_actors.Prelude.Text.{Text, text_eq, starts_with}
use little_actors.Naming.{object_name, u64_max}
use little_actors.Snapshot.{StateSnapshot, validate}
use little_actors.Replica.{
  ReplicaStream, SnapshotRef, StreamHead, SessionHead, stream_beq, snapshot_beq,
}
use little_actors.Wire.{Codec}

pub record Metadata : Type 0 where
  pub object : Text
  pub size : ℕ

pub record Blob (Bytes : Type 0) : Type 0 where
  pub metadata : Metadata
  pub bytes : Bytes

pub record StoreState (Bytes : Type 0) : Type 0 where
  pub capacity : ℕ
  pub used : ℕ
  pub snapshots : Dict Text Metadata
  pub streams : Dict Text StreamHead
  pub sessions : Dict Text SessionHead
  -- the files `*.blob`, `*.stream` and `*.session`
  pub blob_files : Dict Text (Blob Bytes)
  pub stream_files : Dict Text StreamHead
  pub session_files : Dict Text SessionHead

-- `a.checked_add(b)`
abbrev pub checked_add : ℕ → ℕ → String → Result ℕ
checked_add a b e = if leb (a + b) u64_max then ok (a + b) else err e

-- The keys of a map for which a test holds.
unfoldable pub keys_where {ℓ} : {V : Type ℓ} → (Text → Bool) → Dict Text V → List Text
keys_where p [] = []
keys_where p ((k, v) ∷ m) = if p k then k ∷ keys_where p m else keys_where p m

-- What `prune_stream` removes under a prefix: all but the latest object.
abbrev pub is_obsolete : Text → Text → Text → Bool
is_obsolete prefix latest object = starts_with prefix object && not (object == latest)

module _ (c : Codec) where
  open c use {Bytes, bytes_eq, len, checksum, read_snapshot}

  -- `StateSnapshot::decode`
  unfoldable pub decode : Bytes → Result StateSnapshot
  decode bytes = do snapshot ← read_snapshot bytes; validate snapshot; ok snapshot

  -- `SnapshotRef::new`
  unfoldable pub reference : Text → StateSnapshot → Bytes → SnapshotRef
  reference object snapshot bytes = record {
    object = object;
    state_version = snapshot.state_version;
    request_id = snapshot.request_id;
    digest = checksum bytes;
  }

  -- `SnapshotRef::verify`
  unfoldable pub verify : SnapshotRef → Bytes → Checked
  verify snapshot bytes = ensure (checksum bytes == snapshot.digest) "snapshot checksum mismatch"

  -- `ReplicaStream::snapshot`
  unfoldable pub stream_snapshot : ReplicaStream → Bytes → Result SnapshotRef
  unfolding decode reference
  stream_snapshot stream bytes = do
    snapshot ← decode bytes
    ensure
        (eqb snapshot.owner_epoch stream.owner_epoch
          && ltb stream.base_version snapshot.state_version)
        "snapshot belongs to another stream"
    ok (reference (object_name stream.prefix snapshot.state_version) snapshot bytes)

  unfoldable pub read_blob : StoreState Bytes → Text → ℕ → Result Bytes
  read_blob state object size = do
    file ← context (lookup object state.blob_files) "open replica blob"
    ensure (eqb (len file.bytes) size) "incomplete replica blob"
    ok file.bytes

  -- `StoreState::put` for an object that is already stored
  unfoldable pub put_existing :
      StoreState Bytes → Metadata → Bytes → Metadata → Result (StoreState Bytes)
  put_existing state metadata bytes existing = do
    stored ← read_blob state metadata.object existing.size
    ensure (bytes_eq.beq stored bytes) "conflicting immutable snapshot"
    ok state

  -- `StoreState::put` for a new object
  unfoldable pub put_new : StoreState Bytes → Metadata → Bytes → Result (StoreState Bytes)
  put_new state metadata bytes = do
    used ← checked_add state.used metadata.size "replica size overflow"
    ensure (leb used state.capacity) "replica storage is full"
    elim (lookup metadata.object state.blob_files) [
      | some _ ↦ err "persist replica blob"
      | none ↦ ok (record state {
        used = used;
        snapshots = insert metadata.object metadata state.snapshots;
        blob_files =
            insert metadata.object (record { metadata = metadata; bytes = bytes }) state.blob_files;
      })
    ]

  unfoldable pub put : StoreState Bytes → Metadata → Bytes → Result (StoreState Bytes)
  unfolding put_existing put_new
  put state metadata bytes = elim (lookup metadata.object state.snapshots) [
    | some existing ↦ put_existing state metadata bytes existing
    | none ↦ put_new state metadata bytes
  ]

  unfoldable pub head_or_new : ReplicaStream → Option StreamHead → Result StreamHead
  head_or_new stream none = ok (record { stream = stream; latest = none })
  head_or_new stream (some head) = do
    ensure (stream_beq head.stream stream) "replica stream identity mismatch"
    ok head

  -- `StoreState::head`
  unfoldable pub head_of : StoreState Bytes → ReplicaStream → Result StreamHead
  unfolding head_or_new
  head_of state stream = head_or_new stream (lookup stream.prefix state.streams)

  unfoldable pub session_or_new : Text → Option SessionHead → SessionHead
  session_or_new session (some head) = head
  session_or_new session none = record {
    session = session;
    initialized = false;
    sealed = false;
    streams = [];
  }

  -- `StoreState::session`
  unfoldable pub session_of : StoreState Bytes → Text → SessionHead
  unfolding session_or_new
  session_of state session = session_or_new session (lookup session state.sessions)

  unfoldable pub save_session : StoreState Bytes → SessionHead → StoreState Bytes
  save_session state head = record state {
    sessions = insert head.session head state.sessions;
    session_files = insert head.session head state.session_files;
  }

  unfoldable pub save_head : StoreState Bytes → StreamHead → StoreState Bytes
  save_head state head = record state {
    streams = insert head.stream.prefix head state.streams;
    stream_files = insert head.stream.prefix head state.stream_files;
  }

  unfoldable pub remove_object : StoreState Bytes → Text → Result (StoreState Bytes)
  remove_object state object = do
    file ← context (lookup object state.blob_files) "remove replica blob"
    metadata ← context (lookup object state.snapshots) "called `Option::unwrap()` on a `None` value"
    ok (record state {
      used = state.used - metadata.size;
      snapshots = remove object state.snapshots;
      blob_files = remove object state.blob_files;
    })

  unfoldable pub remove_all : List Text → StoreState Bytes → Result (StoreState Bytes)
  unfolding remove_object
  remove_all [] state = ok state
  remove_all (object ∷ objects) state = do
    state' ← remove_object state object
    remove_all objects state'

  unfoldable pub prune_to : StoreState Bytes → Text → Option SnapshotRef → Result (StoreState Bytes)
  prune_to state prefix none = ok state
  prune_to state prefix (some latest) =
      remove_all (keys_where (is_obsolete prefix latest.object) state.snapshots) state

  unfoldable pub prune_stream : StoreState Bytes → StreamHead → Result (StoreState Bytes)
  unfolding prune_to remove_all keys_where
  prune_stream state head = prune_to state head.stream.prefix head.latest
