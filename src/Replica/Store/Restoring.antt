-- ===== src/Replica/Store/Restoring.antt =====
-- Opening a replica's store again: the files of its directory are read back into the maps
-- (`StoreState::restore` of src/replication/store.rs). A file stands under the object, the prefix or
-- the session whose hash is its name. Pending files, which are removed, are left out.
use little_actors.Prelude.{[], ◌∷◌, ◌==◌, eqb, ltb, Result, ok, ◌>>=◌, ◌>>◌, ensure}
use little_actors.Prelude.Dict.{Dict, insert}
use little_actors.Prelude.Text.{Text, text_eq}
use little_actors.Replica.{StreamHead, SessionHead}
use little_actors.Replica.Store.{StoreState, Blob, checked_add, prune_stream}
use little_actors.Wire.{Codec}

module _ (c : Codec) where
  open c use {Bytes, len}

  unfoldable pub restore_blobs :
      Dict Text (Blob Bytes) → StoreState Bytes → Result (StoreState Bytes)
  restore_blobs [] state = ok state
  restore_blobs ((name, blob) ∷ files) state = do
    ensure (name == blob.metadata.object) "invalid replica blob metadata"
    ensure (eqb (len blob.bytes) blob.metadata.size) "incomplete replica blob"
    used ← checked_add state.used blob.metadata.size "replica size overflow"
    restore_blobs files (record state {
      used = used;
      snapshots = insert blob.metadata.object blob.metadata state.snapshots;
    })

  unfoldable pub restore_streams :
      Dict Text StreamHead → StoreState Bytes → Result (StoreState Bytes)
  restore_streams [] state = ok state
  restore_streams ((name, head) ∷ files) state = do
    ensure (name == head.stream.prefix) "invalid stream metadata"
    restore_streams files (record state { streams = insert head.stream.prefix head state.streams })

  unfoldable pub restore_sessions :
      Dict Text SessionHead → StoreState Bytes → Result (StoreState Bytes)
  restore_sessions [] state = ok state
  restore_sessions ((name, head) ∷ files) state = do
    ensure (name == head.session) "invalid session metadata"
    restore_sessions files (record state { sessions = insert head.session head state.sessions })

  -- `StoreState::open`, before the files are read.
  unfoldable pub closed : StoreState Bytes → StoreState Bytes
  closed state = record state { used = 0; snapshots = []; streams = []; sessions = [] }

  -- The loop over the directory, which may meet the files in any order.
  unfoldable pub read_files : StoreState Bytes → Result (StoreState Bytes)
  unfolding restore_blobs restore_streams restore_sessions closed
  read_files state = do
    blobs ← restore_blobs state.blob_files (closed state)
    streams ← restore_streams state.stream_files blobs
    restore_sessions state.session_files streams

  unfoldable pub prune_all : Dict Text StreamHead → StoreState Bytes → Result (StoreState Bytes)
  unfolding prune_stream
  prune_all [] state = ok state
  prune_all ((name, head) ∷ streams) state = do
    pruned ← prune_stream c state head
    prune_all streams pruned

  -- `StoreState::restore`
  unfoldable pub restore : StoreState Bytes → Result (StoreState Bytes)
  unfolding read_files prune_all
  restore state = do read ← read_files state; prune_all read.streams read

  -- `FileReplicaStore::open`, on the directory that a store has left.
  unfoldable pub reopen : StoreState Bytes → Result (StoreState Bytes)
  unfolding restore
  reopen state = do
    ensure (ltb 0 state.capacity) "replica storage capacity must be positive"
    restore state
