-- ===== src/Replica/Store/Operations.antt =====
-- The operations of `ReplicaStore` over the store's state (src/replication/store.rs): `append`,
-- sessions and reads. A write that fails leaves the state as it was.
use little_actors.Prelude.{
  true, not, ◌&&◌, Option, none, some, List, [], ◌∷◌, ◌==◌, leb, eqb, Result, ok, err, ◌>>=◌, ◌>>◌,
  ensure, if◌then◌else◌,
}
use little_actors.Prelude.Dict.{Dict, lookup}
use little_actors.Prelude.Text.{Text, text_eq, text_leb}
use little_actors.Replica.{ReplicaStream, SnapshotRef, StreamHead, SessionHead, snapshot_beq}
use little_actors.Wire.{Codec}
use little_actors.Replica.Store.{
  StoreState, Metadata, stream_snapshot, put, head_of, session_of, save_session, save_head,
  prune_stream, read_blob,
}

unfoldable pub insert_head : StreamHead → List StreamHead → List StreamHead
insert_head head [] = head ∷ []
insert_head head (other ∷ heads) =
    if text_leb head.stream.prefix other.stream.prefix
    then head ∷ other ∷ heads
    else other ∷ insert_head head heads

-- `streams.sort_by(|a, b| a.stream.prefix.cmp(&b.stream.prefix))`
unfoldable pub sort_heads : List StreamHead → List StreamHead
unfolding insert_head text_leb
sort_heads [] = []
sort_heads (head ∷ heads) = insert_head head (sort_heads heads)

-- The heads of the streams of a session.
unfoldable pub heads_in : Text → Dict Text StreamHead → List StreamHead
heads_in session [] = []
heads_in session ((prefix, head) ∷ streams) =
    if head.stream.session == session
    then head ∷ heads_in session streams
    else heads_in session streams

module _ (c : Codec) where
  open c use {Bytes, len}

  unfoldable pub append_new :
      StoreState Bytes → StreamHead → SnapshotRef → Bytes → Result (StoreState Bytes)
  append_new state head snapshot bytes = do
    state' ← put c state (record { object = snapshot.object; size = len bytes }) bytes
    let head' = record head { latest = some snapshot }
    prune_stream c (save_head c state' head') head'

  unfoldable pub append_same :
      StoreState Bytes → StreamHead → SnapshotRef → SnapshotRef → Result (StoreState Bytes)
  append_same state head snapshot latest = do
    ensure (snapshot_beq snapshot latest) "conflicting immutable snapshot"
    prune_stream c state head

  unfoldable pub append_after :
      StoreState Bytes
      → StreamHead
      → SnapshotRef
      → Bytes
      → Option SnapshotRef
      → Result (StoreState Bytes)
  unfolding append_new append_same
  append_after state head snapshot bytes none = append_new state head snapshot bytes
  append_after state head snapshot bytes (some latest) = do
    ensure (leb latest.state_version snapshot.state_version) "replica write is out of order"
    if eqb snapshot.state_version latest.state_version
        then append_same state head snapshot latest
        else append_new state head snapshot bytes

  -- `StoreState::append`
  unfoldable pub append : StoreState Bytes → ReplicaStream → Bytes → Result (StoreState Bytes)
  unfolding append_after
  append state stream bytes = do
    head ← head_of c state stream
    let session = session_of c state stream.session
    ensure (session.initialized && not session.sealed) "replica session is absent or sealed"
    snapshot ← stream_snapshot c stream bytes
    append_after state head snapshot bytes head.latest

  unfoldable pub initialize_session : StoreState Bytes → Text → Result (StoreState Bytes)
  initialize_session state session = do
    let head = session_of c state session
    ensure (not head.sealed) "replica session is sealed"
    ok (save_session c state (record head { initialized = true }))

  unfoldable pub stream_head : StoreState Bytes → ReplicaStream → Result StreamHead
  stream_head state stream = do
    ensure (session_of c state stream.session).initialized "replica session is absent"
    head_of c state stream

  -- The sealed session, and what the caller is told of its streams.
  unfoldable pub seal_session : StoreState Bytes → Text → StoreState Bytes × SessionHead
  seal_session state session =
      let head = record (session_of c state session) { sealed = true } in
      let state' = save_session c state head in
      (state', record head { streams = sort_heads (heads_in session state'.streams) })

  unfoldable pub read_found : StoreState Bytes → Text → Option Metadata → Result (Option Bytes)
  read_found state object none = ok none
  read_found state object (some metadata) = do
    bytes ← read_blob c state object metadata.size
    ok (some bytes)

  unfoldable pub read : StoreState Bytes → Text → Result (Option Bytes)
  unfolding read_found
  read state object = read_found state object (lookup object state.snapshots)

  -- `ReplicaStore::put`
  unfoldable pub put_object : StoreState Bytes → Text → Bytes → Result (StoreState Bytes)
  put_object state object bytes = put c state (record { object = object; size = len bytes }) bytes

-- The calls that a replica answers, and the state that each leaves: an error changes nothing.
pub data Call (Bytes : Type 0) : Type 0 where
  initialize : Text → Call Bytes
  write : ReplicaStream → Bytes → Call Bytes
  head : ReplicaStream → Call Bytes
  seal : Text → Call Bytes
  store : Text → Bytes → Call Bytes
  fetch : Text → Call Bytes

abbrev pub or_unchanged {ℓ} : {S : Type ℓ} → S → Result S → S
or_unchanged s (ok s') = s'
or_unchanged s (err e) = s

module _ (c : Codec) where
  open c use {Bytes}

  unfoldable pub serve : StoreState Bytes → Call Bytes → StoreState Bytes
  serve state (initialize session) = or_unchanged state (initialize_session c state session)
  serve state (write stream bytes) = or_unchanged state (append c state stream bytes)
  serve state (head stream) = state
  serve state (seal session) = (seal_session c state session).0
  serve state (store object bytes) = or_unchanged state (put_object c state object bytes)
  serve state (fetch object) = state

  unfoldable pub serve_all : StoreState Bytes → List (Call Bytes) → StoreState Bytes
  unfolding serve
  serve_all state [] = state
  serve_all state (call ∷ calls) = serve_all (serve state call) calls
