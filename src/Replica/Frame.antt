-- ===== src/Replica/Frame.antt =====
-- What the writes of the replica's store leave alone, and the parts of a successful `append`
-- (src/replication/store.rs).
use little_actors.Prelude.{
  true, false, not, ◌&&◌, ◌≡◌, refl, ◌∙◌, Option, none, some, List, [], ◌∷◌, ok, >>=-eq-ok, ensure,
  arith,
}
use little_actors.Prelude.Text.{Text}
use little_actors.Replica.{ReplicaStream, SnapshotRef, StreamHead}
use little_actors.Wire.{Codec}
use little_actors.Replica.Store.{
  StoreState, Metadata, stream_snapshot, put, head_of, session_of, remove_object, remove_all,
  prune_to, prune_stream,
}
use little_actors.Replica.Store.Operations.{append, append_after}

-- Two states with the same capacity, streams and sessions, in memory and in the files.
pub record SameMaps {Bytes : Type 0} (s t : StoreState Bytes) : Type 0 where
  pub capacity : t.capacity ≡ s.capacity
  pub streams : t.streams ≡ s.streams
  pub sessions : t.sessions ≡ s.sessions
  pub stream_files : t.stream_files ≡ s.stream_files
  pub session_files : t.session_files ≡ s.session_files

module _ (c : Codec) where
  open c use {Bytes}

  remove_object-SameMaps :
      (s : StoreState Bytes) (object : Text) {t : StoreState Bytes}
      → remove_object c s object ≡ ok t
      → SameMaps s t
  unfolding remove_object
  remove_object-SameMaps s object h = ground arith

  pub SameMaps-trans : {s t u : StoreState Bytes} → SameMaps s t → SameMaps t u → SameMaps s u
  SameMaps-trans h k = record {
    capacity = k.capacity ∙ h.capacity;
    streams = k.streams ∙ h.streams;
    sessions = k.sessions ∙ h.sessions;
    stream_files = k.stream_files ∙ h.stream_files;
    session_files = k.session_files ∙ h.session_files;
  }

  pub SameMaps-refl : (s : StoreState Bytes) → SameMaps s s
  SameMaps-refl s = record {
    capacity = refl;
    streams = refl;
    sessions = refl;
    stream_files = refl;
    session_files = refl;
  }

  SameMaps-eq : {s t : StoreState Bytes} → ok s ≡ ok t → SameMaps s t
  SameMaps-eq h = ground arith

  remove_all-SameMaps :
      (objects : List Text) (s : StoreState Bytes) {t : StoreState Bytes}
      → remove_all c objects s ≡ ok t
      → SameMaps s t
  unfolding remove_all
  remove_all-SameMaps [] s h = SameMaps-eq h
  remove_all-SameMaps (object ∷ objects) s h =
      let (s', removed, rest) = >>=-eq-ok (remove_object c s object) (remove_all c objects) h in
      SameMaps-trans (remove_object-SameMaps s object removed) (remove_all-SameMaps objects s' rest)

  prune_to-SameMaps :
      (s : StoreState Bytes) (prefix : Text) (latest : Option SnapshotRef) {t : StoreState Bytes}
      → prune_to c s prefix latest ≡ ok t
      → SameMaps s t
  unfolding prune_to
  prune_to-SameMaps s prefix none h = SameMaps-eq h
  prune_to-SameMaps s prefix (some latest) h = remove_all-SameMaps _ s h

  pub prune_stream-SameMaps :
      (s : StoreState Bytes) (head : StreamHead) {t : StoreState Bytes}
      → prune_stream c s head ≡ ok t
      → SameMaps s t
  unfolding prune_stream
  prune_stream-SameMaps s head h = prune_to-SameMaps s head.stream.prefix head.latest h

  pub put-SameMaps :
      (s : StoreState Bytes) (metadata : Metadata) (bytes : Bytes) {t : StoreState Bytes}
      → put c s metadata bytes ≡ ok t
      → SameMaps s t
  unfolding put
  put-SameMaps s metadata bytes h = ground arith

  -- What an `append` that succeeds has found, and the step that it then made.
  pub record AppendParts (s : StoreState Bytes) (stream : ReplicaStream) (bytes : Bytes)
      (t : StoreState Bytes) : Type 0 where
    pub head : StreamHead
    pub snapshot : SnapshotRef
    pub found : head_of c s stream ≡ ok head
    pub live : (session_of c s stream.session).initialized ≡ true
    pub unsealed : (session_of c s stream.session).sealed ≡ false
    pub named : stream_snapshot c stream bytes ≡ ok snapshot
    pub step : append_after c s head snapshot bytes head.latest ≡ ok t

  pub append-parts :
      (s : StoreState Bytes) (stream : ReplicaStream) (bytes : Bytes) {t : StoreState Bytes}
      → append c s stream bytes ≡ ok t
      → AppendParts s stream bytes t
  unfolding append
  append-parts s stream bytes h =
      let (head, found, rest) = >>=-eq-ok (head_of c s stream) _ h in
      let session = session_of c s stream.session in
      let (_, open_session, rest') =
        >>=-eq-ok
          (ensure (session.initialized && not session.sealed) "replica session is absent or sealed")
          _ rest in
      let (snapshot, named, step) = >>=-eq-ok (stream_snapshot c stream bytes) _ rest' in
      record {
        head = head;
        snapshot = snapshot;
        found = found;
        live = ground arith;
        unsealed = ground arith;
        named = named;
        step = step;
      }
