-- ===== src/Replica/Steps.antt =====
-- The cases of a successful `append` of the replica's store (src/replication/store.rs).
use little_actors.Prelude.{
  ℕ, ◌<◌, ◌≡◌, refl, Option, none, some, Bool-cases, ◌⊎◌, inl, inr, ok, >>=-eq-ok, ensure, eqb, leb,
  arith,
}
use little_actors.Prelude.Dict.{lookup, insert}
use little_actors.Prelude.Text.{text_eq}
use little_actors.Replica.{ReplicaStream, SnapshotRef, StreamHead}
use little_actors.Replica.Identity.{stream_beq_iff, snapshot_beq_iff}
use little_actors.Replica.Frame.{put-SameMaps, prune_stream-SameMaps, AppendParts}
use little_actors.Replica.Store.{StoreState, put, head_of, head_or_new, save_head, prune_stream}
use little_actors.Replica.Store.Operations.{append_after, append_new, append_same}
use little_actors.Wire.{Codec}

abbrev pub latest_version : Option SnapshotRef → ℕ
latest_version none = 0
latest_version (some snapshot) = snapshot.state_version

-- Older than a snapshot: nothing, or a smaller version.
abbrev pub IsOlder : Option SnapshotRef → ℕ → Type 0
IsOlder none v = Unit
IsOlder (some latest) v = latest.state_version < v

module _ (c : Codec) where
  open c use {Bytes, len}

  -- The snapshot was appended: it is stored, it becomes the head, and older ones go.
  pub record IsAdvance (s : StoreState Bytes) (head : StreamHead) (snapshot : SnapshotRef)
      (bytes : Bytes) (t : StoreState Bytes) : Type 0 where
    pub older : IsOlder head.latest snapshot.state_version
    pub stored : StoreState Bytes
    pub put_ok : put c s (record { object = snapshot.object; size = len bytes }) bytes ≡ ok stored
    pub pruned :
        prune_stream c
          (save_head c stored (record head { latest = some snapshot }))
          (record head { latest = some snapshot })
        ≡ ok t

  -- The snapshot was the head already.
  pub record IsRepeat (s : StoreState Bytes) (head : StreamHead) (snapshot : SnapshotRef)
      (t : StoreState Bytes) : Type 0 where
    pub same : head.latest ≡ some snapshot
    pub pruned : prune_stream c s head ≡ ok t

  append_new-IsAdvance :
      (s : StoreState Bytes) (head : StreamHead) (snapshot : SnapshotRef) (bytes : Bytes)
      {t : StoreState Bytes}
      → IsOlder head.latest snapshot.state_version
      → append_new c s head snapshot bytes ≡ ok t
      → IsAdvance s head snapshot bytes t
  unfolding append_new
  append_new-IsAdvance s head snapshot bytes older h =
      let (stored, put_ok, pruned) =
        >>=-eq-ok (put c s (record { object = snapshot.object; size = len bytes }) bytes) _ h in
      record { older = older; stored = stored; put_ok = put_ok; pruned = pruned }

  append_same-IsRepeat :
      (s : StoreState Bytes) (head : StreamHead) (snapshot latest : SnapshotRef)
      {t : StoreState Bytes}
      → head.latest ≡ some latest
      → append_same c s head snapshot latest ≡ ok t
      → IsRepeat s head snapshot t
  unfolding append_same
  append_same-IsRepeat s head snapshot latest e h = record {
    same = ground (arith, snapshot_beq_iff snapshot latest);
    pruned = ground arith;
  }

  append_after-cases :
      (s : StoreState Bytes) (head : StreamHead) (snapshot : SnapshotRef) (bytes : Bytes)
      (latest : Option SnapshotRef) {t : StoreState Bytes}
      → head.latest ≡ latest
      → append_after c s head snapshot bytes latest ≡ ok t
      → IsAdvance s head snapshot bytes t ⊎ IsRepeat s head snapshot t
  unfolding append_after
  append_after-cases s head snapshot bytes none e h =
      inl (append_new-IsAdvance s head snapshot bytes (rw e tt) h)
  append_after-cases s head snapshot bytes (some latest) e h =
      let (_, ordered, rest) =
        >>=-eq-ok
          (ensure (leb latest.state_version snapshot.state_version) "replica write is out of order")
          _ h in
      elim (Bool-cases (eqb snapshot.state_version latest.state_version)) [
        | inl same ↦ inr (append_same-IsRepeat s head snapshot latest e (rw same at rest))
        | inr newer ↦
            inl
              (append_new-IsAdvance s head snapshot bytes (rw e (ground arith)) (rw newer at rest))
      ]

  pub append-cases :
      (s : StoreState Bytes) (stream : ReplicaStream) (bytes : Bytes) {t : StoreState Bytes}
      (parts : AppendParts c s stream bytes t)
      → IsAdvance s parts.head parts.snapshot bytes t ⊎ IsRepeat s parts.head parts.snapshot t
  append-cases s stream bytes parts =
      append_after-cases s parts.head parts.snapshot bytes parts.head.latest refl parts.step

  -- The head that is found belongs to the stream, and is the stored one or a new one.
  head_or_new-cases :
      (stream : ReplicaStream) (stored : Option StreamHead) {head : StreamHead}
      → head_or_new c stream stored ≡ ok head
      → (head.stream ≡ stream) × ((stored ≡ some head) ⊎ ((stored ≡ none) × (head.latest ≡ none)))
  unfolding head_or_new
  head_or_new-cases stream none h = ground arith
  head_or_new-cases stream (some stored) h = ground (arith, stream_beq_iff stored.stream stream)

  pub head_of-cases :
      (s : StoreState Bytes) (stream : ReplicaStream) {head : StreamHead}
      → head_of c s stream ≡ ok head
      → (head.stream ≡ stream)
        × ((lookup stream.prefix s.streams ≡ some head)
            ⊎ ((lookup stream.prefix s.streams ≡ none) × (head.latest ≡ none)))
  unfolding head_of
  head_of-cases s stream h = head_or_new-cases stream (lookup stream.prefix s.streams) h

  -- The streams after a successful append.
  pub append-streams :
      (s : StoreState Bytes) (stream : ReplicaStream) (bytes : Bytes) {t : StoreState Bytes}
      (parts : AppendParts c s stream bytes t)
      → (t.streams
          ≡ insert stream.prefix
              (record { stream = stream; latest = some parts.snapshot })
              s.streams)
        ⊎ ((t.streams ≡ s.streams) × (parts.head.latest ≡ some parts.snapshot))
  unfolding save_head
  append-streams s stream bytes {t} parts =
      let own = (head_of-cases s stream parts.found).0 in
      elim (append-cases s stream bytes parts) [
        | inl advance ↦ inl (
            cc (
              own,
              (prune_stream-SameMaps c _ _ advance.pruned).streams,
              (put-SameMaps c s _ bytes advance.put_ok).streams,
            ))
        | inr repeat ↦
            inr ((prune_stream-SameMaps c s parts.head repeat.pruned).streams, repeat.same)
      ]
