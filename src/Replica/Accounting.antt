-- ===== src/Replica/Accounting.antt =====
-- The store's accounting: `used`, the sizes of what is stored, and the files
-- (src/replication/store.rs).
use little_actors.Prelude.{
  ℕ, ◌+◌, ◌≤◌, ◌≡◌, ap, Option, none, some, Option-cases, Bool-cases, inl, inr, List, [], ◌∷◌, ok,
  >>=-eq-ok, ◌==◌, ==_iff, arith,
}
use little_actors.Prelude.Dict.{
  Dict, lookup, insert, remove, lookup-insert, lookup-remove, IsDistinct, insert-IsDistinct,
  remove-IsDistinct, remove-absent,
}
use little_actors.Prelude.Text.{Text, text_eq}
use little_actors.Replica.{StreamHead, SessionHead, SnapshotRef}
use little_actors.Replica.Store.{
  StoreState, Metadata, Blob, put, put_new, put_existing, remove_object, remove_all, prune_to,
  prune_stream, save_head, save_session,
}
use little_actors.Wire.{Codec}

-- The sizes of all that is stored.
unfoldable pub total : Dict Text Metadata → ℕ
total [] = 0
total ((k, m) ∷ ms) = m.size + total ms

total-remove :
    (k : Text) (ms : Dict Text Metadata) {m : Metadata}
    → IsDistinct ms
    → lookup k ms ≡ some m
    → total (remove k ms) + m.size ≡ total ms
unfolding total lookup remove
total-remove k [] d h = cc
total-remove k ((j, n) ∷ ms) d h = elim (Bool-cases (j == k)) [
  | inl same ↦ rw same (
      ground (
        arith,
        remove-absent k ms,
        d.0,
        ==_iff j k,
        ap total (remove-absent k ms (ground (arith, d.0, ==_iff j k))),
      ))
  | inr other ↦ rw other (omega (arith, total-remove k ms d.1 (rw other at h)))
]

pub total-insert :
    (k : Text) (m : Metadata) (ms : Dict Text Metadata)
    → lookup k ms ≡ none
    → total (insert k m ms) ≡ m.size + total ms
unfolding total insert
total-insert k m ms h = ap (λ (d : Dict Text Metadata). m.size + total d) (remove-absent k ms h)

abbrev pub blob_metadata : {B : Type 0} → Option (Blob B) → Option Metadata
blob_metadata none = none
blob_metadata (some b) = some b.metadata

module _ (c : Codec) where
  open c use {Bytes, len}

  pub record IsValid (s : StoreState Bytes) : Type 0 where
    pub distinct : IsDistinct s.snapshots
    pub counted : s.used ≡ total s.snapshots
    pub fits : s.used ≤ s.capacity
    pub mirrored : (o : Text) → blob_metadata (lookup o s.blob_files) ≡ lookup o s.snapshots
    pub sized :
        (o : Text) (b : Blob Bytes)
        → lookup o s.blob_files ≡ some b
        → (b.metadata.size ≡ len b.bytes) × (b.metadata.object ≡ o)
    pub streams_saved : s.stream_files ≡ s.streams
    pub sessions_saved : s.session_files ≡ s.sessions

  put_new-IsValid :
      (s : StoreState Bytes) (metadata : Metadata) (bytes : Bytes) {t : StoreState Bytes}
      → metadata.size ≡ len bytes
      → lookup metadata.object s.snapshots ≡ none
      → IsValid s
      → put_new c s metadata bytes ≡ ok t
      → IsValid t
  unfolding put_new
  put_new-IsValid s metadata bytes {t} size absent v h = record {
    distinct = ground (arith, insert-IsDistinct metadata.object metadata s.snapshots v.distinct);
    counted = ground (arith, total-insert metadata.object metadata s.snapshots absent, v.counted);
    fits = ground arith;
    mirrored = λ o. ground (
      arith,
      lookup-insert o metadata.object metadata s.snapshots,
      lookup-insert o metadata.object
          (let b : Blob Bytes = record { metadata = metadata; bytes = bytes } in b) s.blob_files,
      v.mirrored o,
    );
    sized = λ o b e. ground (
      arith,
      lookup-insert o metadata.object
          (let b : Blob Bytes = record { metadata = metadata; bytes = bytes } in b) s.blob_files,
      ==_iff metadata.object o,
      v.sized o b,
    );
    streams_saved = ground (arith, v.streams_saved);
    sessions_saved = ground (arith, v.sessions_saved);
  }

  put_existing-same :
      (s : StoreState Bytes) (metadata existing : Metadata) (bytes : Bytes) {t : StoreState Bytes}
      → put_existing c s metadata bytes existing ≡ ok t
      → t ≡ s
  unfolding put_existing
  put_existing-same s metadata existing bytes h = ground arith

  pub put-IsValid :
      (s : StoreState Bytes) (metadata : Metadata) (bytes : Bytes) {t : StoreState Bytes}
      → metadata.size ≡ len bytes
      → IsValid s
      → put c s metadata bytes ≡ ok t
      → IsValid t
  unfolding put
  put-IsValid s metadata bytes {t} size v h =
      elim (Option-cases (lookup metadata.object s.snapshots)) [
        | inl absent ↦ put_new-IsValid s metadata bytes size absent v (rw (absent, put) at h)
        | inr (existing, e) ↦ rw (put_existing-same s metadata existing bytes (rw (e, put) at h)) v
      ]

  pub remove_object-IsValid :
      (s : StoreState Bytes) (object : Text) {t : StoreState Bytes}
      → IsValid s
      → remove_object c s object ≡ ok t
      → IsValid t
  unfolding remove_object
  remove_object-IsValid s object {t} v h = elim (Option-cases (lookup object s.snapshots)) [
    | inl e ↦ absurd (ground (arith, v.mirrored object))
    | inr (m, e) ↦
        let fewer = total-remove object s.snapshots v.distinct e in
        record {
          distinct = ground (arith, remove-IsDistinct object s.snapshots v.distinct);
          counted = ground (arith, fewer, v.counted);
          fits = ground (arith, v.fits);
          mirrored = λ o. ground (
            arith,
            lookup-remove o object s.snapshots,
            lookup-remove o object s.blob_files,
            v.mirrored o,
          );
          sized = λ o b q. ground (arith, lookup-remove o object s.blob_files, v.sized o b);
          streams_saved = ground (arith, v.streams_saved);
          sessions_saved = ground (arith, v.sessions_saved);
        }
  ]

  remove_all-IsValid :
      (objects : List Text) (s : StoreState Bytes) {t : StoreState Bytes}
      → IsValid s
      → remove_all c objects s ≡ ok t
      → IsValid t
  unfolding remove_all
  remove_all-IsValid [] s v h = ground arith
  remove_all-IsValid (object ∷ objects) s v h =
      let (s', removed, rest) = >>=-eq-ok (remove_object c s object) (remove_all c objects) h in
      remove_all-IsValid objects s' (remove_object-IsValid s object v removed) rest

  prune_to-IsValid :
      (s : StoreState Bytes) (prefix : Text) (latest : Option SnapshotRef) {t : StoreState Bytes}
      → IsValid s
      → prune_to c s prefix latest ≡ ok t
      → IsValid t
  unfolding prune_to
  prune_to-IsValid s prefix none v h = ground arith
  prune_to-IsValid s prefix (some latest) v h = remove_all-IsValid _ s v h

  pub prune_stream-IsValid :
      (s : StoreState Bytes) (head : StreamHead) {t : StoreState Bytes}
      → IsValid s
      → prune_stream c s head ≡ ok t
      → IsValid t
  unfolding prune_stream
  prune_stream-IsValid s head v h = prune_to-IsValid s head.stream.prefix head.latest v h

  pub save_head-IsValid :
      (s : StoreState Bytes) (head : StreamHead) → IsValid s → IsValid (save_head c s head)
  unfolding save_head
  save_head-IsValid s head v = record {
    distinct = v.distinct;
    counted = v.counted;
    fits = v.fits;
    mirrored = v.mirrored;
    sized = v.sized;
    streams_saved = ap (insert head.stream.prefix head) v.streams_saved;
    sessions_saved = v.sessions_saved;
  }

  pub save_session-IsValid :
      (s : StoreState Bytes) (head : SessionHead) → IsValid s → IsValid (save_session c s head)
  unfolding save_session
  save_session-IsValid s head v = record {
    distinct = v.distinct;
    counted = v.counted;
    fits = v.fits;
    mirrored = v.mirrored;
    sized = v.sized;
    streams_saved = v.streams_saved;
    sessions_saved = ap (insert head.session head) v.sessions_saved;
  }
