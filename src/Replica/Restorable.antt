-- ===== src/Replica/Restorable.antt =====
-- What makes the files of a replica's store fit to be read back (src/replication/store.rs).
use little_actors.Prelude.{
  ℕ, ◌+◌, ◌≡◌, refl, ap, subst, Option, none, some, Option-cases, Bool-cases, Result-cases, inl,
  inr, List, [], ◌∷◌, All, ok, >>=-eq-ok, ◌==◌, ==_iff, arith,
}
use little_actors.Prelude.Dict.{
  Dict, lookup, insert, remove, IsDistinct, insert-IsDistinct, remove-IsDistinct, remove-absent,
}
use little_actors.Prelude.Text.{Text, text_eq}
use little_actors.Replica.{ReplicaStream, StreamHead, SessionHead, SnapshotRef}
use little_actors.Replica.Store.{
  StoreState, Metadata, Blob, put, put_new, put_existing, remove_object, remove_all, prune_to,
  prune_stream, save_head, save_session,
}
use little_actors.Replica.Store.Operations.{
  Call, initialize, write, head, seal, store, fetch, append, initialize_session, seal_session,
  put_object, serve, serve_all,
}
use little_actors.Replica.Frame.{append-parts}
use little_actors.Replica.Steps.{append-cases}
use little_actors.Replica.Fence.{initialize_session-ok}
use little_actors.Replica.Accounting.{
  IsValid, blob_metadata, put-IsValid, remove_object-IsValid, save_head-IsValid,
}
use little_actors.Replica.Serving.{serve-IsValid}
use little_actors.Wire.{Codec}

-- Every value stands under its own key.
abbrev pub IsKeyed : {V : Type 0} → (V → Text) → Dict Text V → Type 0
IsKeyed key files = All (λ (k, v). k ≡ key v) files

remove-IsKeyed :
    {V : Type 0} (key : V → Text) (k : Text) (files : Dict Text V)
    → IsKeyed key files
    → IsKeyed key (remove k files)
unfolding remove
remove-IsKeyed key k [] h = h
remove-IsKeyed key k ((j, v) ∷ files) (e, h) = elim (Bool-cases (j == k)) [
  | inl same ↦ rw same (remove-IsKeyed key k files h)
  | inr other ↦ rw other (e, remove-IsKeyed key k files h)
]

insert-IsKeyed :
    {V : Type 0} (key : V → Text) (v : V) (files : Dict Text V)
    → IsKeyed key files
    → IsKeyed key (insert (key v) v files)
unfolding insert
insert-IsKeyed key v files h = (refl, remove-IsKeyed key (key v) files h)

abbrev pub blob_key : {B : Type 0} → Blob B → Text
blob_key blob = blob.metadata.object

abbrev pub stream_key : StreamHead → Text
stream_key stored = stored.stream.prefix

abbrev pub session_key : SessionHead → Text
session_key stored = stored.session

-- The sizes of the blob files.
unfoldable pub file_total : {B : Type 0} → Dict Text (Blob B) → ℕ
file_total [] = 0
file_total ((k, blob) ∷ files) = blob.metadata.size + file_total files

file_total-remove :
    {B : Type 0} (k : Text) (files : Dict Text (Blob B)) {blob : Blob B}
    → IsDistinct files
    → lookup k files ≡ some blob
    → file_total (remove k files) + blob.metadata.size ≡ file_total files
unfolding file_total lookup remove
file_total-remove k [] d h = cc
file_total-remove k ((j, b) ∷ files) d h = elim (Bool-cases (j == k)) [
  | inl same ↦ rw same (
      ground (
        arith,
        remove-absent k files,
        d.0,
        ==_iff j k,
        ap file_total (remove-absent k files (ground (arith, d.0, ==_iff j k))),
      ))
  | inr other ↦ rw other (omega (arith, file_total-remove k files d.1 (rw other at h)))
]

module _ (c : Codec) where
  open c use {Bytes, len}

  -- Each file has the size that it tells.
  abbrev pub IsWhole : Text × Blob Bytes → Type 0
  IsWhole (k, blob) = (k ≡ blob_key blob) × (blob.metadata.size ≡ len blob.bytes)

  pub record IsRestorable (s : StoreState Bytes) : Type 0 where
    pub blobs_distinct : IsDistinct s.blob_files
    pub blobs_whole : All IsWhole s.blob_files
    pub counted : s.used ≡ file_total s.blob_files
    pub streams_distinct : IsDistinct s.stream_files
    pub streams_keyed : IsKeyed stream_key s.stream_files
    pub sessions_distinct : IsDistinct s.session_files
    pub sessions_keyed : IsKeyed session_key s.session_files

  remove-IsWhole :
      (k : Text) (files : Dict Text (Blob Bytes)) → All IsWhole files → All IsWhole (remove k files)
  unfolding remove
  remove-IsWhole k [] h = h
  remove-IsWhole k ((j, v) ∷ files) (e, h) = elim (Bool-cases (j == k)) [
    | inl same ↦ rw same (remove-IsWhole k files h)
    | inr other ↦ rw other (e, remove-IsWhole k files h)
  ]

  -- A new blob file.
  add_blob-IsRestorable :
      (s : StoreState Bytes) (metadata : Metadata) (bytes : Bytes) (used : ℕ) (snapshots : _)
      → metadata.size ≡ len bytes
      → lookup metadata.object s.blob_files ≡ none
      → used ≡ s.used + metadata.size
      → IsRestorable s
      → IsRestorable (record s {
        used = used;
        snapshots = snapshots;
        blob_files =
            insert metadata.object (record { metadata = metadata; bytes = bytes }) s.blob_files;
      })
  unfolding insert file_total
  add_blob-IsRestorable s metadata bytes used snapshots size absent u v = record {
    blobs_distinct =
        insert-IsDistinct metadata.object
          (let b : Blob Bytes = record { metadata = metadata; bytes = bytes } in b) s.blob_files
          v.blobs_distinct;
    blobs_whole = ((refl, size), remove-IsWhole metadata.object s.blob_files v.blobs_whole);
    counted =
        ground
          (arith, u, v.counted, ap file_total (remove-absent metadata.object s.blob_files absent));
    streams_distinct = v.streams_distinct;
    streams_keyed = v.streams_keyed;
    sessions_distinct = v.sessions_distinct;
    sessions_keyed = v.sessions_keyed;
  }

  put_new-IsRestorable :
      (s : StoreState Bytes) (metadata : Metadata) (bytes : Bytes) {t : StoreState Bytes}
      → metadata.size ≡ len bytes
      → IsRestorable s
      → put_new c s metadata bytes ≡ ok t
      → IsRestorable t
  unfolding put_new
  put_new-IsRestorable s metadata bytes {t} size v h =
      elim (Option-cases (lookup metadata.object s.blob_files)) [
        | inl absent ↦ subst IsRestorable (ground arith) (
            add_blob-IsRestorable s metadata bytes (s.used + metadata.size)
              (insert metadata.object metadata s.snapshots) size absent refl v)
        | inr (b, e) ↦ absurd (ground arith)
      ]

  put_existing-same :
      (s : StoreState Bytes) (metadata existing : Metadata) (bytes : Bytes) {t : StoreState Bytes}
      → put_existing c s metadata bytes existing ≡ ok t
      → t ≡ s
  unfolding put_existing
  put_existing-same s metadata existing bytes h = ground arith

  put-IsRestorable :
      (s : StoreState Bytes) (metadata : Metadata) (bytes : Bytes) {t : StoreState Bytes}
      → metadata.size ≡ len bytes
      → IsRestorable s
      → put c s metadata bytes ≡ ok t
      → IsRestorable t
  unfolding put
  put-IsRestorable s metadata bytes {t} size v h =
      elim (Option-cases (lookup metadata.object s.snapshots)) [
        | inl absent ↦ put_new-IsRestorable s metadata bytes size v (rw (absent, put) at h)
        | inr (existing, e) ↦ rw (put_existing-same s metadata existing bytes (rw (e, put) at h)) v
      ]

  -- Metadata that mirror the blob files.
  abbrev IsMirrored : StoreState Bytes → Type 0
  IsMirrored s = (o : Text) → blob_metadata (lookup o s.blob_files) ≡ lookup o s.snapshots

  remove_object-IsRestorable :
      (s : StoreState Bytes) (object : Text) {t : StoreState Bytes}
      → IsMirrored s
      → IsRestorable s
      → remove_object c s object ≡ ok t
      → IsRestorable t
  unfolding remove_object
  remove_object-IsRestorable s object {t} mirrored v h =
      elim (Option-cases (lookup object s.blob_files)) [
        | inl e ↦ absurd (ground arith)
        | inr (b, e) ↦
            let fewer = file_total-remove object s.blob_files v.blobs_distinct e in
            let m : lookup object s.snapshots ≡ some b.metadata = ground (arith, mirrored object) in
            record {
              blobs_distinct =
                  ground (arith, m, remove-IsDistinct object s.blob_files v.blobs_distinct);
              blobs_whole = ground (arith, m, remove-IsWhole object s.blob_files v.blobs_whole);
              counted = ground (arith, m, fewer, v.counted);
              streams_distinct = ground (arith, m, v.streams_distinct);
              streams_keyed = ground (arith, m, v.streams_keyed);
              sessions_distinct = ground (arith, m, v.sessions_distinct);
              sessions_keyed = ground (arith, m, v.sessions_keyed);
            }
      ]

  remove_all-IsRestorable :
      (objects : List Text) (s : StoreState Bytes) {t : StoreState Bytes}
      → IsValid c s
      → IsRestorable s
      → remove_all c objects s ≡ ok t
      → IsRestorable t
  unfolding remove_all
  remove_all-IsRestorable [] s valid v h = ground arith
  remove_all-IsRestorable (object ∷ objects) s valid v h =
      let (s', removed, rest) = >>=-eq-ok (remove_object c s object) (remove_all c objects) h in
      remove_all-IsRestorable objects s' (remove_object-IsValid c s object valid removed)
        (remove_object-IsRestorable s object valid.mirrored v removed) rest

  prune_to-IsRestorable :
      (s : StoreState Bytes) (prefix : Text) (latest : Option SnapshotRef) {t : StoreState Bytes}
      → IsValid c s
      → IsRestorable s
      → prune_to c s prefix latest ≡ ok t
      → IsRestorable t
  unfolding prune_to
  prune_to-IsRestorable s prefix none valid v h = ground arith
  prune_to-IsRestorable s prefix (some latest) valid v h = remove_all-IsRestorable _ s valid v h

  prune_stream-IsRestorable :
      (s : StoreState Bytes) (stored : StreamHead) {t : StoreState Bytes}
      → IsValid c s
      → IsRestorable s
      → prune_stream c s stored ≡ ok t
      → IsRestorable t
  unfolding prune_stream
  prune_stream-IsRestorable s stored valid v h =
      prune_to-IsRestorable s stored.stream.prefix stored.latest valid v h

  save_head-IsRestorable :
      (s : StoreState Bytes) (stored : StreamHead)
      → IsRestorable s
      → IsRestorable (save_head c s stored)
  unfolding save_head
  save_head-IsRestorable s stored v = record {
    blobs_distinct = v.blobs_distinct;
    blobs_whole = v.blobs_whole;
    counted = v.counted;
    streams_distinct =
        insert-IsDistinct stored.stream.prefix stored s.stream_files v.streams_distinct;
    streams_keyed = insert-IsKeyed stream_key stored s.stream_files v.streams_keyed;
    sessions_distinct = v.sessions_distinct;
    sessions_keyed = v.sessions_keyed;
  }

  save_session-IsRestorable :
      (s : StoreState Bytes) (stored : SessionHead)
      → IsRestorable s
      → IsRestorable (save_session c s stored)
  unfolding save_session
  save_session-IsRestorable s stored v = record {
    blobs_distinct = v.blobs_distinct;
    blobs_whole = v.blobs_whole;
    counted = v.counted;
    streams_distinct = v.streams_distinct;
    streams_keyed = v.streams_keyed;
    sessions_distinct = insert-IsDistinct stored.session stored s.session_files v.sessions_distinct;
    sessions_keyed = insert-IsKeyed session_key stored s.session_files v.sessions_keyed;
  }

  append-IsRestorable :
      (s : StoreState Bytes) (stream : ReplicaStream) (bytes : Bytes) {t : StoreState Bytes}
      → IsValid c s
      → IsRestorable s
      → append c s stream bytes ≡ ok t
      → IsRestorable t
  append-IsRestorable s stream bytes valid v h =
      let parts = append-parts c s stream bytes h in
      elim (append-cases c s stream bytes parts) [
        | inl advance ↦
            prune_stream-IsRestorable _ _
              (save_head-IsValid c advance.stored _
                (put-IsValid c s _ bytes refl valid advance.put_ok))
              (save_head-IsRestorable advance.stored _
                (put-IsRestorable s _ bytes refl v advance.put_ok))
              advance.pruned
        | inr repeat ↦ prune_stream-IsRestorable s parts.head valid v repeat.pruned
      ]

  serve-IsRestorable :
      (s : StoreState Bytes) (call : Call Bytes)
      → IsValid c s
      → IsRestorable s
      → IsRestorable (serve c s call)
  unfolding serve seal_session put_object
  serve-IsRestorable s (initialize session) valid v =
      elim (Result-cases (initialize_session c s session)) [
        | inl (t, e) ↦
            rw e (rw ((initialize_session-ok c s session e).1) (save_session-IsRestorable s _ v))
        | inr (_, e) ↦ rw e v
      ]
  serve-IsRestorable s (write stream bytes) valid v =
      elim (Result-cases (append c s stream bytes)) [
        | inl (t, e) ↦ rw e (append-IsRestorable s stream bytes valid v e)
        | inr (_, e) ↦ rw e v
      ]
  serve-IsRestorable s (head stream) valid v = v
  serve-IsRestorable s (seal session) valid v = save_session-IsRestorable s _ v
  serve-IsRestorable s (store object bytes) valid v =
      elim (Result-cases (put_object c s object bytes)) [
        | inl (t, e) ↦ rw e (put-IsRestorable s _ bytes refl v e)
        | inr (_, e) ↦ rw e v
      ]
  serve-IsRestorable s (fetch object) valid v = v

  pub serve_all-IsRestorable :
      (s : StoreState Bytes) (calls : List (Call Bytes))
      → IsValid c s
      → IsRestorable s
      → IsRestorable (serve_all c s calls)
  unfolding serve_all
  serve_all-IsRestorable s [] valid v = v
  serve_all-IsRestorable s (call ∷ calls) valid v =
      serve_all-IsRestorable (serve c s call) calls (serve-IsValid c s call valid)
        (serve-IsRestorable s call valid v)
