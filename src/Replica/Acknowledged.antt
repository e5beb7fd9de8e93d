-- ===== src/Replica/Acknowledged.antt =====
-- The store after an acknowledged `append` (src/replication/store.rs).
use little_actors.Prelude.{
  Bool, true, false, ◌≡◌, ◌≢◌, refl, ap, ◌∙◌, none, some, Option-cases, inl, inr, List, [], ◌∷◌, ok,
  >>=-eq-ok, ◌==◌, ==_iff, ==_refl, any, eqb_iff, arith, if◌then◌else◌, Bool-cases,
}
use little_actors.Prelude.Dict.{Dict, lookup, lookup-insert, lookup-remove}
use little_actors.Prelude.Text.{Text, text_eq, starts_with}
use little_actors.Replica.{ReplicaStream, SnapshotRef, StreamHead}
use little_actors.Replica.Identity.{stream_beq_iff}
use little_actors.Replica.Frame.{prune_stream-SameMaps, append-parts}
use little_actors.Replica.Steps.{append-cases, head_of-cases}
use little_actors.Replica.Accounting.{IsValid, put-IsValid, save_head-IsValid, prune_stream-IsValid}
use little_actors.Replica.Store.{
  StoreState, Metadata, Blob, stream_snapshot, put, put_new, put_existing, read_blob, head_of,
  head_or_new, remove_object, remove_all, prune_to, prune_stream, keys_where, is_obsolete,
  save_head,
}
use little_actors.Replica.Store.Operations.{append, read, read_found}
use little_actors.Wire.{Codec}

abbrev pub has : Text → List Text → Bool
has o = any (λ k. k == o)

-- A key that is not listed fails the test or is absent.
pub keys_where-has {ℓ} :
    {V : Type ℓ} (p : Text → Bool) (m : Dict Text V) (o : Text)
    → p o ≡ true
    → has o (keys_where p m) ≡ false
    → lookup o m ≡ none
unfolding keys_where lookup
keys_where-has p [] o h k = refl
keys_where-has p ((j, v) ∷ m) o h k = ground (arith, ==_iff j o, keys_where-has p m o)

pub keys_where-false {ℓ} :
    {V : Type ℓ} (p : Text → Bool) (m : Dict Text V) (o : Text)
    → p o ≡ false
    → has o (keys_where p m) ≡ false
unfolding keys_where
keys_where-false p [] o h = refl
keys_where-false p ((j, v) ∷ m) o h = ground (arith, ==_iff j o, keys_where-false p m o)

-- No key passes a test if no key that passes it is present.
keys_where-nil {ℓ} :
    {V : Type ℓ} (p : Text → Bool) (m : Dict Text V)
    → ((o : Text) → p o ≡ true → lookup o m ≡ none)
    → keys_where p m ≡ []
unfolding keys_where lookup
keys_where-nil p [] h = refl
keys_where-nil p ((j, v) ∷ m) h = elim (Bool-cases (p j)) [
  | inl passes ↦ absurd (ground (arith, h j passes, ==_refl j))
  | inr fails ↦ rw fails (keys_where-nil p m (λ o e. ground (arith, h o e, ==_iff j o)))
]

module _ (c : Codec) where
  open c use {Bytes, bytes_eq, len}

  remove_object-lookup :
      (s : StoreState Bytes) (object o : Text) {t : StoreState Bytes}
      → remove_object c s object ≡ ok t
      → (lookup o t.snapshots ≡ (if object == o then none else lookup o s.snapshots))
        × (lookup o t.blob_files ≡ (if object == o then none else lookup o s.blob_files))
  unfolding remove_object
  remove_object-lookup s object o h = (
    ground (arith, lookup-remove o object s.snapshots),
    ground (arith, lookup-remove o object s.blob_files),
  )

  pub remove_all-lookup :
      (objects : List Text) (s : StoreState Bytes) (o : Text) {t : StoreState Bytes}
      → remove_all c objects s ≡ ok t
      → (lookup o t.snapshots ≡ (if has o objects then none else lookup o s.snapshots))
        × (lookup o t.blob_files ≡ (if has o objects then none else lookup o s.blob_files))
  unfolding remove_all
  remove_all-lookup [] s o h = ground arith
  remove_all-lookup (object ∷ objects) s o h =
      let (s', removed, rest) = >>=-eq-ok (remove_object c s object) (remove_all c objects) h in
      let one = remove_object-lookup s object o removed in
      let more = remove_all-lookup objects s' o rest in
      (ground (arith, one.0, more.0), ground (arith, one.1, more.1))

  -- After pruning to a snapshot, what starts with the prefix is the snapshot alone.
  prune_to-lookup :
      (s : StoreState Bytes) (prefix : Text) (latest : SnapshotRef) (o : Text)
      {t : StoreState Bytes}
      → prune_to c s prefix (some latest) ≡ ok t
      → (starts_with prefix o ≡ true → o ≢ latest.object → lookup o t.snapshots ≡ none)
        × (lookup latest.object t.snapshots ≡ lookup latest.object s.snapshots)
        × (lookup latest.object t.blob_files ≡ lookup latest.object s.blob_files)
  unfolding prune_to
  prune_to-lookup s prefix latest o h =
      let obsolete = is_obsolete prefix latest.object in
      let removed = λ (k : Text). remove_all-lookup (keys_where obsolete s.snapshots) s k h in
      let kept =
        keys_where-false obsolete s.snapshots latest.object
          (ground (arith, ==_refl latest.object)) in
      (
        λ starts other. ground (
          arith,
          (removed o).0,
          keys_where-has obsolete s.snapshots o (ground (arith, ==_iff o latest.object)),
        ),
        ground (arith, (removed latest.object).0, kept),
        ground (arith, (removed latest.object).1, kept),
      )

  read-stored :
      (s : StoreState Bytes) (o : Text) (b : Blob Bytes)
      → IsValid c s
      → lookup o s.blob_files ≡ some b
      → read c s o ≡ ok (some b.bytes)
  unfolding read read_found read_blob
  read-stored s o b v h =
      ground (arith, v.mirrored o, v.sized o b, eqb_iff (len b.bytes) b.metadata.size)

  put_new-stored :
      (s : StoreState Bytes) (metadata : Metadata) (bytes : Bytes) {t : StoreState Bytes}
      → put_new c s metadata bytes ≡ ok t
      → lookup metadata.object t.blob_files ≡ some (record { metadata = metadata; bytes = bytes })
  unfolding put_new
  put_new-stored s metadata bytes h = ground (
    arith,
    lookup-insert metadata.object metadata.object
        (let b : Blob Bytes = record { metadata = metadata; bytes = bytes } in b) s.blob_files,
    ==_refl metadata.object,
  )

  put_existing-stored :
      (s : StoreState Bytes) (metadata existing : Metadata) (bytes : Bytes) {t : StoreState Bytes}
      → put_existing c s metadata bytes existing ≡ ok t
      → (b : Blob Bytes) × (lookup metadata.object t.blob_files ≡ some b) × (b.bytes ≡ bytes)
  unfolding put_existing read_blob
  put_existing-stored s metadata existing bytes h =
      elim (Option-cases (lookup metadata.object s.blob_files)) [
        | inl e ↦ absurd (ground arith)
        | inr (b, e) ↦ (b, ground arith, ground (arith, bytes_eq.beq_correct b.bytes bytes))
      ]

  -- What `put` leaves under its object has the bytes that were put.
  put-stored :
      (s : StoreState Bytes) (metadata : Metadata) (bytes : Bytes) {t : StoreState Bytes}
      → put c s metadata bytes ≡ ok t
      → (b : Blob Bytes) × (lookup metadata.object t.blob_files ≡ some b) × (b.bytes ≡ bytes)
  unfolding put
  put-stored s metadata bytes h = elim (Option-cases (lookup metadata.object s.snapshots)) [
    | inl absent ↦ (
      record { metadata = metadata; bytes = bytes },
      put_new-stored s metadata bytes (rw (absent, put) at h),
      refl,
    )
    | inr (existing, e) ↦ put_existing-stored s metadata existing bytes (rw (e, put) at h)
  ]

  -- The bytes of the snapshot that an `append` stored are what a read of its object returns, and no
  -- other object under the stream's prefix is left.
  pub record IsAcknowledged (t : StoreState Bytes) (stream : ReplicaStream) (snapshot : SnapshotRef)
      (bytes : Bytes) : Type 0 where
    pub at_head : head_of c t stream ≡ ok (record { stream = stream; latest = some snapshot })
    pub readable : read c t snapshot.object ≡ ok (some bytes)
    pub alone : keys_where (is_obsolete stream.prefix snapshot.object) t.snapshots ≡ []

  prune_stream-lookup :
      (s : StoreState Bytes) (stream : ReplicaStream) (latest : SnapshotRef) (o : Text)
      {t : StoreState Bytes}
      → prune_stream c s (record { stream = stream; latest = some latest }) ≡ ok t
      → (starts_with stream.prefix o ≡ true → o ≢ latest.object → lookup o t.snapshots ≡ none)
        × (lookup latest.object t.snapshots ≡ lookup latest.object s.snapshots)
        × (lookup latest.object t.blob_files ≡ lookup latest.object s.blob_files)
  unfolding prune_stream
  prune_stream-lookup s stream latest o h = prune_to-lookup s stream.prefix latest o h

  head_of-stored :
      (t : StoreState Bytes) (stream : ReplicaStream) (h : StreamHead)
      → lookup stream.prefix t.streams ≡ some h
      → h.stream ≡ stream
      → head_of c t stream ≡ ok h
  unfolding head_of head_or_new
  head_of-stored t stream h e own = ground (arith, stream_beq_iff h.stream stream)

  advance-IsAcknowledged :
      (s stored : StoreState Bytes) (stream : ReplicaStream) (snapshot : SnapshotRef)
      (bytes : Bytes) {t : StoreState Bytes}
      → IsValid c s
      → put c s (record { object = snapshot.object; size = len bytes }) bytes ≡ ok stored
      → prune_stream c
          (save_head c stored (record { stream = stream; latest = some snapshot }))
          (record { stream = stream; latest = some snapshot })
        ≡ ok t
      → IsAcknowledged t stream snapshot bytes
  unfolding save_head
  advance-IsAcknowledged s stored stream snapshot bytes {t} v h pruned =
      let head : StreamHead = record { stream = stream; latest = some snapshot } in
      let saved = save_head c stored head in
      let (b, found, same) =
        put-stored s (record { object = snapshot.object; size = len bytes }) bytes h in
      let left = prune_stream-lookup saved stream snapshot snapshot.object pruned in
      let w =
        prune_stream-IsValid c saved head
          (save_head-IsValid c stored head (put-IsValid c s _ bytes refl v h)) pruned in
      record {
        at_head =
            head_of-stored t stream head
              (ap (lookup stream.prefix) ((prune_stream-SameMaps c saved head pruned).streams)
                ∙ lookup-insert stream.prefix stream.prefix head stored.streams
                ∙ rw (==_refl stream.prefix))
              refl;
        readable = read-stored t snapshot.object b w (left.2 ∙ found) ∙ ap (λ x. ok (some x)) same;
        alone = keys_where-nil (is_obsolete stream.prefix snapshot.object) t.snapshots (λ o h.
            (prune_stream-lookup saved stream snapshot o pruned).0 (ground arith)
              (λ e. ground (arith, ==_iff o snapshot.object)));
      }

  -- If an `append` to a valid store succeeds and the snapshot was not the stream's head already,
  -- then the snapshot is the head of the stream, a read of its object returns the bytes that were
  -- appended, and no other object under the stream's prefix is left in the store.
  pub append-IsAcknowledged :
      (s : StoreState Bytes) (stream : ReplicaStream) (bytes : Bytes) (head : StreamHead)
      (snapshot : SnapshotRef) (t : StoreState Bytes)
      → IsValid c s
      → head_of c s stream ≡ ok head
      → stream_snapshot c stream bytes ≡ ok snapshot
      → head.latest ≢ some snapshot
      → append c s stream bytes ≡ ok t
      → IsAcknowledged t stream snapshot bytes
  append-IsAcknowledged s stream bytes head snapshot t v found named fresh h =
      let parts = append-parts c s stream bytes h in
      let own = (head_of-cases c s stream parts.found).0 in
      let same_head : parts.head ≡ head = ground (arith, parts.found) in
      let same : parts.snapshot ≡ snapshot = ground (arith, parts.named) in
      elim (append-cases c s stream bytes parts) [
        | inl advance ↦
            advance-IsAcknowledged s advance.stored stream snapshot bytes v
              (rw same at advance.put_ok) (rw (same, own) at advance.pruned)
        | inr repeat ↦ absurd (fresh (cc (repeat.same, same, same_head)))
      ]
