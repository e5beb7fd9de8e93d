-- ===== src/Replica/Acceptance.antt =====
-- Writes that a replica must accept (src/replication/store.rs).
use little_actors.Prelude.{
  ◌+◌, ◌-◌, ◌≤◌, Bool, true, false, ◌≡◌, refl, ◌∙◌, Option, none, some, Option-cases, Bool-cases,
  inl, inr, List, [], ◌∷◌, ok, ◌==◌, ==_iff, ==_refl, subst, sym, arith,
}
use little_actors.Prelude.Dict.{
  Dict, lookup, remove, insert, lookup-remove, IsDistinct, remove-absent,
}
use little_actors.Prelude.Text.{Text, text_eq}
use little_actors.Naming.{u64_max}
use little_actors.Replica.{ReplicaStream, SnapshotRef, StreamHead}
use little_actors.Replica.Steps.{IsOlder}
use little_actors.Replica.Accounting.{
  IsValid, remove_object-IsValid, put-IsValid, save_head-IsValid,
}
use little_actors.Replica.Store.{
  StoreState, Metadata, stream_snapshot, put, put_new, head_of, session_of, save_head,
  remove_object, remove_all, prune_to, prune_stream, keys_where,
}
use little_actors.Replica.Store.Operations.{append, append_after, append_new}
use little_actors.Wire.{Codec}

abbrev IsPresent {ℓ} : {A : Type ℓ} → Option A → Type 0
IsPresent none = ⊥
IsPresent (some a) = Unit

-- Each key is there when its turn to be removed comes.
abbrev CanRemove : List Text → Dict Text Metadata → Type 0
CanRemove [] m = Unit
CanRemove (k ∷ ks) m = IsPresent (lookup k m) × CanRemove ks (remove k m)

CanRemove-cons :
    (ks : List Text) (k : Text) (v : Metadata) (m : Dict Text Metadata)
    → lookup k m ≡ none
    → CanRemove ks m
    → CanRemove ks ((k, v) ∷ m)
unfolding lookup remove
CanRemove-cons [] k v m h r = tt
CanRemove-cons (j ∷ ks) k v m h r = elim (Bool-cases (k == j)) [
  | inl same ↦ absurd (ground (arith, ==_iff k j))
  | inr other ↦
      rw other (r.0, CanRemove-cons ks k v (remove j m) (ground (arith, lookup-remove k j m)) r.1)
]

-- The first key is there, and removing it leaves the rest.
head_present :
    (k : Text) (v : Metadata) (m : Dict Text Metadata) (ks : List Text)
    → lookup k m ≡ none
    → CanRemove ks m
    → CanRemove (k ∷ ks) ((k, v) ∷ m)
unfolding lookup remove
head_present k v m ks h r = rw (==_refl k) (tt, subst (CanRemove ks) (sym (remove-absent k m h)) r)

CanRemove-keys_where :
    (p : Text → Bool) (m : Dict Text Metadata) → IsDistinct m → CanRemove (keys_where p m) m
unfolding keys_where
CanRemove-keys_where p [] d = tt
CanRemove-keys_where p ((k, v) ∷ m) d = elim (Bool-cases (p k)) [
  | inl listed ↦ rw listed (head_present k v m (keys_where p m) d.0 (CanRemove-keys_where p m d.1))
  | inr skipped ↦
      rw skipped (CanRemove-cons (keys_where p m) k v m d.0 (CanRemove-keys_where p m d.1))
]

module _ (c : Codec) where
  open c use {Bytes, len}

  remove_object-total :
      (s : StoreState Bytes) (object : Text)
      → IsValid c s
      → IsPresent (lookup object s.snapshots)
      → (t : StoreState Bytes) × (remove_object c s object ≡ ok t)
        × (t.snapshots ≡ remove object s.snapshots)
  unfolding remove_object
  remove_object-total s object v h = elim (Option-cases (lookup object s.snapshots)) [
    | inl e ↦ absurd (rw e at h)
    | inr (m, e) ↦ elim (Option-cases (lookup object s.blob_files)) [
      | inl f ↦ absurd (ground (arith, v.mirrored object))
      | inr (b, f) ↦ (
        record s {
          used = s.used - m.size;
          snapshots = remove object s.snapshots;
          blob_files = remove object s.blob_files;
        },
        ground (arith, e, f),
        refl,
      )
    ]
  ]

  remove_all-total :
      (objects : List Text) (s : StoreState Bytes)
      → IsValid c s
      → CanRemove objects s.snapshots
      → (t : StoreState Bytes) × (remove_all c objects s ≡ ok t)
  unfolding remove_all
  remove_all-total [] s v h = (s, refl)
  remove_all-total (object ∷ objects) s v h =
      let (s', removed, left) = remove_object-total s object v h.0 in
      let (t, rest) =
        remove_all-total objects s' (remove_object-IsValid c s object v removed) (rw left h.1) in
      (t, rw removed rest)

  prune_to-total :
      (s : StoreState Bytes) (prefix : Text) (latest : Option SnapshotRef)
      → IsValid c s
      → (t : StoreState Bytes) × (prune_to c s prefix latest ≡ ok t)
  unfolding prune_to
  prune_to-total s prefix none v = (s, refl)
  prune_to-total s prefix (some latest) v =
      remove_all-total _ s v (CanRemove-keys_where _ s.snapshots v.distinct)

  pub prune_stream-total :
      (s : StoreState Bytes) (head : StreamHead)
      → IsValid c s
      → (t : StoreState Bytes) × (prune_stream c s head ≡ ok t)
  unfolding prune_stream
  prune_stream-total s head v = prune_to-total s head.stream.prefix head.latest v

  put_new-total :
      (s : StoreState Bytes) (metadata : Metadata) (bytes : Bytes)
      → IsValid c s
      → lookup metadata.object s.snapshots ≡ none
      → s.used + metadata.size ≤ s.capacity
      → s.capacity ≤ u64_max
      → (t : StoreState Bytes) × (put c s metadata bytes ≡ ok t)
  unfolding put put_new
  put_new-total s metadata bytes v absent fits bound = (
    record s {
      used = s.used + metadata.size;
      snapshots = insert metadata.object metadata s.snapshots;
      blob_files =
          insert metadata.object (record { metadata = metadata; bytes = bytes }) s.blob_files;
    },
    ground (arith, absent, v.mirrored metadata.object),
  )

  append_new-total :
      (s : StoreState Bytes) (head : StreamHead) (snapshot : SnapshotRef) (bytes : Bytes)
      → IsValid c s
      → lookup snapshot.object s.snapshots ≡ none
      → s.used + len bytes ≤ s.capacity
      → s.capacity ≤ u64_max
      → (t : StoreState Bytes) × (append_new c s head snapshot bytes ≡ ok t)
  unfolding append_new
  append_new-total s head snapshot bytes v absent fits bound =
      let (stored, e) =
        put_new-total s (record { object = snapshot.object; size = len bytes }) bytes v absent fits
          bound in
      let head' : StreamHead = record head { latest = some snapshot } in
      let (t, pruned) =
        prune_stream-total (save_head c stored head') head'
          (save_head-IsValid c stored head' (put-IsValid c s _ bytes refl v e)) in
      (t, rw e pruned)

  append_after-new :
      (s : StoreState Bytes) (head : StreamHead) (snapshot : SnapshotRef) (bytes : Bytes)
      (latest : Option SnapshotRef)
      → IsOlder latest snapshot.state_version
      → append_after c s head snapshot bytes latest ≡ append_new c s head snapshot bytes
  unfolding append_after
  append_after-new s head snapshot bytes none older = refl
  append_after-new s head snapshot bytes (some latest) older = ground arith

  -- In a valid store with a capacity of at most `u64::MAX`, an `append` is accepted if its session is
  -- initialised and not sealed, the stream is the one stored under its prefix, the bytes decode to a
  -- snapshot of the stream that is newer than the head and not stored yet, and they fit.
  pub append-total :
      (s : StoreState Bytes) (stream : ReplicaStream) (bytes : Bytes) (head : StreamHead)
      (snapshot : SnapshotRef)
      → IsValid c s
      → s.capacity ≤ u64_max
      → (session_of c s stream.session).initialized ≡ true
      → (session_of c s stream.session).sealed ≡ false
      → head_of c s stream ≡ ok head
      → stream_snapshot c stream bytes ≡ ok snapshot
      → IsOlder head.latest snapshot.state_version
      → lookup snapshot.object s.snapshots ≡ none
      → s.used + len bytes ≤ s.capacity
      → (t : StoreState Bytes) × (append c s stream bytes ≡ ok t)
  unfolding append
  append-total s stream bytes head snapshot v bound live unsealed found named older absent fits =
      let (t, e) = append_new-total s head snapshot bytes v absent fits bound in
      (
        t,
        rw (found, live, unsealed, named)
            (append_after-new s head snapshot bytes head.latest older ∙ e),
      )
