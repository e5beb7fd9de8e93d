-- ===== src/Replica/Loading.antt =====
-- Reading the directory of a replica's store (src/replication/store.rs).
use little_actors.Prelude.{
  ℕ, ◌⊎◌, ◌+◌, ◌≡◌, ◌≤◌, refl, sym, ap, subst, ◌∙◌, Option, none, some, Bool-cases, inl, inr, [],
  ◌∷◌, All, ok, ◌==◌, ==_iff, arith, le→leb, ==_refl, eqb_iff,
}
use little_actors.Prelude.Dict.{Dict, lookup, insert, lookup-insert, IsDistinct, insert-IsDistinct}
use little_actors.Prelude.Text.{Text, text_eq}
use little_actors.Naming.{u64_max}
use little_actors.Replica.{StreamHead, SessionHead}
use little_actors.Replica.Store.{StoreState, Metadata, Blob}
use little_actors.Replica.Store.Restoring.{
  restore_blobs, restore_streams, restore_sessions, closed, read_files,
}
use little_actors.Replica.Accounting.{blob_metadata, total, total-insert}
use little_actors.Replica.Restorable.{
  IsRestorable, IsWhole, IsKeyed, stream_key, session_key, file_total,
}
use little_actors.Wire.{Codec}

-- The map that a loop of insertions makes of files.
unfoldable pub load_all : {V W : Type 0} → (V → W) → Dict Text V → Dict Text W → Dict Text W
load_all f [] m = m
load_all f ((k, v) ∷ files) m = load_all f files (insert k (f v) m)

abbrev pub or_else : {V W : Type 0} → (V → W) → Option V → Option W → Option W
or_else f none w = w
or_else f (some v) w = some (f v)

pub lookup-load_all :
    {V W : Type 0} (f : V → W) (k : Text) (files : Dict Text V) (m : Dict Text W)
    → IsDistinct files
    → lookup k (load_all f files m) ≡ or_else f (lookup k files) (lookup k m)
unfolding load_all lookup
lookup-load_all f k [] m d = refl
lookup-load_all f k ((j, v) ∷ files) m d =
    lookup-load_all f k files (insert j (f v) m) d.1
    ∙ (ap (or_else f (lookup k files)) (lookup-insert k j (f v) m) ∙ elim (Bool-cases (j == k)) [
      | inl same ↦ rw same (
          ap (λ o. or_else f o (some (f v)))
            (subst (λ x. lookup x files ≡ none) ((==_iff j k).0 same) d.0))
      | inr other ↦ rw other refl
    ])

pub load_all-IsDistinct :
    {V W : Type 0} (f : V → W) (files : Dict Text V) (m : Dict Text W)
    → IsDistinct m
    → IsDistinct (load_all f files m)
unfolding load_all
load_all-IsDistinct f [] m d = d
load_all-IsDistinct f ((k, v) ∷ files) m d =
    load_all-IsDistinct f files (insert k (f v) m) (insert-IsDistinct k (f v) m d)

-- The files and the map have no key in common.
abbrev pub IsApart : {V W : Type 0} → Dict Text V → Dict Text W → Type 0
IsApart files m = (k : Text) → (lookup k m ≡ none) ⊎ (lookup k files ≡ none)

load_one-IsApart :
    {V W : Type 0} (j : Text) (v : V) (w : W) (files : Dict Text V) (m : Dict Text W)
    → lookup j files ≡ none
    → IsApart ((j, v) ∷ files) m
    → IsApart files (insert j w m)
unfolding lookup
load_one-IsApart j v w files m d apart k = elim (Bool-cases (j == k)) [
  | inl same ↦ inr (subst (λ x. lookup x files ≡ none) ((==_iff j k).0 same) d)
  | inr other ↦ elim (apart k) [
    | inl absent ↦ inl (lookup-insert k j w m ∙ rw other absent)
    | inr absent ↦ inr (rw other at absent)
  ]
]

first_absent :
    {V W : Type 0} (j : Text) (v : V) (files : Dict Text V) (m : Dict Text W)
    → IsApart ((j, v) ∷ files) m
    → lookup j m ≡ none
unfolding lookup
first_absent j v files m apart = elim (apart j) [
  | inl absent ↦ absent
  | inr absent ↦ absurd (let h = rw (==_refl j) at absent in cc)
]

pub load_all-total :
    {B : Type 0} (files : Dict Text (Blob B)) (m : Dict Text Metadata)
    → IsDistinct files
    → IsApart files m
    → total (load_all (λ (blob : Blob B). blob.metadata) files m) ≡ file_total files + total m
unfolding load_all file_total
load_all-total [] m d apart = omega arith
load_all-total ((j, blob) ∷ files) m (absent, d) apart =
    let rest =
      load_all-total files (insert j blob.metadata m) d
        (load_one-IsApart j blob blob.metadata files m absent apart) in
    let one = total-insert j blob.metadata m (first_absent j blob files m apart) in
    omega (arith, rest, one)

module _ (c : Codec) where
  open c use {Bytes, len}

  abbrev pub metadata_of : Blob Bytes → Metadata
  metadata_of blob = blob.metadata

  -- Reading the blob files.
  abbrev LoadsBlobs : Dict Text (Blob Bytes) → StoreState Bytes → Type 0
  LoadsBlobs files s =
      restore_blobs c files s
      ≡ ok (record s {
        used = s.used + file_total files;
        snapshots = load_all metadata_of files s.snapshots;
      })

  restore_blob-LoadsBlobs :
      (blob : Blob Bytes) (files : Dict Text (Blob Bytes)) (s : StoreState Bytes)
      → blob.metadata.size ≡ len blob.bytes
      → s.used + blob.metadata.size ≤ u64_max
      → LoadsBlobs files (record s {
        used = s.used + blob.metadata.size;
        snapshots = insert blob.metadata.object blob.metadata s.snapshots;
      })
      → LoadsBlobs ((blob.metadata.object, blob) ∷ files) s
  unfolding restore_blobs file_total load_all
  restore_blob-LoadsBlobs blob files s z fits rest = rw (==_refl blob.metadata.object) (
      rw ((eqb_iff (len blob.bytes) blob.metadata.size).1 (sym z)) (
        rw (le→leb (s.used + blob.metadata.size) u64_max fits) (
          rest
          ∙ ap
              (λ (n : ℕ). ok (record s {
                used = n;
                snapshots =
                    load_all metadata_of files
                      (insert blob.metadata.object blob.metadata s.snapshots);
              }))
              (let sum : s.used + blob.metadata.size + file_total files
                    ≡ s.used + (blob.metadata.size + file_total files) =
                  omega arith in
                sum))))

  restore_blobs-LoadsBlobs :
      (files : Dict Text (Blob Bytes)) (s : StoreState Bytes)
      → All (IsWhole c) files
      → s.used + file_total files ≤ u64_max
      → LoadsBlobs files s
  unfolding restore_blobs file_total load_all
  restore_blobs-LoadsBlobs [] s w fits = ap (λ (n : ℕ). ok (record s { used = n })) (omega arith)
  restore_blobs-LoadsBlobs ((k, blob) ∷ files) s ((e, z), w) fits =
      subst (λ (j : Text). LoadsBlobs ((j, blob) ∷ files) s) (sym e)
        (restore_blob-LoadsBlobs blob files s z (omega (arith, fits))
          (restore_blobs-LoadsBlobs files _ w (omega (arith, fits))))

  restore_streams-loads :
      (files : Dict Text StreamHead) (s : StoreState Bytes)
      → IsKeyed stream_key files
      → restore_streams c files s
        ≡ ok (record s { streams = load_all (λ stored. stored) files s.streams })
  unfolding restore_streams load_all
  restore_streams-loads [] s w = refl
  restore_streams-loads ((k, stored) ∷ files) s (e, w) = rw ((==_iff k stored.stream.prefix).1 e) (
      restore_streams-loads files
        (record s { streams = insert stored.stream.prefix stored s.streams }) w
      ∙ ap
          (λ (j : Text). ok (record s {
            streams = load_all (λ (v : StreamHead). v) files (insert j stored s.streams);
          }))
          (sym e))

  restore_sessions-loads :
      (files : Dict Text SessionHead) (s : StoreState Bytes)
      → IsKeyed session_key files
      → restore_sessions c files s
        ≡ ok (record s { sessions = load_all (λ stored. stored) files s.sessions })
  unfolding restore_sessions load_all
  restore_sessions-loads [] s w = refl
  restore_sessions-loads ((k, stored) ∷ files) s (e, w) = rw ((==_iff k stored.session).1 e) (
      restore_sessions-loads files (record s { sessions = insert stored.session stored s.sessions })
        w
      ∙ ap
          (λ (j : Text). ok (record s {
            sessions = load_all (λ (v : SessionHead). v) files (insert j stored s.sessions);
          }))
          (sym e))

  -- The store that is read back.
  abbrev pub loaded_store : StoreState Bytes → StoreState Bytes
  loaded_store s = record s {
    used = 0 + file_total s.blob_files;
    snapshots = load_all metadata_of s.blob_files [];
    streams = load_all (λ stored. stored) s.stream_files [];
    sessions = load_all (λ stored. stored) s.session_files [];
  }

  pub read_files-loads :
      (s : StoreState Bytes)
      → IsRestorable c s
      → s.used ≤ u64_max
      → read_files c s ≡ ok (loaded_store s)
  unfolding read_files closed
  read_files-loads s v fits =
      rw
        (restore_blobs-LoadsBlobs s.blob_files (closed c s) v.blobs_whole
          (omega (arith, fits, v.counted)))
        (rw (restore_streams-loads s.stream_files _ v.streams_keyed)
          (restore_sessions-loads s.session_files _ v.sessions_keyed))

  pub id_or_else : {V : Type 0} (o : Option V) → or_else (λ v. v) o none ≡ o
  id_or_else none = refl
  id_or_else (some v) = refl

  pub blob_or_else : (o : Option (Blob Bytes)) → or_else metadata_of o none ≡ blob_metadata o
  blob_or_else none = refl
  blob_or_else (some b) = refl
