-- ===== src/Replica/Restarting.antt =====
-- A replica that is started again (src/replication/store.rs).
use little_actors.Prelude.{
  ◌<◌, ◌≡◌, ◌≤◌, refl, sym, ap, subst, ◌∙◌, Option, none, inl, List, [], ok, arith, if◌then◌else◌,
  ltb, true,
}
use little_actors.Prelude.Dict.{Dict, lookup, IsDistinct}
use little_actors.Prelude.Text.{Text, text_eq}
use little_actors.Naming.{u64_max}
use little_actors.Replica.{StreamHead}
use little_actors.Replica.Store.{StoreState, Metadata}
use little_actors.Replica.Store.Operations.{Call, serve_all}
use little_actors.Replica.Store.Restoring.{restore, reopen}
use little_actors.Replica.Accounting.{IsValid, blob_metadata, total}
use little_actors.Replica.Pruning.{
  Drops, is_superseded, refiled, prune_all-IsPruned, prune_all-refile,
}
use little_actors.Replica.Serving.{serve_all-IsValid}
use little_actors.Replica.Restorable.{IsRestorable, serve_all-IsRestorable}
use little_actors.Wire.{Codec}
use little_actors.Replica.Loading.{
  lookup-load_all, load_all-IsDistinct, load_all-total, metadata_of, loaded_store, read_files-loads,
  id_or_else, blob_or_else,
}

module _ (c : Codec) where
  open c use {Bytes, len}

  loaded_snapshots :
      (s : StoreState Bytes)
      → IsValid c s
      → IsRestorable c s
      → (o : Text) → lookup o (loaded_store c s).snapshots ≡ lookup o s.snapshots
  unfolding lookup
  loaded_snapshots s valid v o =
      lookup-load_all (metadata_of c) o s.blob_files [] v.blobs_distinct
      ∙ (blob_or_else c (lookup o s.blob_files) ∙ valid.mirrored o)

  -- The store that is read back, with its maps in place of the files of streams and sessions.
  abbrev mirrored_store : StoreState Bytes → StoreState Bytes
  mirrored_store s =
      refiled c (loaded_store c s).streams (loaded_store c s).sessions (loaded_store c s)

  mirrored_store-IsValid :
      (s : StoreState Bytes) → IsValid c s → IsRestorable c s → IsValid c (mirrored_store s)
  unfolding lookup total
  mirrored_store-IsValid s valid v = record {
    distinct = load_all-IsDistinct (metadata_of c) s.blob_files [] tt;
    counted = omega (arith, load_all-total s.blob_files [] v.blobs_distinct (λ k. inl refl));
    fits = omega (arith, v.counted, valid.fits);
    mirrored = λ o. valid.mirrored o ∙ sym (loaded_snapshots s valid v o);
    sized = valid.sized;
    streams_saved = refl;
    sessions_saved = refl;
  }

  -- A store that was opened again on what another has left: the same streams and sessions, of the
  -- snapshots and their files those that no stream supersedes, and its accounting.
  pub record IsReopened (s t : StoreState Bytes) : Type 0 where
    pub same_capacity : t.capacity ≡ s.capacity
    pub same_streams : (p : Text) → lookup p t.streams ≡ lookup p s.streams
    pub same_sessions : (n : Text) → lookup n t.sessions ≡ lookup n s.sessions
    pub same_files : (t.stream_files ≡ s.stream_files) × (t.session_files ≡ s.session_files)
    pub left : Drops c (is_superseded t.streams) s t
    pub distinct : IsDistinct t.snapshots
    pub counted : t.used ≡ total t.snapshots
    pub fits : t.used ≤ t.capacity
    pub mirrored : (o : Text) → blob_metadata (lookup o t.blob_files) ≡ lookup o t.snapshots

  restore-IsReopened :
      (s : StoreState Bytes)
      → IsValid c s
      → IsRestorable c s
      → s.used ≤ u64_max
      → (t : StoreState Bytes) × (restore c s ≡ ok t) × IsReopened s t
  unfolding restore lookup
  restore-IsReopened s valid v fits =
      let streams = (loaded_store c s).streams in
      let p = prune_all-IsPruned c streams (mirrored_store s) (mirrored_store-IsValid s valid v) in
      let t = refiled c s.stream_files s.session_files p.store in
      let same_heads = p.same_maps.streams in
      (
        t,
        rw (read_files-loads c s v fits) (
            prune_all-refile c s.stream_files s.session_files streams (mirrored_store s)
            ∙ rw p.pruned refl),
        record {
          same_capacity = p.same_maps.capacity;
          same_streams = λ k.
              ap (lookup k) same_heads
              ∙ lookup-load_all (λ stored. stored) k s.stream_files [] v.streams_distinct
              ∙ id_or_else c (lookup k s.stream_files)
              ∙ ap (lookup k) valid.streams_saved;
          same_sessions = λ n.
              ap (lookup n) p.same_maps.sessions
              ∙ lookup-load_all (λ stored. stored) n s.session_files [] v.sessions_distinct
              ∙ id_or_else c (lookup n s.session_files)
              ∙ ap (lookup n) valid.sessions_saved;
          same_files = (refl, refl);
          left = λ o.
              subst
                (λ (heads : Dict Text StreamHead).
                  (lookup o t.snapshots
                    ≡ (if is_superseded heads o then none else lookup o s.snapshots))
                  × (lookup o t.blob_files
                      ≡ (if is_superseded heads o then none else lookup o s.blob_files)))
                (sym same_heads)
                (
                  (p.drops o).0
                      ∙ ap (λ (m : Option Metadata). if is_superseded streams o then none else m)
                          (loaded_snapshots s valid v o),
                  (p.drops o).1,
                );
          distinct = p.valid.distinct;
          counted = p.valid.counted;
          fits = p.valid.fits;
          mirrored = p.valid.mirrored;
        },
      )

  -- A replica may stop after any calls. If its store was valid and its files fit to be read back,
  -- what it has stored is counted by 64 bits, and its capacity is not 0, then opening the directory
  -- again succeeds. The streams and the sessions are those of before; the snapshots and their files
  -- are those of before but for the objects that are not the head of a stream and stand under its
  -- prefix; and the accounting is that of the snapshots that are left.
  pub serve_all-restarts :
      (s : StoreState Bytes) (calls : List (Call Bytes))
      → IsValid c s
      → IsRestorable c s
      → (serve_all c s calls).used ≤ u64_max
      → 0 < (serve_all c s calls).capacity
      → (t : StoreState Bytes) × (reopen c (serve_all c s calls) ≡ ok t)
        × IsReopened (serve_all c s calls) t
  unfolding reopen
  serve_all-restarts s calls valid v fits capacity =
      let stopped = serve_all c s calls in
      let (t, restored, reopened) =
        restore-IsReopened stopped (serve_all-IsValid c s calls valid)
          (serve_all-IsRestorable c s calls valid v) fits in
      let positive : ltb 0 stopped.capacity ≡ true = ground arith in
      (t, rw positive restored, reopened)
