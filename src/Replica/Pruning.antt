-- ===== src/Replica/Pruning.antt =====
-- The streams that are pruned when a replica is started again (src/replication/store.rs).
use little_actors.Prelude.{
  ◌≡◌, refl, ap, sym, ◌∙◌, Bool, true, false, ◌||◌, Option, none, some, Option-cases, Result-cases,
  inl, inr, List, [], ◌∷◌, Result, ok, err, ok-injective, if◌then◌else◌,
}
use little_actors.Prelude.Dict.{Dict, lookup}
use little_actors.Prelude.Text.{Text, text_eq}
use little_actors.Replica.{StreamHead, SessionHead, SnapshotRef}
use little_actors.Replica.Store.{
  StoreState, Blob, keys_where, is_obsolete, remove_object, remove_all, prune_to, prune_stream,
}
use little_actors.Replica.Store.Restoring.{prune_all}
use little_actors.Replica.Frame.{SameMaps, SameMaps-refl, SameMaps-trans, prune_stream-SameMaps}
use little_actors.Replica.Accounting.{IsValid, blob_metadata, prune_stream-IsValid}
use little_actors.Replica.Acknowledged.{has, keys_where-has, keys_where-false, remove_all-lookup}
use little_actors.Replica.Acceptance.{prune_stream-total}
use little_actors.Wire.{Codec}

-- An object is older than the head of a stream.
abbrev pub is_dropped : Text → Option SnapshotRef → Text → Bool
is_dropped prefix none o = false
is_dropped prefix (some latest) o = is_obsolete prefix latest.object o

-- An object is older than the head of one of the streams.
unfoldable pub is_superseded : Dict Text StreamHead → Text → Bool
is_superseded [] o = false
is_superseded ((name, stored) ∷ streams) o =
    is_dropped stored.stream.prefix stored.latest o || is_superseded streams o

abbrev dropping : {A : Type 0} → Bool → Option A → Option A
dropping dropped a = if dropped then none else a

dropping-twice :
    {A : Type 0} (p q : Bool) (a : Option A) → dropping q (dropping p a) ≡ dropping (p || q) a
dropping-twice true true a = refl
dropping-twice true false a = refl
dropping-twice false q a = refl

module _ (c : Codec) where
  open c use {Bytes}

  -- What is left of a store, object by object.
  abbrev pub Drops : (Text → Bool) → StoreState Bytes → StoreState Bytes → Type 0
  Drops dropped s t =
      (o : Text)
      → (lookup o t.snapshots ≡ dropping (dropped o) (lookup o s.snapshots))
        × (lookup o t.blob_files ≡ dropping (dropped o) (lookup o s.blob_files))

  -- A file without metadata is not there.
  absent_file : (b : Option (Blob Bytes)) → blob_metadata b ≡ none → b ≡ none
  absent_file none h = refl
  absent_file (some b) h = absurd cc

  removed-dropped :
      {A : Type 0} (dropped listed : Bool) (x a : Option A)
      → x ≡ dropping listed a
      → (dropped ≡ true → listed ≡ false → a ≡ none)
      → (dropped ≡ false → listed ≡ false)
      → x ≡ dropping dropped a
  removed-dropped true true x a e f g = e
  removed-dropped true false x a e f g = e ∙ f refl refl
  removed-dropped false true x a e f g = absurd (let h = g refl in cc)
  removed-dropped false false x a e f g = e

  prune_to-Drops :
      (s : StoreState Bytes) (prefix : Text) (latest : Option SnapshotRef) {t : StoreState Bytes}
      → IsValid c s
      → prune_to c s prefix latest ≡ ok t
      → Drops (is_dropped prefix latest) s t
  unfolding prune_to
  prune_to-Drops s prefix none v h o =
      let same = ok-injective (sym h) in
      (
        ap (λ (u : StoreState Bytes). lookup o u.snapshots) same,
        ap (λ (u : StoreState Bytes). lookup o u.blob_files) same,
      )
  prune_to-Drops s prefix (some latest) v h o =
      let test = is_obsolete prefix latest.object in
      let (snapshots, files) = remove_all-lookup c (keys_where test s.snapshots) s o h in
      let listed = has o (keys_where test s.snapshots) in
      (
        removed-dropped (test o) listed _ (lookup o s.snapshots) snapshots
            (keys_where-has test s.snapshots o) (keys_where-false test s.snapshots o),
        removed-dropped (test o) listed _ (lookup o s.blob_files) files
            (λ p q.
              absent_file (lookup o s.blob_files)
                (v.mirrored o ∙ keys_where-has test s.snapshots o p q))
            (keys_where-false test s.snapshots o),
      )

  prune_stream-Drops :
      (s : StoreState Bytes) (stored : StreamHead) {t : StoreState Bytes}
      → IsValid c s
      → prune_stream c s stored ≡ ok t
      → Drops (is_dropped stored.stream.prefix stored.latest) s t
  unfolding prune_stream
  prune_stream-Drops s stored v h = prune_to-Drops s stored.stream.prefix stored.latest v h

  -- Pruning all the streams of a valid store succeeds and leaves what no stream supersedes.
  pub record IsPruned (streams : Dict Text StreamHead) (s : StoreState Bytes) : Type 0 where
    pub store : StoreState Bytes
    pub pruned : prune_all c streams s ≡ ok store
    pub valid : IsValid c store
    pub same_maps : SameMaps s store
    pub drops : Drops (is_superseded streams) s store

  pub prune_all-IsPruned :
      (streams : Dict Text StreamHead) (s : StoreState Bytes) → IsValid c s → IsPruned streams s
  unfolding prune_all is_superseded
  prune_all-IsPruned [] s v = record {
    store = s;
    pruned = refl;
    valid = v;
    same_maps = SameMaps-refl c s;
    drops = λ o. (refl, refl);
  }
  prune_all-IsPruned ((name, stored) ∷ streams) s v =
      let (u, pruned) = prune_stream-total c s stored v in
      let rest = prune_all-IsPruned streams u (prune_stream-IsValid c s stored v pruned) in
      let first = prune_stream-Drops s stored v pruned in
      let dropped = is_dropped stored.stream.prefix stored.latest in
      record {
        store = rest.store;
        pruned = rw pruned rest.pruned;
        valid = rest.valid;
        same_maps = SameMaps-trans c (prune_stream-SameMaps c s stored pruned) rest.same_maps;
        drops = λ o. (
          (rest.drops o).0
              ∙ ap (dropping (is_superseded streams o)) ((first o).0)
              ∙ dropping-twice (dropped o) (is_superseded streams o) (lookup o s.snapshots),
          (rest.drops o).1
              ∙ ap (dropping (is_superseded streams o)) ((first o).1)
              ∙ dropping-twice (dropped o) (is_superseded streams o) (lookup o s.blob_files),
        );
      }

  module _ (streams : Dict Text StreamHead) (sessions : Dict Text SessionHead) where
    -- The same store with other files of streams and sessions, which pruning does not read.
    abbrev pub refiled : StoreState Bytes → StoreState Bytes
    refiled s = record s { stream_files = streams; session_files = sessions }

    abbrev refile : Result (StoreState Bytes) → Result (StoreState Bytes)
    refile (ok s) = ok (refiled s)
    refile (err e) = err e

    remove_object-refile :
        (s : StoreState Bytes) (o : Text)
        → remove_object c (refiled s) o ≡ refile (remove_object c s o)
    unfolding remove_object
    remove_object-refile s o = elim (Option-cases (lookup o s.blob_files)) [
      | inl e ↦ rw e refl
      | inr (b, e) ↦ elim (Option-cases (lookup o s.snapshots)) [
        | inl f ↦ rw (e, f) refl
        | inr (m, f) ↦ rw (e, f) refl
      ]
    ]

    remove_all-refile :
        (objects : List Text) (s : StoreState Bytes)
        → remove_all c objects (refiled s) ≡ refile (remove_all c objects s)
    unfolding remove_all
    remove_all-refile [] s = refl
    remove_all-refile (o ∷ objects) s = elim (Result-cases (remove_object c s o)) [
      | inl (u, e) ↦ rw (remove_object-refile s o) (rw e (remove_all-refile objects u))
      | inr (m, e) ↦ rw (remove_object-refile s o) (rw e refl)
    ]

    prune_to-refile :
        (s : StoreState Bytes) (prefix : Text) (latest : Option SnapshotRef)
        → prune_to c (refiled s) prefix latest ≡ refile (prune_to c s prefix latest)
    unfolding prune_to
    prune_to-refile s prefix none = refl
    prune_to-refile s prefix (some latest) = remove_all-refile _ s

    prune_stream-refile :
        (s : StoreState Bytes) (stored : StreamHead)
        → prune_stream c (refiled s) stored ≡ refile (prune_stream c s stored)
    unfolding prune_stream
    prune_stream-refile s stored = prune_to-refile s stored.stream.prefix stored.latest

    pub prune_all-refile :
        (heads : Dict Text StreamHead) (s : StoreState Bytes)
        → prune_all c heads (refiled s) ≡ refile (prune_all c heads s)
    unfolding prune_all
    prune_all-refile [] s = refl
    prune_all-refile ((name, stored) ∷ heads) s = elim (Result-cases (prune_stream c s stored)) [
      | inl (u, e) ↦ rw (prune_stream-refile s stored) (rw e (prune_all-refile heads u))
      | inr (m, e) ↦ rw (prune_stream-refile s stored) (rw e refl)
    ]
