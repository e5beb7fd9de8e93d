-- ===== src/Authority/Latest/Covering.antt =====
-- What `latest` finds, and what the bucket lists and the replicas report (src/bucket/runtime.rs).
use little_actors.Prelude.{
  true, ◌≡◌, refl, sym, ap, ◌∙◌, ◌⊎◌, inl, inr, Option, none, some, List, All, any, ==_iff,
  Bool-cases, subst, Result, ok, ok-injective, context, >>=-eq-ok, ensure,
}
use little_actors.Prelude.Action.{Action, pure, lift, continue, bind-ok, read_with}
use little_actors.Prelude.Text.{Text, text_eq}
use little_actors.Naming.{Position, snapshot_position}
use little_actors.Replica.{ReplicaTarget, ReplicaStream, SnapshotRef}
use little_actors.Replica.Identity.{snapshot_beq_iff}
use little_actors.Replica.Store.{reference, decode}
use little_actors.Authority.{Ownership, scope}
use little_actors.Authority.Advance.{
  Covers, position_beq, position_leb, position_leb_refl, position_leb_trans,
}
use little_actors.Authority.Bucket.{Bucket, BucketObject}
use little_actors.Authority.Latest.{
  is_at, is_loaded, load_key, load_candidate, latest, recover_snapshot,
}
use little_actors.Authority.Newest.{
  LoadedSnapshot, reference_of, newest_key, candidate_of, decode_snapshot,
}
use little_actors.Authority.Newest.Choosing.{has_head, IsCovered, candidate_of-Covers}
use little_actors.Authority.Newest.Listing.{
  key_position, position_of, IsPassed, IsKeyOf, none-leb, older_keys, newest_key-IsPassed,
}
use little_actors.Authority.Paths.{stream}
use little_actors.Authority.Peers.{Peers}
use little_actors.Authority.Recovery.{Storage, get_object, replica_members}
use little_actors.Authority.Sealing.{is_empty}
use little_actors.Wire.{Codec}

-- What covers a snapshot is at no older position.
Covers-position :
    (r s : Option SnapshotRef) → Covers r s → position_leb (position_of s) (position_of r) ≡ true
Covers-position r none h = none-leb (position_of r)
Covers-position none (some s) h = absurd h
Covers-position (some r) (some s) h = h

module _ (c : Codec) (b : Bucket (Codec.Bytes c)) (peers : Peers (Codec.Bytes c)) where
  abbrev Loaded : Type 0
  Loaded = LoadedSnapshot (Codec.Bytes c)

  -- As new as the key.
  abbrev Reaches : Option (Position × Text) → Option Loaded → Type 0
  Reaches key loaded = position_leb (key_position key) (position_of (reference_of loaded)) ≡ true

  at-Reaches :
      (position : Position) (key : Text) (loaded : Loaded)
      → snapshot_position key ≡ some position
      → loaded.reference.object ≡ key
      → Reaches (some (position, key)) (some loaded)
  at-Reaches position key loaded k e =
      subst (λ (p : Option Position). position_leb (some position) p ≡ true)
        (sym k ∙ ap snapshot_position (sym e)) (position_leb_refl (some position))

  decode_snapshot-object :
      (key : Text) (bytes : Codec.Bytes c) (loaded : Loaded)
      → decode_snapshot c key bytes ≡ ok loaded
      → loaded.reference.object ≡ key
  unfolding decode_snapshot reference
  decode_snapshot-object key bytes loaded h =
      let (snapshot, _, h₁) = >>=-eq-ok (decode c bytes) _ h in
      let (_, _, h₂) =
        >>=-eq-ok
          (ensure
            (position_beq (snapshot_position key)
              (some (snapshot.owner_epoch, snapshot.state_version)))
            "snapshot identity does not match its object")
          _ h₁ in
      ap (λ (l : Loaded). l.reference.object) (sym (ok-injective h₂))

  -- Loading the key that was found.
  load_found-Reaches :
      (position : Position) (key : Text) (s t : Storage c b) (loaded : Option Loaded)
      → snapshot_position key ≡ some position
      → load_key c b peers none (some (position, key)) s ≡ (t, ok loaded)
      → (t ≡ s) × Reaches (some (position, key)) loaded
  unfolding load_key
  load_found-Reaches position key s t loaded k h =
      let decoded = λ (found : BucketObject (Codec.Bytes c)). λ (u : Storage c b).
        continue {B = Option Loaded} (λ l. pure (some l)) u (decode_snapshot c key found.bytes) in
      let present = λ (o : Option (BucketObject (Codec.Bytes c))). λ (u : Storage c b).
        continue {B = Option Loaded} decoded u (context o "listed snapshot disappeared") in
      let (o, _, h₁) = bind-ok (get_object c b key) present s h in
      let (found, _, h₂) = bind-ok (lift (context o "listed snapshot disappeared")) decoded s h₁ in
      let (l, d, h₃) =
        bind-ok (lift (decode_snapshot c key found.bytes)) (λ l. pure (some l)) s h₂ in
      let object =
        decode_snapshot-object key found.bytes l
          (ap (λ (p : Storage c b × Result Loaded). p.1) d) in
      (
        sym (ap (λ (p : Storage c b × Result (Option Loaded)). p.0) h₃),
        subst (Reaches (some (position, key)))
            (ok-injective (ap (λ (p : Storage c b × Result (Option Loaded)). p.1) h₃))
            (at-Reaches position key l k object),
      )

  known-Reaches :
      (known : Option Loaded) (position : Position) (key : Text)
      → snapshot_position key ≡ some position
      → is_at known key ≡ true
      → Reaches (some (position, key)) known
  known-Reaches none position key k e = absurd cc
  known-Reaches (some loaded) position key k e =
      at-Reaches position key loaded k ((==_iff loaded.reference.object key).0 e)

  load_key-Reaches :
      (known : Option Loaded) (key : Option (Position × Text)) (s t : Storage c b)
      (loaded : Option Loaded)
      → IsKeyOf key
      → load_key c b peers known key s ≡ (t, ok loaded)
      → (t ≡ s) × Reaches key loaded
  unfolding load_key
  load_key-Reaches known none s t loaded k h = (
    sym (ap (λ (p : Storage c b × Result (Option Loaded)). p.0) h),
    none-leb (position_of (reference_of loaded)),
  )
  load_key-Reaches known (some (position, key)) s t loaded k h =
      elim (Bool-cases (is_at known key)) [
        | inl same ↦
            let kept : (s, ok known) ≡ (t, ok loaded) = rw same at h in
            (
              sym (ap (λ (p : Storage c b × Result (Option Loaded)). p.0) kept),
              subst (Reaches (some (position, key)))
                  (ok-injective (ap (λ (p : Storage c b × Result (Option Loaded)). p.1) kept))
                  (known-Reaches known position key k same),
            )
        | inr other ↦ load_found-Reaches position key s t loaded k (rw other at h)
      ]

  no_cover :
      (loaded : Option Loaded) → Covers none (reference_of loaded) → reference_of loaded ≡ none
  no_cover none h = refl
  no_cover (some loaded) h = absurd h

  is_loaded-same :
      (loaded : Option Loaded) (snapshot : SnapshotRef)
      → is_loaded loaded snapshot ≡ true
      → reference_of loaded ≡ some snapshot
  is_loaded-same none snapshot e = absurd cc
  is_loaded-same (some loaded) snapshot e =
      ap some ((snapshot_beq_iff loaded.reference snapshot).0 e)

  -- What is returned is the candidate.
  load_candidate-same :
      (replicas : List ReplicaTarget) (loaded : Option Loaded) (candidate : Option SnapshotRef)
      (s t : Storage c b) (r : Option Loaded)
      → Covers candidate (reference_of loaded)
      → load_candidate c b peers replicas loaded candidate s ≡ (t, ok r)
      → candidate ≡ reference_of r
  unfolding load_candidate
  load_candidate-same replicas loaded none s t r v h =
      sym (no_cover loaded v)
      ∙ ap (reference_of) (ok-injective (ap (λ (p : Storage c b × Result (Option Loaded)). p.1) h))
  load_candidate-same replicas loaded (some snapshot) s t r v h =
      elim (Bool-cases (is_loaded loaded snapshot)) [
        | inl same ↦
            let kept : (s, ok loaded) ≡ (t, ok r) = rw same at h in
            sym (is_loaded-same loaded snapshot same)
            ∙ ap (reference_of)
                (ok-injective (ap (λ (p : Storage c b × Result (Option Loaded)). p.1) kept))
        | inr other ↦
            let made = λ (bytes : Codec.Bytes c).
              (let m : Action (Storage c b) (Option Loaded) =
                  pure (some (record { reference = snapshot; bytes = bytes })) in
                m) in
            let (bytes, _, done) =
              bind-ok (recover_snapshot c b peers replicas snapshot) made s (rw other at h) in
            ap (reference_of)
              (ok-injective (ap (λ (p : Storage c b × Result (Option Loaded)). p.1) done))
      ]

  -- A newest snapshot covers what is known of an ownership: the base, what the bucket lists, and what
  -- the replicas of the session report, one of which is a witness.
  pub record IsNewest (s : Storage c b) (o : Ownership) (r : Option SnapshotRef) : Type 0 where
    pub own : ReplicaStream
    pub streamed : stream c o ≡ ok own
    pub keys : List Text
    pub listed : b.list s own.prefix ≡ ok keys
    pub covers_keys : All (λ key. IsPassed o.epoch (position_of r) (snapshot_position key)) keys
    pub covers_base : Covers r o.base
    pub replicas : List ReplicaTarget
    pub members : (replica_members c b (scope o) s).1 ≡ ok replicas
    pub covers_heads : All (IsCovered own r) (peers.heads replicas own)
    pub witnessed : (is_empty replicas ≡ true) ⊎ (any has_head (peers.heads replicas own) ≡ true)

  members-at :
      (o : Ownership) (replicas : List ReplicaTarget) {u s : Storage c b}
      → u ≡ s
      → (replica_members c b (scope o) u).1 ≡ ok replicas
      → (replica_members c b (scope o) s).1 ≡ ok replicas
  members-at o replicas same h =
      subst (λ (u : Storage c b). (replica_members c b (scope o) u).1 ≡ ok replicas) same h

  -- Whatever snapshot `latest` returns, or that there is none: it is at least as new as each key of
  -- the ownership's epoch that the bucket lists under the prefix of its stream, as the base of the
  -- ownership, and as the head that each replica of the session reported, whose streams are all the
  -- ownership's; and if the session has replicas, one of them reported a head.
  pub latest-IsNewest :
      (o : Ownership) (known r : Option Loaded) (s t : Storage c b)
      → latest c b peers o known s ≡ (t, ok r)
      → IsNewest s o (reference_of r)
  unfolding latest
  latest-IsNewest o known r s t h =
      let finish = λ (replicas : List ReplicaTarget). λ (loaded : Option Loaded).
        λ (candidate : Option SnapshotRef). load_candidate c b peers replicas loaded candidate in
      let choose = λ (own : ReplicaStream). λ (loaded : Option Loaded).
        λ (replicas : List ReplicaTarget). λ (u : Storage c b).
          continue {B = Option Loaded} (finish replicas loaded) u
            (candidate_of own replicas o.base (reference_of loaded) (peers.heads replicas own)) in
      let report = λ (own : ReplicaStream). λ (loaded : Option Loaded). λ (u : Storage c b).
        (let (v, x) = replica_members c b (scope o) u in
          continue {B = Option Loaded} (choose own loaded) v x) in
      let fetch = λ (own : ReplicaStream). λ (keys : List Text). λ (u : Storage c b).
        (let (v, x) = load_key c b peers known (newest_key o.epoch none keys) u in
          continue {B = Option Loaded} (report own) v x) in
      let enumerate = λ (own : ReplicaStream).
        λ (u : Storage c b). continue {B = Option Loaded} (fetch own) u (b.list u own.prefix) in
      let (own, streamed, h₁) = bind-ok (lift (stream c o)) enumerate s h in
      let (keys, listed, h₂) = bind-ok (read_with (λ u. b.list u own.prefix)) (fetch own) s h₁ in
      let (loaded, read, h₃) =
        bind-ok (load_key c b peers known (newest_key o.epoch none keys)) (report own) s h₂ in
      let u = (load_key c b peers known (newest_key o.epoch none keys) s).0 in
      let (replicas, members, h₄) =
        bind-ok (replica_members c b (scope o)) (choose own loaded) u h₃ in
      let v = (replica_members c b (scope o) u).0 in
      let answers = peers.heads replicas own in
      let (candidate, chosen, h₅) =
        bind-ok (lift (candidate_of own replicas o.base (reference_of loaded) answers))
          (finish replicas loaded) v h₄ in
      let (base, bucket, heads, witness) =
        candidate_of-Covers own replicas o.base (reference_of loaded) candidate answers
          (ap (λ (p : Storage c b × Result (Option SnapshotRef)). p.1) chosen) in
      let (is_key, _, passed) = newest_key-IsPassed o.epoch none keys tt in
      let (same_state, reaches) =
        load_key-Reaches known (newest_key o.epoch none keys) s u loaded is_key read in
      let same = load_candidate-same replicas loaded candidate v t r bucket h₅ in
      let newest =
        position_leb_trans (key_position (newest_key o.epoch none keys))
          (position_of (reference_of loaded)) (position_of candidate) reaches
          (Covers-position candidate (reference_of loaded) bucket) in
      subst (IsNewest s o) same (record {
        own = own;
        streamed = ap (λ (p : Storage c b × Result ReplicaStream). p.1) streamed;
        keys = keys;
        listed = ap (λ (p : Storage c b × Result (List Text)). p.1) listed;
        covers_keys =
            older_keys o.epoch (key_position (newest_key o.epoch none keys)) (position_of candidate)
              keys newest passed;
        covers_base = base;
        replicas = replicas;
        members =
            members-at o replicas same_state
              (ap (λ (p : Storage c b × Result (List ReplicaTarget)). p.1) members);
        covers_heads = heads;
        witnessed = witness;
      })
