-- ===== src/Authority/Latest/Keeping.antt =====
-- A recovered snapshot and the bucket (src/bucket/runtime.rs).
use little_actors.Prelude.{
  Bool, ◌≡◌, refl, ap, sym, ◌∙◌, subst, Option, none, some, List, [], ◌∷◌, inl, inr, Result, ok,
  err, ensure, ensure-true,
}
use little_actors.Prelude.Action.{Action, pure, lift, continue, bind-ok}
use little_actors.Prelude.Text.{Text}
use little_actors.Replica.{ReplicaTarget, SnapshotRef}
use little_actors.Replica.Store.{verify}
use little_actors.Authority.Bucket.{Bucket, BucketObject, Lawful, replace, generation_of}
use little_actors.Authority.Bucket.Replacing.{replace-holds, replace-effect}
use little_actors.Authority.Latest.{
  persist, recover_answer, recover_from, recover_found, recover_snapshot,
}
use little_actors.Authority.Peers.{Peers}
use little_actors.Authority.Recovery.{Storage}
use little_actors.Wire.{Codec}

module _ (c : Codec) (b : Bucket (Codec.Bytes c)) where
  -- The bucket holds the bytes of a snapshot, whose checksum is right.
  pub record IsKept (t : Storage c b) (snapshot : SnapshotRef) (bytes : Codec.Bytes c)
      : Type 0 where
    pub object : BucketObject (Codec.Bytes c)
    pub found : b.get t snapshot.object ≡ ok (some object)
    pub holds : object.bytes ≡ bytes
    pub verified : verify c snapshot bytes ≡ ok tt

  -- No object that was there has changed.
  pub record Extends (s t : Storage c b) : Type 0 where
    pub kept :
        (j : Text) (o : BucketObject (Codec.Bytes c))
        → b.get s j ≡ ok (some o)
        → b.get t j ≡ ok (some o)

  pub Extends-refl : (s : Storage c b) → Extends s s
  Extends-refl s = record { kept = λ j o e. e }

  module _ (peers : Peers (Codec.Bytes c)) (laws : Lawful b) where
    -- Writing what is not there.
    replace-Extends :
        (s : Storage c b) (key : Text) (bytes : Codec.Bytes c)
        → Extends s (replace ⦃e = c.bytes_eq⦄ b key none bytes s).0
    replace-Extends s key bytes = elim (replace-effect ⦃e = c.bytes_eq⦄ b laws s key none bytes) [
      | inl same ↦ record { kept = λ j o e. same j ∙ e }
      | inr w ↦ record {
        kept = λ j o e. w.others j (λ at_key. present j o w.before at_key e w.was w.expected) ∙ e;
      }
    ]
      where
        present :
            (j : Text) (o : BucketObject (Codec.Bytes c))
            (before : Option (BucketObject (Codec.Bytes c)))
            → j ≡ key
            → b.get s j ≡ ok (some o)
            → b.get s key ≡ ok before
            → generation_of before ≡ none
            → ⊥
        present j o none at_key e was expected =
            absurd (missing o (sym was ∙ sym (ap (b.get s) at_key) ∙ e))
          where
            missing :
                (o : BucketObject (Codec.Bytes c))
                → (let r : Result (Option (BucketObject (Codec.Bytes c))) = ok none in r)
                  ≡ ok (some o)
                → ⊥
            missing o e = cc
        present j o (some x) at_key e was expected = cc

    persist-IsKept :
        (s t : Storage c b) (snapshot : SnapshotRef) (bytes : Codec.Bytes c)
        → verify c snapshot bytes ≡ ok tt
        → persist c b peers snapshot.object bytes s ≡ (t, ok tt)
        → IsKept t snapshot bytes × Extends s t
    unfolding persist
    persist-IsKept s t snapshot bytes verified h =
        let confirm = λ (written : Bool).
          lift {S = Storage c b} (ensure written "conflicting immutable snapshot") in
        let (written, wrote, checked) =
          bind-ok (replace ⦃e = c.bytes_eq⦄ b snapshot.object none bytes) confirm s h in
        let success =
          ensure-true written _ (ap (λ (p : Storage c b × Result (Unit {0})). p.1) checked) in
        let at_end = ap (λ (p : Storage c b × Result (Unit {0})). p.0) checked in
        let (object, found, holds) =
          replace-holds ⦃e = c.bytes_eq⦄ b laws s snapshot.object none bytes
            (ap (λ (p : Storage c b × Result Bool). p.1) wrote ∙ ap ok success) in
        (
          record {
            object = object;
            found =
                subst (λ (u : Storage c b). b.get u snapshot.object ≡ ok (some object)) at_end
                  found;
            holds = holds;
            verified = verified;
          },
          subst (Extends s) at_end (replace-Extends s snapshot.object bytes),
        )

    -- What a recovery leaves, if it succeeds.
    abbrev Recovers : Storage c b → SnapshotRef → Storage c b × Result (Codec.Bytes c) → Type 0
    Recovers s snapshot (t, ok bytes) = IsKept t snapshot bytes × Extends s t
    Recovers s snapshot (t, err e) = Unit

    after_persist :
        (s t : Storage c b) (snapshot : SnapshotRef) (bytes : Codec.Bytes c) (r : Result (Unit {0}))
        → verify c snapshot bytes ≡ ok tt
        → persist c b peers snapshot.object bytes s ≡ (t, r)
        → Recovers s snapshot (continue (λ _. pure bytes) t r)
    after_persist s t snapshot bytes (ok tt) verified e =
        persist-IsKept s t snapshot bytes verified e
    after_persist s t snapshot bytes (err m) verified e = tt

    after_verify :
        (s : Storage c b) (snapshot : SnapshotRef) (bytes : Codec.Bytes c) (r : Result (Unit {0}))
        → verify c snapshot bytes ≡ r
        → Recovers s snapshot (
            continue
              (λ _. λ u.
                (let (v, x) = persist c b peers snapshot.object bytes u in
                  continue (λ _. pure bytes) v x))
              s
              r)
    after_verify s snapshot bytes (ok tt) verified =
        let (t, r) = persist c b peers snapshot.object bytes s in
        after_persist s t snapshot bytes r verified refl
    after_verify s snapshot bytes (err m) verified = tt

    answer-Recovers :
        (s : Storage c b) (snapshot : SnapshotRef) (others : Action (Storage c b) (Codec.Bytes c))
        (r : Result (Codec.Bytes c))
        → Recovers s snapshot (others s)
        → Recovers s snapshot (recover_answer c b peers snapshot others r s)
    unfolding recover_answer
    answer-Recovers s snapshot others (err e) rest = rest
    answer-Recovers s snapshot others (ok bytes) rest =
        after_verify s snapshot bytes (verify c snapshot bytes) refl

    verified-Recovers :
        (s : Storage c b) (snapshot : SnapshotRef) (object : BucketObject (Codec.Bytes c))
        (r : Result (Unit {0}))
        → b.get s snapshot.object ≡ ok (some object)
        → verify c snapshot object.bytes ≡ r
        → Recovers s snapshot (continue (λ _. pure object.bytes) s r)
    verified-Recovers s snapshot object (ok tt) found verified = (
      record { object = object; found = found; holds = refl; verified = verified },
      Extends-refl s,
    )
    verified-Recovers s snapshot object (err e) found verified = tt

    recover_from-Recovers :
        (s : Storage c b) (snapshot : SnapshotRef) (targets : List ReplicaTarget)
        → Recovers s snapshot (recover_from c b peers snapshot targets s)
    unfolding recover_from
    recover_from-Recovers s snapshot [] = tt
    recover_from-Recovers s snapshot (peer ∷ targets) =
        answer-Recovers s snapshot (recover_from c b peers snapshot targets)
          (peers.read peer snapshot.object) (recover_from-Recovers s snapshot targets)

    recover_found-Recovers :
        (s : Storage c b) (snapshot : SnapshotRef) (replicas : List ReplicaTarget)
        (object : Option (BucketObject (Codec.Bytes c)))
        → b.get s snapshot.object ≡ ok object
        → Recovers s snapshot (recover_found c b peers replicas snapshot object s)
    unfolding recover_found
    recover_found-Recovers s snapshot replicas none found =
        recover_from-Recovers s snapshot replicas
    recover_found-Recovers s snapshot replicas (some object) found =
        verified-Recovers s snapshot object (verify c snapshot object.bytes) found refl

    get-Recovers :
        (s : Storage c b) (snapshot : SnapshotRef) (replicas : List ReplicaTarget)
        (r : Result (Option (BucketObject (Codec.Bytes c))))
        → b.get s snapshot.object ≡ r
        → Recovers s snapshot (continue (recover_found c b peers replicas snapshot) s r)
    get-Recovers s snapshot replicas (ok object) found =
        recover_found-Recovers s snapshot replicas object found
    get-Recovers s snapshot replicas (err e) found = tt

    recover_snapshot-Recovers :
        (s : Storage c b) (replicas : List ReplicaTarget) (snapshot : SnapshotRef)
        → Recovers s snapshot (recover_snapshot c b peers replicas snapshot s)
    unfolding recover_snapshot
    recover_snapshot-Recovers s replicas snapshot =
        get-Recovers s snapshot replicas (b.get s snapshot.object) refl

    -- If a snapshot is recovered successfully over a lawful bucket, from the bucket or from a replica,
    -- then the bucket holds the bytes that are returned under the snapshot's name, their checksum is
    -- the snapshot's, and no object that was there before has changed.
    pub recover_snapshot-IsKept :
        (s t : Storage c b) (replicas : List ReplicaTarget) (snapshot : SnapshotRef)
        (bytes : Codec.Bytes c)
        → recover_snapshot c b peers replicas snapshot s ≡ (t, ok bytes)
        → IsKept t snapshot bytes × Extends s t
    recover_snapshot-IsKept s t replicas snapshot bytes h =
        let done : Recovers s snapshot (t, ok bytes) =
          subst (Recovers s snapshot) h (recover_snapshot-Recovers s replicas snapshot) in
        done
