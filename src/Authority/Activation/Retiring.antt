-- ===== src/Authority/Activation/Retiring.antt =====
-- Retiring the replication of a session, and the snapshots in the bucket
-- (src/bucket/runtime/session.rs).
use little_actors.Prelude.{true, ◌≡◌, ap, subst, List, [], ◌∷◌, All, all, Result, ok}
use little_actors.Prelude.Action.{bind-ok}
use little_actors.Replica.{SnapshotRef, SessionHead}
use little_actors.Authority.{Session}
use little_actors.Authority.Bucket.{Bucket, Lawful}
use little_actors.Authority.Latest.{recover_snapshot}
use little_actors.Authority.Latest.Keeping.{IsKept, Extends, Extends-refl, recover_snapshot-IsKept}
use little_actors.Authority.Activation.{recover_all}
use little_actors.Authority.Coverage.{recovers, seal_replicas_covers}
use little_actors.Authority.Sealing.{seal_replicas}
use little_actors.Authority.Peers.{Peers}
use little_actors.Authority.Recovery.{Storage}
use little_actors.Wire.{Codec}

module _ (c : Codec) (b : Bucket (Codec.Bytes c)) where
  -- The bucket holds a snapshot with the right checksum.
  pub record IsSafe (t : Storage c b) (snapshot : SnapshotRef) : Type 0 where
    pub bytes : Codec.Bytes c
    pub kept : IsKept c b t snapshot bytes

  Extends-IsSafe :
      (s t : Storage c b) (snapshot : SnapshotRef)
      → Extends c b s t
      → IsSafe s snapshot
      → IsSafe t snapshot
  Extends-IsSafe s t snapshot extends safe = record {
    bytes = safe.bytes;
    kept = record {
      object = safe.kept.object;
      found = extends.kept snapshot.object safe.kept.object safe.kept.found;
      holds = safe.kept.holds;
      verified = safe.kept.verified;
    };
  }

  Extends-trans : (s t u : Storage c b) → Extends c b s t → Extends c b t u → Extends c b s u
  Extends-trans s t u p q = record { kept = λ j o e. q.kept j o (p.kept j o e) }

  module _ (peers : Peers (Codec.Bytes c)) (laws : Lawful b) where
    recover_all-IsSafe :
        (session : Session) (refs : List SnapshotRef) (s t : Storage c b)
        → recover_all c b peers session refs s ≡ (t, ok tt)
        → All (IsSafe t) refs × Extends c b s t
    unfolding recover_all
    recover_all-IsSafe session [] s t h = (
      tt,
      subst (Extends c b s) (ap (λ (p : Storage c b × Result (Unit {0})). p.0) h)
          (Extends-refl c b s),
    )
    recover_all-IsSafe session (snapshot ∷ refs) s t h =
        let rest_of = λ (bytes : Codec.Bytes c). recover_all c b peers session refs in
        let (bytes, recovered, rest) =
          bind-ok (recover_snapshot c b peers session.replicas snapshot) rest_of s h in
        let u = (recover_snapshot c b peers session.replicas snapshot s).0 in
        let (kept, extends) =
          recover_snapshot-IsKept c b peers laws s u session.replicas snapshot bytes recovered in
        let (all_safe, later) = recover_all-IsSafe session refs u t rest in
        (
          (Extends-IsSafe u t snapshot later (record { bytes = bytes; kept = kept }), all_safe),
          Extends-trans s u t extends later,
        )

    -- If the replicas of a session are sealed, and the snapshots that this found are recovered
    -- successfully over a lawful bucket, then the bucket holds each of them with the right checksum,
    -- nothing that was there has changed, and for every stream head that a complete witness reported
    -- one of them is at least as new.
    pub retired-IsSafe :
        (session : Session) (answers : List (Result SessionHead)) (refs : List SnapshotRef)
        (s t : Storage c b)
        → seal_replicas session answers ≡ ok refs
        → recover_all c b peers session refs s ≡ (t, ok tt)
        → All (IsSafe t) refs × Extends c b s t × (all (recovers refs) answers ≡ true)
    retired-IsSafe session answers refs s t sealed h =
        let (all_safe, extends) = recover_all-IsSafe session refs s t h in
        (all_safe, extends, (seal_replicas_covers session answers refs sealed).0)
