-- ===== src/Authority/Coverage.antt =====
-- The heads that witnesses report, and the snapshots that `seal_replicas` returns
-- (src/bucket/runtime/session.rs).
use little_actors.Prelude.{
  Bool, true, not, ◌&&◌, ◌||◌, ◌≡◌, refl, subst, Option, none, some, Option-cases, Bool-cases, ◌⊎◌,
  inl, inr, List, [], ◌∷◌, All, any, Result, ok, err, ensure, >>=-eq-ok, ◌==◌, ltb, arith, all,
}
use little_actors.Prelude.Dict.{lookup}
use little_actors.Prelude.Text.{Text, text_eq, starts_with}
use little_actors.Naming.{snapshot_position}
use little_actors.Replica.{SnapshotRef, StreamHead, SessionHead}
use little_actors.Authority.{Session}
use little_actors.Authority.Advance.{Covers, position_leb}
use little_actors.Authority.Sealing.{
  Newest, entry, Witnesses, add_answers, known_snapshots, is_empty, seal_replicas,
}
use little_actors.Authority.Growth.{
  CoversHead, AllRooted, CoversAnswer, is_witness, add_answers-Grows,
}

-- A snapshot of the stream's prefix that is at least as new.
abbrev pub covers_latest : Text → List SnapshotRef → Option SnapshotRef → Bool
covers_latest prefix refs none = true
covers_latest prefix refs (some s) =
    any
      (λ r.
        starts_with prefix r.object
        && position_leb (snapshot_position s.object) (snapshot_position r.object))
      refs

any_known :
    (f : SnapshotRef → Bool) (d : Newest) (p : Text) (r : SnapshotRef)
    → lookup p d ≡ some (some r)
    → f r ≡ true
    → any f (known_snapshots d) ≡ true
unfolding known_snapshots lookup
any_known f [] p r h k = cc
any_known f ((q, none) ∷ d) p r h k = elim (Bool-cases (q == p)) [
  | inl same ↦ absurd (ground arith)
  | inr other ↦ any_known f d p r (rw other at h) k
]
any_known f ((q, some s) ∷ d) p r h k = elim (Bool-cases (q == p)) [
  | inl same ↦ ground arith
  | inr other ↦ ground (arith, any_known f d p r (rw other at h) k)
]

entry-some :
    (o : Option (Option SnapshotRef)) {r : SnapshotRef} → entry o ≡ some r → o ≡ some (some r)
entry-some none h = cc
entry-some (some x) h = ground arith

CoversHead-known :
    (d : Newest) (h : StreamHead) (latest : Option SnapshotRef)
    → AllRooted d
    → Covers (entry (lookup h.stream.prefix d)) latest
    → covers_latest h.stream.prefix (known_snapshots d) latest ≡ true
CoversHead-known d h none rooted c = refl
CoversHead-known d h (some s) rooted c = elim (Option-cases (entry (lookup h.stream.prefix d))) [
  | inl e ↦ absurd (rw e at c)
  | inr (r, e) ↦
      any_known _ d h.stream.prefix r (entry-some (lookup h.stream.prefix d) e)
        (ground (arith, (rw e at (rooted h.stream.prefix)), (rw e at c)))
]

-- Snapshots cover each stream head of an answer, if it is that of a complete witness.
abbrev pub recovers : List SnapshotRef → Result SessionHead → Bool
recovers refs (err e) = true
recovers refs (ok head) =
    not (head.initialized && head.sealed)
    || all (λ h. covers_latest h.stream.prefix refs h.latest) head.streams

all_heads :
    (d : Newest) (hs : List StreamHead)
    → AllRooted d
    → All (CoversHead d) hs
    → all (λ h. covers_latest h.stream.prefix (known_snapshots d) h.latest) hs ≡ true
all_heads d [] rooted c = refl
all_heads d (h ∷ hs) rooted c =
    ground (arith, CoversHead-known d h h.latest rooted c.0, all_heads d hs rooted c.1)

recovers-CoversAnswer :
    (d : Newest) (a : Result SessionHead)
    → AllRooted d
    → CoversAnswer d a
    → recovers (known_snapshots d) a ≡ true
recovers-CoversAnswer d (err e) rooted c = refl
recovers-CoversAnswer d (ok head) rooted c = elim (Bool-cases (head.initialized && head.sealed)) [
  | inl complete ↦ rw complete (all_heads d head.streams rooted (rw complete at c))
  | inr partial ↦ rw partial
]

all_answers :
    (d : Newest) (answers : List (Result SessionHead))
    → AllRooted d
    → All (CoversAnswer d) answers
    → all (recovers (known_snapshots d)) answers ≡ true
all_answers d [] rooted c = refl
all_answers d (a ∷ answers) rooted c =
    ground (arith, recovers-CoversAnswer d a rooted c.0, all_answers d answers rooted c.1)

-- When the replicas of a session are sealed successfully, then for every peer that answered that it
-- is initialised and sealed, and for every stream head that it reported with a snapshot, one of the
-- returned snapshots stands under the stream's prefix and is at least as new. A session with
-- replicas is only sealed if some peer answered so.
pub seal_replicas_covers :
    (session : Session) (answers : List (Result SessionHead)) (refs : List SnapshotRef)
    → seal_replicas session answers ≡ ok refs
    → (all (recovers refs) answers ≡ true)
      × ((is_empty session.replicas ≡ true) ⊎ (any is_witness answers ≡ true))
unfolding seal_replicas
seal_replicas_covers session answers refs e =
    let start : Witnesses = record { count = 0; snapshots = [] } in
    let (seen, collected, rest) = >>=-eq-ok (add_answers session.id start answers) _ e in
    let (_, enough, returned) =
      >>=-eq-ok
        (ensure (is_empty session.replicas || ltb 0 seen.count)
          "no complete replica witness; refusing to lose acknowledged state")
        _ rest in
    let (_, rooted, covered, witness) =
      add_answers-Grows session.id start answers (λ p. unfold lookup in tt) collected in
    (
      subst (λ x. all (recovers x) answers ≡ true)
          (let q : known_snapshots seen.snapshots ≡ refs = cc in q)
          (all_answers seen.snapshots answers rooted covered),
      ground (arith, enough, witness),
    )
