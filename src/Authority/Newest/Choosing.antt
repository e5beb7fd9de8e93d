-- ===== src/Authority/Newest/Choosing.antt =====
-- What `latest` chooses, and what was reported to it (src/bucket/runtime.rs).
use little_actors.Prelude.{
  ℕ, suc, Bool, true, false, ◌||◌, ◌≡◌, refl, sym, subst, Option, ◌⊎◌, inl, inr, List, [], ◌∷◌, All,
  any, ltb, Result, ok, err, ensure, >>=-eq-ok, arith,
}
use little_actors.Replica.{ReplicaTarget, ReplicaStream, SnapshotRef, StreamHead, stream_beq}
use little_actors.Replica.Identity.{stream_beq_iff}
use little_actors.Authority.Advance.{advance, Covers, Covers-refl, Covers-trans, advance-Covers}
use little_actors.Authority.Newest.{add_heads, candidate_of}
use little_actors.Authority.Sealing.{is_empty}

-- A replica answered with a head.
abbrev pub has_head : Result StreamHead → Bool
has_head (ok head) = true
has_head (err e) = false

-- An answer is of the stream, and its snapshot is covered.
abbrev pub IsCovered : ReplicaStream → Option SnapshotRef → Result StreamHead → Type 0
IsCovered stream r (err e) = Unit
IsCovered stream r (ok head) = (head.stream ≡ stream) × Covers r head.latest

add_heads-All :
    (stream : ReplicaStream) (n m : ℕ) (current r : Option SnapshotRef)
    (answers : List (Result StreamHead))
    → add_heads stream n current answers ≡ ok (m, r)
    → Covers r current
      × All (IsCovered stream r) answers
      × ((m ≡ n) ⊎ (any has_head answers ≡ true))
unfolding add_heads
add_heads-All stream n m current r [] h =
    let (same_count, same) = ok_pair n m current r h in
    (subst (λ x. Covers x current) same (Covers-refl current), tt, inl (sym same_count))
  where
    ok_pair :
        (n m : ℕ) (x y : Option SnapshotRef)
        → (let a : Result (ℕ × Option SnapshotRef) = ok (n, x) in a) ≡ ok (m, y)
        → (n ≡ m) × (x ≡ y)
    ok_pair n m x y h = (cc, cc)
add_heads-All stream n m current r (err e ∷ answers) h =
    let (covers, all_covered, count) = add_heads-All stream n m current r answers h in
    (covers, (tt, all_covered), count)
add_heads-All stream n m current r (ok head ∷ answers) h =
    let (_, own, rest) =
      >>=-eq-ok (ensure (stream_beq head.stream stream) "replica returned another stream") _ h in
    let (next, advanced, rest') = >>=-eq-ok (advance current head.latest) _ rest in
    let (old, new, _) = advance-Covers current head.latest advanced in
    let (covers, all_covered, _) = add_heads-All stream (suc n) m next r answers rest' in
    let same : head.stream ≡ stream = ground (arith, stream_beq_iff head.stream stream) in
    (
      Covers-trans r next current covers old,
      ((same, Covers-trans r next head.latest covers new), all_covered),
      inr refl,
    )

-- If a snapshot is chosen, or that there is none, then the choice is at least as new as the base of
-- the ownership, as the snapshot that was loaded, and as the head that each replica reported,
-- whose streams are all the one that was asked for; and if the session has replicas, one of them
-- reported a head.
pub candidate_of-Covers :
    (stream : ReplicaStream) (replicas : List ReplicaTarget) (base loaded r : Option SnapshotRef)
    (answers : List (Result StreamHead))
    → candidate_of stream replicas base loaded answers ≡ ok r
    → Covers r base
      × Covers r loaded
      × All (IsCovered stream r) answers
      × ((is_empty replicas ≡ true) ⊎ (any has_head answers ≡ true))
unfolding candidate_of
candidate_of-Covers stream replicas base loaded r answers h =
    let (known, advanced, rest) = >>=-eq-ok (advance base loaded) _ h in
    let ((witnesses, candidate), added, rest') =
      >>=-eq-ok (add_heads stream 0 known answers) _ rest in
    let (_, enough, returned) =
      >>=-eq-ok
        (ensure (is_empty replicas || ltb 0 witnesses)
          "no complete replica witness; refusing to lose acknowledged state")
        _ rest' in
    let same : candidate ≡ r = cc in
    let (old, new, _) = advance-Covers base loaded advanced in
    let (covers, all_covered, count) =
      add_heads-All stream 0 witnesses known candidate answers added in
    subst
      (λ x.
        Covers x base
        × Covers x loaded
        × All (IsCovered stream x) answers
        × ((is_empty replicas ≡ true) ⊎ (any has_head answers ≡ true)))
      same
      (
        Covers-trans candidate known base covers old,
        Covers-trans candidate known loaded covers new,
        all_covered,
        ground (arith, enough, count),
      )
