-- ===== src/Authority/Advance.antt =====
-- The newest of several witnesses of an actor's state (`advance` of src/bucket/runtime.rs).
use little_actors.Prelude.{
  Bool, true, false, not, ◌&&◌, ◌||◌, ◌≡◌, refl, Option, none, some, Bool-cases, ◌⊎◌, inl, inr,
  Result, ok, ◌>>◌, ensure, ltb, eqb, arith, if◌then◌else◌, subst, sym,
}
use little_actors.Naming.{Position, snapshot_position}
use little_actors.Replica.{SnapshotRef, snapshot_beq}

-- The order and the equality of `Option<(u64, u64)>`.
abbrev pub position_ltb : Option Position → Option Position → Bool
position_ltb a none = false
position_ltb none (some b) = true
position_ltb (some (e, v)) (some (f, w)) = ltb e f || (eqb e f && ltb v w)

abbrev pub position_beq : Option Position → Option Position → Bool
position_beq none none = true
position_beq (some (e, v)) (some (f, w)) = eqb e f && eqb v w
position_beq a b = false

abbrev pub position_leb : Option Position → Option Position → Bool
position_leb a b = not (position_ltb b a)

advance_past : SnapshotRef → SnapshotRef → Result (Option SnapshotRef)
advance_past current candidate = do
  ensure
      (not (position_beq (snapshot_position current.object) (snapshot_position candidate.object))
        || snapshot_beq current candidate)
      "conflicting snapshot witnesses"
  ok (
      if position_ltb (snapshot_position current.object) (snapshot_position candidate.object)
      then some candidate
      else some current)

unfoldable pub advance : Option SnapshotRef → Option SnapshotRef → Result (Option SnapshotRef)
unfolding advance_past
advance current none = ok current
advance none (some candidate) = ok (some candidate)
advance (some current) (some candidate) = advance_past current candidate

-- A snapshot is at least as new as another one, if there is one.
abbrev pub Covers : Option SnapshotRef → Option SnapshotRef → Type 0
Covers r none = Unit
Covers none (some s) = ⊥
Covers (some r) (some s) =
    position_leb (snapshot_position s.object) (snapshot_position r.object) ≡ true

pub position_leb_refl : (a : Option Position) → position_leb a a ≡ true
position_leb_refl none = refl
position_leb_refl (some (e, v)) = ground arith

pub position_leb_trans :
    (a b c : Option Position)
    → position_leb a b ≡ true
    → position_leb b c ≡ true
    → position_leb a c ≡ true
position_leb_trans none none none h k = refl
position_leb_trans none none (some c) h k = refl
position_leb_trans none (some b) none h k = refl
position_leb_trans none (some b) (some c) h k = refl
position_leb_trans (some a) none c h k = cc
position_leb_trans (some a) (some b) none h k = cc
position_leb_trans (some (a, a')) (some (b, b')) (some (c, c')) h k = ground arith

pub position_ltb→leb : (a b : Option Position) → position_ltb a b ≡ true → position_leb a b ≡ true
position_ltb→leb none none h = cc
position_ltb→leb none (some b) h = refl
position_ltb→leb (some a) none h = cc
position_ltb→leb (some (a, a')) (some (b, b')) h = ground arith

pub Covers-refl : (s : Option SnapshotRef) → Covers s s
Covers-refl none = tt
Covers-refl (some s) = position_leb_refl (snapshot_position s.object)

pub Covers-trans : (r s t : Option SnapshotRef) → Covers r s → Covers s t → Covers r t
Covers-trans r s none h k = tt
Covers-trans r none (some t) h k = absurd k
Covers-trans none (some s) (some t) h k = absurd h
Covers-trans (some r) (some s) (some t) h k =
    position_leb_trans (snapshot_position t.object) (snapshot_position s.object)
      (snapshot_position r.object) k h

Covers-of : {r s : Option SnapshotRef} → ok s ≡ ok r → Covers r s
Covers-of {r} {s} h = subst (λ x. Covers x s) (let e : s ≡ r = cc in e) (Covers-refl s)

advance_past-Covers :
    (current candidate : SnapshotRef) {r : Option SnapshotRef}
    → advance_past current candidate ≡ ok r
    → Covers r (some current)
      × Covers r (some candidate)
      × ((r ≡ some current) ⊎ (r ≡ some candidate))
unfolding advance_past
advance_past-Covers current candidate {r} h =
    let p = snapshot_position current.object in
    let q = snapshot_position candidate.object in
    elim (Bool-cases (position_ltb p q)) [
      | inl newer ↦
          let e : some candidate ≡ r = ground arith in
          (
            subst (λ x. Covers x (some current)) e (position_ltb→leb p q newer),
            subst (λ x. Covers x (some candidate)) e (position_leb_refl q),
            inr (sym e),
          )
      | inr older ↦
          let e : some current ≡ r = ground arith in
          (
            subst (λ x. Covers x (some current)) e (position_leb_refl p),
            subst (λ x. Covers x (some candidate)) e (rw older),
            inl (sym e),
          )
    ]

-- The result is one of the two, and covers both.
pub advance-Covers :
    (current candidate : Option SnapshotRef) {r : Option SnapshotRef}
    → advance current candidate ≡ ok r
    → Covers r current × Covers r candidate × ((r ≡ current) ⊎ (r ≡ candidate))
unfolding advance
advance-Covers current none h = (Covers-of h, tt, inl (ground arith))
advance-Covers none (some candidate) h = (tt, Covers-of h, inr (ground arith))
advance-Covers (some current) (some candidate) h = advance_past-Covers current candidate h
