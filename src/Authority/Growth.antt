-- ===== src/Authority/Growth.antt =====
-- How the newest snapshots grow while the answers of the replicas are collected
-- (src/bucket/runtime/session.rs).
use little_actors.Prelude.{
  ℕ, suc, Bool, true, false, ◌&&◌, ◌≡◌, refl, sym, subst, Option, none, some, Bool-cases, ◌⊎◌, inl,
  inr, List, [], ◌∷◌, All, any, Result, ok, err, ensure, >>=-eq-ok, ◌==◌, ==_iff, ==_refl, arith,
  if◌then◌else◌, ◌>>=◌,
}
use little_actors.Prelude.Dict.{lookup, insert, lookup-insert}
use little_actors.Prelude.Text.{Text, text_eq, starts_with, starts_with-append}
use little_actors.Naming.{object_name}
use little_actors.Replica.{SnapshotRef, StreamHead, SessionHead}
use little_actors.Authority.Advance.{advance, Covers, Covers-refl, Covers-trans, advance-Covers}
use little_actors.Authority.Sealing.{
  Newest, entry, add_latest, add_streams, Witnesses, add_answer, add_answers,
}

starts_with-object_name : (prefix : Text) (v : ℕ) → starts_with prefix (object_name prefix v) ≡ true
unfolding object_name
starts_with-object_name prefix v = starts_with-append prefix _

-- The newest snapshot under a prefix is of that prefix.
abbrev pub IsRooted : Text → Option SnapshotRef → Type 0
IsRooted p none = Unit
IsRooted p (some r) = starts_with p r.object ≡ true

-- One map of newest snapshots covers another.
pub record Grows (d d' : Newest) : Type 0 where
  pub covers : (p : Text) → Covers (entry (lookup p d')) (entry (lookup p d))
  pub rooted : (p : Text) → IsRooted p (entry (lookup p d)) → IsRooted p (entry (lookup p d'))

Grows-refl : (d : Newest) → Grows d d
Grows-refl d = record { covers = λ p. Covers-refl (entry (lookup p d)); rooted = λ p h. h }

Grows-trans : {d e f : Newest} → Grows d e → Grows e f → Grows d f
Grows-trans {d} {e} {f} g h = record {
  covers = λ p.
      Covers-trans (entry (lookup p f)) (entry (lookup p e)) (entry (lookup p d)) (h.covers p)
        (g.covers p);
  rooted = λ p r. h.rooted p (g.rooted p r);
}

abbrev pub CoversHead : Newest → StreamHead → Type 0
CoversHead d h = Covers (entry (lookup h.stream.prefix d)) h.latest

Grows-CoversHead : {d e : Newest} (h : StreamHead) → Grows d e → CoversHead d h → CoversHead e h
Grows-CoversHead {d} {e} h g c =
    Covers-trans (entry (lookup h.stream.prefix e)) (entry (lookup h.stream.prefix d)) h.latest
      (g.covers h.stream.prefix) c

-- What one entry becomes is known at every prefix.
entry-insert :
    (p q : Text) (r : Option SnapshotRef) (d : Newest)
    → entry (lookup p (insert q r d)) ≡ (if q == p then r else entry (lookup p d))
entry-insert p q r d = ground (arith, lookup-insert p q r d)

insert-Grows :
    (q : Text) (r : Option SnapshotRef) (d : Newest)
    → Covers r (entry (lookup q d))
    → IsRooted q r
    → Grows d (insert q r d)
insert-Grows q r d c rooted = record {
  covers = λ p. rw (entry-insert p q r d) (elim (Bool-cases (q == p)) [
    | inl same ↦ rw same (subst (λ x. Covers r (entry (lookup x d))) ((==_iff q p).0 same) c)
    | inr other ↦ rw other (Covers-refl (entry (lookup p d)))
  ]);
  rooted = λ p h. rw (entry-insert p q r d) (elim (Bool-cases (q == p)) [
    | inl same ↦ rw same (subst (λ x. IsRooted x r) ((==_iff q p).0 same) rooted)
    | inr other ↦ rw other h
  ]);
}

IsRooted-either :
    (p : Text) {r : Option SnapshotRef} (a : Option SnapshotRef) (b : SnapshotRef)
    → IsRooted p a
    → IsRooted p (some b)
    → (r ≡ a) ⊎ (r ≡ some b)
    → IsRooted p r
IsRooted-either p a b ha hb (inl e) = subst (IsRooted p) (sym e) ha
IsRooted-either p a b ha hb (inr e) = subst (IsRooted p) (sym e) hb

abbrev pub AllRooted : Newest → Type 0
AllRooted d = (p : Text) → IsRooted p (entry (lookup p d))

add_latest-Grows :
    (d : Newest) (h : StreamHead) (latest : Option SnapshotRef) {d' : Newest}
    → AllRooted d
    → add_latest d h latest ≡ ok d'
    → Grows d d' × Covers (entry (lookup h.stream.prefix d')) latest
unfolding add_latest
add_latest-Grows d h none rooted e = (subst (Grows d) (let q : d ≡ _ = cc in q) (Grows-refl d), tt)
add_latest-Grows d h (some s) {d'} rooted e =
    let prefix = h.stream.prefix in
    let (_, named, rest) =
      >>=-eq-ok
        (ensure (s.object == object_name prefix s.state_version)
          "replica snapshot identity mismatch")
        _ e in
    let (r, advanced, inserted) = >>=-eq-ok (advance (entry (lookup prefix d)) (some s)) _ rest in
    let (old, new, either) = advance-Covers (entry (lookup prefix d)) (some s) advanced in
    let object : s.object ≡ object_name prefix s.state_version =
      ground (arith, ==_iff s.object (object_name prefix s.state_version)) in
    let root =
      IsRooted-either prefix (entry (lookup prefix d)) s (rooted prefix)
        (rw object (starts_with-object_name prefix s.state_version)) either in
    subst (λ x. Grows d x × Covers (entry (lookup prefix x)) (some s))
      (let q : insert prefix r d ≡ d' = cc in q)
      (
        insert-Grows prefix r d old root,
        rw (entry-insert prefix prefix r d) (rw (==_refl prefix) new),
      )

Grows-AllRooted : {d e : Newest} → Grows d e → AllRooted d → AllRooted e
Grows-AllRooted g h = λ p. g.rooted p (h p)

add_streams-Grows :
    (id : Text) (d : Newest) (heads : List StreamHead) {d' : Newest}
    → AllRooted d
    → add_streams id d heads ≡ ok d'
    → Grows d d' × All (CoversHead d') heads
unfolding add_streams
add_streams-Grows id d [] rooted e = (subst (Grows d) (let q : d ≡ _ = cc in q) (Grows-refl d), tt)
add_streams-Grows id d (h ∷ heads) rooted e =
    let (_, own, rest) =
      >>=-eq-ok (ensure (h.stream.session == id) "replica returned another session's stream") _ e in
    let (d₁, added, rest') = >>=-eq-ok (add_latest d h h.latest) _ rest in
    let (first, covered) = add_latest-Grows d h h.latest rooted added in
    let (later, all_covered) = add_streams-Grows id d₁ heads (Grows-AllRooted first rooted) rest' in
    (Grows-trans first later, (Grows-CoversHead h later covered, all_covered))

-- The streams of a complete witness are covered.
abbrev pub CoversWitness : Newest → SessionHead → Bool → Type 0
CoversWitness d head true = All (CoversHead d) head.streams
CoversWitness d head false = Unit

abbrev pub CoversAnswer : Newest → Result SessionHead → Type 0
CoversAnswer d (err e) = Unit
CoversAnswer d (ok head) = CoversWitness d head (head.initialized && head.sealed)

All-CoversHead :
    {d e : Newest} (hs : List StreamHead)
    → Grows d e
    → All (CoversHead d) hs
    → All (CoversHead e) hs
All-CoversHead [] g c = tt
All-CoversHead (h ∷ hs) g c = (Grows-CoversHead h g c.0, All-CoversHead hs g c.1)

Grows-CoversWitness :
    {d e : Newest} (head : SessionHead) (b : Bool)
    → Grows d e
    → CoversWitness d head b
    → CoversWitness e head b
Grows-CoversWitness head true g c = All-CoversHead head.streams g c
Grows-CoversWitness head false g c = tt

Grows-CoversAnswer :
    {d e : Newest} (a : Result SessionHead) → Grows d e → CoversAnswer d a → CoversAnswer e a
Grows-CoversAnswer (err x) g c = tt
Grows-CoversAnswer (ok head) g c = Grows-CoversWitness head (head.initialized && head.sealed) g c

-- An answer is a complete witness.
abbrev pub is_witness : Result SessionHead → Bool
is_witness (err e) = false
is_witness (ok head) = head.initialized && head.sealed

add_answer-Grows :
    (id : Text) (seen : Witnesses) (a : Result SessionHead) {seen' : Witnesses}
    → AllRooted seen.snapshots
    → add_answer id seen a ≡ ok seen'
    → Grows seen.snapshots seen'.snapshots
      × CoversAnswer seen'.snapshots a
      × ((is_witness a ≡ true) ⊎ (seen'.count ≡ seen.count))
unfolding add_answer
add_answer-Grows id seen (err x) rooted e =
    subst
      (λ (w : Witnesses).
        Grows seen.snapshots w.snapshots × Unit × ((false ≡ true) ⊎ (w.count ≡ seen.count)))
      (let q : seen ≡ _ = cc in q) (Grows-refl seen.snapshots, tt, inr refl)
add_answer-Grows id seen (ok head) {seen'} rooted e =
    let (_, own, rest) =
      >>=-eq-ok (ensure (head.session == id) "replica returned another session") _ e in
    elim (Bool-cases (head.initialized && head.sealed)) [
      | inl complete ↦
          let (d, streams, counted) = >>=-eq-ok (add_streams id seen.snapshots head.streams) _ (
            let q : (add_streams id seen.snapshots head.streams >>= λ d.
            ok (let w : Witnesses = record { count = suc seen.count; snapshots = d } in w))
                ≡ ok seen' =
              ground (arith, rest, complete) in
            q) in
          let (grows, covered) = add_streams-Grows id seen.snapshots head.streams rooted streams in
          let same : d ≡ seen'.snapshots = ground (arith, counted) in
          (
            subst (Grows seen.snapshots) same grows,
            rw complete (subst (λ x. All (CoversHead x) head.streams) same covered),
            inl complete,
          )
      | inr partial ↦
          let same : seen ≡ seen' = ground (arith, rest, partial) in
          subst
            (λ (w : Witnesses).
              Grows seen.snapshots w.snapshots
              × CoversWitness w.snapshots head (head.initialized && head.sealed)
              × ((is_witness (ok head) ≡ true) ⊎ (w.count ≡ seen.count)))
            same (Grows-refl seen.snapshots, rw partial tt, inr refl)
    ]

pub add_answers-Grows :
    (id : Text) (seen : Witnesses) (answers : List (Result SessionHead)) {seen' : Witnesses}
    → AllRooted seen.snapshots
    → add_answers id seen answers ≡ ok seen'
    → Grows seen.snapshots seen'.snapshots
      × AllRooted seen'.snapshots
      × All (CoversAnswer seen'.snapshots) answers
      × ((any is_witness answers ≡ true) ⊎ (seen'.count ≡ seen.count))
unfolding add_answers
add_answers-Grows id seen [] rooted e =
    subst
      (λ (w : Witnesses).
        Grows seen.snapshots w.snapshots
        × AllRooted w.snapshots
        × Unit
        × ((false ≡ true) ⊎ (w.count ≡ seen.count)))
      (let q : seen ≡ _ = cc in q) (Grows-refl seen.snapshots, rooted, tt, inr refl)
add_answers-Grows id seen (a ∷ answers) {seen'} rooted e =
    let (seen₁, added, rest) = >>=-eq-ok (add_answer id seen a) _ e in
    let (first, covered, witness) = add_answer-Grows id seen a rooted added in
    let (later, rooted', all_covered, more) =
      add_answers-Grows id seen₁ answers (Grows-AllRooted first rooted) rest in
    (
      Grows-trans first later,
      rooted',
      (Grows-CoversAnswer a later covered, all_covered),
      ground (arith, witness, more),
    )
