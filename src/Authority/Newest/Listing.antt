-- ===== src/Authority/Newest/Listing.antt =====
-- The newest key that the bucket lists for an epoch (src/bucket/runtime.rs).
use little_actors.Prelude.{
  ℕ, true, false, ◌≡◌, refl, sym, ◌⊎◌, inl, inr, Option, none, some, List, [], ◌∷◌, All, eqb,
  Bool-cases, subst,
}
use little_actors.Prelude.Text.{Text}
use little_actors.Naming.{Position, snapshot_position}
use little_actors.Replica.{SnapshotRef}
use little_actors.Authority.Advance.{
  position_ltb, position_leb, position_leb_refl, position_leb_trans, position_ltb→leb,
}
use little_actors.Authority.Newest.{newer_key, consider, newest_key}

abbrev pub key_position : Option (Position × Text) → Option Position
key_position none = none
key_position (some (position, key)) = some position

-- The position of a snapshot, or of none.
abbrev pub position_of : Option SnapshotRef → Option Position
position_of none = none
position_of (some r) = snapshot_position r.object

-- A key that names a snapshot of the epoch is not newer than a position.
abbrev pub IsPassed : ℕ → Option Position → Option Position → Type 0
IsPassed epoch position none = Unit
IsPassed epoch position (some (e, v)) =
    (eqb e epoch ≡ false) ⊎ (position_leb (some (e, v)) position ≡ true)

-- What was found is the position of its key.
abbrev pub IsKeyOf : Option (Position × Text) → Type 0
IsKeyOf none = Unit
IsKeyOf (some (position, key)) = snapshot_position key ≡ some position

pub none-leb : (a : Option Position) → position_leb none a ≡ true
none-leb none = refl
none-leb (some a) = refl

IsPassed-trans :
    (epoch : ℕ) (a b key : Option Position)
    → position_leb a b ≡ true
    → IsPassed epoch a key
    → IsPassed epoch b key
IsPassed-trans epoch a b none h p = tt
IsPassed-trans epoch a b (some (e, v)) h (inl other) = inl other
IsPassed-trans epoch a b (some (e, v)) h (inr passed) =
    inr (position_leb_trans (some (e, v)) a b passed h)

pub older_keys :
    (epoch : ℕ) (a b : Option Position) (keys : List Text)
    → position_leb a b ≡ true
    → All (λ key. IsPassed epoch a (snapshot_position key)) keys
    → All (λ key. IsPassed epoch b (snapshot_position key)) keys
older_keys epoch a b [] h p = tt
older_keys epoch a b (key ∷ keys) h (p, all_passed) =
    (IsPassed-trans epoch a b (snapshot_position key) h p, older_keys epoch a b keys h all_passed)

module _ (epoch : ℕ) where
  -- The better of two: it is the position of its key, and as new as both.
  abbrev IsBetter : Option (Position × Text) → Option Position → Option (Position × Text) → Type 0
  IsBetter best key found =
      IsKeyOf found
      × (position_leb (key_position best) (key_position found) ≡ true)
      × IsPassed epoch (key_position found) key

  newer_key-IsBetter :
      (best : Option (Position × Text)) (position : Position) (key : Text)
      → IsKeyOf best
      → snapshot_position key ≡ some position
      → IsBetter best (some position) (newer_key best position key)
  unfolding newer_key
  newer_key-IsBetter none position key b k = (k, refl, inr (position_leb_refl (some position)))
  newer_key-IsBetter (some (best, best_key)) position key b k =
      elim (Bool-cases (position_ltb (some position) (some best))) [
        | inl older ↦ rw older (
          b,
          position_leb_refl (some best),
          inr (position_ltb→leb (some position) (some best) older),
        )
        | inr newer ↦ rw newer (k, rw newer refl, inr (position_leb_refl (some position)))
      ]

  consider-IsBetter :
      (best : Option (Position × Text)) (key : Text) (position : Option Position)
      → IsKeyOf best
      → snapshot_position key ≡ position
      → IsBetter best position (consider epoch best key position)
  unfolding consider
  consider-IsBetter best key none b k = (b, position_leb_refl (key_position best), tt)
  consider-IsBetter best key (some (e, v)) b k = elim (Bool-cases (eqb e epoch)) [
    | inl same ↦
        let found : consider epoch best key (some (e, v)) ≡ newer_key best (e, v) key =
          rw same refl in
        subst (IsBetter best (some (e, v))) (sym found) (newer_key-IsBetter best (e, v) key b k)
    | inr other ↦ rw other (b, position_leb_refl (key_position best), inl refl)
  ]

  -- The key that is found is as new as every one that names a snapshot of the epoch.
  pub newest_key-IsPassed :
      (best : Option (Position × Text)) (keys : List Text)
      → IsKeyOf best
      → IsKeyOf (newest_key epoch best keys)
        × (position_leb (key_position best) (key_position (newest_key epoch best keys)) ≡ true)
        × All
            (λ key.
              IsPassed epoch (key_position (newest_key epoch best keys)) (snapshot_position key))
            keys
  unfolding newest_key
  newest_key-IsPassed best [] b = (b, position_leb_refl (key_position best), tt)
  newest_key-IsPassed best (key ∷ keys) b =
      let next = consider epoch best key (snapshot_position key) in
      let (n, better, passed) = consider-IsBetter best key (snapshot_position key) b refl in
      let (k, rest, all_passed) = newest_key-IsPassed next keys n in
      let found = newest_key epoch next keys in
      (
        k,
        position_leb_trans (key_position best) (key_position next) (key_position found) better rest,
        (
          IsPassed-trans epoch (key_position next) (key_position found) (snapshot_position key) rest
              passed,
          all_passed,
        ),
      )
