-- ===== src/Authority/Bucket/Replacing.antt =====
-- What `replace` guarantees over any lawful bucket (src/bucket.rs).
use little_actors.Prelude.{
  ℕ, Bool, true, false, ◌≡◌, ◌≢◌, refl, ◌∙◌, sym, Option, none, some, Bool-cases, Result-cases, ◌⊎◌,
  inl, inr, Result, ok, err, Eq, ◌==◌, ==_iff, arith, String,
}
use little_actors.Prelude.Text.{Text}
use little_actors.Authority.Bucket.{
  Bucket, BucketObject, generation_of, IsWritten, Lawful, check_written, replace_result, replace,
}

-- An object does not hold given bytes.
abbrev pub IsOther : {Bytes : Type 0} → Bytes → Option (BucketObject Bytes) → Type 0
IsOther v none = Unit
IsOther v (some o) = o.bytes ≢ v

module _ {Bytes : Type 0} ⦃e : Eq Bytes⦄ (b : Bucket Bytes) (laws : Lawful b) where
  check_written-true :
      (v : Bytes) (r : Result Bool) (o : Result (Option (BucketObject Bytes)))
      → check_written b v r o ≡ ok true
      → (r ≡ ok true)
        ⊎ ((object : BucketObject Bytes) × (o ≡ ok (some object)) × (object.bytes ≡ v))
  unfolding check_written
  check_written-true v r (ok (some object)) h = elim (Bool-cases (object.bytes == v)) [
    | inl same ↦ inr (object, refl, (==_iff object.bytes v).0 same)
    | inr other ↦ inl (rw other at h)
  ]
  check_written-true v r (ok none) h = inl h
  check_written-true v r (err f) h = cc

  replace_result-true :
      (t : Bucket.State b) (k : Text) (v : Bytes) (r : Result Bool)
      → replace_result b t k v r ≡ ok true
      → (r ≡ ok true)
        ⊎ ((object : BucketObject Bytes) × (b.get t k ≡ ok (some object)) × (object.bytes ≡ v))
  unfolding replace_result
  replace_result-true t k v (ok true) h = inl refl
  replace_result-true t k v (ok false) h = check_written-true v (ok false) (b.get t k) h
  replace_result-true t k v (err f) h = check_written-true v (err f) (b.get t k) h

  -- Success means that the object holds the bytes.
  pub replace-holds :
      (s : Bucket.State b) (k : Text) (g : Option ℕ) (v : Bytes)
      → (replace b k g v s).1 ≡ ok true
      → (object : BucketObject Bytes) × (b.get (replace b k g v s).0 k ≡ ok (some object))
        × (object.bytes ≡ v)
  unfolding replace
  replace-holds s k g v h =
      let (t, r) = b.compare_and_swap s k g v in
      elim (replace_result-true t k v r h) [
        | inl done ↦ let w = laws.truthful s k g v done in (w.after, w.now, w.holds)
        | inr held ↦ held
      ]

  -- The effect is none or the whole write.
  pub replace-effect :
      (s : Bucket.State b) (k : Text) (g : Option ℕ) (v : Bytes)
      → ((j : Text) → b.get (replace b k g v s).0 j ≡ b.get s j)
        ⊎ IsWritten b s k g v (replace b k g v s).0
  unfolding replace
  replace-effect s k g v = laws.effect s k g v

  -- A success that found other bytes has written.
  pub replace-wrote :
      (s : Bucket.State b) (k : Text) (g : Option ℕ) (v : Bytes) (o : Option (BucketObject Bytes))
      → b.get s k ≡ ok o
      → IsOther v o
      → (replace b k g v s).1 ≡ ok true
      → IsWritten b s k g v (replace b k g v s).0
  replace-wrote s k g v o found other h =
      let (object, now, holds) = replace-holds s k g v h in
      elim (replace-effect s k g v) [
        | inl same ↦ absurd (not_other o object (sym found ∙ sym (same k) ∙ now) holds other)
        | inr w ↦ w
      ]
    where
      not_other :
          (o : Option (BucketObject Bytes)) (object : BucketObject Bytes)
          → ok o ≡ ok (some object)
          → object.bytes ≡ v
          → IsOther v o
          → ⊥
      not_other none object h holds other = cc
      not_other (some x) object h holds other = other (cc)

  -- A writer whose generation is out of date fails and changes nothing, unless the object already
  -- holds its bytes.
  pub replace-stale :
      (s : Bucket.State b) (k : Text) (g : Option ℕ) (v : Bytes) (o : Option (BucketObject Bytes))
      → b.get s k ≡ ok o
      → generation_of o ≢ g
      → IsOther v o
      → ((replace b k g v s).1 ≢ ok true) × ((j : Text) → b.get (replace b k g v s).0 j ≡ b.get s j)
  replace-stale s k g v o found stale other = (
    λ h. clash (replace-wrote s k g v o found other h),
    elim (replace-effect s k g v) [ inl same ↦ same | inr w ↦ absurd (clash w) ],
  )
    where
      clash : {t : Bucket.State b} → IsWritten b s k g v t → ⊥
      clash w = stale (cc (found, w.was, w.expected))

  -- Two writers that read the same object and write different new bytes do not both succeed: after
  -- the first one did, the second one fails, and the object holds the first one's bytes.
  pub replace-race :
      (s : Bucket.State b) (k : Text) (v w : Bytes) (o : Option (BucketObject Bytes))
      → b.get s k ≡ ok o
      → IsOther v o
      → v ≢ w
      → (replace b k (generation_of o) v s).1 ≡ ok true
      → ((replace b k (generation_of o) w (replace b k (generation_of o) v s).0).1 ≢ ok true)
        × ((object : BucketObject Bytes) × (b.get
                (replace b k (generation_of o) w (replace b k (generation_of o) v s).0).0
                k
              ≡ ok (some object))
            × (object.bytes ≡ v))
  replace-race s k v w o found other differ h =
      let first = replace-wrote s k (generation_of o) v o found other h in
      let t = (replace b k (generation_of o) v s).0 in
      let second =
        replace-stale t k (generation_of o) w (some first.after) first.now first.fresh
          (λ e. differ (sym first.holds ∙ e)) in
      (second.0, (first.after, second.1 k ∙ first.now, first.holds))

  check_written-false :
      (v : Bytes) (r : Result Bool) (o : Option (BucketObject Bytes))
      → check_written b v r (ok o) ≡ ok false
      → (r ≡ ok false) × IsOther v o
  unfolding check_written
  check_written-false v r none h = (h, tt)
  check_written-false v r (some x) h = elim (Bool-cases (x.bytes == v)) [
    | inl same ↦ absurd (ground arith)
    | inr other ↦ (rw other at h, λ e. ground (arith, ==_iff x.bytes v))
  ]

  replace_result-false :
      (t : Bucket.State b) (k : Text) (v : Bytes) (r : Result Bool)
      → replace_result b t k v r ≡ ok false
      → (r ≡ ok false) × ((o : Option (BucketObject Bytes)) × (b.get t k ≡ ok o) × IsOther v o)
  unfolding replace_result
  replace_result-false t k v (ok true) h = cc
  replace_result-false t k v (ok false) h = elim (Result-cases (b.get t k)) [
    | inl (o, e) ↦
        let (same, other) = check_written-false v (ok false) o (rw e at h) in (same, (o, e, other))
    | inr (m, e) ↦ absurd (no_error m (rw e at h))
  ]
    where
      no_error : (m : String) → check_written b v (ok false) (err m) ≡ ok false → ⊥
      no_error m h = unfold check_written in cc
  replace_result-false t k v (err f) h = elim (Result-cases (b.get t k)) [
    | inl (o, e) ↦ absurd (no_answer (check_written-false v (err f) o (rw e at h)).0)
    | inr (m, e) ↦ absurd (no_error m (rw e at h))
  ]
    where
      no_answer : err f ≡ ok false → ⊥
      no_answer h = cc

      no_error : (m : String) → check_written b v (err f) (err m) ≡ ok false → ⊥
      no_error m h = unfold check_written in cc

  -- A write at the generation that was just read is not refused.
  pub replace-current :
      (s : Bucket.State b) (k : Text) (v : Bytes) (o : Option (BucketObject Bytes))
      → b.get s k ≡ ok o
      → (replace b k (generation_of o) v s).1 ≢ ok false
  unfolding replace
  replace-current s k v o found h =
      let (t, r) = b.compare_and_swap s k (generation_of o) v in
      let (refused, (x, now, other)) = replace_result-false t k v r h in
      let w = laws.refusal s k (generation_of o) v o refused found refl in
      not_other x w.after (sym now ∙ w.now) w.holds other
    where
      not_other :
          (x : Option (BucketObject Bytes)) (object : BucketObject Bytes)
          → ok x ≡ ok (some object)
          → object.bytes ≡ v
          → IsOther v x
          → ⊥
      not_other none object h holds other = cc
      not_other (some y) object h holds other = other (cc)
