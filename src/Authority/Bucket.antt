-- ===== src/Authority/Bucket.antt =====
-- The bucket that holds the authoritative records, as an interface, and the write that makes up for
-- a lost answer (src/bucket.rs).
pub mod Replacing
use little_actors.Prelude.{
  ℕ, ◌<◌, Bool, true, false, ◌≡◌, ◌≢◌, refl, ap, ◌∙◌, Option, none, some, List, ◌⊎◌, inl, inr,
  Result, ok, err, Eq, ◌==◌, arith, if◌then◌else◌,
}
use little_actors.Prelude.Action.{Action}
use little_actors.Prelude.Text.{Text}

pub record BucketObject (Bytes : Type 0) : Type 0 where
  pub generation : ℕ
  pub bytes : Bytes

abbrev pub generation_of : {Bytes : Type 0} → Option (BucketObject Bytes) → Option ℕ
generation_of none = none
generation_of (some o) = some o.generation

-- The trait `Bucket`, over a type of states.
pub record Bucket (Bytes : Type 0) : Type 1 where
  pub State : Type 0
  pub get : State → Text → Result (Option (BucketObject Bytes))
  pub compare_and_swap : State → Text → Option ℕ → Bytes → State × Result Bool
  pub list : State → Text → Result (List Text)

-- An object was written: it was at the expected generation, it now holds the bytes at a later
-- generation, and no other object changed.
pub record IsWritten {Bytes : Type 0} (b : Bucket Bytes) (s : Bucket.State b) (k : Text)
    (g : Option ℕ) (v : Bytes) (t : Bucket.State b) : Type 0 where
  pub before : Option (BucketObject Bytes)
  pub was : b.get s k ≡ ok before
  pub expected : generation_of before ≡ g
  pub after : BucketObject Bytes
  pub now : b.get t k ≡ ok (some after)
  pub holds : after.bytes ≡ v
  pub fresh : some after.generation ≢ g
  pub others : (j : Text) → j ≢ k → b.get t j ≡ b.get s j

-- What the callers rely on: a call has no effect, or the whole; `true` is said of a write that was
-- made; `false` at the generation that the object has only of a write whose answer was lost.
pub record Lawful {Bytes : Type 0} (b : Bucket Bytes) : Type 0 where
  pub effect :
      (s : Bucket.State b) (k : Text) (g : Option ℕ) (v : Bytes)
      → ((j : Text) → b.get (b.compare_and_swap s k g v).0 j ≡ b.get s j)
        ⊎ IsWritten b s k g v (b.compare_and_swap s k g v).0
  pub truthful :
      (s : Bucket.State b) (k : Text) (g : Option ℕ) (v : Bytes)
      → (b.compare_and_swap s k g v).1 ≡ ok true
      → IsWritten b s k g v (b.compare_and_swap s k g v).0
  pub refusal :
      (s : Bucket.State b) (k : Text) (g : Option ℕ) (v : Bytes) (o : Option (BucketObject Bytes))
      → (b.compare_and_swap s k g v).1 ≡ ok false
      → b.get s k ≡ ok o
      → generation_of o ≡ g
      → IsWritten b s k g v (b.compare_and_swap s k g v).0

module _ {Bytes : Type 0} ⦃e : Eq Bytes⦄ (b : Bucket Bytes) where
  -- A retry can report a failed precondition after the first request succeeded.
  check_written : Bytes → Result Bool → Result (Option (BucketObject Bytes)) → Result Bool
  check_written v r (ok (some object)) = if object.bytes == v then ok true else r
  check_written v r (ok none) = r
  check_written v r (err f) = err f

  replace_result : Bucket.State b → Text → Bytes → Result Bool → Result Bool
  unfolding check_written
  replace_result t k v (ok true) = ok true
  replace_result t k v (ok false) = check_written v (ok false) (b.get t k)
  replace_result t k v (err f) = check_written v (err f) (b.get t k)

  unfoldable pub replace : Text → Option ℕ → Bytes → Action (Bucket.State b) Bool
  unfolding replace_result
  replace k g v s = let (t, r) = b.compare_and_swap s k g v in (t, replace_result t k v r)
