-- ===== src/Authority/FileBucket/Lawfulness.antt =====
-- The contract of `Bucket` and the bucket over a directory (src/bucket/file.rs).
use little_actors.Prelude.{
  ℕ, Bool, true, false, ◌≡◌, ◌≢◌, refl, ap, ◌∙◌, sym, Option, none, some, Bool-cases, Result-cases,
  ◌⊎◌, inl, inr, Result, ok, err, ==_iff, ==_refl, arith, String,
}
use little_actors.Prelude.Dict.{lookup, insert, lookup-insert}
use little_actors.Prelude.Text.{Text, text_eq}
use little_actors.Authority.Bucket.{BucketObject, generation_of, IsWritten, Lawful}
use little_actors.Authority.FileBucket.{
  Directory, object_path, same_generation, next_generation, swap_at, get, compare_and_swap,
  file_bucket,
}

-- A path is the key itself.
object_path-eq : (k : Text) {p : Text} → object_path k ≡ ok p → p ≡ k
unfolding object_path
object_path-eq k h = ground arith

same_generation-eq : (a b : Option ℕ) → same_generation a b ≡ true → a ≡ b
same_generation-eq none none h = refl
same_generation-eq none (some b) h = cc
same_generation-eq (some a) none h = cc
same_generation-eq (some a) (some b) h = ground arith

same_generation_refl : (a : Option ℕ) → same_generation a a ≡ true
same_generation_refl none = refl
same_generation_refl (some a) = ground arith

next_generation-fresh : (g : Option ℕ) {n : ℕ} → next_generation g ≡ ok n → some n ≢ g
next_generation-fresh none h e = cc
next_generation-fresh (some g) h e = ground arith

module _ {Bytes : Type 0} where
  -- At a valid key, a swap either fails and changes nothing or writes.
  data SwapCase (s : Directory Bytes) (k : Text) (g : Option ℕ) (v : Bytes)
      (r : Directory Bytes × Result Bool) : Type 0 where
    failed : {e : String} → r ≡ (s, err e) → SwapCase s k g v r
    refused : generation_of (lookup k s) ≢ g → r ≡ (s, ok false) → SwapCase s k g v r
    wrote :
        (n : ℕ)
        → object_path k ≡ ok k
        → generation_of (lookup k s) ≡ g
        → some n ≢ g
        → r ≡ (insert k (record { generation = n; bytes = v }) s, ok true)
        → SwapCase s k g v r

  swap_at-cases :
      (s : Directory Bytes) (k : Text) (g : Option ℕ) (v : Bytes)
      → object_path k ≡ ok k
      → SwapCase s k g v (swap_at s k g v (lookup k s))
  unfolding swap_at
  swap_at-cases s k g v path = elim (Bool-cases (same_generation (generation_of (lookup k s)) g)) [
    | inl same ↦ elim (Result-cases (next_generation (generation_of (lookup k s)))) [
      | inl (n, e) ↦
          wrote n path (same_generation-eq _ _ same)
            (λ q.
              next_generation-fresh (generation_of (lookup k s)) e
                (q ∙ sym (same_generation-eq _ _ same)))
            (ground (arith, same, e))
      | inr (m, e) ↦ failed {e = m} (ground (arith, same, e))
    ]
    | inr other ↦
        refused (λ e. ground (arith, other, same_generation_refl g, e)) (ground (arith, other))
  ]

  compare_and_swap-cases :
      (s : Directory Bytes) (k : Text) (g : Option ℕ) (v : Bytes)
      → SwapCase s k g v (compare_and_swap s k g v)
  unfolding compare_and_swap
  compare_and_swap-cases s k g v = elim (Result-cases (object_path k)) [
    | inl (p, e) ↦
        let path : object_path k ≡ ok k = e ∙ ap (λ x. ok x) (object_path-eq k e) in
        rw (path, compare_and_swap) (swap_at-cases s k g v path)
    | inr (m, e) ↦ failed {e = m} (rw (e, compare_and_swap))
  ]

  get-insert :
      (s : Directory Bytes) (k : Text) (o : BucketObject Bytes)
      → object_path k ≡ ok k
      → get (insert k o s) k ≡ ok (some o)
  unfolding get
  get-insert s k o path = ground (arith, path, lookup-insert k k o s, ==_refl k)

  get-insert_ne :
      (s : Directory Bytes) (k j : Text) (o : BucketObject Bytes)
      → j ≢ k
      → get (insert k o s) j ≡ get s j
  unfolding get
  get-insert_ne s k j o ne = elim (Result-cases (object_path j)) [
    | inl (p, e) ↦
        let same = object_path-eq j e in
        rw e (rw same (rw (lookup-insert j k o s) (ground (arith, ==_iff k j))))
    | inr (m, e) ↦ rw e
  ]

  get_lookup : (s : Directory Bytes) (k : Text) → object_path k ≡ ok k → get s k ≡ ok (lookup k s)
  unfolding get
  get_lookup s k path = rw path

  found_lookup :
      (s : Directory Bytes) (k : Text) {o : Option (BucketObject Bytes)}
      → get s k ≡ ok o
      → lookup k s ≡ o
  unfolding get
  found_lookup s k h = elim (Result-cases (object_path k)) [
    | inl (p, e) ↦ rw (← object_path-eq k e) (ground (arith, e, h))
    | inr (m, e) ↦ absurd (ground (arith, e, h))
  ]

  SwapCase-IsWritten :
      (s : Directory Bytes) (k : Text) (g : Option ℕ) (v : Bytes) (n : ℕ)
      → object_path k ≡ ok k
      → generation_of (lookup k s) ≡ g
      → some n ≢ g
      → IsWritten (file_bucket Bytes) s k g v (insert k (record { generation = n; bytes = v }) s)
  SwapCase-IsWritten s k g v n path expected fresh = record {
    before = lookup k s;
    was = get_lookup s k path;
    expected = expected;
    after = record { generation = n; bytes = v };
    now = get-insert s k _ path;
    holds = refl;
    fresh = fresh;
    others = λ j ne. get-insert_ne s k j _ ne;
  }

  case-effect :
      (s : Directory Bytes) (k : Text) (g : Option ℕ) (v : Bytes)
      (r : Directory Bytes × Result Bool)
      → SwapCase s k g v r
      → ((j : Text) → get r.0 j ≡ get s j) ⊎ IsWritten (file_bucket Bytes) s k g v r.0
  case-effect s k g v r (failed e) = inl (λ j. rw e)
  case-effect s k g v r (refused stale e) = inl (λ j. rw e)
  case-effect s k g v r (wrote n path expected fresh e) =
      inr (rw e (SwapCase-IsWritten s k g v n path expected fresh))

  case-truthful :
      (s : Directory Bytes) (k : Text) (g : Option ℕ) (v : Bytes)
      (r : Directory Bytes × Result Bool)
      → SwapCase s k g v r
      → r.1 ≡ ok true
      → IsWritten (file_bucket Bytes) s k g v r.0
  case-truthful s k g v r (failed e) h = cc
  case-truthful s k g v r (refused stale e) h = cc
  case-truthful s k g v r (wrote n path expected fresh e) h =
      rw e (SwapCase-IsWritten s k g v n path expected fresh)

  case-refusal :
      (s : Directory Bytes) (k : Text) (g : Option ℕ) (v : Bytes)
      (r : Directory Bytes × Result Bool) (o : Option (BucketObject Bytes))
      → SwapCase s k g v r
      → r.1 ≡ ok false
      → get s k ≡ ok o
      → generation_of o ≡ g
      → IsWritten (file_bucket Bytes) s k g v r.0
  case-refusal s k g v r o (failed e) h found same = cc
  case-refusal s k g v r o (refused stale e) h found same =
      absurd (stale (ap generation_of (found_lookup s k found) ∙ same))
  case-refusal s k g v r o (wrote n path expected fresh e) h found same = cc

-- A call of `compare_and_swap` on the directory changes nothing, or writes the whole: the object was
-- at the expected generation, it then holds the bytes at another generation, and no other key
-- changed. If it answers `true` it wrote; so it did if it answers `false` at the generation that
-- the object had.
pub file_bucket-Lawful : (Bytes : Type 0) → Lawful (file_bucket Bytes)
file_bucket-Lawful Bytes = record {
  effect = λ s k g v. case-effect s k g v _ (compare_and_swap-cases s k g v);
  truthful = λ s k g v h. case-truthful s k g v _ (compare_and_swap-cases s k g v) h;
  refusal = λ s k g v o h found same.
      case-refusal s k g v _ o (compare_and_swap-cases s k g v) h found same;
}
