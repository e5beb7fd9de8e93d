-- ===== src/Authority/FileBucket.antt =====
-- The bucket over a directory (src/bucket/file.rs). A file holds its generation and its bytes; the
-- state maps the keys to them, and each call runs under the lock of its file.
pub mod Lawfulness
use little_actors.Prelude.{
  ℕ, ◌+◌, ◌-◌, ◌^◌, Bool, true, false, not, ◌&&◌, ◌||◌, Option, none, some, List, [], ◌∷◌, ◌++◌,
  ◌==◌, eqb, ltb, leb, all, any, length, Result, ok, err, ◌>>=◌, ◌>>◌, Checked, ensure, context,
  if◌then◌else◌, String,
}
use little_actors.Prelude.Dict.{Dict, lookup, insert}
use little_actors.Prelude.Text.{Text, text, text_eq, text_leb, starts_with}
use little_actors.Authority.Bucket.{Bucket, BucketObject, generation_of}

abbrev pub i64_max : ℕ
i64_max = 2 ^ 63 - 1

-- `key.split('/')`: the part before the first separator, and the parts after it.
unfoldable pub split_on : ℕ → Text → Text × List Text
split_on c [] = ([], [])
split_on c (b ∷ s) =
    let (part, parts) = split_on c s in if eqb b c then ([], part ∷ parts) else (b ∷ part, parts)

unfoldable pub valid_part : Text → Bool
valid_part [] = false
valid_part (b ∷ part) = not (eqb b b'.') && not (any (λ x. eqb x 0x5C) (b ∷ part))

-- `object_path`: the key itself, if it is a path
unfoldable pub object_path : Text → Result Text
unfolding split_on valid_part
object_path key = do
  let (part, parts) = split_on b'/' key
  ensure (not (key == []) && all valid_part (part ∷ parts)) "invalid bucket object path"
  ok key

abbrev pub same_generation : Option ℕ → Option ℕ → Bool
same_generation none none = true
same_generation (some a) (some b) = eqb a b
same_generation a b = false

-- `generation.unwrap_or(0).checked_add(1)`
abbrev pub next_generation : Option ℕ → Result ℕ
next_generation none = ok 1
next_generation (some g) =
    if leb (g + 1) i64_max then ok (g + 1) else err "bucket generation overflow"

abbrev pub Directory : Type 0 → Type 0
Directory Bytes = Dict Text (BucketObject Bytes)

unfoldable pub insert_key : Text → List Text → List Text
insert_key key [] = key ∷ []
insert_key key (other ∷ keys) =
    if text_leb key other then key ∷ other ∷ keys else other ∷ insert_key key keys

module _ {Bytes : Type 0} where
  unfoldable pub swap_at :
      Directory Bytes
      → Text
      → Option ℕ
      → Bytes
      → Option (BucketObject Bytes)
      → Directory Bytes × Result Bool
  swap_at directory path expected bytes object =
      if same_generation (generation_of object) expected
      then (elim (next_generation (generation_of object)) [
        | ok next ↦ (insert path (record { generation = next; bytes = bytes }) directory, ok true)
        | err e ↦ (directory, err e)
      ])
      else (directory, ok false)

  unfoldable pub get : Directory Bytes → Text → Result (Option (BucketObject Bytes))
  get directory key = do path ← object_path key; ok (lookup path directory)

  unfoldable pub compare_and_swap :
      Directory Bytes → Text → Option ℕ → Bytes → Directory Bytes × Result Bool
  unfolding swap_at
  compare_and_swap directory key expected bytes = elim (object_path key) [
    | ok path ↦ swap_at directory path expected bytes (lookup path directory)
    | err e ↦ (directory, err e)
  ]

  -- The keys with a prefix, in order.
  unfoldable pub keys_with : Text → Directory Bytes → List Text
  keys_with prefix [] = []
  keys_with prefix ((key, object) ∷ directory) =
      if starts_with prefix key
      then insert_key key (keys_with prefix directory)
      else keys_with prefix directory

  unfoldable pub list : Directory Bytes → Text → Result (List Text)
  unfolding keys_with insert_key text_leb
  list directory prefix = ok (keys_with prefix directory)

abbrev pub file_bucket : (Bytes : Type 0) → Bucket Bytes
file_bucket Bytes = record {
  State = Directory Bytes;
  get = get;
  compare_and_swap = compare_and_swap;
  list = list;
}
