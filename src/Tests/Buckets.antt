-- ===== src/Tests/Buckets.antt =====
-- Runs of the authority's records (src/bucket/file.rs, src/bucket.rs, src/bucket/runtime/session.rs).
use little_actors.Prelude.{
  nat_eq, ℕ, true, ◌≡◌, ◌≢◌, ◌⊎◌, refl, Option, none, some, List, [], ◌∷◌, Result, ok, err, any,
  all, arith,
}
use little_actors.Prelude.Dict.{lookup, insert, remove}
use little_actors.Prelude.Text.{Text, text, text_eq, text_beq}
use little_actors.Naming.{object_name, decimal, digit_byte, snapshot_position}
use little_actors.Naming.Positions.{epoch_prefix, snapshot_position-object_name}
use little_actors.Replica.{SessionHead}
use little_actors.Authority.{Session, is_open}
use little_actors.Authority.Bucket.{BucketObject, Lawful, replace}
use little_actors.Authority.Bucket.Replacing.{replace-race, replace-stale}
use little_actors.Authority.FileBucket.{
  Directory, file_bucket, get, compare_and_swap, swap_at, object_path, split_on, valid_part,
}
use little_actors.Authority.FileBucket.Lawfulness.{file_bucket-Lawful}
use little_actors.Authority.Advance.{advance}
use little_actors.Authority.Sealing.{
  seal_replicas, is_empty, add_answers, add_answer, add_streams, add_latest, known_snapshots,
}
use little_actors.Actor.{
  ActorKey, storage_key, validate, validate_component, validate_storage_key, component_byte,
  has_control, is_ascii_digit, is_ascii_lowercase, is_ascii_uppercase,
}
use little_actors.Authority.Paths.{actor_from_key}
use little_actors.Authority.Paths.Reading.{actor_from_key-storage_key}
use little_actors.Authority.Coverage.{recovers, seal_replicas_covers}
use little_actors.Authority.Growth.{is_witness}
use little_actors.Tests.Replicas.{one_stream, first_ref}

-- The directory holds one file, with the bytes 7.
abbrev one_file : Directory ℕ
one_file = (text "a", record { generation = 1; bytes = 7 }) ∷ []

abbrev file_7 : Option (BucketObject ℕ)
file_7 = some (record { generation = 1; bytes = 7 })

abbrev after_8 : Directory ℕ
after_8 = (replace (file_bucket ℕ) (text "a") (some 1) 8 one_file).0

file_bucket-Lawful_example : Lawful (file_bucket ℕ)
file_bucket-Lawful_example = file_bucket-Lawful ℕ

replace-race_example :
    ((replace (file_bucket ℕ) (text "a") (some 1) 9 after_8).1 ≢ ok true)
    × ((object : BucketObject ℕ) × (get
            (replace (file_bucket ℕ) (text "a") (some 1) 9 after_8).0
            (text "a")
          ≡ ok (some object))
        × (object.bytes ≡ 8))
unfolding replace get compare_and_swap swap_at object_path split_on valid_part lookup insert remove
    text_beq
replace-race_example =
    replace-race (file_bucket ℕ) (file_bucket-Lawful ℕ) one_file (text "a") 8 9 file_7 refl
      (omega arith) (omega arith) refl

replace-stale_example :
    ((replace (file_bucket ℕ) (text "a") none 9 one_file).1 ≢ ok true)
    × ((j : Text) → get (replace (file_bucket ℕ) (text "a") none 9 one_file).0 j ≡ get one_file j)
unfolding get object_path split_on valid_part lookup text_beq
replace-stale_example =
    replace-stale (file_bucket ℕ) (file_bucket-Lawful ℕ) one_file (text "a") none 9 file_7 refl
      (λ e. cc) (omega arith)

snapshot_position-object_name_example :
    snapshot_position (object_name (epoch_prefix (text "root") 17) 42) ≡ some (17, 42)
snapshot_position-object_name_example =
    snapshot_position-object_name (text "root") 17 42 (omega arith) (omega arith)

abbrev sealing_session : Session
sealing_session = record {
  id = text "s";
  region = text "r";
  replicas = record { host_id = text "h"; url = text "u"; region = text "r" } ∷ [];
  state = is_open;
}

-- One peer fails, one has a head.
abbrev two_answers : List (Result SessionHead)
two_answers =
    err "unreachable"
    ∷ ok (record {
      session = text "s";
      initialized = true;
      sealed = true;
      streams = record { stream = one_stream; latest = some first_ref } ∷ [];
    })
    ∷ []

seal_replicas_covers_example :
    (all (recovers (first_ref ∷ [])) two_answers ≡ true)
    × ((is_empty sealing_session.replicas ≡ true) ⊎ (any is_witness two_answers ≡ true))
unfolding seal_replicas add_answers add_answer add_streams add_latest known_snapshots advance lookup
    insert remove text_beq object_name decimal digit_byte
seal_replicas_covers_example =
    seal_replicas_covers sealing_session two_answers (first_ref ∷ []) refl

abbrev an_actor : ActorKey
an_actor = record { project_id = text "p"; actor_name = text "n"; actor_id = text "i" }

actor_from_key-storage_key_example : actor_from_key (storage_key an_actor) ≡ ok an_actor
unfolding validate validate_component validate_storage_key component_byte has_control is_ascii_digit
    is_ascii_lowercase is_ascii_uppercase storage_key text_beq
actor_from_key-storage_key_example = actor_from_key-storage_key an_actor refl
