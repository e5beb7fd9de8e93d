-- ===== src/Tests/Takeovers.antt =====
-- Runs of finding the newest snapshot and of taking an actor over (src/bucket/runtime.rs,
-- src/bucket/runtime/activation.rs).
use little_actors.Prelude.{ℕ, false, Option, Result, ◌≡◌, ◌++◌, refl, none, some, ◌∷◌, ok}
use little_actors.Prelude.Text.{Text, starts_with, text, text_beq, text_leb}
use little_actors.Replica.{SnapshotRef, snapshot_beq, stream_beq}
use little_actors.Authority.FileBucket.{
  Directory, compare_and_swap, get, insert_key, keys_with, list, object_path, split_on, swap_at,
  valid_part,
}
use little_actors.Authority.Latest.{
  latest, load, load_candidate, load_key, read_owner, recover_snapshot, restore_from,
  restore_session,
}
use little_actors.Authority.Latest.Covering.{IsNewest, latest-IsNewest}
use little_actors.Lease.{HostLeaseRequest, validate_duration}
use little_actors.Authority.{Ownership, scope}
use little_actors.Authority.FileBucket.Lawfulness.{file_bucket-Lawful}
use little_actors.Authority.Newest.{
  LoadedSnapshot, add_heads, candidate_of, consider, decode_snapshot, newer_key, newest_key,
}
use little_actors.Authority.Leasing.{
  check_previous, check_request, new_lease, next_epoch, no_inventory,
}
use little_actors.Authority.Activation.{
  grant_activation, load_current, new_ownership, recover_session, register_activation,
  register_over, replace_activation, save_activation, take_over,
}
use little_actors.Authority.Activation.Granting.{IsFree, IsGranted, register_activation-IsGranted}
use little_actors.Actor.{
  actor_beq, component_byte, has_control, is_ascii_digit, is_ascii_lowercase, is_ascii_uppercase,
  region_byte, storage_key, validate, validate_component, validate_region, validate_storage_key,
}
use little_actors.Authority.Advance.{advance}
use little_actors.Authority.Bucket.{replace}
use little_actors.Authority.Paths.{
  actor_from_key, actor_path, host_path, identity, is_ascii_hexdigit, owner, scope_identity,
  session_key, session_path, snapshot_object_name, snapshots, stream, strip_prefix,
}
use little_actors.Authority.Recovery.{
  finish_recovery, finish_round, loop, members_of, replica_members, save_session, start_recovery,
  tombstone,
}
use little_actors.Authority.Sealing.{seal_replicas}
use little_actors.Naming.{
  decimal, digit_byte, digit_value, from_str_radix, hex32, last_part, object_name, parse_digits,
  push_digit, rsplit_once, snapshot_position, strip_suffix,
}
use little_actors.Prelude.Dict.{insert, lookup, remove}
use little_actors.Replica.Store.{decode, reference}
use little_actors.Tests.Documents.{ownership, Document, snapshot, documents}
use little_actors.Tests.Replicas.{version}
use little_actors.Tests.Recoveries.{
  an_actor, an_owner_key, an_ownership, bucket, no_peers, a_directory,
}

-- Two snapshots of the owner's epoch.
abbrev epoch_prefix_key : Text
epoch_prefix_key = text "durable-actors/v3/snapshots/00/p/n/i/00000000000000000000000000000001/"

abbrev with_snapshots : Directory Document
with_snapshots =
    (epoch_prefix_key ++ text "1.json", record { generation = 1; bytes = snapshot (version 1) })
    ∷ (epoch_prefix_key ++ text "3.json", record { generation = 1; bytes = snapshot (version 3) })
    ∷ a_directory

abbrev newest_snapshot : SnapshotRef
newest_snapshot = record {
  object = epoch_prefix_key ++ text "3.json";
  state_version = 3;
  request_id = text "r";
  digest = text "r";
}

found_newest : latest documents bucket no_peers an_ownership none with_snapshots ≡ (
  with_snapshots,
  ok (some (record { reference = newest_snapshot; bytes = snapshot (version 3) })),
)
unfolding latest stream snapshot_object_name validate validate_component text_beq component_byte
    validate_storage_key storage_key hex32 is_ascii_hexdigit snapshots strip_suffix object_name list
    newest_key starts_with snapshot_position has_control is_ascii_digit is_ascii_lowercase
    is_ascii_uppercase advance replace insert_key keys_with load_candidate load_key recover_snapshot
    add_heads candidate_of consider decode_snapshot newer_key actor_path host_path identity
    scope_identity session_key session_path members_of replica_members decimal digit_byte
    digit_value from_str_radix last_part parse_digits push_digit rsplit_once text_leb decode
    reference snapshot_beq stream_beq little_actors.Snapshot.validate get object_path split_on
    valid_part lookup scope
found_newest = refl

latest-IsNewest_example :
    IsNewest documents bucket no_peers with_snapshots an_ownership (some newest_snapshot)
latest-IsNewest_example =
    latest-IsNewest documents bucket no_peers an_ownership none
      (some (record { reference = newest_snapshot; bytes = snapshot (version 3) })) with_snapshots
      with_snapshots found_newest

-- The owner's lease is over when another session asks for the actor.
abbrev with_owner : Directory Document
with_owner =
    (an_owner_key, record { generation = 1; bytes = ownership an_ownership }) ∷ with_snapshots

abbrev later_request : HostLeaseRequest
later_request = record { id = text "g"; session_id = text "t"; route = text "v"; duration_ms = 100 }

abbrev taken_over : Directory Document × Result (Ownership × Option (LoadedSnapshot Document))
taken_over =
    register_activation documents bucket no_peers 1 2000 2000 (text "k") an_actor later_request
      (text "r") false with_owner

abbrev newest_loaded : LoadedSnapshot Document
newest_loaded = record { reference = newest_snapshot; bytes = snapshot (version 3) }

abbrev next_ownership : Ownership
next_ownership = record {
  inventory = no_inventory;
  lease = record { id = text "g"; session_id = text "t"; route = text "v"; expires_at_ms = 2100 };
  mutation = text "k";
  actor = an_actor;
  epoch = 2;
  region = text "r";
  base = some newest_snapshot;
}

takes_over : taken_over ≡ (taken_over.0, ok (next_ownership, some newest_loaded))
unfolding latest stream snapshot_object_name validate validate_component text_beq component_byte
    validate_storage_key storage_key hex32 is_ascii_hexdigit snapshots strip_suffix object_name list
    newest_key starts_with snapshot_position has_control is_ascii_digit is_ascii_lowercase
    is_ascii_uppercase advance replace insert_key keys_with load_candidate load_key recover_snapshot
    add_heads candidate_of consider decode_snapshot newer_key actor_path host_path identity
    scope_identity session_key session_path members_of replica_members decimal digit_byte
    digit_value from_str_radix last_part parse_digits push_digit rsplit_once text_leb decode
    reference snapshot_beq stream_beq little_actors.Snapshot.validate get object_path split_on
    valid_part lookup scope register_activation register_over grant_activation new_ownership
    load_current take_over save_activation replace_activation check_request check_previous new_lease
    next_epoch validate_region validate_duration region_byte owner actor_from_key strip_prefix
    compare_and_swap swap_at insert remove load read_owner start_recovery finish_recovery
    finish_round loop save_session tombstone restore_session restore_from seal_replicas
    recover_session actor_beq
takes_over = refl

register_activation-IsGranted_example :
    (current : Option (ℕ × Ownership)) × ((load_current documents bucket no_peers an_actor false
        with_owner).1
      ≡ ok current)
    × IsFree documents bucket 2000 an_actor later_request (text "r") current
    × IsGranted documents bucket 2000
        (text "k")
        an_actor
        later_request
        (text "r")
        current
        (some newest_loaded)
        taken_over.0
        next_ownership
register_activation-IsGranted_example =
    register_activation-IsGranted documents bucket no_peers (file_bucket-Lawful Document) 1 2000
      2000 (text "k") an_actor later_request (text "r") false with_owner taken_over.0 next_ownership
      (some newest_loaded) takes_over
