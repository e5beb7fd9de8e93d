-- ===== src/Tests/Recoveries.antt =====
-- Runs of recovery and of activations (src/bucket/runtime).
use little_actors.Prelude.{
  ℕ, true, false, ◌≡◌, ◌≢◌, refl, Option, none, some, [], ◌∷◌, ok, err, arith, Result, List,
}
use little_actors.Prelude.Dict.{lookup, insert, remove}
use little_actors.Prelude.Text.{Text, text, text_eq, text_beq}
use little_actors.Actor.{
  ActorKey, storage_key, validate, validate_component, validate_storage_key, validate_region,
  component_byte, has_control, is_ascii_digit, is_ascii_lowercase, is_ascii_uppercase, region_byte,
}
use little_actors.Lease.{HostLeaseRequest, validate_duration, HostLease}
use little_actors.Replica.{ReplicaScope}
use little_actors.Authority.{Session, Ownership, recovering}
use little_actors.Authority.Bucket.{Bucket, BucketObject, replace}
use little_actors.Authority.FileBucket.{
  Directory, file_bucket, get, compare_and_swap, swap_at, object_path, split_on, valid_part,
}
use little_actors.Authority.FileBucket.Lawfulness.{file_bucket-Lawful}
use little_actors.Authority.Leasing.{no_inventory, check_request, new_lease, next_epoch}
use little_actors.Authority.Paths.{
  session_key, session_path, host_path, owner, actor_from_key, strip_prefix,
}
use little_actors.Authority.Peers.{Peers}
use little_actors.Authority.Recovery.{
  is_open_state, is_sealed_state, start_recovery, finish_recovery, register_initial_replicas,
  replace_replicas,
}
use little_actors.Authority.Recovery.Closing.{
  IsStored, Ends, start_recovery-Ends, finish_recovery-Ends,
}
use little_actors.Authority.Recovery.Fencing.{IsRefused, closed_session-IsRefused}
use little_actors.Authority.Activation.{
  register_activation, register_over, grant_activation, new_ownership, load_current, take_over,
  save_activation, replace_activation,
}
use little_actors.Authority.Activation.Granting.{IsLeased}
use little_actors.Prelude.{sym, ap}
use little_actors.Actor.{actor_beq}
use little_actors.Authority.Latest.{load, read_owner}
use little_actors.Authority.Leasing.{check_holder}
use little_actors.Authority.Activation.{
  renew_activation, renew_found, release_activation, release_in, release_found,
}
use little_actors.Authority.Activation.Granting.{IsOwned}
use little_actors.Authority.Activation.Holding.{IsHeld, renew_activation-IsHeld}
use little_actors.Authority.Activation.Releasing.{
  IsPlaced, is_released, release_activation-is_released,
}
use little_actors.Prelude.{All, all}
use little_actors.Replica.{SessionHead}
use little_actors.Replica.Store.{verify}
use little_actors.Snapshot.{StateSnapshot}
use little_actors.Naming.{object_name, decimal, digit_byte}
use little_actors.Authority.Advance.{advance}
use little_actors.Authority.Sealing.{
  seal_replicas, add_answers, add_answer, add_streams, add_latest, known_snapshots,
}
use little_actors.Authority.Coverage.{recovers}
use little_actors.Authority.Latest.{
  recover_snapshot, recover_found, recover_from, recover_answer, persist,
}
use little_actors.Authority.Latest.Keeping.{IsKept, Extends, recover_snapshot-IsKept}
use little_actors.Authority.Activation.{recover_all}
use little_actors.Authority.Activation.Retiring.{IsSafe, retired-IsSafe}
use little_actors.Tests.Replicas.{version, one_stream, first_ref}
use little_actors.Tests.Documents.{snapshot}
use little_actors.Authority.Activation.Racing.{save_activation-race}
use little_actors.Tests.Documents.{Document, read_ownership, session, ownership, documents}

abbrev pub no_peers : Peers Document
no_peers = record {
  heads = λ targets stream. [];
  seals = λ targets id. [];
  read = λ target object. err "unreachable";
  initialize = λ target id. err "unreachable";
  append = λ target stream bytes. err "unreachable";
}

abbrev pub an_actor : ActorKey
an_actor = record { project_id = text "p"; actor_name = text "n"; actor_id = text "i" }

abbrev a_scope : ReplicaScope
a_scope = record { actor = an_actor; host = text "h"; session = text "s"; region = text "r" }

abbrev recovering_session : Session
recovering_session = record {
  id = text "durable-actors/v3/hosts/h/sessions/s/";
  region = text "r";
  replicas = [];
  state = recovering;
}

abbrev pub a_directory : Directory Document
a_directory =
    (
      text "durable-actors/v3/hosts/h/sessions/s.json",
      record { generation = 1; bytes = session recovering_session },
    )
    ∷ []

abbrev pub bucket : Bucket Document
bucket = file_bucket Document

start_recovery-Ends_example :
    Ends documents bucket
      (session_key documents (text "h") (text "s"))
      is_open_state
      false
      (start_recovery documents bucket 1 a_scope a_directory)
start_recovery-Ends_example =
    start_recovery-Ends documents bucket (file_bucket-Lawful Document) 0 a_scope a_directory

finish_recovery-Ends_example :
    Ends documents bucket
      (session_key documents (text "h") (text "s"))
      is_sealed_state
      true
      (finish_recovery documents bucket 1 a_scope recovering_session a_directory)
finish_recovery-Ends_example =
    finish_recovery-Ends documents bucket (file_bucket-Lawful Document) 0 a_scope recovering_session
      a_directory

is_stored :
    IsStored documents bucket a_directory
      (session_key documents (text "h") (text "s"))
      is_open_state
      false
unfolding session_key session_path host_path get object_path split_on valid_part lookup text_beq
is_stored = record {
  object = record { generation = 1; bytes = session recovering_session };
  found = refl;
  session = recovering_session;
  reads = refl;
  passes = refl;
}

closed_session-IsRefused_example :
    IsRefused documents bucket a_directory
      (register_initial_replicas documents bucket 0 a_scope [] a_directory)
    × IsRefused documents bucket a_directory
        (replace_replicas documents bucket no_peers 0 a_scope [] none a_directory)
closed_session-IsRefused_example =
    closed_session-IsRefused documents bucket (file_bucket-Lawful Document) no_peers 0 a_scope []
      none a_directory is_stored

abbrev a_request : HostLeaseRequest
a_request = record { id = text "h"; session_id = text "s"; route = text "u"; duration_ms = 100 }

abbrev pub an_ownership : Ownership
an_ownership = record {
  inventory = no_inventory;
  lease = record { id = text "h"; session_id = text "s"; route = text "u"; expires_at_ms = 1100 };
  mutation = text "m";
  actor = an_actor;
  epoch = 1;
  region = text "r";
  base = none;
}

abbrev pub an_owner_key : Text
an_owner_key = text "durable-actors/v3/owners/00/p/n/i.json"

abbrev pub after_registration : Directory Document
after_registration =
    (an_owner_key, record { generation = 1; bytes = ownership an_ownership }) ∷ a_directory

registered :
    register_activation documents bucket no_peers 1 1000 1000
      (text "m")
      an_actor
      a_request
      (text "r")
      true
      a_directory
    ≡ (after_registration, ok (an_ownership, none))
unfolding register_activation register_over grant_activation new_ownership load_current take_over
    save_activation replace_activation check_request new_lease next_epoch validate
    validate_component validate_storage_key validate_region validate_duration component_byte
    has_control region_byte is_ascii_digit is_ascii_lowercase is_ascii_uppercase storage_key owner
    actor_from_key strip_prefix replace get compare_and_swap swap_at object_path split_on valid_part
    lookup insert remove text_beq
registered = refl

owner_path : owner documents (storage_key an_actor) ≡ ok an_owner_key
unfolding owner actor_from_key strip_prefix split_on storage_key validate validate_component
    validate_storage_key component_byte has_control is_ascii_digit is_ascii_lowercase
    is_ascii_uppercase text_beq
owner_path = refl

saved :
    (save_activation documents bucket no_peers (text "m") an_ownership none a_directory).1 ≡ ok tt
unfolding save_activation replace_activation owner actor_from_key strip_prefix split_on storage_key
    validate validate_component validate_storage_key component_byte has_control is_ascii_digit
    is_ascii_lowercase is_ascii_uppercase text_beq replace get compare_and_swap swap_at object_path
    valid_part lookup
saved = refl

not_there : get a_directory an_owner_key ≡ ok none
unfolding get object_path split_on valid_part lookup text_beq
not_there = refl

save_activation-race_example :
    ((save_activation documents bucket no_peers
        (text "k")
        an_ownership
        none
        (save_activation documents bucket no_peers (text "m") an_ownership none a_directory).0).1
      ≢ ok tt)
    × ((object : BucketObject Document) × (get
            (save_activation documents bucket no_peers
              (text "k")
              an_ownership
              none
              (save_activation documents bucket no_peers
                (text "m")
                an_ownership
                none
                a_directory).0).0
            an_owner_key
          ≡ ok (some object))
        × (read_ownership object.bytes ≡ ok an_ownership))
save_activation-race_example =
    save_activation-race documents bucket no_peers (file_bucket-Lawful Document) a_directory
      an_owner_key (text "m") (text "k") an_ownership an_ownership none owner_path refl
      (λ e. ground arith) not_there tt saved

abbrev next_lease : HostLease
next_lease = record { id = text "h"; session_id = text "s"; route = text "u"; expires_at_ms = 1150 }

abbrev after_renewal : Directory Document
after_renewal =
    (
      an_owner_key,
      record {
        generation = 2;
        bytes = ownership (record an_ownership { lease = next_lease; mutation = text "k" });
      },
    )
    ∷ a_directory

renewed :
    renew_activation documents bucket no_peers 1000 1050
      (text "k")
      an_actor
      a_request
      no_inventory
      after_registration
    ≡ (after_renewal, ok next_lease)
unfolding renew_activation renew_found load read_owner check_holder save_activation
    replace_activation new_lease validate validate_component validate_storage_key validate_duration
    component_byte has_control is_ascii_digit is_ascii_lowercase is_ascii_uppercase storage_key
    owner actor_from_key strip_prefix replace get compare_and_swap swap_at object_path split_on
    valid_part lookup insert remove text_beq actor_beq
renewed = refl

renew_activation-IsHeld_example :
    (generation : ℕ) × (o : Ownership) × ((load documents bucket no_peers
        (storage_key an_actor)
        after_registration).1
      ≡ ok (some (generation, o)))
    × IsHeld 1000 an_actor a_request o
    × IsLeased 1050 a_request next_lease
    × IsOwned documents bucket after_renewal
        (record o { mutation = text "k"; lease = next_lease; inventory = no_inventory })
renew_activation-IsHeld_example =
    renew_activation-IsHeld documents bucket no_peers (file_bucket-Lawful Document) 1000 1050
      (text "k") an_actor a_request no_inventory after_registration after_renewal next_lease renewed

injective :
    (m n : ℕ) (x y : Ownership)
    → (let r : Result (Option (ℕ × Ownership)) = ok (some (m, x)) in r) ≡ ok (some (n, y))
    → x ≡ y
injective m n x y h = cc

placed : IsPlaced documents bucket no_peers after_registration an_actor
unfolding load read_owner validate validate_component validate_storage_key component_byte
    has_control is_ascii_digit is_ascii_lowercase is_ascii_uppercase storage_key owner
    actor_from_key strip_prefix get object_path split_on valid_part lookup text_beq
placed = record {
  own = λ generation o h.
      sym (ap (λ (x : Ownership). x.actor) (injective 1 generation an_ownership o h));
}

abbrev after_release : Directory Document
after_release =
    (
      an_owner_key,
      record {
        generation = 2;
        bytes = ownership (record an_ownership {
          lease = record an_ownership.lease { expires_at_ms = 0 };
          mutation = text "k";
        });
      },
    )
    ∷ a_directory

released :
    release_activation documents bucket no_peers
      (λ n. text "k")
      an_actor
      (text "h")
      (text "s")
      after_registration
    ≡ (after_release, ok tt)
unfolding release_activation release_in release_found load read_owner replace_activation validate
    validate_component validate_storage_key component_byte has_control is_ascii_digit
    is_ascii_lowercase is_ascii_uppercase storage_key owner actor_from_key strip_prefix replace get
    compare_and_swap swap_at object_path split_on valid_part lookup insert remove text_beq
released = refl

release_activation-is_released_example :
    (found : Option (ℕ × Ownership)) × ((load documents bucket no_peers
        (storage_key an_actor)
        after_release).1
      ≡ ok found)
    × (is_released (text "h") (text "s") found ≡ true)
release_activation-is_released_example =
    release_activation-is_released documents bucket no_peers (file_bucket-Lawful Document)
      (λ n. text "k") an_actor (text "h") (text "s") after_registration after_release placed
      released

abbrev a_snapshot : StateSnapshot
a_snapshot = version 1

-- A peer that has the snapshot.
abbrev one_peer : Peers Document
one_peer = record no_peers { read = λ target object. ok (snapshot a_snapshot) }

abbrev replicated_session : Session
replicated_session = record recovering_session {
  id = text "s";
  replicas = record { host_id = text "k"; url = text "u"; region = text "r" } ∷ [];
}

abbrev one_answer : List (Result SessionHead)
one_answer =
    ok (record {
      session = text "s";
      initialized = true;
      sealed = true;
      streams = record { stream = one_stream; latest = some first_ref } ∷ [];
    })
    ∷ []

abbrev after_retirement : Directory Document
after_retirement =
    (text "p/1.json", record { generation = 1; bytes = snapshot a_snapshot }) ∷ a_directory

retired :
    recover_all documents bucket one_peer replicated_session (first_ref ∷ []) a_directory
    ≡ (after_retirement, ok tt)
unfolding recover_all recover_snapshot recover_found recover_from recover_answer persist verify
    replace get compare_and_swap swap_at object_path split_on valid_part lookup insert remove
    text_beq
retired = refl

recover_snapshot-IsKept_example :
    IsKept documents bucket after_retirement first_ref (snapshot a_snapshot)
    × Extends documents bucket a_directory after_retirement
unfolding recover_snapshot recover_found recover_from recover_answer persist verify replace get
    compare_and_swap swap_at object_path split_on valid_part lookup insert remove text_beq
recover_snapshot-IsKept_example =
    recover_snapshot-IsKept documents bucket one_peer (file_bucket-Lawful Document) a_directory
      after_retirement replicated_session.replicas first_ref (snapshot a_snapshot) refl

retired-IsSafe_example :
    All (IsSafe documents bucket after_retirement) (first_ref ∷ [])
    × Extends documents bucket a_directory after_retirement
    × (all (recovers (first_ref ∷ [])) one_answer ≡ true)
unfolding seal_replicas add_answers add_answer add_streams add_latest known_snapshots advance lookup
    insert remove text_beq object_name decimal digit_byte
retired-IsSafe_example =
    retired-IsSafe documents bucket one_peer (file_bucket-Lawful Document) replicated_session
      one_answer (first_ref ∷ []) a_directory after_retirement refl retired
