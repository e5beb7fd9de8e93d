-- ===== src/Tests/Replicas.antt =====
-- Runs of a replica's store (src/replication/store.rs).
use little_actors.Prelude.{
  ℕ, Bool, true, false, ◌≡◌, ◌≤◌, refl, none, some, List, [], ◌∷◌, ok, arith, ==_iff,
}
use little_actors.Prelude.Dict.{lookup, insert, remove}
use little_actors.Prelude.Text.{Text, text, text_eq, text_beq, starts_with}
use little_actors.Json.{null}
use little_actors.Naming.{object_name, decimal, digit_byte}
use little_actors.Snapshot.{StateSnapshot, validate}
use little_actors.Replica.{ReplicaStream, SnapshotRef, SessionHead, stream_beq, snapshot_beq}
use little_actors.Replica.Accounting.{IsValid, total}
use little_actors.Replica.Fence.{IsFrozen, IsNamed, serve_all-IsFrozen}
use little_actors.Replica.Serving.{serve_all-IsValid}
use little_actors.Replica.Progress.{head_version, serve_all_grows}
use little_actors.Replica.Acknowledged.{IsAcknowledged, append-IsAcknowledged}
use little_actors.Replica.Acceptance.{append-total}
use little_actors.Replica.Store.{
  StoreState, Blob, session_of, head_of, session_or_new, head_or_new, put, stream_snapshot, put_new,
  decode, put_existing, prune_stream, reference, prune_to, remove_all, remove_object, keys_where,
  save_head, save_session,
}
use little_actors.Replica.Store.Operations.{
  Call, initialize, write, seal, append, serve_all, initialize_session, append_after, seal_session,
  append_new, append_same, serve, store, put_object,
}
use little_actors.Replica.Store.Restoring.{reopen}
use little_actors.Replica.Restorable.{IsRestorable, file_total}
use little_actors.Replica.Restarting.{IsReopened, serve_all-restarts}
use little_actors.Tests.Documents.{Document, snapshot, documents}

abbrev pub version : ℕ → StateSnapshot
version v = record {
  attribution = none;
  state_version = v;
  owner_epoch = 1;
  request_id = text "r";
  state = text "{}";
  result = null;
}

abbrev pub one_stream : ReplicaStream
one_stream = record { session = text "s"; prefix = text "p/"; owner_epoch = 1; base_version = 0 }

abbrev pub first_ref : SnapshotRef
first_ref = record {
  object = text "p/1.json";
  state_version = 1;
  request_id = text "r";
  digest = text "r";
}

-- A store with one session and no snapshots.
abbrev pub fresh_store : Bool → StoreState Document
fresh_store shut = record {
  capacity = 100;
  used = 0;
  snapshots = [];
  streams = [];
  sessions =
      (text "s", record { session = text "s"; initialized = true; sealed = shut; streams = [] })
      ∷ [];
  blob_files = [];
  stream_files = [];
  session_files =
      (text "s", record { session = text "s"; initialized = true; sealed = shut; streams = [] })
      ∷ [];
}

-- The store after the first version.
abbrev pub first_store : StoreState Document
first_store = record (fresh_store false) {
  used = 10;
  snapshots = (text "p/1.json", record { object = text "p/1.json"; size = 10 }) ∷ [];
  streams = (text "p/", record { stream = one_stream; latest = some first_ref }) ∷ [];
  blob_files =
      (
        text "p/1.json",
        record {
          metadata = record { object = text "p/1.json"; size = 10 };
          bytes = snapshot (version 1);
        },
      )
      ∷ [];
  stream_files = (text "p/", record { stream = one_stream; latest = some first_ref }) ∷ [];
}

abbrev pub some_calls : List (Call Document)
some_calls =
    write one_stream (snapshot (version 1))
    ∷ write one_stream (snapshot (version 3))
    ∷ write one_stream (snapshot (version 2))
    ∷ seal (text "s")
    ∷ initialize (text "s")
    ∷ write one_stream (snapshot (version 4))
    ∷ []

-- The same session under its name.
named : (shut : Bool) → IsNamed (fresh_store shut).sessions
unfolding lookup
named shut = record { named = λ k h e. name k h e }
  where
    name :
        (k : Text) (h : SessionHead) → lookup k (fresh_store shut).sessions ≡ some h → h.session ≡ k
    name k h e = ground (arith, ==_iff (text "s") k)

fresh_store-IsValid : (shut : Bool) → IsValid documents (fresh_store shut)
unfolding total lookup
fresh_store-IsValid shut = record {
  distinct = tt;
  counted = refl;
  fits = omega arith;
  mirrored = λ o. refl;
  sized = λ o b h. absurd (absent o b h);
  streams_saved = refl;
  sessions_saved = refl;
}
  where
    absent : (o : Text) (b : Blob Document) → lookup o (fresh_store shut).blob_files ≡ some b → ⊥
    absent o b h = cc

serve_all-IsFrozen_example :
    IsFrozen documents
      (text "s")
      (fresh_store true)
      (serve_all documents (fresh_store true) some_calls)
unfolding session_of session_or_new lookup text_beq
serve_all-IsFrozen_example =
    serve_all-IsFrozen documents (text "s") (fresh_store true) some_calls (named true) refl

serve_all-IsValid_example : IsValid documents (serve_all documents (fresh_store false) some_calls)
serve_all-IsValid_example =
    serve_all-IsValid documents (fresh_store false) some_calls (fresh_store-IsValid false)

serve_all_grows_example :
    head_version (lookup (text "p/") (fresh_store false).streams)
    ≤ head_version (lookup (text "p/") (serve_all documents (fresh_store false) some_calls).streams)
serve_all_grows_example = serve_all_grows documents (fresh_store false) some_calls (text "p/")

-- The calls in order are served, the late ones are refused.
calls_run :
    lookup (text "p/") (serve_all documents (fresh_store false) some_calls).streams
    ≡ some (record {
      stream = one_stream;
      latest = some (record {
        object = text "p/3.json";
        state_version = 3;
        request_id = text "r";
        digest = text "r";
      });
    })
unfolding serve_all initialize_session seal_session append append_after append_new append_same put
    put_new put_existing prune_stream prune_to remove_all remove_object keys_where save_head
    save_session head_of head_or_new session_of session_or_new stream_snapshot decode reference
    validate lookup insert remove text_beq starts_with object_name decimal digit_byte stream_beq
    snapshot_beq serve
calls_run = refl

append-IsAcknowledged_example :
    IsAcknowledged documents first_store one_stream first_ref (snapshot (version 1))
unfolding append append_after append_new put put_new prune_stream prune_to remove_all keys_where
    save_head head_of head_or_new session_of session_or_new stream_snapshot decode reference
    validate lookup insert remove text_beq starts_with object_name decimal digit_byte
append-IsAcknowledged_example =
    append-IsAcknowledged documents (fresh_store false) one_stream (snapshot (version 1))
      (record { stream = one_stream; latest = none }) first_ref first_store
      (fresh_store-IsValid false) refl refl (λ e. cc) refl

append-total_example :
    (t : StoreState Document) × (append documents
        (fresh_store false)
        one_stream
        (snapshot (version 1))
      ≡ ok t)
unfolding head_of head_or_new session_of session_or_new stream_snapshot decode reference validate
    lookup text_beq starts_with object_name decimal digit_byte
append-total_example =
    append-total documents (fresh_store false) one_stream (snapshot (version 1))
      (record { stream = one_stream; latest = none }) first_ref (fresh_store-IsValid false)
      (omega arith) refl refl refl refl tt refl (omega arith)

fresh_store-IsRestorable : IsRestorable documents (fresh_store false)
unfolding lookup file_total
fresh_store-IsRestorable = record {
  blobs_distinct = tt;
  blobs_whole = tt;
  counted = refl;
  streams_distinct = tt;
  streams_keyed = tt;
  sessions_distinct = (refl, tt);
  sessions_keyed = (refl, tt);
}

-- A snapshot, and an older object under its prefix that a restart removes.
abbrev restart_calls : List (Call Document)
restart_calls =
    write one_stream (snapshot (version 1)) ∷ store (text "p/9.json") (snapshot (version 9)) ∷ []

abbrev stopped_store : StoreState Document
stopped_store = serve_all documents (fresh_store false) restart_calls

stopped_used : (stopped_store.used ≡ 20) × (stopped_store.capacity ≡ 100)
unfolding serve_all initialize_session seal_session append append_after append_new append_same put
    put_new put_existing prune_stream prune_to remove_all remove_object keys_where save_head
    save_session head_of head_or_new session_of session_or_new stream_snapshot decode reference
    validate lookup insert remove text_beq starts_with object_name decimal digit_byte stream_beq
    snapshot_beq serve put_object
stopped_used = (refl, refl)

serve_all-restarts_example :
    (t : StoreState Document) × (reopen documents stopped_store ≡ ok t)
    × IsReopened documents stopped_store t
serve_all-restarts_example =
    serve_all-restarts documents (fresh_store false) restart_calls (fresh_store-IsValid false)
      fresh_store-IsRestorable (omega (arith, stopped_used.0)) (omega (arith, stopped_used.1))
