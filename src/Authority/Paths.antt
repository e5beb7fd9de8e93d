-- ===== src/Authority/Paths.antt =====
-- Where objects are stored (src/storage_paths.rs, src/storage.rs), and the stream of an ownership
-- (src/bucket/runtime.rs).
pub mod Reading
pub mod Objects
pub mod Recognizing
pub mod Validating
use little_actors.Prelude.{
  ℕ, Bool, ◌&&◌, ◌||◌, Option, none, some, List, [], ◌∷◌, ◌++◌, ltb, leb, eqb, all, length, Result,
  ok, err, ◌>>=◌, ◌>>◌, ensure, context, if◌then◌else◌,
}
use little_actors.Prelude.Text.{Text, text, text_eq}
use little_actors.Actor.{ActorKey, storage_key, validate}
use little_actors.Naming.{object_name, hex32, strip_suffix}
use little_actors.Replica.{ReplicaScope, ReplicaStream, SnapshotRef}
use little_actors.Authority.{Ownership}
use little_actors.Authority.FileBucket.{split_on}
use little_actors.Wire.{Codec}

abbrev pub root : Text
root = text "durable-actors/v3/"

-- `s.strip_prefix(prefix)`
unfoldable pub strip_prefix : Text → Text → Option Text
strip_prefix [] s = some s
strip_prefix (x ∷ prefix) [] = none
strip_prefix (x ∷ prefix) (y ∷ s) = if eqb x y then strip_prefix prefix s else none

three_parts : Text × List Text → Result ActorKey
three_parts (a, b ∷ c ∷ []) = ok (record { project_id = a; actor_name = b; actor_id = c })
three_parts parts = err "invalid actor identity"

unfoldable pub actor_from_key : Text → Result ActorKey
unfolding three_parts strip_prefix split_on
actor_from_key key = do
  rest ← context (strip_prefix (text "object.v4.") key) "invalid actor key"
  actor ← three_parts (split_on b':' rest)
  validate actor
  ok actor

-- `u8::is_ascii_hexdigit`
unfoldable pub is_ascii_hexdigit : ℕ → Bool
is_ascii_hexdigit b =
    (leb b'0' b && leb b b'9') || (leb b'a' b && leb b b'f') || (leb b'A' b && leb b b'F')

module _ (c : Codec) where
  open c use {component, shard}

  unfoldable pub host_path : Text → Text
  host_path host = root ++ (text "hosts/" ++ (component host ++ text "/"))

  unfoldable pub session_path : Text → Text → Text
  unfolding host_path
  session_path host session = host_path host ++ (text "sessions/" ++ component session)

  -- `session::identity`, and `ReplicaScope::identity`
  unfoldable pub identity : Text → Text → Text
  identity host session = session_path host session ++ text "/"

  unfoldable pub session_key : Text → Text → Text
  session_key host session = session_path host session ++ text ".json"

  unfoldable pub scope_identity : ReplicaScope → Text
  scope_identity scope = identity scope.host scope.session

  unfoldable pub actor_path : ActorKey → Text
  actor_path actor =
      shard (storage_key actor)
      ++ (text "/"
          ++ (component actor.project_id
              ++ (text "/"
                  ++ (component actor.actor_name ++ (text "/" ++ component actor.actor_id)))))

  -- `storage_paths::snapshots`
  unfoldable pub snapshots : ActorKey → Result Text
  unfolding actor_path
  snapshots actor = do
    validate actor
    ok (root ++ (text "snapshots/" ++ (actor_path actor ++ text "/")))

  -- `storage_paths::owner`
  unfoldable pub owner : Text → Result Text
  unfolding actor_path
  owner object = do
    actor ← actor_from_key object
    ok (root ++ (text "owners/" ++ (actor_path actor ++ text ".json")))

  -- `snapshot_object_name`
  unfoldable pub snapshot_object_name : ActorKey → ℕ → Text → Result Text
  snapshot_object_name actor state_version nonce = do
    validate actor
    ensure (ltb 0 state_version) "actor state version must be positive"
    ensure (eqb (length nonce) 32 && all is_ascii_hexdigit nonce)
        "actor state object nonce is invalid"
    prefix ← snapshots actor
    ok (object_name (prefix ++ (nonce ++ text "/")) state_version)

  abbrev base_version : Option SnapshotRef → ℕ
  base_version none = 0
  base_version (some base) = base.state_version

  -- `Ownership::stream`
  unfoldable pub stream : Ownership → Result ReplicaStream
  stream record' = do
    name ← snapshot_object_name record'.actor 1 (hex32 record'.epoch)
    prefix ←
        context (strip_suffix (text "1.json") name) "called `Option::unwrap()` on a `None` value"
    ok (record {
      session = identity record'.lease.id record'.lease.session_id;
      prefix = prefix;
      owner_epoch = record'.epoch;
      base_version = base_version record'.base;
    })
