-- ===== src/Authority/Recovery.antt =====
-- The recovery record of a session: open, recovering, sealed (src/bucket/runtime/session.rs,
-- src/bucket/runtime/repair.rs, src/bucket/runtime/startup.rs). Each operation is an action on the
-- bucket; a `loop` takes fuel.
pub mod Closing
pub mod Fencing
use little_actors.Prelude.{
  ℕ, zero, suc, Bool, true, false, not, ◌&&◌, Option, none, some, List, [], ◌∷◌, ◌==◌, eqb, any,
  length, Result, ok, err, Checked, ensure, context, if◌then◌else◌,
}
use little_actors.Prelude.Action.{Action, ◌>>=◌, ◌>>◌, pure, fail, lift, read_with}
use little_actors.Prelude.Text.{Text, text_eq}
use little_actors.Replica.{ReplicaScope, ReplicaTarget, ReplicaStream}
use little_actors.Authority.Peers.{Peers, seed_replicas}
use little_actors.Replica.Ticket.{ReplicationTicket, validate_ticket}
use little_actors.Authority.{Session, RecoveryState, is_open, recovering, sealed}
use little_actors.Authority.Bucket.{Bucket, BucketObject, generation_of, replace}
use little_actors.Authority.Paths.{session_key, scope_identity}
use little_actors.Wire.{Codec}

abbrev pub is_open_state : RecoveryState → Bool
is_open_state is_open = true
is_open_state recovering = false
is_open_state sealed = false

abbrev pub is_sealed_state : RecoveryState → Bool
is_sealed_state is_open = false
is_sealed_state recovering = false
is_sealed_state sealed = true

-- `RuntimeStorage::replica_members` and others: the record is that of the session.
abbrev pub is_session_of : Session → Text → Text → Bool
is_session_of session id region = session.id == id && session.region == region

-- `ReplicaMembership`
pub record ReplicaMembership : Type 0 where
  pub scope : ReplicaScope
  pub replicas : List ReplicaTarget

module _ (c : Codec) (b : Bucket (Codec.Bytes c)) where
  abbrev pub Storage : Type 0
  Storage = Bucket.State b

  abbrev pub get_object : Text → Action Storage (Option (BucketObject (Codec.Bytes c)))
  get_object key = read_with (λ s. b.get s key)

  unfoldable pub save_session : Text → Option ℕ → Session → Action Storage Bool
  save_session key generation session =
      replace ⦃e = c.bytes_eq⦄ b key generation (c.write_session session)

  -- A tombstone also fences initialization delayed past lease expiry.
  unfoldable pub tombstone : ReplicaScope → Session
  tombstone scope = record {
    id = scope_identity c scope;
    region = scope.region;
    replicas = [];
    state = sealed;
  }

  -- One round of the loop of `start_recovery`: `none` goes round again.
  unfoldable pub start_at :
      Text → ℕ → Session → RecoveryState → Action Storage (Option (Option Session))
  start_at key generation session sealed = pure (some none)
  start_at key generation session recovering = pure (some (some session))
  start_at key generation session is_open = do
    let session' = record session { state = recovering }
    saved ← save_session key (some generation) session'
    pure (if saved then some (some session') else none)

  unfoldable pub start_found :
      ReplicaScope
      → Option (BucketObject (Codec.Bytes c))
      → Action Storage (Option (Option Session))
  unfolding start_at save_session tombstone
  start_found scope none = do
    saved ← save_session (session_key c scope.host scope.session) none (tombstone scope)
    pure (if saved then some none else none)
  start_found scope (some object) = do
    session ← lift (c.read_session object.bytes)
    lift (
        ensure (is_session_of session (scope_identity c scope) scope.region)
          "session identity mismatch")
    start_at (session_key c scope.host scope.session) object.generation session session.state

  unfoldable pub start_round : ReplicaScope → Action Storage (Option (Option Session))
  unfolding start_found
  start_round scope = do
    object ← get_object (session_key c scope.host scope.session)
    start_found scope object

  -- A loop goes round again until a round has a value; `none` says that the fuel ran out.
  unfoldable pub loop :
      {A : Type 0} → ℕ → Action Storage (Option A) → Storage → Storage × Option (Result A)
  loop zero round s = (s, none)
  loop (suc fuel) round s =
      let (s', r) = round s in
      elim r [
        | ok (some a) ↦ (s', some (ok a))
        | ok none ↦ loop fuel round s'
        | err e ↦ (s', some (err e))
      ]

  unfoldable pub start_recovery :
      ℕ → ReplicaScope → Storage → Storage × Option (Result (Option Session))
  unfolding start_round loop
  start_recovery fuel scope = loop fuel (start_round scope)

  -- One round of the loop of `finish_recovery`.
  unfoldable pub finish_at :
      Text
      → Session
      → BucketObject (Codec.Bytes c)
      → RecoveryState
      → Action Storage (Option (Unit {0}))
  finish_at key session current sealed = pure (some tt)
  finish_at key session current state = do
    saved ← save_session key (some current.generation) session
    pure (if saved then some tt else none)

  unfoldable pub finish_round : ReplicaScope → Session → Action Storage (Option (Unit {0}))
  unfolding finish_at save_session
  finish_round scope session = do
    let key = session_key c scope.host scope.session
    object ← get_object key
    current ← lift (context object "recovery record disappeared")
    stored ← lift (c.read_session current.bytes)
    finish_at key (record session { state = sealed }) current stored.state

  unfoldable pub finish_recovery :
      ℕ → ReplicaScope → Session → Storage → Storage × Option (Result (Unit {0}))
  unfolding finish_round loop
  finish_recovery fuel scope session = loop fuel (finish_round scope session)

  -- `replica_members`
  unfoldable pub members_of : ReplicaScope → Session → Result (List ReplicaTarget)
  members_of scope session =
      if is_session_of session (scope_identity c scope) scope.region
      then ok (if is_sealed_state session.state then [] else session.replicas)
      else err "session identity mismatch"

  unfoldable pub replica_members : ReplicaScope → Action Storage (List ReplicaTarget)
  unfolding members_of
  replica_members scope = do
    object ← get_object (session_key c scope.host scope.session)
    elim object [
      | none ↦ pure []
      | some found ↦ do session ← lift (c.read_session found.bytes); lift (members_of scope session)
    ]

  -- `regions` is the number of `fleet.replica_regions()`.
  unfoldable pub validate_initial_replicas : ℕ → List ReplicaTarget → Checked
  validate_initial_replicas regions replicas =
      if eqb (length replicas) regions
      then validate_ticket (record { replicas = replicas })
      else err "incomplete initial replica set"

  unfoldable pub initial_session : ReplicaScope → List ReplicaTarget → Session
  initial_session scope replicas = record {
    id = scope_identity c scope;
    region = scope.region;
    replicas = replicas;
    state = is_open;
  }

  -- What `register_initial_replicas` goes on with: its own record, or the one that was there.
  unfoldable pub persisted_session : Text → Session → Bool → Action Storage Session
  persisted_session key initial true = pure initial
  persisted_session key initial false = do
    object ← get_object key
    found ← lift (context object "replication session disappeared")
    lift (c.read_session found.bytes)

  unfoldable pub register_initial_replicas :
      ℕ → ReplicaScope → List ReplicaTarget → Action Storage ReplicaMembership
  unfolding persisted_session initial_session save_session validate_initial_replicas
  register_initial_replicas regions scope replicas = do
    lift (validate_initial_replicas regions replicas)
    let key = session_key c scope.host scope.session
    saved ← save_session key none (initial_session scope replicas)
    persisted ← persisted_session key (initial_session scope replicas) saved
    lift (
        ensure
          (is_open_state persisted.state
            && is_session_of persisted (scope_identity c scope) scope.region)
          "initial replication session changed or was fenced")
    lift (validate_initial_replicas regions persisted.replicas)
    pure (record { scope = scope; replicas = persisted.replicas })

  -- The record that `replace_replicas` starts from.
  unfoldable pub session_or_open :
      ReplicaScope → Option (BucketObject (Codec.Bytes c)) → Result Session
  unfolding initial_session
  session_or_open scope none = ok (initial_session scope [])
  session_or_open scope (some object) = c.read_session object.bytes

  -- `latest` is the stream of the last write plan, with its bytes.
  unfoldable pub replace_replicas :
      Peers (Codec.Bytes c)
      → ℕ
      → ReplicaScope
      → List ReplicaTarget
      → Option (ReplicaStream × Codec.Bytes c)
      → Action Storage ReplicaMembership
  unfolding session_or_open save_session
  replace_replicas peers regions scope replicas latest = do
    lift (ensure (eqb (length replicas) regions) "incomplete replacement replica set")
    lift (validate_ticket (record { replicas = replicas }))
    let key = session_key c scope.host scope.session
    object ← get_object key
    persisted ← lift (session_or_open scope object)
    lift (
        ensure
          (is_open_state persisted.state
            && is_session_of persisted (scope_identity c scope) scope.region)
          "replication session changed or was fenced")
    lift (seed_replicas c peers (scope_identity c scope) replicas persisted.replicas latest)
    saved ← save_session key (generation_of object) (record persisted { replicas = replicas })
    lift (ensure saved "replication replacement was fenced")
    pure (record { scope = scope; replicas = replicas })
