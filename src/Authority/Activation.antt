-- ===== src/Authority/Activation.antt =====
-- Activations: registering, renewing and releasing the ownership of an actor, and retiring the
-- replication of a session (src/bucket/runtime/activation.rs, src/bucket/runtime/session.rs). The
-- clock's answers and the fresh mutation identifiers are arguments.
pub mod Granting
pub mod Holding
pub mod Retiring
pub mod Releasing
pub mod Racing
use little_actors.Prelude.{
  ℕ, zero, suc, Bool, true, false, not, ◌||◌, Option, none, some, List, [], ◌∷◌, eqb, Result, err,
  ensure, context, if◌then◌else◌,
}
use little_actors.Prelude.Action.{Action, ◌>>=◌, ◌>>◌, pure, fail, lift}
use little_actors.Prelude.Text.{Text, text_eq}
use little_actors.Actor.{ActorKey, storage_key}
use little_actors.Lease.{HostLease, HostLeaseRequest, ActivationInventory}
use little_actors.Replica.{ReplicaScope, SnapshotRef}
use little_actors.Authority.{Session, Ownership, scope}
use little_actors.Authority.Bucket.{Bucket, replace}
use little_actors.Authority.Latest.{load, latest, restore_session, recover_snapshot}
use little_actors.Authority.Newest.{LoadedSnapshot, reference_of}
use little_actors.Authority.Leasing.{
  is_held_by, new_lease, next_epoch, generation_at, no_inventory, check_request, check_previous,
  check_holder, is_over,
}
use little_actors.Authority.Paths.{owner}
use little_actors.Authority.Peers.{Peers}
use little_actors.Authority.Recovery.{Storage, start_recovery, finish_recovery}
use little_actors.Authority.Sealing.{seal_replicas}
use little_actors.Wire.{Codec}

module _ (c : Codec) (b : Bucket (Codec.Bytes c)) (peers : Peers (Codec.Bytes c)) where
  -- A loop that ran out of fuel stops with an error of the model's own.
  abbrev pub with_fuel :
      {A : Type 0} → (Storage c b → Storage c b × Option (Result A)) → Action (Storage c b) A
  with_fuel loop s =
      let (t, r) = loop s in elim r [ some result ↦ (t, result) | none ↦ (t, err "out of fuel") ]

  unfoldable pub recover_started :
      ℕ
      → Ownership
      → Option Session
      → Action (Storage c b) (Option (LoadedSnapshot (Codec.Bytes c)))
  recover_started fuel o none = pure none
  recover_started fuel o (some session) = do
    refs ← lift (seal_replicas session (peers.seals session.replicas session.id))
    recovered ← restore_session c b peers o session refs
    _ ← with_fuel (finish_recovery c b fuel (scope o) session)
    pure recovered

  unfoldable pub recover_session :
      ℕ → Ownership → Action (Storage c b) (Option (LoadedSnapshot (Codec.Bytes c)))
  unfolding recover_started
  recover_session fuel o = do
    session ← with_fuel (start_recovery c b fuel (scope o))
    recover_started fuel o session

  unfoldable pub recover_all : Session → List SnapshotRef → Action (Storage c b) (Unit {0})
  recover_all session [] = pure tt
  recover_all session (snapshot ∷ rest) = do
    _ ← recover_snapshot c b peers session.replicas snapshot
    recover_all session rest

  unfoldable pub retire_started :
      ℕ → ReplicaScope → Option Session → Action (Storage c b) (Unit {0})
  unfolding recover_all
  retire_started fuel scope none = pure tt
  retire_started fuel scope (some session) = do
    refs ← lift (seal_replicas session (peers.seals session.replicas session.id))
    recover_all session refs
    with_fuel (finish_recovery c b fuel scope session)

  unfoldable pub retire_replication : ℕ → ℕ → ReplicaScope → Action (Storage c b) (Unit {0})
  unfolding retire_started
  retire_replication fuel now scope = do
    current ← load c b peers (storage_key scope.actor)
    lift (ensure (is_over now scope current) "actor activation is still active")
    session ← with_fuel (start_recovery c b fuel scope)
    retire_started fuel scope session

  -- `replace_activation`, with the fresh identifier
  unfoldable pub replace_activation : Text → Ownership → Option ℕ → Action (Storage c b) Bool
  replace_activation mutation o generation = do
    key ← lift (owner c (storage_key o.actor))
    replace ⦃e = c.bytes_eq⦄ b key generation (c.write_ownership (record o { mutation = mutation }))

  unfoldable pub save_activation : Text → Ownership → Option ℕ → Action (Storage c b) (Unit {0})
  unfolding replace_activation
  save_activation mutation o generation = do
    saved ← replace_activation mutation o generation
    lift (ensure saved "actor activation changed concurrently")

  -- What `register_activation` recovers of the record that is there.
  unfoldable pub take_over :
      ℕ
      → ℕ
      → ActorKey
      → HostLeaseRequest
      → Text
      → Option (ℕ × Ownership)
      → Action (Storage c b) (Option (LoadedSnapshot (Codec.Bytes c)))
  unfolding recover_session
  take_over fuel now actor request region none = pure none
  take_over fuel now actor request region (some (generation, o)) = do
    lift (check_previous now actor request region o)
    recovered ← recover_session fuel o
    latest c b peers o recovered

  unfoldable pub load_current : ActorKey → Bool → Action (Storage c b) (Option (ℕ × Ownership))
  load_current actor true = pure none
  load_current actor false = load c b peers (storage_key actor)

  unfoldable pub new_ownership :
      Text → ActorKey → Text → ℕ → HostLease → Option (LoadedSnapshot (Codec.Bytes c)) → Ownership
  new_ownership mutation actor region epoch lease recovered = record {
    inventory = no_inventory;
    lease = lease;
    mutation = mutation;
    actor = actor;
    epoch = epoch;
    region = region;
    base = reference_of recovered;
  }

  -- The new record, once the old one gives way.
  unfoldable pub grant_activation :
      ℕ
      → Text
      → ActorKey
      → HostLeaseRequest
      → Text
      → Option (ℕ × Ownership)
      → Option (LoadedSnapshot (Codec.Bytes c))
      → Action (Storage c b) (Ownership × Option (LoadedSnapshot (Codec.Bytes c)))
  unfolding new_ownership save_activation
  grant_activation granted mutation actor request region current recovered = do
    epoch ← lift (next_epoch current)
    lease ← lift (new_lease granted request)
    let o = new_ownership mutation actor region epoch lease recovered
    save_activation mutation o (generation_at current)
    pure (o, recovered)

  unfoldable pub register_over :
      ℕ
      → ℕ
      → ℕ
      → Text
      → ActorKey
      → HostLeaseRequest
      → Text
      → Option (ℕ × Ownership)
      → Action (Storage c b) (Ownership × Option (LoadedSnapshot (Codec.Bytes c)))
  unfolding take_over grant_activation
  register_over fuel now granted mutation actor request region current = do
    recovered ← take_over fuel now actor request region current
    grant_activation granted mutation actor request region current recovered

  -- The new record and what was recovered: `now` is the time of the lease check, `granted` that of
  -- the new lease.
  unfoldable pub register_activation :
      ℕ
      → ℕ
      → ℕ
      → Text
      → ActorKey
      → HostLeaseRequest
      → Text
      → Bool
      → Action (Storage c b) (Ownership × Option (LoadedSnapshot (Codec.Bytes c)))
  unfolding register_over load_current
  register_activation fuel now granted mutation actor request region new_actor = do
    lift (check_request actor region request)
    current ← load_current actor new_actor
    register_over fuel now granted mutation actor request region current

  unfoldable pub renew_found :
      ℕ
      → ℕ
      → Text
      → ActorKey
      → HostLeaseRequest
      → ActivationInventory
      → ℕ
      → Ownership
      → Action (Storage c b) HostLease
  unfolding save_activation
  renew_found now granted mutation actor request inventory generation o = do
    lift (check_holder now actor request o)
    lease ← lift (new_lease granted request)
    save_activation mutation (record o { lease = lease; inventory = inventory }) (some generation)
    pure lease

  unfoldable pub renew_activation :
      ℕ
      → ℕ
      → Text
      → ActorKey
      → HostLeaseRequest
      → ActivationInventory
      → Action (Storage c b) HostLease
  unfolding renew_found
  renew_activation now granted mutation actor request inventory = do
    found ← load c b peers (storage_key actor)
    (generation, o) ← lift (context found "actor ownership missing")
    renew_found now granted mutation actor request inventory generation o

  unfoldable pub release_found :
      Text → Text → Text → Option (ℕ × Ownership) → Action (Storage c b) Bool
  unfolding replace_activation
  release_found mutation host session none = pure true
  release_found mutation host session (some (generation, o)) =
      if not (is_held_by o.lease host session) || eqb o.lease.expires_at_ms 0
      then pure true
      else replace_activation mutation (record o { lease = record o.lease { expires_at_ms = 0 } })
          (some generation)

  -- `for _ in 0..3`, with the identifier of each try
  unfoldable pub release_in :
      ℕ → (ℕ → Text) → ActorKey → Text → Text → Action (Storage c b) (Unit {0})
  unfolding release_found
  release_in zero mutations actor host session =
      fail "actor activation kept changing during release"
  release_in (suc tries) mutations actor host session = do
    found ← load c b peers (storage_key actor)
    released ← release_found (mutations tries) host session found
    if released then pure tt else release_in tries mutations actor host session

  unfoldable pub release_activation :
      (ℕ → Text) → ActorKey → Text → Text → Action (Storage c b) (Unit {0})
  unfolding release_in
  release_activation mutations actor host session = release_in 3 mutations actor host session
