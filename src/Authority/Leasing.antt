-- ===== src/Authority/Leasing.antt =====
-- Leases and the conditions of an activation (src/bucket/runtime/activation.rs,
-- src/bucket/runtime/session.rs).
use little_actors.Prelude.{
  ℕ, Bool, true, not, ◌&&◌, ◌||◌, Option, none, some, [], ◌==◌, ltb, leb, Result, ok, Checked,
  ◌>>=◌, ◌>>◌, ensure,
}
use little_actors.Prelude.Text.{Text, text_eq}
use little_actors.Actor.{ActorKey, actor_beq, validate, validate_region}
use little_actors.Lease.{HostLease, HostLeaseRequest, ActivationInventory, validate_duration}
use little_actors.Replica.{ReplicaScope}
use little_actors.Replica.Store.{checked_add}
use little_actors.Authority.{Ownership}

-- `lease.id == id && lease.session_id == session`
abbrev pub is_held_by : HostLease → Text → Text → Bool
is_held_by lease host session = lease.id == host && lease.session_id == session

-- `new_lease` at a time of the clock
unfoldable pub new_lease : ℕ → HostLeaseRequest → Result HostLease
new_lease now request = do
  validate_duration request
  ensure (not (request.id == []) && not (request.session_id == [])) "activation identity missing"
  expires ← checked_add now request.duration_ms "lease expiration overflow"
  ok (record {
    id = request.id;
    session_id = request.session_id;
    route = request.route;
    expires_at_ms = expires;
  })

unfoldable pub next_epoch : Option (ℕ × Ownership) → Result ℕ
next_epoch none = ok 1
next_epoch (some (generation, o)) = checked_add o.epoch 1 "owner epoch overflow"

abbrev pub generation_at : Option (ℕ × Ownership) → Option ℕ
generation_at none = none
generation_at (some (generation, o)) = some generation

abbrev pub no_inventory : ActivationInventory
no_inventory = record { resident = none; connections = []; waiting = none }

-- The first checks of `register_activation`.
unfoldable pub check_request : ActorKey → Text → HostLeaseRequest → Checked
check_request actor region request = do
  validate actor
  validate_region region
  validate_duration request

-- What `register_activation` asks of the record that is there.
unfoldable pub check_previous : ℕ → ActorKey → HostLeaseRequest → Text → Ownership → Checked
check_previous now actor request region o = do
  ensure (actor_beq o.actor actor && o.region == region) "ownership scope cannot change"
  ensure (not (is_held_by o.lease request.id request.session_id))
      "activation session cannot be reused"
  ensure (leb o.lease.expires_at_ms now) "previous owner lease is still active"

-- What `renew_activation` asks of it.
unfoldable pub check_holder : ℕ → ActorKey → HostLeaseRequest → Ownership → Checked
check_holder now actor request o = do
  ensure (actor_beq o.actor actor && is_held_by o.lease request.id request.session_id)
      "actor ownership changed"
  ensure (ltb now o.lease.expires_at_ms) "expired activation cannot renew"
  ensure (o.lease.route == request.route) "activation route cannot change"

-- The activation of a scope is over at a time of the clock.
abbrev pub is_over : ℕ → ReplicaScope → Option (ℕ × Ownership) → Bool
is_over now scope none = true
is_over now scope (some (generation, o)) =
    not (is_held_by o.lease scope.host scope.session) || leb o.lease.expires_at_ms now
