-- ===== src/Authority/Activation/Holding.antt =====
-- Renewals and the holder of a lease (src/bucket/runtime/activation.rs).
use little_actors.Prelude.{
  ℕ, ◌<◌, true, ◌≡◌, ap, ◌∙◌, subst, Option, none, some, Result, ok, context, arith, ==_iff, String,
}
use little_actors.Prelude.Action.{Action, pure, lift, continue, bind-ok}
use little_actors.Prelude.Text.{Text, text_eq}
use little_actors.Actor.{ActorKey, storage_key}
use little_actors.Actor.Identity.{actor_beq_iff}
use little_actors.Lease.{HostLease, HostLeaseRequest, ActivationInventory}
use little_actors.Authority.{Ownership}
use little_actors.Authority.Bucket.{Bucket, Lawful}
use little_actors.Authority.Latest.{load}
use little_actors.Authority.Leasing.{is_held_by, new_lease, check_holder}
use little_actors.Authority.Peers.{Peers}
use little_actors.Authority.Recovery.{Storage}
use little_actors.Authority.Activation.{save_activation, renew_activation, renew_found}
use little_actors.Authority.Activation.Granting.{
  IsLeased, new_lease-IsLeased, IsOwned, save_activation-IsOwned,
}
use little_actors.Wire.{Codec}

-- The activation may be renewed: it is the actor's, held by the session that asks at the same route,
-- and its lease is not over.
pub record IsHeld (now : ℕ) (actor : ActorKey) (request : HostLeaseRequest) (o : Ownership)
    : Type 0 where
  pub same_actor : o.actor ≡ actor
  pub held : is_held_by o.lease request.id request.session_id ≡ true
  pub live : now < o.lease.expires_at_ms
  pub same_route : o.lease.route ≡ request.route

check_holder-IsHeld :
    (now : ℕ) (actor : ActorKey) (request : HostLeaseRequest) (o : Ownership)
    → check_holder now actor request o ≡ ok tt
    → IsHeld now actor request o
unfolding check_holder
check_holder-IsHeld now actor request o h = record {
  same_actor = ground (arith, actor_beq_iff o.actor actor);
  held = ground arith;
  live = ground arith;
  same_route = ground (arith, ==_iff o.lease.route request.route);
}

module _ (c : Codec) (b : Bucket (Codec.Bytes c)) (peers : Peers (Codec.Bytes c))
    (laws : Lawful b) where
  renew_found-IsOwned :
      (now granted : ℕ) (mutation : Text) (actor : ActorKey) (request : HostLeaseRequest)
      (inventory : ActivationInventory) (generation : ℕ) (o : Ownership) (s t : Storage c b)
      (lease : HostLease)
      → renew_found c b peers now granted mutation actor request inventory generation o s
        ≡ (t, ok lease)
      → IsHeld now actor request o
        × IsLeased granted request lease
        × IsOwned c b t (record o { mutation = mutation; lease = lease; inventory = inventory })
  unfolding renew_found
  renew_found-IsOwned now granted mutation actor request inventory generation o s t lease h =
      let new = λ (l : HostLease).
        (let o' : Ownership = record o { lease = l; inventory = inventory } in o') in
      let finish = λ (l : HostLease).
        λ (saved : Unit {0}). (let r : Action (Storage c b) HostLease = pure l in r) in
      let save = λ (l : HostLease). λ (u : Storage c b).
        (let (v, x) = save_activation c b peers mutation (new l) (some generation) u in
          continue {B = HostLease} (finish l) v x) in
      let lease_then = λ (checked : Unit {0}).
        λ (u : Storage c b). continue {B = HostLease} save u (new_lease granted request) in
      let (_, checked, rest) = bind-ok (lift (check_holder now actor request o)) lease_then s h in
      let (l, leased, rest') = bind-ok (lift (new_lease granted request)) save s rest in
      let (_, saved, done) =
        bind-ok (save_activation c b peers mutation (new l) (some generation)) (finish l) s rest' in
      let same = ok_injective l lease (ap (λ (p : Storage c b × Result HostLease). p.1) done) in
      let at_end = ap (λ (p : Storage c b × Result HostLease). p.0) done in
      (
        check_holder-IsHeld now actor request o
            (ap (λ (p : Storage c b × Result (Unit {0})). p.1) checked),
        new_lease-IsLeased granted request lease
            (ap (λ (p : Storage c b × Result HostLease). p.1) leased ∙ ap ok same),
        subst
            (λ x.
              IsOwned c b t (record o { mutation = mutation; lease = x; inventory = inventory }))
            same
            (subst
              (λ u.
                IsOwned c b u (record o { mutation = mutation; lease = l; inventory = inventory }))
              at_end
              (save_activation-IsOwned c b peers laws s mutation (new l) (some generation) saved)),
      )
    where
      ok_injective : (x y : HostLease) → (let r : Result HostLease = ok x in r) ≡ ok y → x ≡ y
      ok_injective x y h = cc

  -- If an activation is renewed over a lawful bucket, then the record that was there is the actor's,
  -- it is held by the session that asks at the same route, and its lease was not over. The lease that
  -- is returned has the host, the session and the route of the request and ends the requested duration
  -- after the time of the grant, and the record that is stored then is the old one with that lease, the
  -- inventory and the fresh identifier.
  pub renew_activation-IsHeld :
      (now granted : ℕ) (mutation : Text) (actor : ActorKey) (request : HostLeaseRequest)
      (inventory : ActivationInventory) (s t : Storage c b) (lease : HostLease)
      → renew_activation c b peers now granted mutation actor request inventory s ≡ (t, ok lease)
      → (generation : ℕ) × (o : Ownership) × ((load c b peers (storage_key actor) s).1
          ≡ ok (some (generation, o)))
        × IsHeld now actor request o
        × IsLeased granted request lease
        × IsOwned c b t (record o { mutation = mutation; lease = lease; inventory = inventory })
  unfolding renew_activation
  renew_activation-IsHeld now granted mutation actor request inventory s t lease h =
      let renew = λ (p : ℕ × Ownership).
        renew_found c b peers now granted mutation actor request inventory p.0 p.1 in
      let there = λ (found : Option (ℕ × Ownership)). λ (u : Storage c b).
        continue {B = HostLease} renew u (context found "actor ownership missing") in
      let (found, loaded, rest) = bind-ok (load c b peers (storage_key actor)) there s h in
      let u = (load c b peers (storage_key actor) s).0 in
      let ((generation, o), present, rest') =
        bind-ok (lift (context found "actor ownership missing")) renew u rest in
      let here =
        context-some found (generation, o) _
          (ap (λ (p : Storage c b × Result (ℕ × Ownership)). p.1) present) in
      let (held, leased, owned) =
        renew_found-IsOwned now granted mutation actor request inventory generation o u t lease
          rest' in
      (
        generation,
        o,
        ap (λ (p : Storage c b × Result (Option (ℕ × Ownership))). p.1) loaded ∙ ap ok here,
        held,
        leased,
        owned,
      )
    where
      context-some :
          (o : Option (ℕ × Ownership)) (a : ℕ × Ownership) (e : String)
          → context o e ≡ ok a
          → o ≡ some a
      context-some none a e h = cc
      context-some (some x) a e h = cc
