-- ===== src/Authority/Activation/Granting.antt =====
-- What a granted activation is: who may take an actor over, and the record that is then stored
-- (src/bucket/runtime/activation.rs).
use little_actors.Prelude.{
  ◌+◌, not, ◌&&◌, ℕ, ◌≤◌, Bool, true, false, ◌≡◌, refl, ap, sym, ◌∙◌, Option, none, some, Result,
  ok, err, ensure, arith, ==_iff, String, subst, Result-cases, inl, inr, >>=-eq-ok, ◌==◌, ◌==◌, [],
  Bool-cases, leb,
}
use little_actors.Prelude.Action.{Action, pure, lift, continue, bind-ok}
use little_actors.Prelude.Text.{Text, text_eq}
use little_actors.Actor.{ActorKey, storage_key}
use little_actors.Actor.Identity.{actor_beq_iff}
use little_actors.Lease.{validate_duration, HostLease, HostLeaseRequest}
use little_actors.Authority.{Ownership}
use little_actors.Authority.Bucket.{Bucket, BucketObject, Lawful, replace}
use little_actors.Authority.Bucket.Replacing.{replace-holds}
use little_actors.Authority.Newest.{LoadedSnapshot, reference_of}
use little_actors.Authority.Leasing.{
  is_held_by, new_lease, next_epoch, generation_at, check_request, check_previous,
}
use little_actors.Authority.Paths.{owner}
use little_actors.Authority.Peers.{Peers}
use little_actors.Authority.Recovery.{Storage}
use little_actors.Authority.Activation.{
  replace_activation, save_activation, take_over, load_current, new_ownership, grant_activation,
  register_over, register_activation,
}
use little_actors.Naming.{u64_max}
use little_actors.Replica.Store.{checked_add}
use little_actors.Wire.{Codec}

ok_injective : {A : Type 0} (x y : A) → ok x ≡ ok y → x ≡ y
ok_injective x y h = cc

ok_pair : {A B : Type 0} (p q : A × B) → ok p ≡ ok q → (p.0 ≡ q.0) × (p.1 ≡ q.1)
ok_pair {A} {B} p q h =
    let e = ok_injective p q h in (ap (λ (p : A × B). p.0) e, ap (λ (p : A × B). p.1) e)

ensure-true : (v : Bool) (e : String) → ensure v e ≡ ok tt → v ≡ true
ensure-true true e h = refl
ensure-true false e h = cc

checked_add-sum : (m n : ℕ) (e : String) {k : ℕ} → checked_add m n e ≡ ok k → m + n ≡ k
checked_add-sum m n e {k} h = elim (Bool-cases (leb (m + n) u64_max)) [
  | inl fits ↦ ok_injective (m + n) k (rw fits at h)
  | inr over ↦ absurd (let h' = rw over at h in cc)
]

-- The lease is the one that is asked for, from a time on.
pub record IsLeased (granted : ℕ) (request : HostLeaseRequest) (lease : HostLease) : Type 0 where
  pub same_host : lease.id ≡ request.id
  pub same_session : lease.session_id ≡ request.session_id
  pub same_route : lease.route ≡ request.route
  pub expires : lease.expires_at_ms ≡ granted + request.duration_ms

pub new_lease-IsLeased :
    (granted : ℕ) (request : HostLeaseRequest) (lease : HostLease)
    → new_lease granted request ≡ ok lease
    → IsLeased granted request lease
unfolding new_lease
new_lease-IsLeased granted request lease h =
    let (_, _, h₁) = >>=-eq-ok (validate_duration request) _ h in
    let (_, _, h₂) =
      >>=-eq-ok (ensure (not (request.id == []) && not (request.session_id == [])) _) _ h₁ in
    let (expires, added, h₃) = >>=-eq-ok (checked_add granted request.duration_ms _) _ h₂ in
    subst (IsLeased granted request) (ok_injective _ lease h₃) (record {
      same_host = refl;
      same_session = refl;
      same_route = refl;
      expires = sym (checked_add-sum granted request.duration_ms _ added);
    })

-- The epoch is 1, or the one after that of the record that was there.
abbrev pub IsNext : Option (ℕ × Ownership) → ℕ → Type 0
IsNext none epoch = epoch ≡ 1
IsNext (some (generation, o)) epoch = epoch ≡ o.epoch + 1

next_epoch-IsNext :
    (current : Option (ℕ × Ownership)) (epoch : ℕ)
    → next_epoch current ≡ ok epoch
    → IsNext current epoch
unfolding next_epoch
next_epoch-IsNext none epoch h = sym (ok_injective 1 epoch h)
next_epoch-IsNext (some (generation, o)) epoch h = sym (checked_add-sum o.epoch 1 _ h)

module _ (c : Codec) (b : Bucket (Codec.Bytes c)) where
  -- An ownership is stored under the key of its actor.
  pub record IsOwned (t : Storage c b) (o : Ownership) : Type 0 where
    pub key : Text
    pub path : owner c (storage_key o.actor) ≡ ok key
    pub object : BucketObject (Codec.Bytes c)
    pub found : b.get t key ≡ ok (some object)
    pub holds : object.bytes ≡ c.write_ownership o

  -- The previous ownership gives way: it is the same actor's, in the same region, its lease is over,
  -- and it is not that of the session that asks.
  pub record GivesWay (now : ℕ) (actor : ActorKey) (request : HostLeaseRequest) (region : Text)
      (o : Ownership) : Type 0 where
    pub same_actor : o.actor ≡ actor
    pub same_region : o.region ≡ region
    pub other_session : is_held_by o.lease request.id request.session_id ≡ false
    pub expired : o.lease.expires_at_ms ≤ now

  abbrev pub IsFree : ℕ → ActorKey → HostLeaseRequest → Text → Option (ℕ × Ownership) → Type 0
  IsFree now actor request region none = Unit
  IsFree now actor request region (some (generation, o)) = GivesWay now actor request region o

  check_previous-GivesWay :
      (now : ℕ) (actor : ActorKey) (request : HostLeaseRequest) (region : Text) (o : Ownership)
      → check_previous now actor request region o ≡ ok tt
      → GivesWay now actor request region o
  unfolding check_previous
  check_previous-GivesWay now actor request region o h = record {
    same_actor = ground (arith, actor_beq_iff o.actor actor);
    same_region = ground (arith, ==_iff o.region region);
    other_session = ground arith;
    expired = ground arith;
  }

  abbrev Grant : Type 0
  Grant = Ownership × Option (LoadedSnapshot (Codec.Bytes c))

  -- A granted activation.
  pub record IsGranted (granted : ℕ) (mutation : Text) (actor : ActorKey)
      (request : HostLeaseRequest) (region : Text) (current : Option (ℕ × Ownership))
      (recovered : Option (LoadedSnapshot (Codec.Bytes c))) (t : Storage c b) (o : Ownership)
      : Type 0 where
    pub stored : IsOwned t o
    pub is_actor : o.actor ≡ actor
    pub is_region : o.region ≡ region
    pub next : IsNext current o.epoch
    pub leased : IsLeased granted request o.lease
    pub based : o.base ≡ reference_of recovered

  module _ (peers : Peers (Codec.Bytes c)) (laws : Lawful b) where
    pub save_activation-IsOwned :
        (s : Storage c b) (mutation : Text) (o : Ownership) (g : Option ℕ) {t : Storage c b}
        → save_activation c b peers mutation o g s ≡ (t, ok tt)
        → IsOwned t (record o { mutation = mutation })
    unfolding save_activation replace_activation
    save_activation-IsOwned s mutation o g {t} h =
        let value = c.write_ownership (record o { mutation = mutation }) in
        let write = λ (key : Text). replace ⦃e = c.bytes_eq⦄ b key g value in
        let confirm = λ (saved : Bool).
          lift {S = Storage c b} (ensure saved "actor activation changed concurrently") in
        let (saved, wrote, checked) =
          bind-ok (replace_activation c b peers mutation o g) confirm s h in
        let (key, path, written) = bind-ok (lift (owner c (storage_key o.actor))) write s wrote in
        let success =
          ensure-true saved _ (ap (λ (p : Storage c b × Result (Unit {0})). p.1) checked) in
        let written_true = ap (λ (p : Storage c b × Result Bool). p.1) written ∙ ap ok success in
        let (object, found, holds) =
          replace-holds ⦃e = c.bytes_eq⦄ b laws s key g value written_true in
        let at_end =
          ap (λ (p : Storage c b × Result Bool). p.0) written
          ∙ ap (λ (p : Storage c b × Result (Unit {0})). p.0) checked in
        record {
          key = key;
          path = ap (λ (p : Storage c b × Result Text). p.1) path;
          object = object;
          found = subst (λ (u : Storage c b). b.get u key ≡ ok (some object)) at_end found;
          holds = holds;
        }

    grant_activation-IsGranted :
        (granted : ℕ) (mutation : Text) (actor : ActorKey) (request : HostLeaseRequest)
        (region : Text) (current : Option (ℕ × Ownership))
        (recovered r : Option (LoadedSnapshot (Codec.Bytes c))) (s t : Storage c b) (o : Ownership)
        → grant_activation c b peers granted mutation actor request region current recovered s
          ≡ (t, ok (o, r))
        → IsGranted granted mutation actor request region current recovered t o × (r ≡ recovered)
    unfolding grant_activation new_ownership
    grant_activation-IsGranted granted mutation actor request region current recovered r s t o h =
        let made = λ (epoch : ℕ). λ (lease : HostLease).
          new_ownership c b peers mutation actor region epoch lease recovered in
        let finish = λ (o : Ownership).
          λ (saved : Unit {0}). (let r : Action (Storage c b) Grant = pure (o, recovered) in r) in
        let save = λ (o : Ownership). λ (u : Storage c b).
          (let (v, x) = save_activation c b peers mutation o (generation_at current) u in
            continue {B = Grant} (finish o) v x) in
        let lease_then = λ (epoch : ℕ). λ (lease : HostLease). save (made epoch lease) in
        let epoch_then = λ (epoch : ℕ). λ (u : Storage c b).
          continue {B = Grant} (lease_then epoch) u (new_lease granted request) in
        let (epoch, next, rest) = bind-ok (lift (next_epoch current)) epoch_then s h in
        let (lease, leased, rest') =
          bind-ok (lift (new_lease granted request)) (lease_then epoch) s rest in
        let own = made epoch lease in
        let (_, saved, done) =
          bind-ok (save_activation c b peers mutation own (generation_at current)) (finish own) s
            rest' in
        let stored = save_activation-IsOwned s mutation own (generation_at current) saved in
        let at_end = ap (λ (p : Storage c b × Result Grant). p.0) done in
        let (same, same_loaded) =
          ok_pair (own, recovered) (o, r) (ap (λ (p : Storage c b × Result Grant). p.1) done) in
        (
          subst (λ x. IsGranted granted mutation actor request region current recovered t x) same
              (record {
                stored = subst (λ u. IsOwned u own) at_end stored;
                is_actor = refl;
                is_region = refl;
                next =
                    next_epoch-IsNext current epoch (ap (λ (p : Storage c b × Result ℕ). p.1) next);
                leased =
                    new_lease-IsLeased granted request lease
                      (ap (λ (p : Storage c b × Result HostLease). p.1) leased);
                based = refl;
              }),
          sym same_loaded,
        )

    take_over-IsFree :
        (fuel now : ℕ) (actor : ActorKey) (request : HostLeaseRequest) (region : Text)
        (current : Option (ℕ × Ownership)) (recovered : Option (LoadedSnapshot (Codec.Bytes c)))
        (s t : Storage c b)
        → take_over c b peers fuel now actor request region current s ≡ (t, ok recovered)
        → IsFree now actor request region current
    unfolding take_over
    take_over-IsFree fuel now actor request region none recovered s t h = tt
    take_over-IsFree fuel now actor request region (some (g, o)) recovered s t h =
        elim (Result-cases (check_previous now actor request region o)) [
          | inl (tt, e) ↦ check_previous-GivesWay now actor request region o e
          | inr (_, e) ↦ absurd (failed _ (ap (λ (p : Storage c b × Result _). p.1) (rw e at h)))
        ]
      where
        failed :
            (e : String)
            → (let r : Result (Option (LoadedSnapshot (Codec.Bytes c))) = err e in r) ≡ ok recovered
            → ⊥
        failed e h = cc

    -- If an actor is registered successfully over a lawful bucket, then the record that was there
    -- when it was read, if one was asked for, gave way: it was the same actor's in the same region,
    -- not of the session that asks, and its lease was over. The new record is stored under the
    -- actor's key, its epoch is 1 or one more than that of the old record, its lease has the host, the
    -- session and the route of the request and ends the requested duration after the time of the grant, and its base is the snapshot that was recovered and returned.
    pub register_activation-IsGranted :
        (fuel now granted : ℕ) (mutation : Text) (actor : ActorKey) (request : HostLeaseRequest)
        (region : Text) (new_actor : Bool) (s t : Storage c b) (o : Ownership)
        (recovered : Option (LoadedSnapshot (Codec.Bytes c)))
        → register_activation c b peers fuel now granted mutation actor request region new_actor s
          ≡ (t, ok (o, recovered))
        → (current : Option (ℕ × Ownership)) × ((load_current c b peers actor new_actor s).1
            ≡ ok current)
          × IsFree now actor request region current
          × IsGranted granted mutation actor request region current recovered t o
    unfolding register_activation register_over
    register_activation-IsGranted fuel now granted mutation actor request region new_actor s t o
          recovered h =
        let over = λ (current : Option (ℕ × Ownership)).
          register_over c b peers fuel now granted mutation actor request region current in
        let load = λ (ready : Unit {0}). λ (u : Storage c b).
          (let (v, x) = load_current c b peers actor new_actor u in
            continue {B = Grant} over v x) in
        let (_, checked, rest) = bind-ok (lift (check_request actor region request)) load s h in
        let (current, loaded, rest') =
          bind-ok (load_current c b peers actor new_actor) over s rest in
        let u = (load_current c b peers actor new_actor s).0 in
        let grant = grant_activation c b peers granted mutation actor request region current in
        let (found, taken, rest'') =
          bind-ok (take_over c b peers fuel now actor request region current) grant u rest' in
        let v = (take_over c b peers fuel now actor request region current u).0 in
        let (is_granted, same) =
          grant_activation-IsGranted granted mutation actor request region current found recovered v
            t o rest'' in
        (
          current,
          ap (λ (p : Storage c b × Result (Option (ℕ × Ownership))). p.1) loaded,
          take_over-IsFree fuel now actor request region current found u v taken,
          subst (λ x. IsGranted granted mutation actor request region current x t o) (sym same)
              is_granted,
        )
