-- ===== src/Authority/Activation/Releasing.antt =====
-- Releases and the lease of an activation (src/bucket/runtime/activation.rs).
use little_actors.Prelude.{
  ℕ, Bool, true, false, not, ◌||◌, ◌≡◌, ◌≢◌, refl, ap, sym, ◌∙◌, subst, Option, none, some,
  Bool-cases, Result-cases, inl, inr, Result, ok, err, arith, if◌then◌else◌, eqb,
}
use little_actors.Prelude.Action.{Action, pure, lift, continue, bind-ok}
use little_actors.Prelude.Text.{Text, text_eq}
use little_actors.Actor.{ActorKey, storage_key}
use little_actors.Authority.{Ownership}
use little_actors.Authority.Bucket.{Bucket, BucketObject, Lawful, replace, generation_of}
use little_actors.Authority.Bucket.Replacing.{replace-holds, replace-current}
use little_actors.Authority.Latest.{load, read_owner}
use little_actors.Authority.Leasing.{is_held_by}
use little_actors.Authority.Paths.{owner}
use little_actors.Authority.Peers.{Peers}
use little_actors.Authority.Recovery.{Storage}
use little_actors.Authority.Activation.{
  replace_activation, release_activation, release_in, release_found,
}
use little_actors.Wire.{Codec}

-- A record is not an activation of the session, or its lease was ended.
abbrev pub is_released : Text → Text → Option (ℕ × Ownership) → Bool
is_released host session none = true
is_released host session (some (generation, o)) =
    not (is_held_by o.lease host session) || eqb o.lease.expires_at_ms 0

module _ (c : Codec) (b : Bucket (Codec.Bytes c)) (peers : Peers (Codec.Bytes c)) where
  -- The stored record of an actor, if any, is the actor's own.
  pub record IsPlaced (s : Storage c b) (actor : ActorKey) : Type 0 where
    pub own :
        (generation : ℕ) (o : Ownership)
        → (load c b peers (storage_key actor) s).1 ≡ ok (some (generation, o))
        → o.actor ≡ actor

  -- What a successful load has read.
  record IsLoaded (s : Storage c b) (actor : ActorKey) (found : Option (ℕ × Ownership))
      : Type 0 where
    key : Text
    path : owner c (storage_key actor) ≡ ok key
    object : Option (BucketObject (Codec.Bytes c))
    here : b.get s key ≡ ok object
    reads : read_owner c b peers object ≡ ok found

  load-IsLoaded :
      (s t : Storage c b) (actor : ActorKey) (found : Option (ℕ × Ownership))
      → load c b peers (storage_key actor) s ≡ (t, ok found)
      → IsLoaded s actor found × (s ≡ t)
  unfolding load
  load-IsLoaded s t actor found h =
      let read = λ (object : Option (BucketObject (Codec.Bytes c))).
        lift {S = Storage c b} (read_owner c b peers object) in
      let look = λ (key : Text).
        λ (u : Storage c b). continue {B = Option (ℕ × Ownership)} read u (b.get u key) in
      let (key, path, rest) = bind-ok (lift (owner c (storage_key actor))) look s h in
      let (object, here, rest') = bind-ok (λ (u : Storage c b). (u, b.get u key)) read s rest in
      (
        record {
          key = key;
          path = ap (λ (p : Storage c b × Result Text). p.1) path;
          object = object;
          here =
              ap (λ (p : Storage c b × Result (Option (BucketObject (Codec.Bytes c)))). p.1) here;
          reads = ap (λ (p : Storage c b × Result (Option (ℕ × Ownership))). p.1) rest';
        },
        ap (λ (p : Storage c b × Result (Option (ℕ × Ownership))). p.0) rest',
      )

  stored-load :
      (t : Storage c b) (actor : ActorKey) (key : Text) (object : BucketObject (Codec.Bytes c))
      (o : Ownership)
      → owner c (storage_key actor) ≡ ok key
      → b.get t key ≡ ok (some object)
      → c.read_ownership object.bytes ≡ ok o
      → (load c b peers (storage_key actor) t).1 ≡ ok (some (object.generation, o))
  unfolding load read_owner
  stored-load t actor key object o path here reads = rw (path, here, read_owner, reads) refl

  read_owner-generation :
      (object : Option (BucketObject (Codec.Bytes c))) (generation : ℕ) (o : Ownership)
      → read_owner c b peers object ≡ ok (some (generation, o))
      → generation_of object ≡ some generation
  unfolding read_owner
  read_owner-generation none generation o h = cc
  read_owner-generation (some object) generation o h =
      elim (Result-cases (c.read_ownership object.bytes)) [
        | inl (x, e) ↦ cc (rw (read_owner, e) at h)
        | inr (m, e) ↦ cc (rw (read_owner, e) at h)
      ]

  module _ (laws : Lawful b) where
    -- What one try leaves, if it did not fail.
    abbrev Leaves : ActorKey → Text → Text → Storage c b × Result Bool → Type 0
    Leaves actor host session (t, ok true) =
        (found : Option (ℕ × Ownership)) × ((load c b peers (storage_key actor) t).1 ≡ ok found)
        × (is_released host session found ≡ true)
    Leaves actor host session (t, ok false) = ⊥
    Leaves actor host session (t, err e) = Unit

    replaced-Leaves :
        (mutation host session key : Text) (actor : ActorKey) (s : Storage c b) (generation : ℕ)
        (o : Ownership) (object : Option (BucketObject (Codec.Bytes c)))
        → owner c (storage_key o.actor) ≡ ok key
        → o.actor ≡ actor
        → b.get s key ≡ ok object
        → generation_of object ≡ some generation
        → o.lease.expires_at_ms ≡ 0
        → Leaves actor host session (replace_activation c b peers mutation o (some generation) s)
    unfolding replace_activation
    replaced-Leaves mutation host session key actor s generation o object path same here
          at_generation ended =
        let value = c.write_ownership (record o { mutation = mutation }) in
        rw path (
          outcome (replace ⦃e = c.bytes_eq⦄ b key (some generation) value s).0
            (replace ⦃e = c.bytes_eq⦄ b key (some generation) value s).1
            (λ h.
              let (stored, now, holds) =
                replace-holds ⦃e = c.bytes_eq⦄ b laws s key (some generation) value h in
              (
                some (stored.generation, record o { mutation = mutation }),
                stored-load _ actor key stored (record o { mutation = mutation })
                    (subst (λ a. owner c (storage_key a) ≡ ok key) same path) now
                    (ap c.read_ownership holds
                      ∙ c.read-write_ownership (record o { mutation = mutation })),
                ground arith,
              ))
            (subst (λ (g : Option ℕ). (replace ⦃e = c.bytes_eq⦄ b key g value s).1 ≢ ok false)
              at_generation (replace-current ⦃e = c.bytes_eq⦄ b laws s key value object here)))
      where
        outcome :
            (t : Storage c b) (r : Result Bool)
            → (r ≡ ok true → Leaves actor host session (t, ok true))
            → r ≢ ok false
            → Leaves actor host session (t, r)
        outcome t (ok true) done refused = done refl
        outcome t (ok false) done refused = refused refl
        outcome t (err e) done refused = tt

    try-Leaves :
        (mutation host session : Text) (actor : ActorKey) (s : Storage c b)
        (found : Option (ℕ × Ownership))
        → IsPlaced s actor
        → IsLoaded s actor found
        → (load c b peers (storage_key actor) s).1 ≡ ok found
        → Leaves actor host session (release_found c b peers mutation host session found s)
    unfolding release_found
    try-Leaves mutation host session actor s none placed l loaded = (none, loaded, refl)
    try-Leaves mutation host session actor s (some (generation, o)) placed l loaded =
        elim (Bool-cases (not (is_held_by o.lease host session) || eqb o.lease.expires_at_ms 0)) [
          | inl over ↦ rw over (some (generation, o), loaded, over)
          | inr held ↦
              let ended : Ownership = record o { lease = record o.lease { expires_at_ms = 0 } } in
              rw held (
                replaced-Leaves mutation host session l.key actor s generation ended l.object
                  (subst (λ a. owner c (storage_key a) ≡ ok l.key)
                    (sym (placed.own generation o loaded)) l.path)
                  (placed.own generation o loaded) l.here
                  (read_owner-generation l.object generation o l.reads) refl)
        ]

    -- If an activation is released successfully over a lawful bucket that nothing else writes
    -- meanwhile, then the actor's record is not an activation of the session, or its lease was ended.
    -- The record that was there, if any, is the actor's own.
    pub release_activation-is_released :
        (mutations : ℕ → Text) (actor : ActorKey) (host session : Text) (s t : Storage c b)
        → IsPlaced s actor
        → release_activation c b peers mutations actor host session s ≡ (t, ok tt)
        → (found : Option (ℕ × Ownership)) × ((load c b peers (storage_key actor) t).1 ≡ ok found)
          × (is_released host session found ≡ true)
    unfolding release_activation release_in
    release_activation-is_released mutations actor host session s t placed h =
        let again = λ (released : Bool).
          (let r : Action (Storage c b) (Unit {0}) =
              (if released then pure tt else release_in c b peers 2 mutations actor host session) in
            r) in
        let try = λ (found : Option (ℕ × Ownership)). λ (u : Storage c b).
          (let (v, x) = release_found c b peers (mutations 2) host session found u in
            continue {B = Unit {0}} again v x) in
        let (found, loaded, rest) = bind-ok (load c b peers (storage_key actor)) try s h in
        let u = (load c b peers (storage_key actor) s).0 in
        let (l, same) = load-IsLoaded s u actor found loaded in
        let (released, tried, rest') =
          bind-ok (release_found c b peers (mutations 2) host session found) again u rest in
        let v = (release_found c b peers (mutations 2) host session found u).0 in
        ended v released
          (subst (Leaves actor host session) tried (
            subst
              (λ w.
                Leaves actor host session
                  (release_found c b peers (mutations 2) host session found w))
              same
              (try-Leaves (mutations 2) host session actor s found placed l
                (ap (λ (p : Storage c b × Result (Option (ℕ × Ownership))). p.1) loaded))))
          rest'
      where
        ended :
            (v : Storage c b) (released : Bool)
            → Leaves actor host session (v, ok released)
            → (let r : Action (Storage c b) (Unit {0}) =
                    (if released
                      then pure tt
                      else release_in c b peers 2 mutations actor host session) in
                  r)
                v
              ≡ (t, ok tt)
            → Leaves actor host session (t, ok true)
        ended v true leaves e =
            subst (λ w. Leaves actor host session (w, ok true))
              (ap (λ (p : Storage c b × Result (Unit {0})). p.0) e) leaves
        ended v false leaves e = absurd leaves
