-- ===== src/Authority/Activation/Racing.antt =====
-- Two writers of one ownership (src/bucket/runtime/activation.rs).
use little_actors.Prelude.{
  ℕ, Bool, true, false, ◌≡◌, ◌≢◌, refl, ap, sym, ◌∙◌, Option, some, Result, ok, err, ensure,
}
use little_actors.Prelude.Action.{continue}
use little_actors.Prelude.Text.{Text}
use little_actors.Actor.{storage_key}
use little_actors.Authority.{Ownership}
use little_actors.Authority.Bucket.{Bucket, BucketObject, generation_of, Lawful, replace}
use little_actors.Authority.Bucket.Replacing.{IsOther, replace-race}
use little_actors.Authority.Paths.{owner}
use little_actors.Authority.Peers.{Peers}
use little_actors.Authority.Recovery.{Storage}
use little_actors.Authority.Activation.{replace_activation, save_activation}
use little_actors.Wire.{Codec}

module _ (c : Codec) (b : Bucket (Codec.Bytes c)) (peers : Peers (Codec.Bytes c))
    (laws : Lawful b) where
  abbrev with_mutation : Text → Ownership → Ownership
  with_mutation mutation o = record o { mutation = mutation }

  ok_injective : {A : Type 0} (x y : A) → ok x ≡ ok y → x ≡ y
  ok_injective x y h = cc

  distinct_bytes :
      (m n : Text) (o p : Ownership)
      → m ≢ n
      → c.write_ownership (with_mutation m o) ≢ c.write_ownership (with_mutation n p)
  distinct_bytes m n o p differ e = differ (
      ap (λ (x : Ownership). x.mutation)
        (ok_injective (with_mutation m o) (with_mutation n p) (
          sym (c.read-write_ownership (with_mutation m o))
          ∙ ap c.read_ownership e
          ∙ c.read-write_ownership (with_mutation n p))))

  abbrev confirm : Bool → Storage c b → Storage c b × Result (Unit {0})
  confirm saved u = (u, ensure saved "actor activation changed concurrently")

  save-replace :
      (m key : Text) (o : Ownership) (g : Option ℕ) (s : Storage c b)
      → owner c (storage_key o.actor) ≡ ok key
      → save_activation c b peers m o g s ≡ (
          let (t, r) = replace ⦃e = c.bytes_eq⦄ b key g (c.write_ownership (with_mutation m o)) s in
          continue {B = Unit {0}} confirm t r)
  unfolding save_activation replace_activation
  save-replace m key o g s path = rw path refl

  -- How a saved write came out.
  wrote_true :
      (u : Storage c b) (r : Result Bool)
      → (continue {B = Unit {0}} confirm u r).1 ≡ ok tt
      → r ≡ ok true
  wrote_true u (ok true) h = refl
  wrote_true u (ok false) h = cc
  wrote_true u (err e) h = cc

  same_state : (u : Storage c b) (r : Result Bool) → (continue {B = Unit {0}} confirm u r).0 ≡ u
  same_state u (ok v) = refl
  same_state u (err e) = refl

  -- Two hosts that read the same ownership record of an actor, or its absence, and write theirs with
  -- different fresh identifiers over a lawful bucket, do not both succeed: if the first one does,
  -- the second one fails, and the record stays the first one's. The object that both read holds
  -- other bytes than the first one writes.
  pub save_activation-race :
      (s : Storage c b) (key m n : Text) (o p : Ownership)
      (read : Option (BucketObject (Codec.Bytes c)))
      → owner c (storage_key o.actor) ≡ ok key
      → p.actor ≡ o.actor
      → m ≢ n
      → b.get s key ≡ ok read
      → IsOther (c.write_ownership (record o { mutation = m })) read
      → (save_activation c b peers m o (generation_of read) s).1 ≡ ok tt
      → ((save_activation c b peers n p
            (generation_of read)
            (save_activation c b peers m o (generation_of read) s).0).1
          ≢ ok tt)
        × ((object : BucketObject (Codec.Bytes c)) × (b.get
                (save_activation c b peers n p
                  (generation_of read)
                  (save_activation c b peers m o (generation_of read) s).0).0
                key
              ≡ ok (some object))
            × (c.read_ownership object.bytes ≡ ok (record o { mutation = m })))
  save_activation-race s key m n o p read path same differ found other h =
      let g = generation_of read in
      let path' : owner c (storage_key p.actor) ≡ ok key = rw same path in
      let v = c.write_ownership (with_mutation m o) in
      let w = c.write_ownership (with_mutation n p) in
      let (t, r) = replace ⦃e = c.bytes_eq⦄ b key g v s in
      let (t', r') = replace ⦃e = c.bytes_eq⦄ b key g w t in
      let first = save-replace m key o g s path in
      let done = wrote_true t r (rw first at h) in
      let (refused, (object, now, holds)) =
        replace-race ⦃e = c.bytes_eq⦄ b laws s key v w read found other
          (distinct_bytes m n o p differ) done in
      rw (first, same_state t r, save-replace n key p g t path', same_state t' r')
        (
          λ e. refused (wrote_true t' r' e),
          (object, now, ap c.read_ownership holds ∙ c.read-write_ownership (with_mutation m o)),
        )
