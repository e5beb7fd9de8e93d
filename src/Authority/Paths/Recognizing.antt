-- ===== src/Authority/Paths/Recognizing.antt =====
-- The names that `snapshot_object_name` makes, and how they are read (src/storage.rs,
-- src/storage_paths.rs).
use little_actors.Prelude.{
  ℕ, ◌≡◌, refl, sym, ◌∙◌, ap, subst, true, ◌&&◌, some, [], ◌∷◌, ◌++◌, ==_iff, eqb, ltb, all, length,
  ok, ok-injective, >>=-eq-ok, ensure, arith, ensure-true,
}
use mathlib.Core.List.{append_assoc}
use little_actors.Prelude.Text.{Text, text, text_eq, starts_with, starts_with-append, text_beq}
use little_actors.Actor.{ActorKey, validate, storage_key}
use little_actors.Naming.{decimal, object_name}
use little_actors.Naming.Positions.{file-free}
use little_actors.Authority.FileBucket.{split_on}
use little_actors.Authority.Paths.{
  root, strip_prefix, is_ascii_hexdigit, actor_path, snapshots, snapshot_object_name,
}
use little_actors.Authority.Paths.Reading.{
  is_other, split_on-free, split_on-append, strip_prefix-append,
}
use little_actors.Authority.Paths.Objects.{Decoder, valid_parts, parts_actor, actor_from_snapshot}
use little_actors.Wire.{Codec}

hexdigit-other : (b : ℕ) → is_ascii_hexdigit b ≡ true → is_other b'/' b ≡ true
unfolding is_ascii_hexdigit
hexdigit-other b h = ground arith

pub hexdigits-other : (s : Text) → all is_ascii_hexdigit s ≡ true → all (is_other b'/') s ≡ true
hexdigits-other [] h = refl
hexdigits-other (b ∷ s) h = ground (arith, hexdigit-other b, hexdigits-other s)

-- The file's name.
abbrev pub file_of : ℕ → Text
file_of version = decimal version ++ text ".json"

module _ (c : Codec) where
  -- What comes before a snapshot's own name.
  abbrev pub prefix_of : ActorKey → Text
  prefix_of actor = root ++ (text "snapshots/" ++ (actor_path c actor ++ text "/"))

  abbrev pub name_of : ActorKey → ℕ → Text → Text
  name_of actor version nonce = prefix_of actor ++ (nonce ++ (b'/' ∷ file_of version))

  -- A valid actor and nonce, of a name that was made.
  abbrev pub IsMade : ActorKey → ℕ → Text → Text → Type 0
  IsMade actor version nonce name =
      (validate actor ≡ ok tt)
      × ((eqb (length nonce) 32 && all is_ascii_hexdigit nonce) ≡ true)
      × (name ≡ name_of actor version nonce)

  pub snapshots-valid :
      (actor : ActorKey) → validate actor ≡ ok tt → snapshots c actor ≡ ok (prefix_of actor)
  unfolding snapshots
  snapshots-valid actor h = rw h refl

  pub snapshot_object_name-IsMade :
      (actor : ActorKey) (version : ℕ) (nonce name : Text)
      → snapshot_object_name c actor version nonce ≡ ok name
      → IsMade actor version nonce name
  unfolding snapshot_object_name object_name
  snapshot_object_name-IsMade actor version nonce name h =
      let (_, valid, h₁) = >>=-eq-ok (validate actor) _ h in
      let (_, _, h₂) = >>=-eq-ok (ensure (ltb 0 version) _) _ h₁ in
      let (_, digits, h₃) =
        >>=-eq-ok (ensure (eqb (length nonce) 32 && all is_ascii_hexdigit nonce) _) _ h₂ in
      (
        valid,
        ensure-true _ _ digits,
        ok-injective (sym (rw (snapshots-valid actor valid) at h₃))
            ∙ append_assoc (prefix_of actor) (nonce ++ text "/") (file_of version)
            ∙ ap (λ (t : Text). prefix_of actor ++ t)
                (append_assoc nonce (text "/") (file_of version)),
      )

  -- The parts after the actor's prefix.
  pub parts_after :
      (version : ℕ) (nonce : Text)
      → (eqb (length nonce) 32 && all is_ascii_hexdigit nonce) ≡ true
      → valid_parts version (split_on b'/' (nonce ++ (b'/' ∷ file_of version))) ≡ true
  unfolding valid_parts
  parts_after version nonce h =
      let digits : all is_ascii_hexdigit nonce ≡ true = ground arith in
      rw
        (
          split_on-append b'/' nonce (file_of version) (hexdigits-other nonce digits),
          split_on-free b'/' (file_of version) (file-free version),
          h,
        )
        ((==_iff (file_of version) (file_of version)).1 refl)

  -- The path of an actor before a rest, without parentheses.
  flat :
      (a x y z tail : Text)
      → ((a ++ (b'/' ∷ (x ++ (b'/' ∷ (y ++ (b'/' ∷ z)))))) ++ (b'/' ∷ [])) ++ tail
        ≡ a ++ (b'/' ∷ (x ++ (b'/' ∷ (y ++ (b'/' ∷ (z ++ (b'/' ∷ tail)))))))
  flat a x y z tail = simp (append_assoc)

  module _ (d : Decoder c) where
    path_parts :
        (actor : ActorKey) (tail : Text)
        → split_on b'/' (text "snapshots/" ++ ((actor_path c actor ++ text "/") ++ tail)) ≡ (
          text "snapshots",
          c.shard (storage_key actor)
              ∷ c.component actor.project_id
              ∷ c.component actor.actor_name
              ∷ c.component actor.actor_id
              ∷ (split_on b'/' tail).0
              ∷ (split_on b'/' tail).1,
        )
    unfolding actor_path
    path_parts actor tail =
        let a = c.shard (storage_key actor) in
        let x = c.component actor.project_id in
        let y = c.component actor.actor_name in
        let z = c.component actor.actor_id in
        let after_y = z ++ (b'/' ∷ tail) in
        let after_x = y ++ (b'/' ∷ after_y) in
        let after_a = x ++ (b'/' ∷ after_x) in
        ap (λ (t : Text). split_on b'/' (text "snapshots/" ++ t)) (flat a x y z tail)
        ∙ split_on-append b'/' (text "snapshots") (a ++ (b'/' ∷ after_a)) refl
        ∙ rw
            (
              split_on-append b'/' a after_a (d.shard-plain _),
              split_on-append b'/' x after_x (d.component-plain _),
              split_on-append b'/' y after_y (d.component-plain _),
              split_on-append b'/' z tail (d.component-plain _),
            )
            refl

    -- The actor is read from a name that was made for it.
    made-IsRead :
        (actor : ActorKey) (version : ℕ) (nonce name : Text)
        → IsMade actor version nonce name
        → actor_from_snapshot c d name ≡ ok actor
    unfolding actor_from_snapshot parts_actor text_beq
    made-IsRead actor version nonce name (valid, digits, made) =
        let tail = nonce ++ (b'/' ∷ file_of version) in
        let path = text "snapshots/" ++ (actor_path c actor ++ text "/") in
        let stripped : strip_prefix root name ≡ some (path ++ tail) =
          subst (λ (t : Text). strip_prefix root t ≡ some (path ++ tail)) (sym made)
            (strip_prefix-append root (path ++ tail)) in
        let prefixed : starts_with (prefix_of actor) name ≡ true =
          subst (λ (t : Text). starts_with (prefix_of actor) t ≡ true) (sym made)
            (starts_with-append (prefix_of actor) tail) in
        rw
          (
            stripped,
            path_parts actor tail,
            split_on-append b'/' nonce (file_of version) (hexdigits-other nonce (ground arith)),
            split_on-free b'/' (file_of version) (file-free version),
            d.decode-component actor.project_id,
            d.decode-component actor.actor_name,
            d.decode-component actor.actor_id,
            valid,
            snapshots-valid actor valid,
            prefixed,
          )
          refl

    -- From a name that `snapshot_object_name` made for an actor, `actor_from_snapshot` reads the actor.
    pub actor_from_snapshot-snapshot_object_name :
        (actor : ActorKey) (version : ℕ) (nonce name : Text)
        → snapshot_object_name c actor version nonce ≡ ok name
        → actor_from_snapshot c d name ≡ ok actor
    actor_from_snapshot-snapshot_object_name actor version nonce name h =
        made-IsRead actor version nonce name
          (snapshot_object_name-IsMade actor version nonce name h)
