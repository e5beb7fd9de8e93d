-- ===== src/Authority/Paths/Validating.antt =====
-- The names of snapshots that are accepted for an actor (src/storage.rs).
use little_actors.Prelude.{
  ℕ, ◌≡◌, ◌≤◌, refl, sym, ◌∙◌, ap, subst, true, false, ◌&&◌, Option, none, some, List, [], ◌∷◌,
  ◌++◌, ==_iff, eqb, le→leb, ltb, all, length, ok, ok-injective, >>=-eq-ok, arith, ◌<◌, ◌<◌, ◌↔◌,
  ◌↔◌, ensure-true, ensure,
}
use mathlib.Core.List.{append_assoc}
use little_actors.Prelude.Text.{Text, text, text_eq, starts_with, starts_with-append}
use little_actors.Actor.{ActorKey, validate, has_control}
use little_actors.Naming.{object_name}
use little_actors.Authority.FileBucket.{split_on}
use little_actors.Authority.Paths.{
  root, strip_prefix, is_ascii_hexdigit, actor_path, snapshots, snapshot_object_name,
}
use little_actors.Authority.Paths.Objects.{
  validate_object_name, valid_parts, validate_snapshot_object_name, or_empty,
}
use little_actors.Wire.{Codec}
use little_actors.Authority.Paths.Reading.{
  strip_prefix-append, strip_prefix-joins, join, join-split_on,
}
use little_actors.Authority.Paths.Recognizing.{
  file_of, prefix_of, name_of, IsMade, snapshots-valid, snapshot_object_name-IsMade, parts_after,
}

module _ (c : Codec) where
  -- A name is accepted for the actor and version that it was made for, if it is not too long.
  pub made-IsAccepted :
      (actor : ActorKey) (version : ℕ) (nonce name : Text)
      → length name ≤ 1024
      → has_control name ≡ false
      → IsMade c actor version nonce name
      → validate_snapshot_object_name c actor version name ≡ ok tt
  unfolding validate_snapshot_object_name validate_object_name
  made-IsAccepted actor version nonce name fits plain (valid, digits, made) =
      let tail = nonce ++ (b'/' ∷ file_of version) in
      let rooted : starts_with root name ≡ true =
        subst (λ (t : Text). starts_with root t ≡ true) (sym made)
          (starts_with-append root
            (text "snapshots/" ++ (actor_path c actor ++ text "/") ++ tail)) in
      let stripped : strip_prefix (prefix_of c actor) name ≡ some tail =
        subst (λ (t : Text). strip_prefix (prefix_of c actor) t ≡ some tail) (sym made)
          (strip_prefix-append (prefix_of c actor) tail) in
      rw
        (
          rooted,
          le→leb (length name) 1024 fits,
          plain,
          snapshots-valid c actor valid,
          stripped,
          parts_after c version nonce digits,
        )
        refl

  IsNamed : ℕ → Text → Text → Type 0
  IsNamed version nonce t =
      ((eqb (length nonce) 32 && all is_ascii_hexdigit nonce) ≡ true)
      × (t ≡ nonce ++ (b'/' ∷ file_of version))

  valid_parts-IsNamed :
      (version : ℕ) (part : Text) (parts : List Text)
      → valid_parts version (part, parts) ≡ true
      → IsNamed version part (join b'/' part parts)
  unfolding valid_parts IsNamed join
  valid_parts-IsNamed version part [] h = absurd cc
  valid_parts-IsNamed version part (file ∷ []) h = (
    ground arith,
    ap (λ (f : Text). part ++ (b'/' ∷ f)) ((==_iff file (file_of version)).0 (ground arith)),
  )
  valid_parts-IsNamed version part (file ∷ next ∷ parts) h = absurd cc

  or_empty-IsNamed :
      (actor : ActorKey) (version : ℕ) (name : Text) (rest : Option Text)
      → strip_prefix (prefix_of c actor) name ≡ rest
      → valid_parts version (split_on b'/' (or_empty rest)) ≡ true
      → (nonce : Text) × ((eqb (length nonce) 32 && all is_ascii_hexdigit nonce) ≡ true)
        × (name ≡ name_of c actor version nonce)
  unfolding valid_parts split_on IsNamed
  or_empty-IsNamed actor version name none e h = absurd cc
  or_empty-IsNamed actor version name (some t) e h =
      let (digits, same) = valid_parts-IsNamed version (split_on b'/' t).0 (split_on b'/' t).1 h in
      (
        (split_on b'/' t).0,
        digits,
        strip_prefix-joins (prefix_of c actor) name e
            ∙ ap (λ (k : Text). prefix_of c actor ++ k) (sym (join-split_on b'/' t) ∙ same),
      )

  accepted-IsMade :
      (actor : ActorKey) (version : ℕ) (name : Text)
      → validate_snapshot_object_name c actor version name ≡ ok tt
      → (nonce : Text) × IsMade c actor version nonce name
  unfolding validate_snapshot_object_name snapshots
  accepted-IsMade actor version name h =
      let (_, _, h₁) = >>=-eq-ok (validate_object_name name) _ h in
      let (prefix, prefixed, h₂) = >>=-eq-ok (snapshots c actor) _ h₁ in
      let (_, valid, same) = >>=-eq-ok (validate actor) _ prefixed in
      let valid_rest : valid_parts version
            (split_on b'/' (or_empty (strip_prefix (prefix_of c actor) name)))
          ≡ true =
        subst
          (λ (t : Text).
            valid_parts version (split_on b'/' (or_empty (strip_prefix t name))) ≡ true)
          (sym (ok-injective same)) (ensure-true _ _ h₂) in
      let (nonce, digits, made) =
        or_empty-IsNamed actor version name (strip_prefix (prefix_of c actor) name) refl
          valid_rest in
      (nonce, (valid, digits, made))

  made-IsNamed :
      (actor : ActorKey) (version : ℕ) (nonce name : Text)
      → 0 < version
      → IsMade c actor version nonce name
      → snapshot_object_name c actor version nonce ≡ ok name
  unfolding snapshot_object_name object_name
  made-IsNamed actor version nonce name positive (valid, digits, made) =
      let counted : ltb 0 version ≡ true = ground arith in
      rw (valid, counted, digits, snapshots-valid c actor valid)
        (ap ok (
          append_assoc (prefix_of c actor) (nonce ++ text "/") (file_of version)
          ∙ ap (λ (t : Text). prefix_of c actor ++ t)
              (append_assoc nonce (text "/") (file_of version))
          ∙ sym made))

  -- The name is one of a version of the actor: of a valid actor, with a nonce of 32 hexadecimal digits.
  abbrev pub IsVersioned : ActorKey → ℕ → Text → Type 0
  IsVersioned actor version name = (nonce : Text) × IsMade c actor version nonce name

  validate_object_name-limits :
      (name : Text)
      → validate_object_name name ≡ ok tt
      → (length name ≤ 1024) × (has_control name ≡ false)
  unfolding validate_object_name
  validate_object_name-limits name h = (ground arith, ground arith)

  accepted-limits :
      (actor : ActorKey) (version : ℕ) (name : Text)
      → validate_snapshot_object_name c actor version name ≡ ok tt
      → (length name ≤ 1024) × (has_control name ≡ false)
  unfolding validate_snapshot_object_name
  accepted-limits actor version name h =
      let (_, checked, _) = >>=-eq-ok (validate_object_name name) _ h in
      validate_object_name-limits name checked

  named-positive :
      (actor : ActorKey) (version : ℕ) (nonce name : Text)
      → snapshot_object_name c actor version nonce ≡ ok name
      → 0 < version
  unfolding snapshot_object_name
  named-positive actor version nonce name h =
      let (_, _, h₁) = >>=-eq-ok (validate actor) _ h in
      let (_, counted, _) = >>=-eq-ok (ensure (ltb 0 version) _) _ h₁ in
      ground (arith, ensure-true (ltb 0 version) _ counted)

  -- The validation of the name of an actor's snapshot accepts exactly the names of at most 1024 bytes
  -- without control characters that are of the version of the actor. The names that
  -- `snapshot_object_name` makes from some nonce are, of whatever length, exactly those of the version
  -- of the actor, if the version is not 0, and none otherwise.
  pub validate_snapshot_object_name_iff :
      (actor : ActorKey) (version : ℕ) (name : Text)
      → ((validate_snapshot_object_name c actor version name ≡ ok tt)
          ↔ ((length name ≤ 1024) × (has_control name ≡ false) × IsVersioned actor version name))
        × (((nonce : Text) × (snapshot_object_name c actor version nonce ≡ ok name))
            ↔ ((0 < version) × IsVersioned actor version name))
  validate_snapshot_object_name_iff actor version name = (
    (
      λ h.
          (let (fits, plain) = accepted-limits actor version name h in
            (fits, plain, accepted-IsMade actor version name h)),
      λ (fits, plain, (nonce, made)). made-IsAccepted actor version nonce name fits plain made,
    ),
    (
      λ (nonce, h). (
        named-positive actor version nonce name h,
        (nonce, snapshot_object_name-IsMade c actor version nonce name h),
      ),
      λ (positive, (nonce, made)). (nonce, made-IsNamed actor version nonce name positive made),
    ),
  )
