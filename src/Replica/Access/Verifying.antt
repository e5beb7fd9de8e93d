-- ===== src/Replica/Access/Verifying.antt =====
-- Which capabilities are accepted (src/replication/access.rs).
use little_actors.Prelude.{
  ℕ, ◌≡◌, ◌≤◌, ◌<◌, ◌↔◌, refl, ap, inl, inr, Bool, true, not, ◌&&◌, Option, none, some, List, [],
  ◌∷◌, ◌++◌, ◌==◌, ==_iff, eqb, leb, ltb, le→leb, all, any, length, ok, err, Checked, ◌>>◌, ensure,
  context, arith, >>=-eq-ok, All, Bool-cases, subst, ok-injective, eqb_iff, Option-cases,
  context-ok, ensure-true,
}
use little_actors.Prelude.Text.{Text, text, text_eq, starts_with}
use little_actors.Prelude.Deciding.{
  Decides, ensure-Decides, >>-Decides, leb_iff, not_empty_iff, &&-iff, all_iff,
}
use little_actors.Actor.{validate_region, region_byte}
use little_actors.Authority.Paths.{root}
use little_actors.Replica.{ReplicaStream}
use little_actors.Replica.Access.{
  ReplicaGrant, Signing, split_once, stream_matches, check_grant, max_token_bytes, token_of,
  open_token, verify_any,
}

-- The region of a placement: not empty, short, and of lower-case letters, digits and three marks.
abbrev pub RegionFits : Text → Type 0
RegionFits region =
    (0 < length region) × ((length region ≤ 64) × All (λ b. region_byte b ≡ true) region)

abbrev pub StreamFits : Text → Option ReplicaStream → Type 0
StreamFits object none = Unit
StreamFits object (some stream) =
    (stream.prefix ≡ object)
    × ((starts_with (root ++ text "hosts/") stream.session ≡ true) × (0 < stream.owner_epoch))

-- What a grant allows, at a time.
abbrev pub IsAllowed : ℕ → List Text → ReplicaGrant → Type 0
IsAllowed now operations grant =
    (any (λ operation. operation == grant.operation) operations ≡ true)
    × ((now < grant.expires_at_ms)
        × (((starts_with root grant.object ≡ true) × (length grant.object ≤ 1024))
            × (StreamFits grant.object grant.stream × RegionFits grant.region)))

yes_iff : (b : Bool) → (b ≡ true) ↔ (b ≡ true)
yes_iff b = (λ h. h, λ h. h)

ltb_iff : (a b : ℕ) → (ltb a b ≡ true) ↔ (a < b)
ltb_iff a b = ground arith

stream_matches_iff :
    (object : Text) (stream : Option ReplicaStream)
    → (stream_matches object stream ≡ true) ↔ StreamFits object stream
stream_matches_iff object none = (λ h. tt, λ h. refl)
stream_matches_iff object (some stream) =
    &&-iff (stream.prefix == object)
      (starts_with (root ++ text "hosts/") stream.session && ltb 0 stream.owner_epoch)
      (==_iff stream.prefix object)
      (&&-iff (starts_with (root ++ text "hosts/") stream.session) (ltb 0 stream.owner_epoch)
        (yes_iff _) (ltb_iff 0 stream.owner_epoch))

validate_region-Decides : (region : Text) → Decides (validate_region region) (RegionFits region)
unfolding validate_region
validate_region-Decides region =
    ensure-Decides (not (region == []) && leb (length region) 64 && all region_byte region) _ (
      change (
        &&-iff (not (region == []) && leb (length region) 64) (all region_byte region)
          (&&-iff (not (region == [])) (leb (length region) 64) (not_empty_iff region)
            (leb_iff (length region) 64))
          (all_iff (λ b. region_byte b ≡ true) region_byte (λ b. yes_iff (region_byte b)) region)))
  where
    change : {X P Q R : Type 0} → (X ↔ ((P × Q) × R)) → X ↔ (P × (Q × R))
    change (there, back) =
        (λ x. (let ((p, q), r) = there x in (p, (q, r))), λ (p, (q, r)). back ((p, q), r))

check_grant-Decides :
    (now : ℕ) (operations : List Text) (grant : ReplicaGrant)
    → Decides (check_grant now operations grant) (IsAllowed now operations grant)
unfolding check_grant
check_grant-Decides now operations grant =
    >>-Decides _ _ (ensure-Decides (any _ operations) _ (yes_iff _)) (
      >>-Decides _ _ (ensure-Decides (ltb now grant.expires_at_ms) _ (ltb_iff _ _)) (
        >>-Decides _ _
          (ensure-Decides (starts_with root grant.object && leb (length grant.object) 1024) _ (
            &&-iff (starts_with root grant.object) (leb (length grant.object) 1024) (yes_iff _)
              (leb_iff _ _)))
          (>>-Decides _ _
            (ensure-Decides (stream_matches grant.object grant.stream) _
              (stream_matches_iff grant.object grant.stream))
            (validate_region-Decides grant.region))))

split_once-append :
    (c : ℕ) (p q : Text)
    → all (λ b. not (eqb b c)) p ≡ true
    → split_once c (p ++ (c ∷ q)) ≡ some (p, q)
unfolding split_once
split_once-append c [] q h = ground arith
split_once-append c (b ∷ p) q h = ground (arith, split_once-append c p q)

some-injective : {A : Type 0} {x y : A} → some x ≡ some y → x ≡ y
some-injective h = cc

split_once-joins : (c : ℕ) (t : Text) {p q : Text} → split_once c t ≡ some (p, q) → t ≡ p ++ (c ∷ q)
unfolding split_once
split_once-joins c [] h = cc
split_once-joins c (b ∷ t) {p = p} {q = q} h = elim (Bool-cases (eqb b c)) [
  | inl same ↦
      let parts : ([], t) ≡ (p, q) = some-injective (rw same at h) in
      subst (λ (x : Text × Text). b ∷ t ≡ x.0 ++ (c ∷ x.1)) parts
        (ap (λ (k : ℕ). k ∷ t) ((eqb_iff b c).0 same))
  | inr other ↦ elim (Option-cases (split_once c t)) [
    | inl e ↦ absurd (let h' = rw (other, e) at h in cc)
    | inr ((before, after), e) ↦
        let parts : (b ∷ before, after) ≡ (p, q) = some-injective (rw (other, e) at h) in
        subst (λ (x : Text × Text). b ∷ t ≡ x.0 ++ (c ∷ x.1)) parts
          (ap (λ (k : Text). b ∷ k) (split_once-joins c t e))
  ]
]

module _ (s : Signing) where
  -- A token opens to its grant.
  open_token-token_of :
      (grant : ReplicaGrant)
      → length (token_of s grant) ≤ max_token_bytes
      → open_token s (token_of s grant) ≡ ok grant
  unfolding open_token token_of
  open_token-token_of grant fits =
      let payload = s.encode (s.write_grant grant) in
      rw (le→leb (length (token_of s grant)) max_token_bytes fits) (
        rw
          (split_once-append b'.' payload (s.encode (s.sign payload))
            (s.encode-plain (s.write_grant grant)))
          (rw (s.decode-encode (s.sign payload)) (
            rw (s.verifies-sign payload)
              (rw (s.decode-encode (s.write_grant grant)) (s.read-write_grant grant)))))

  -- The grant that is returned was checked.
  check_then :
      (check : Checked) (grant : ReplicaGrant) → ((check >> ok grant) ≡ ok grant) ↔ (check ≡ ok tt)
  check_then (ok _) grant = (λ h. refl, λ h. refl)
  check_then (err e) grant = (λ h. absurd cc, λ h. absurd cc)

  -- The token that the access makes for a grant, if it is not too long, is accepted at a time and for
  -- some operations exactly if the grant allows one of them, is not over, names an object of the
  -- program's root with a name that is not too long, has a stream of that object and of a session
  -- of a host with an owner's epoch or none, and has a valid region. It then gives the same grant.
  pub verify_any-token_of :
      (now : ℕ) (operations : List Text) (grant : ReplicaGrant)
      → length (token_of s grant) ≤ max_token_bytes
      → (verify_any s now (token_of s grant) operations ≡ ok grant) ↔ IsAllowed now operations grant
  unfolding verify_any
  verify_any-token_of now operations grant fits = rw (open_token-token_of grant fits) (
      let (there, back) = check_then (check_grant now operations grant) grant in
      let (allows, allowed) = check_grant-Decides now operations grant in
      (λ h. allows (there h), λ h. back (allowed h)))

  -- The token was signed: it is a payload and a signature that fits it.
  abbrev pub IsSigned : Text → ReplicaGrant → Type 0
  IsSigned token grant =
      (payload : Text) × (encoded : Text) × (signature : Text) × (bytes : Text) × (token
        ≡ payload ++ (b'.' ∷ encoded))
      × (s.decode encoded ≡ ok signature)
      × (s.verifies payload signature ≡ true)
      × (s.decode payload ≡ ok bytes)
      × (s.read_grant bytes ≡ ok grant)

  open_token-IsSigned :
      (token : Text) (grant : ReplicaGrant) → open_token s token ≡ ok grant → IsSigned token grant
  unfolding open_token
  open_token-IsSigned token grant h =
      let (_, _, h₁) = >>=-eq-ok (ensure (leb (length token) max_token_bytes) _) _ h in
      let ((payload, encoded), split, h₂) = >>=-eq-ok (context (split_once b'.' token) _) _ h₁ in
      let (signature, e, h₃) = >>=-eq-ok (s.decode encoded) _ h₂ in
      let (_, checked, h₄) = >>=-eq-ok (ensure (s.verifies payload signature) _) _ h₃ in
      let (bytes, d, h₅) = >>=-eq-ok (s.decode payload) _ h₄ in
      (
        payload,
        encoded,
        signature,
        bytes,
        split_once-joins b'.' token (context-ok _ _ split),
        e,
        ensure-true _ _ checked,
        d,
        h₅,
      )

  -- Whatever token is accepted, it carries a payload with a signature that the key verifies, the grant
  -- is the one in the payload, and the grant allows one of the operations at the time.
  pub verify_any-IsSigned :
      (now : ℕ) (operations : List Text) (token : Text) (grant : ReplicaGrant)
      → verify_any s now token operations ≡ ok grant
      → IsSigned token grant × IsAllowed now operations grant
  unfolding verify_any
  verify_any-IsSigned now operations token grant h =
      let (found, opened, h₁) = >>=-eq-ok (open_token s token) _ h in
      let (u, checked, h₂) = >>=-eq-ok (check_grant now operations found) _ h₁ in
      let same = ok-injective h₂ in
      (
        subst (IsSigned token) same (open_token-IsSigned token found opened),
        subst (IsAllowed now operations) same
            ((check_grant-Decides now operations found).0 checked),
      )
