-- ===== src/Tests/Grants.antt =====
-- A token of a grant (src/replication/access.rs), with packages that stand in for the real ones: a
-- field ends with a zero, base64 raises the bytes above the point, and a signature is the text itself.
use little_actors.Prelude.{
  ℕ, zero, suc, ◌+◌, ◌≡◌, ◌≤◌, ◌↔◌, refl, true, not, Option, none, some, [], ◌∷◌, ◌==◌, ==_iff, eqb,
  leb→le, all, length, Result, ok, err, ◌>>=◌, arith, ◌-◌, ap₂, ap,
}
use little_actors.Prelude.Text.{Text, text, text_eq, text_beq, starts_with}
use little_actors.Actor.{region_byte}
use little_actors.Replica.{ReplicaStream}
use little_actors.Replica.Access.{ReplicaGrant, Signing, token_of, verify_any, max_token_bytes}
use little_actors.Replica.Access.Verifying.{
  IsAllowed, IsSigned, verify_any-token_of, verify_any-IsSigned,
}

unfoldable write_text : Text → Text → Text
write_text [] rest = 0 ∷ rest
write_text (b ∷ t) rest = suc b ∷ write_text t rest

unfoldable read_text : Text → Result (Text × Text)
read_text [] = err "end of text"
read_text (zero ∷ t) = ok ([], t)
read_text (suc b ∷ t) = do (field, rest) ← read_text t; ok (b ∷ field, rest)

read-write_text : (t rest : Text) → read_text (write_text t rest) ≡ ok (t, rest)
unfolding read_text write_text
read-write_text [] rest = refl
read-write_text (b ∷ t) rest = rw (read-write_text t rest) refl

unfoldable write_stream : Option ReplicaStream → Text → Text
unfolding write_text
write_stream none rest = 0 ∷ rest
write_stream (some s) rest =
    1 ∷ s.owner_epoch ∷ s.base_version ∷ write_text s.session (write_text s.prefix rest)

unfoldable read_stream : Text → Result (Option ReplicaStream × Text)
unfolding read_text
read_stream (zero ∷ t) = ok (none, t)
read_stream (suc _ ∷ epoch ∷ version ∷ t) = do
  (session, t₁) ← read_text t
  (prefix, rest) ← read_text t₁
  ok (
    some (record {
      session = session;
      prefix = prefix;
      owner_epoch = epoch;
      base_version = version;
    }),
    rest,
  )
read_stream _ = err "no stream"

read-write_stream :
    (s : Option ReplicaStream) (rest : Text) → read_stream (write_stream s rest) ≡ ok (s, rest)
unfolding read_stream write_stream
read-write_stream none rest = refl
read-write_stream (some s) rest =
    rw (read-write_text s.session (write_text s.prefix rest))
      (rw (read-write_text s.prefix rest) refl)

unfoldable write_fields : ReplicaGrant → Text
unfolding write_stream write_text
write_fields g =
    g.expires_at_ms
    ∷ write_stream g.stream (
        write_text g.operation
          (write_text g.object (write_text g.region (write_text g.host_id []))))

unfoldable read_fields : Text → Result ReplicaGrant
unfolding read_stream read_text
read_fields [] = err "no grant"
read_fields (expires ∷ t) = do
  (stream, t₁) ← read_stream t
  (operation, t₂) ← read_text t₁
  (object, t₃) ← read_text t₂
  (region, t₄) ← read_text t₃
  (host_id, rest) ← read_text t₄
  ok (record {
    stream = stream;
    operation = operation;
    object = object;
    region = region;
    host_id = host_id;
    expires_at_ms = expires;
  })

read-write_fields : (g : ReplicaGrant) → read_fields (write_fields g) ≡ ok g
unfolding read_fields write_fields
read-write_fields g = simp (read-write_stream, read-write_text)

unfoldable pub raised : Text → Text
raised [] = []
raised (b ∷ t) = (b + 48) ∷ raised t

unfoldable pub lowered : Text → Text
lowered [] = []
lowered (b ∷ t) = (b - 48) ∷ lowered t

pub lowered-raised : (t : Text) → lowered (raised t) ≡ t
unfolding lowered raised
lowered-raised [] = refl
lowered-raised (b ∷ t) = ap₂ (λ (n : ℕ) (k : Text). n ∷ k) (omega arith) (lowered-raised t)

raised-plain : (t : Text) → all (λ b. not (eqb b b'.')) (raised t) ≡ true
unfolding raised
raised-plain [] = refl
raised-plain (b ∷ t) = ground (arith, raised-plain t)

abbrev toy_signing : Signing
toy_signing = record {
  write_grant = write_fields;
  read_grant = read_fields;
  encode = raised;
  decode = λ t. ok (lowered t);
  sign = λ t. t;
  verifies = λ t signature. signature == t;
  parse_url = λ t. err "no URL";
  read-write_grant = read-write_fields;
  decode-encode = λ t. ap ok (lowered-raised t);
  encode-plain = raised-plain;
  verifies-sign = λ t. (==_iff t t).1 refl;
}

abbrev a_grant : ReplicaGrant
a_grant = record {
  stream = some (record {
    session = text "durable-actors/v3/hosts/h/sessions/s/";
    prefix = text "durable-actors/v3/o";
    owner_epoch = 1;
    base_version = 0;
  });
  operation = text "read";
  object = text "durable-actors/v3/o";
  region = text "eu";
  host_id = text "h";
  expires_at_ms = 9;
}

a_grant-fits : length (token_of toy_signing a_grant) ≤ max_token_bytes
unfolding token_of write_fields write_stream write_text raised
a_grant-fits = leb→le (length (token_of toy_signing a_grant)) max_token_bytes refl

a_grant-IsAllowed : IsAllowed 8 (text "seal" ∷ text "read" ∷ []) a_grant
unfolding text_beq starts_with region_byte
a_grant-IsAllowed = (
  refl,
  (
    omega arith,
    (
      (refl, omega arith),
      ((refl, (refl, omega arith)), (omega arith, (omega arith, (refl, (refl, tt))))),
    ),
  ),
)

verify_any-token_of_example :
    (verify_any toy_signing 8 (token_of toy_signing a_grant) (text "seal" ∷ text "read" ∷ [])
      ≡ ok a_grant)
    ↔ IsAllowed 8 (text "seal" ∷ text "read" ∷ []) a_grant
verify_any-token_of_example =
    verify_any-token_of toy_signing 8 (text "seal" ∷ text "read" ∷ []) a_grant a_grant-fits

verify_any-IsSigned_example :
    IsSigned toy_signing (token_of toy_signing a_grant) a_grant
    × IsAllowed 8 (text "seal" ∷ text "read" ∷ []) a_grant
verify_any-IsSigned_example =
    verify_any-IsSigned toy_signing 8 (text "seal" ∷ text "read" ∷ [])
      (token_of toy_signing a_grant) a_grant (verify_any-token_of_example.1 a_grant-IsAllowed)
