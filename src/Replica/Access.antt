-- ===== src/Replica/Access.antt =====
-- The capabilities that let a host use a replica (src/replication/access.rs). JSON, base64, the
-- signature and the parser of URLs are parameters.
pub mod Verifying
use little_actors.Prelude.{
  ℕ, ◌*◌, ◌≡◌, ◌≤◌, Bool, true, false, not, ◌&&◌, ◌||◌, Option, none, some, List, [], ◌∷◌, ◌++◌,
  ◌==◌, eqb, leb, ltb, all, any, length, Result, ok, err, Checked, ◌>>=◌, ◌>>◌, ensure, context,
  if◌then◌else◌,
}
use little_actors.Prelude.Text.{Text, text, text_eq, starts_with}
use little_actors.Actor.{validate_region}
use little_actors.Authority.Paths.{root, strip_prefix}
use little_actors.Replica.{ReplicaStream}

pub record ReplicaGrant : Type 0 where
  pub stream : Option ReplicaStream
  pub operation : Text
  pub object : Text
  pub region : Text
  pub host_id : Text
  pub expires_at_ms : ℕ

-- `reqwest::Url`, as far as it is taken apart
pub record Url : Type 0 where
  pub username : Text
  pub password : Option Text
  pub query : Option Text
  pub fragment : Option Text
  pub path : Text
  pub host_str : Option Text
  pub scheme : Text
  pub origin_ascii : Text

-- The packages that are used, with the key of the access.
pub record Signing : Type 0 where
  pub write_grant : ReplicaGrant → Text
  pub read_grant : Text → Result ReplicaGrant
  -- `URL_SAFE_NO_PAD`
  pub encode : Text → Text
  pub decode : Text → Result Text
  -- `hmac::sign` and `hmac::verify`
  pub sign : Text → Text
  pub verifies : Text → Text → Bool
  pub parse_url : Text → Result Url
  pub read-write_grant : (grant : ReplicaGrant) → read_grant (write_grant grant) ≡ ok grant
  pub decode-encode : (t : Text) → decode (encode t) ≡ ok t
  pub encode-plain : (t : Text) → all (λ b. not (eqb b b'.')) (encode t) ≡ true
  pub verifies-sign : (t : Text) → verifies t (sign t) ≡ true

-- `s.split_once(c)`
unfoldable pub split_once : ℕ → Text → Option (Text × Text)
split_once c [] = none
split_once c (b ∷ s) =
    if eqb b c
    then some ([], s)
    else elim (split_once c s) [ none ↦ none | some (before, after) ↦ some (b ∷ before, after) ]

-- `s.replacen(from, to, 1)`
unfoldable pub replace_first : Text → Text → Text → Text
replace_first from to [] = if from == [] then to else []
replace_first from to (b ∷ s) =
    let rest = b ∷ replace_first from to s in
    elim (strip_prefix from (b ∷ s)) [ none ↦ rest | some after ↦ to ++ after ]

abbrev pub is_absent : Option Text → Bool
is_absent none = true
is_absent (some t) = false

-- `is_none_or` of the stream
abbrev pub stream_matches : Text → Option ReplicaStream → Bool
stream_matches object none = true
stream_matches object (some stream) =
    stream.prefix == object
    && (starts_with (root ++ text "hosts/") stream.session && ltb 0 stream.owner_epoch)

-- The checks of `verify_any` on a grant whose signature is right.
unfoldable pub check_grant : ℕ → List Text → ReplicaGrant → Checked
check_grant now operations grant = do
  ensure (any (λ operation. operation == grant.operation) operations)
      "replica operation is not authorized"
  ensure (ltb now grant.expires_at_ms) "replica capability expired"
  ensure (starts_with root grant.object && leb (length grant.object) 1024) "invalid replica object"
  ensure (stream_matches grant.object grant.stream) "replica stream does not match its capability"
  validate_region grant.region

abbrev pub max_token_bytes : ℕ
max_token_bytes = 16 * 1024

module _ (s : Signing) where
  -- `payload.signature`
  unfoldable pub token_of : ReplicaGrant → Text
  token_of grant =
      let payload = s.encode (s.write_grant grant) in payload ++ (b'.' ∷ s.encode (s.sign payload))

  abbrev pub grpc_scheme : Text → Result Text
  grpc_scheme scheme =
      if scheme == text "http"
      then ok (text "grpc")
      else if scheme == text "https"
      then ok (text "grpcs")
      else err "replica origin must be HTTP or HTTPS"

  -- `ReplicaAccess::url`
  unfoldable pub url : Text → ReplicaGrant → Result Text
  unfolding token_of replace_first
  url origin grant = do
    parsed ← s.parse_url origin
    ensure
        (parsed.username == []
          && (is_absent parsed.password
              && (is_absent parsed.query
                  && (is_absent parsed.fragment
                      && (parsed.path == text "/" && not (is_absent parsed.host_str))))))
        "invalid replica origin"
    scheme ← grpc_scheme parsed.scheme
    ok (
        replace_first parsed.scheme scheme parsed.origin_ascii
        ++ (text "?token=" ++ token_of grant))

  -- The grant of a token whose signature is right.
  unfoldable pub open_token : Text → Result ReplicaGrant
  unfolding split_once
  open_token token = do
    ensure (leb (length token) max_token_bytes) "replica capability is too large"
    (payload, encoded) ← context (split_once b'.' token) "invalid replica capability"
    signature ← s.decode encoded
    ensure (s.verifies payload signature) "invalid replica signature"
    bytes ← s.decode payload
    s.read_grant bytes

  -- `ReplicaAccess::verify_any`, at the time of the clock
  unfoldable pub verify_any : ℕ → Text → List Text → Result ReplicaGrant
  unfolding open_token check_grant
  verify_any now token operations = do
    grant ← open_token token
    check_grant now operations grant
    ok grant

  -- `ReplicaAccess::verify`
  unfoldable pub verify : ℕ → Text → Text → Result ReplicaGrant
  unfolding verify_any
  verify now token operation = verify_any now token (operation ∷ [])
