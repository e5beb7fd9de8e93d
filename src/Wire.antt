-- ===== src/Wire.antt =====
-- What the program takes from other packages to store and name its records: `serde_json` documents
-- (`to_vec`, `from_slice`), SHA-256 and base64. A `Codec` is the parameter that stands for them, and
-- its laws are the documented behaviour that the code relies on.
use little_actors.Prelude.{ℕ, ◌≡◌, Eq, Result, ok}
use little_actors.Prelude.Text.{Text}
use little_actors.Snapshot.{StateSnapshot}
use little_actors.Authority.{Session, Ownership}

pub record Codec : Type 1 where
  pub Bytes : Type 0
  pub bytes_eq : Eq Bytes
  -- the number of bytes
  pub len : Bytes → ℕ
  -- `URL_SAFE_NO_PAD.encode(digest(&SHA256, bytes))`
  pub checksum : Bytes → Text
  -- `serde_json::from_slice` at each type, and `serde_json::to_vec`
  pub read_snapshot : Bytes → Result StateSnapshot
  pub write_session : Session → Bytes
  pub read_session : Bytes → Result Session
  pub write_ownership : Ownership → Bytes
  pub read_ownership : Bytes → Result Ownership
  -- `URL_SAFE_NO_PAD.encode` of a string, and `decode`
  pub component : Text → Text
  -- the first byte of the SHA-256 of a string, as two hexadecimal digits
  pub shard : Text → Text
  -- a document that was written is read back
  pub read-write_session : (s : Session) → read_session (write_session s) ≡ ok s
  pub read-write_ownership : (o : Ownership) → read_ownership (write_ownership o) ≡ ok o
