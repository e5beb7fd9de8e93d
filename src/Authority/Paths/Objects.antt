-- ===== src/Authority/Paths/Objects.antt =====
-- The names of snapshots: which name an actor's snapshot may have (src/storage.rs), and the actor of
-- a name (src/storage_paths.rs). The decoder of base64 is a parameter.

use little_actors.Prelude.{
  ℕ, ◌≡◌, Bool, true, false, not, ◌&&◌, Option, none, some, List, [], ◌∷◌, ◌++◌, ◌==◌, eqb, leb,
  all, length, Result, ok, err, Checked, ◌>>=◌, ◌>>◌, ensure, context,
}
use little_actors.Prelude.Text.{Text, text, text_eq, starts_with}
use little_actors.Actor.{ActorKey, validate, has_control}
use little_actors.Naming.{decimal}
use little_actors.Authority.FileBucket.{split_on}
use little_actors.Authority.Paths.{root, strip_prefix, is_ascii_hexdigit, snapshots}
use little_actors.Wire.{Codec}

-- `URL_SAFE_NO_PAD.decode`, as a string: it reads back what was encoded. What is encoded, and two
-- hexadecimal digits, have no slash.
pub record Decoder (c : Codec) : Type 0 where
  pub decode : Text → Result Text
  pub decode-component : (t : Text) → decode (c.component t) ≡ ok t
  pub component-plain : (t : Text) → all (λ b. not (eqb b b'/')) (c.component t) ≡ true
  pub shard-plain : (t : Text) → all (λ b. not (eqb b b'/')) (c.shard t) ≡ true

-- `validate_object_name`
unfoldable pub validate_object_name : Text → Checked
validate_object_name name =
    ensure (starts_with root name && (leb (length name) 1024 && not (has_control name)))
      "actor state object name is invalid"

-- The parts of a name after the actor's prefix.
unfoldable pub valid_parts : ℕ → Text × List Text → Bool
unfolding decimal
valid_parts version (nonce, file ∷ []) =
    (eqb (length nonce) 32 && all is_ascii_hexdigit nonce)
    && file == decimal version ++ text ".json"
valid_parts version parts = false

-- `unwrap_or("")`
abbrev pub or_empty : Option Text → Text
or_empty none = []
or_empty (some t) = t

module _ (c : Codec) where
  -- `validate_snapshot_object_name`
  unfoldable pub validate_snapshot_object_name : ActorKey → ℕ → Text → Checked
  unfolding validate_object_name valid_parts split_on
  validate_snapshot_object_name actor version name = do
    validate_object_name name
    prefix ← snapshots c actor
    ensure (valid_parts version (split_on b'/' (or_empty (strip_prefix prefix name))))
        "actor state object name does not match its commit"

  module _ (d : Decoder c) where
    -- The actor in the parts of a name after the root.
    unfoldable pub parts_actor : Text × List Text → Result ActorKey
    parts_actor (kind, shard ∷ project ∷ name ∷ id ∷ nonce ∷ file ∷ []) = do
      ensure (kind == text "snapshots") "invalid snapshot path"
      project_id ← d.decode project
      actor_name ← d.decode name
      actor_id ← d.decode id
      ok (record { project_id = project_id; actor_name = actor_name; actor_id = actor_id })
    parts_actor parts = err "invalid snapshot path"

    -- `actor_from_snapshot`
    unfoldable pub actor_from_snapshot : Text → Result ActorKey
    unfolding parts_actor split_on
    actor_from_snapshot object = do
      rest ← context (strip_prefix root object) "invalid snapshot root"
      actor ← parts_actor (split_on b'/' rest)
      validate actor
      prefix ← snapshots c actor
      ensure (starts_with prefix object) "snapshot shard mismatch"
      ok actor
