-- ===== src/Actor.antt =====
-- The identity of an actor and its validation (src/actor/protocol.rs, src/actor_state.rs), and the
-- region test of src/placement.rs. Error messages are the source's, without interpolated values.
pub mod Identity
pub mod Outcome
use little_actors.Prelude.{
  ℕ, ◌+◌, Bool, true, false, not, ◌&&◌, ◌||◌, List, [], ◌∷◌, ◌++◌, ◌==◌, leb, ltb, eqb, length, all,
  any, Checked, ok, err, ◌>>=◌, ◌>>◌, ensure, if◌then◌else◌,
}
use little_actors.Prelude.Text.{Text, text, text_eq}

pub record ActorKey : Type 0 where
  pub project_id : Text
  pub actor_name : Text
  pub actor_id : Text

abbrev pub max_actor_name_bytes : ℕ
max_actor_name_bytes = 48

abbrev pub max_actor_id_bytes : ℕ
max_actor_id_bytes = 128

abbrev pub max_method_bytes : ℕ
max_method_bytes = 128

unfoldable pub is_ascii_digit : ℕ → Bool
is_ascii_digit b = leb b'0' b && leb b b'9'

unfoldable pub is_ascii_lowercase : ℕ → Bool
is_ascii_lowercase b = leb b'a' b && leb b b'z'

unfoldable pub is_ascii_uppercase : ℕ → Bool
is_ascii_uppercase b = leb b'A' b && leb b b'Z'

unfoldable pub component_byte : ℕ → Bool
unfolding is_ascii_digit is_ascii_lowercase is_ascii_uppercase
component_byte b =
    (is_ascii_lowercase b || is_ascii_uppercase b || is_ascii_digit b)
    || (eqb b b'-' || eqb b b'_' || eqb b b'.')

unfoldable pub validate_component : Text → ℕ → Checked
validate_component value max_bytes = do
  ensure (not (value == [])) "component must not be empty"
  ensure (leb (length value) max_bytes) "component is too long"
  ensure (all component_byte value) "component has a forbidden character"

-- `object.v4.{project}:{name}:{id}`
unfoldable pub storage_key : ActorKey → Text
storage_key key =
    text "object.v4." ++ (key.project_id ++ (b':' ∷ (key.actor_name ++ (b':' ∷ key.actor_id))))

-- `char::is_control` over UTF-8: below 32, DEL, and those above, which are 0xC2 and a byte up to 0x9F.
unfoldable pub has_control : Text → Bool
has_control [] = false
has_control (b ∷ []) = ltb b 32 || eqb b 127
has_control (b ∷ c ∷ bytes) =
    ltb b 32 || eqb b 127 || (eqb b 0xC2 && leb c 0x9F) || has_control (c ∷ bytes)

-- `ActorStorageKey::validate`
unfoldable pub validate_storage_key : Text → Checked
unfolding has_control
validate_storage_key key = do
  ensure (not (key == [])) "actor storage key must not be empty"
  ensure (leb (length key) 255) "actor storage key must be at most 255 bytes"
  ensure (not (key == text ".") && not (key == text ".."))
      "actor storage key must not be a relative path component"
  ensure (not (any (λ b. eqb b b'/' || eqb b 0x5C) key || has_control key))
      "actor storage key must not contain path separators or control characters"

unfoldable pub validate : ActorKey → Checked
validate key = do
  validate_component key.project_id 64
  validate_component key.actor_name max_actor_name_bytes
  validate_component key.actor_id max_actor_id_bytes
  validate_storage_key (storage_key key)

unfoldable pub region_byte : ℕ → Bool
unfolding is_ascii_digit is_ascii_lowercase
region_byte b = is_ascii_lowercase b || is_ascii_digit b || (eqb b b'.' || eqb b b'_' || eqb b b'-')

unfoldable pub validate_region : Text → Checked
validate_region region =
    ensure (not (region == []) && leb (length region) 64 && all region_byte region)
      "sandbox region is invalid"

unfoldable pub actor_beq : ActorKey → ActorKey → Bool
actor_beq a b =
    a.project_id == b.project_id && a.actor_name == b.actor_name && a.actor_id == b.actor_id
