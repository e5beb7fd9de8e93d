-- ===== src/Sockets/Validation.antt =====
-- The limits on what an actor sends to its sockets (src/actor/socket.rs). `serde_json::to_vec` and
-- the base64 decoder are parameters.
pub mod Limits
use little_actors.Prelude.{
  ℕ, ◌+◌, ◌*◌, ◌-◌, ◌^◌, Bool, true, false, not, ◌&&◌, ◌||◌, Option, none, some, List, [], ◌∷◌,
  ◌==◌, eqb, leb, ltb, all, length, Result, ok, err, Checked, ◌>>=◌, ◌>>◌, ensure, if◌then◌else◌,
}
use little_actors.Prelude.Text.{Text, text_eq}
use little_actors.Json.{Value, is_object, get}
use little_actors.Sockets.{
  ActorSocketEffect, state_snapshot, state_update, send, broadcast, close, reject, set_metadata,
  set_tags, ActorSocketMessage, text_message, binary_message,
}

-- The encoders of other packages.
pub record Encoders : Type 0 where
  pub value_to_vec : Value → Result Text
  pub effect_to_vec : ActorSocketEffect → Result Text
  pub base64_decode : Text → Result Text

abbrev pub max_socket_metadata_bytes : ℕ
max_socket_metadata_bytes = 64 * 1024

abbrev pub max_socket_message_bytes : ℕ
max_socket_message_bytes = 16 * 1024 * 1024

abbrev pub max_socket_tags : ℕ
max_socket_tags = 128

abbrev pub max_socket_tag_characters : ℕ
max_socket_tag_characters = 256

abbrev pub max_socket_tag_bytes : ℕ
max_socket_tag_bytes = 8 * 1024

abbrev pub max_socket_close_reason_bytes : ℕ
max_socket_close_reason_bytes = 123

-- `MAX_SOCKET_MESSAGE_BYTES.div_ceil(3) * 4`
abbrev pub max_encoded_bytes : ℕ
max_encoded_bytes = 5_592_406 * 4

-- The loop that stops at the first error.
abbrev pub each {ℓ} : {A : Type ℓ} → (A → Checked) → List A → Checked
each check [] = ok tt
each check (x ∷ xs) = check x >> each check xs

-- `chars().count()`: the bytes of the UTF-8 form that begin a character.
unfoldable pub count_chars : Text → ℕ
count_chars [] = 0
count_chars (b ∷ bytes) = (if leb 0x80 b && ltb b 0xC0 then 0 else 1) + count_chars bytes

-- `usize::saturating_add` on 64 bits
unfoldable pub saturating_add : ℕ → ℕ → ℕ
saturating_add a b = if leb (a + b) (2 ^ 64 - 1) then a + b else 2 ^ 64 - 1

unfoldable pub validate_connection_id : Text → Checked
validate_connection_id id = do
  ensure (not (id == [])) "socket connection ID is empty"
  ensure (leb (length id) 128) "socket connection ID exceeds 128 bytes"

-- The loop over the tags, with the bytes so far.
unfoldable pub add_tags : ℕ → List Text → Result ℕ
unfolding count_chars saturating_add
add_tags total [] = ok total
add_tags total (tag ∷ tags) = do
  ensure (not (tag == [])) "socket tag is empty"
  ensure (leb (count_chars tag) max_socket_tag_characters) "socket tag exceeds 256 characters"
  add_tags (saturating_add total (length tag)) tags

unfoldable pub validate_socket_tags : List Text → Checked
unfolding add_tags
validate_socket_tags tags = do
  ensure (leb (length tags) max_socket_tags) "socket tags exceed 128 entries"
  total ← add_tags 0 tags
  ensure (leb total max_socket_tag_bytes) "socket tags exceed 8192 bytes"

unfoldable pub validate_close : ℕ → Text → Checked
validate_close code reason = do
  ensure (eqb code 1000 || (leb 3000 code && leb code 4999))
      "socket close code must be 1000 or between 3000 and 4999"
  ensure (leb (length reason) max_socket_close_reason_bytes) "socket close reason exceeds 123 bytes"

abbrev pub is_none {ℓ} : {A : Type ℓ} → Option A → Bool
is_none none = true
is_none (some a) = false

-- `changes.get(field).is_none()`
abbrev pub is_unchanged : Value → Text → Bool
is_unchanged changes name = is_none (get changes name)

module _ (encoders : Encoders) where
  unfoldable pub validate_socket_metadata : Value → Checked
  validate_socket_metadata metadata = do
    bytes ← encoders.value_to_vec metadata
    ensure (leb (length bytes) max_socket_metadata_bytes) "socket metadata exceeds 65536 bytes"

  unfoldable pub validate_public_state : Value → Checked
  validate_public_state state = do
    ensure (is_object state) "public state must be a JSON object"
    bytes ← encoders.value_to_vec state
    ensure (leb (length bytes) (max_socket_message_bytes - 256))
        "public state exceeds message limit"

  unfoldable pub validate_socket_message : ActorSocketMessage → Checked
  validate_socket_message (text_message data') =
      ensure (leb (length data') max_socket_message_bytes) "socket message exceeds 16777216 bytes"
  validate_socket_message (binary_message data') = do
    ensure (leb (length data') max_encoded_bytes) "socket message exceeds 16777216 decoded bytes"
    decoded ← encoders.base64_decode data'
    ensure (leb (length decoded) max_socket_message_bytes)
        "socket message exceeds 16777216 decoded bytes"

  unfoldable pub validate_socket_effect : ActorSocketEffect → Checked
  unfolding validate_connection_id validate_public_state validate_socket_tags validate_close
      validate_socket_message validate_socket_metadata
  validate_socket_effect (state_snapshot id state version) = do
    validate_connection_id id
    validate_public_state state
  validate_socket_effect (state_update changes removed except_ids version) = do
    validate_public_state changes
    ensure (all (is_unchanged changes) removed) "state field is both changed and removed"
    bytes ← encoders.effect_to_vec (state_update changes removed except_ids version)
    ensure (leb (length bytes) max_socket_message_bytes) "state update exceeds message limit"
    each validate_connection_id except_ids
  validate_socket_effect (send id message) = do
    validate_connection_id id
    validate_socket_message message
  validate_socket_effect (broadcast message except_ids tags tag_match) = do
    ensure (leb (length except_ids) max_socket_tags)
        "socket broadcast exclusions exceed 128 entries"
    each validate_connection_id except_ids
    validate_socket_tags tags
    validate_socket_message message
  validate_socket_effect (close id code reason) = do
    validate_connection_id id
    validate_close code reason
  validate_socket_effect (reject id code reason) = do
    validate_connection_id id
    validate_close code reason
  validate_socket_effect (set_metadata id metadata) = do
    validate_connection_id id
    validate_socket_metadata metadata
  validate_socket_effect (set_tags id tags) = do
    validate_connection_id id
    validate_socket_tags tags

  unfoldable pub validate_socket_effects : List ActorSocketEffect → Checked
  unfolding validate_socket_effect
  validate_socket_effects effects = each validate_socket_effect effects
