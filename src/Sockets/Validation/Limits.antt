-- ===== src/Sockets/Validation/Limits.antt =====
-- What the validation of socket effects accepts, told without the order of its checks
-- (src/actor/socket.rs).
use little_actors.Prelude.{
  ℕ, ◌+◌, ◌-◌, ◌≤◌, ◌<◌, ◌≡◌, ◌↔◌, ◌⊎◌, refl, Bool, true, not, ◌&&◌, ◌||◌, none, List, [], ◌∷◌,
  ◌==◌, All, all, leb, length, ok, Checked, ◌>>=◌, ◌>>◌, ensure, arith, String, eqb, Option, some,
}
use little_actors.Prelude.Text.{Text, text_eq}
use little_actors.Prelude.Deciding.{
  Decides, ensure-Decides, >>-Decides, >>=-Decides, Decides-change, >>-assoc, leb_iff,
  not_empty_iff, all_iff,
}
use little_actors.Json.{Value, is_object, get}
use little_actors.Sockets.{
  ActorSocketEffect, state_snapshot, state_update, send, broadcast, close, reject, set_metadata,
  set_tags, ActorSocketMessage, text_message, binary_message,
}
use little_actors.Sockets.Validation.{
  Encoders, max_socket_metadata_bytes, max_socket_message_bytes, max_socket_tags,
  max_socket_tag_characters, max_socket_tag_bytes, max_socket_close_reason_bytes, max_encoded_bytes,
  each, count_chars, saturating_add, validate_connection_id, add_tags, validate_socket_tags,
  validate_close, is_none, is_unchanged, validate_socket_metadata, validate_public_state,
  validate_socket_message, validate_socket_effect, validate_socket_effects,
}

each-Decides {ℓ κ} :
    {A : Type κ} (P : A → Type ℓ) (f : A → Checked)
    → ((a : A) → Decides (f a) (P a))
    → (xs : List A) → Decides (each f xs) (All P xs)
each-Decides P f d [] = (λ h. tt, λ p. refl)
each-Decides P f d (x ∷ xs) = >>-Decides (f x) (each f xs) (d x) (each-Decides P f d xs)

abbrev pub ConnectionIdFits : Text → Type 0
ConnectionIdFits id = (0 < length id) × (length id ≤ 128)

validate_connection_id-Decides :
    (id : Text) → Decides (validate_connection_id id) (ConnectionIdFits id)
unfolding validate_connection_id
validate_connection_id-Decides id =
    >>-Decides (ensure (not (id == [])) _) (ensure (leb (length id) 128) _)
      (ensure-Decides (not (id == [])) _ (not_empty_iff id))
      (ensure-Decides (leb (length id) 128) _ (leb_iff (length id) 128))

abbrev pub TagFits : Text → Type 0
TagFits tag = (0 < length tag) × (count_chars tag ≤ max_socket_tag_characters)

-- The bytes of the tags, without a limit.
unfoldable pub total_bytes : List Text → ℕ
total_bytes [] = 0
total_bytes (tag ∷ tags) = length tag + total_bytes tags

abbrev pub TagsFit : List Text → Type 0
TagsFit tags =
    (length tags ≤ max_socket_tags) × (All TagFits tags × (total_bytes tags ≤ max_socket_tag_bytes))

abbrev check_total : ℕ → Checked
check_total total = ensure (leb total max_socket_tag_bytes) "socket tags exceed 8192 bytes"

-- Saturation does not hide an excess.
saturating_add_iff :
    (a b c : ℕ)
    → (saturating_add a b + c ≤ max_socket_tag_bytes) ↔ (a + (b + c) ≤ max_socket_tag_bytes)
unfolding saturating_add
saturating_add_iff a b c = ground arith

add_tags-Decides :
    (total : ℕ) (tags : List Text)
    → Decides
        (add_tags total tags >>= check_total)
        (All TagFits tags × (total + total_bytes tags ≤ max_socket_tag_bytes))
unfolding add_tags total_bytes
add_tags-Decides total [] =
    Decides-change (ensure-Decides (leb total max_socket_tag_bytes) _ (leb_iff _ _))
      (λ h. (tt, omega arith)) (λ (_, h). omega arith)
add_tags-Decides total (tag ∷ tags) =
    let rest = add_tags (saturating_add total (length tag)) tags in
    let short =
      ensure (leb (count_chars tag) max_socket_tag_characters)
        "socket tag exceeds 256 characters" in
    rw
      (
        >>-assoc (ensure (not (tag == [])) "socket tag is empty") (short >> rest) check_total,
        >>-assoc short rest check_total,
      )
      (Decides-change
        (>>-Decides (ensure (not (tag == [])) _) (short >> (rest >>= check_total))
          (ensure-Decides (not (tag == [])) _ (not_empty_iff tag))
          (>>-Decides short (rest >>= check_total)
            (ensure-Decides (leb (count_chars tag) _) _ (leb_iff _ _))
            (add_tags-Decides (saturating_add total (length tag)) tags)))
        (λ (a, (b, (c, d))).
          (((a, b), c), (saturating_add_iff total (length tag) (total_bytes tags)).0 d))
        (λ (((a, b), c), d).
          (a, (b, (c, (saturating_add_iff total (length tag) (total_bytes tags)).1 d)))))

validate_socket_tags-Decides :
    (tags : List Text) → Decides (validate_socket_tags tags) (TagsFit tags)
unfolding validate_socket_tags
validate_socket_tags-Decides tags =
    >>-Decides (ensure (leb (length tags) max_socket_tags) _) (add_tags 0 tags >>= check_total)
      (ensure-Decides (leb (length tags) max_socket_tags) _ (leb_iff _ _))
      (Decides-change {Q = All TagFits tags × (total_bytes tags ≤ max_socket_tag_bytes)}
        (add_tags-Decides 0 tags) (λ (a, h). (a, omega (arith, h)))
        (λ (a, h). (a, omega (arith, h))))

abbrev pub CloseFits : ℕ → Text → Type 0
CloseFits code reason =
    ((code ≡ 1000) ⊎ ((3000 ≤ code) × (code ≤ 4999)))
    × (length reason ≤ max_socket_close_reason_bytes)

close_code_iff :
    (code : ℕ)
    → ((eqb code 1000 || (leb 3000 code && leb code 4999)) ≡ true)
      ↔ ((code ≡ 1000) ⊎ ((3000 ≤ code) × (code ≤ 4999)))
close_code_iff code = ground arith

validate_close-Decides :
    (code : ℕ) (reason : Text) → Decides (validate_close code reason) (CloseFits code reason)
unfolding validate_close
validate_close-Decides code reason =
    >>-Decides (ensure (eqb code 1000 || (leb 3000 code && leb code 4999)) _)
      (ensure (leb (length reason) max_socket_close_reason_bytes) _)
      (ensure-Decides (eqb code 1000 || (leb 3000 code && leb code 4999)) _ (close_code_iff code))
      (ensure-Decides (leb (length reason) max_socket_close_reason_bytes) _ (leb_iff _ _))

-- No removed field is among the changes.
abbrev pub IsUnchanged : Value → Text → Type 0
IsUnchanged changes name = get changes name ≡ none

is_none_iff : (o : Option Value) → (is_none o ≡ true) ↔ (o ≡ none)
is_none_iff none = (λ _. refl, λ _. refl)
is_none_iff (some v) = (λ h. absurd cc, λ h. absurd cc)

is_unchanged_iff :
    (changes : Value) (name : Text) → (is_unchanged changes name ≡ true) ↔ IsUnchanged changes name
is_unchanged_iff changes name = is_none_iff (get changes name)

module _ (encoders : Encoders) where
  abbrev pub MetadataFits : Value → Type 0
  MetadataFits metadata =
      (bytes : Text) × (encoders.value_to_vec metadata ≡ ok bytes)
      × (length bytes ≤ max_socket_metadata_bytes)

  abbrev pub PublicStateFits : Value → Type 0
  PublicStateFits state =
      (is_object state ≡ true)
      × ((bytes : Text) × (encoders.value_to_vec state ≡ ok bytes)
          × (length bytes ≤ max_socket_message_bytes - 256))

  abbrev pub MessageFits : ActorSocketMessage → Type 0
  MessageFits (text_message data') = length data' ≤ max_socket_message_bytes
  MessageFits (binary_message data') =
      (length data' ≤ max_encoded_bytes)
      × ((decoded : Text) × (encoders.base64_decode data' ≡ ok decoded)
          × (length decoded ≤ max_socket_message_bytes))

  abbrev pub UpdateFits : Value → List Text → List Text → Option ℕ → Type 0
  UpdateFits changes removed except_ids version =
      PublicStateFits changes
      × (All (IsUnchanged changes) removed
          × ((bytes : Text) × (encoders.effect_to_vec
                  (state_update changes removed except_ids version)
                ≡ ok bytes)
              × ((length bytes ≤ max_socket_message_bytes) × All ConnectionIdFits except_ids)))

  abbrev pub EffectFits : ActorSocketEffect → Type 0
  EffectFits (state_snapshot id state version) = ConnectionIdFits id × PublicStateFits state
  EffectFits (state_update changes removed except_ids version) =
      UpdateFits changes removed except_ids version
  EffectFits (send id message) = ConnectionIdFits id × MessageFits message
  EffectFits (broadcast message except_ids tags tag_match) =
      (length except_ids ≤ max_socket_tags)
      × (All ConnectionIdFits except_ids × (TagsFit tags × MessageFits message))
  EffectFits (close id code reason) = ConnectionIdFits id × CloseFits code reason
  EffectFits (reject id code reason) = ConnectionIdFits id × CloseFits code reason
  EffectFits (set_metadata id metadata) = ConnectionIdFits id × MetadataFits metadata
  EffectFits (set_tags id tags) = ConnectionIdFits id × TagsFit tags

  fits :
      (bytes : Text) (limit : ℕ) (e : String)
      → Decides (ensure (leb (length bytes) limit) e) (length bytes ≤ limit)
  fits bytes limit e = ensure-Decides (leb (length bytes) limit) e (leb_iff (length bytes) limit)

  yes_iff : (b : Bool) → (b ≡ true) ↔ (b ≡ true)
  yes_iff b = (λ h. h, λ h. h)

  metadata-Decides : (v : Value) → Decides (validate_socket_metadata encoders v) (MetadataFits v)
  unfolding validate_socket_metadata
  metadata-Decides v =
      >>=-Decides _ (encoders.value_to_vec v) _ (λ bytes. fits bytes max_socket_metadata_bytes _)

  state-Decides : (v : Value) → Decides (validate_public_state encoders v) (PublicStateFits v)
  unfolding validate_public_state
  state-Decides v = >>-Decides _ _ (ensure-Decides (is_object v) _ (yes_iff (is_object v))) (
      >>=-Decides _ (encoders.value_to_vec v) _
        (λ bytes. fits bytes (max_socket_message_bytes - 256) _))

  message-Decides :
      (m : ActorSocketMessage) → Decides (validate_socket_message encoders m) (MessageFits m)
  unfolding validate_socket_message
  message-Decides (text_message data') = fits data' max_socket_message_bytes _
  message-Decides (binary_message data') = >>-Decides _ _ (fits data' max_encoded_bytes _) (
      >>=-Decides _ (encoders.base64_decode data') _
        (λ decoded. fits decoded max_socket_message_bytes _))

  ids-Decides :
      (ids : List Text) → Decides (each validate_connection_id ids) (All ConnectionIdFits ids)
  ids-Decides ids =
      each-Decides ConnectionIdFits validate_connection_id validate_connection_id-Decides ids

  effect-Decides :
      (effect : ActorSocketEffect)
      → Decides (validate_socket_effect encoders effect) (EffectFits effect)
  unfolding validate_socket_effect
  effect-Decides (state_snapshot id state version) =
      >>-Decides _ _ (validate_connection_id-Decides id) (state-Decides state)
  effect-Decides (state_update changes removed except_ids version) =
      >>-Decides _ _ (state-Decides changes) (
        >>-Decides _ _
          (ensure-Decides (all (is_unchanged changes) removed) _ (
            all_iff (IsUnchanged changes) (is_unchanged changes) (is_unchanged_iff changes)
              removed))
          (>>=-Decides _ (encoders.effect_to_vec (state_update changes removed except_ids version))
            _
            (λ bytes.
              >>-Decides _ _ (fits bytes max_socket_message_bytes _) (ids-Decides except_ids))))
  effect-Decides (send id message) =
      >>-Decides _ _ (validate_connection_id-Decides id) (message-Decides message)
  effect-Decides (broadcast message except_ids tags tag_match) =
      >>-Decides _ _ (ensure-Decides (leb (length except_ids) max_socket_tags) _ (leb_iff _ _)) (
        >>-Decides _ _ (ids-Decides except_ids)
          (>>-Decides _ _ (validate_socket_tags-Decides tags) (message-Decides message)))
  effect-Decides (close id code reason) =
      >>-Decides _ _ (validate_connection_id-Decides id) (validate_close-Decides code reason)
  effect-Decides (reject id code reason) =
      >>-Decides _ _ (validate_connection_id-Decides id) (validate_close-Decides code reason)
  effect-Decides (set_metadata id metadata) =
      >>-Decides _ _ (validate_connection_id-Decides id) (metadata-Decides metadata)
  effect-Decides (set_tags id tags) =
      >>-Decides _ _ (validate_connection_id-Decides id) (validate_socket_tags-Decides tags)

  -- A list of effects is accepted exactly if each of them keeps to its limits: identifiers, metadata,
  -- public states, updates, messages, close codes, and tags, whose total is counted with saturation
  -- and yet limits their real total.
  pub validate_socket_effects-Fits :
      (effects : List ActorSocketEffect)
      → (validate_socket_effects encoders effects ≡ ok tt) ↔ All EffectFits effects
  unfolding validate_socket_effects
  validate_socket_effects-Fits effects =
      each-Decides EffectFits (validate_socket_effect encoders) effect-Decides effects
