-- ===== src/Tests/Names.antt =====
-- The names of an actor's snapshots (src/storage.rs, src/storage_paths.rs), with an encoding that
-- raises the bytes above the slash.
use little_actors.Prelude.{
  ◌≡◌, ◌↔◌, refl, true, not, [], ◌∷◌, eqb, all, ok, ap, arith, length, ◌≤◌, ◌≤◌, false, ◌<◌, ◌<◌,
}
use little_actors.Prelude.Text.{Text, text, text_eq, text_beq}
use little_actors.Naming.{object_name, decimal, digit_byte}
use little_actors.Actor.{
  ActorKey, storage_key, validate, validate_component, validate_storage_key, component_byte,
  has_control, is_ascii_digit, is_ascii_lowercase, is_ascii_uppercase,
}
use little_actors.Authority.Paths.{snapshots, snapshot_object_name, actor_path, is_ascii_hexdigit}
use little_actors.Authority.Paths.Objects.{
  Decoder, validate_snapshot_object_name, actor_from_snapshot,
}
use little_actors.Authority.Paths.Recognizing.{name_of, actor_from_snapshot-snapshot_object_name}
use little_actors.Authority.Paths.Validating.{IsVersioned, validate_snapshot_object_name_iff}
use little_actors.Wire.{Codec}
use little_actors.Tests.Documents.{documents}
use little_actors.Tests.Grants.{raised, lowered, lowered-raised}

abbrev raising : Codec
raising = record documents { component = raised }

raised-slashless : (t : Text) → all (λ b. not (eqb b b'/')) (raised t) ≡ true
unfolding raised
raised-slashless [] = refl
raised-slashless (b ∷ t) = ground (arith, raised-slashless t)

abbrev lowering : Decoder raising
lowering = record {
  decode = λ t. ok (lowered t);
  decode-component = λ t. ap ok (lowered-raised t);
  component-plain = raised-slashless;
  shard-plain = λ t. refl;
}

abbrev named_actor : ActorKey
named_actor = record { project_id = text "p"; actor_name = text "n"; actor_id = text "i" }

abbrev a_nonce : Text
a_nonce = text "0123456789abcdef0123456789abcdef"

abbrev a_name : Text
a_name = name_of raising named_actor 3 a_nonce

a_name-made : snapshot_object_name raising named_actor 3 a_nonce ≡ ok a_name
unfolding snapshot_object_name snapshots actor_path validate validate_component validate_storage_key
    component_byte has_control is_ascii_digit is_ascii_lowercase is_ascii_uppercase storage_key
    text_beq is_ascii_hexdigit object_name decimal digit_byte raised
a_name-made = refl

actor_from_snapshot-snapshot_object_name_example :
    actor_from_snapshot raising lowering a_name ≡ ok named_actor
actor_from_snapshot-snapshot_object_name_example =
    actor_from_snapshot-snapshot_object_name raising lowering named_actor 3 a_nonce a_name
      a_name-made

validate_snapshot_object_name_iff_example :
    ((validate_snapshot_object_name raising named_actor 3 a_name ≡ ok tt) ↔ (
      (length a_name ≤ 1024)
      × (has_control a_name ≡ false)
      × IsVersioned raising named_actor 3 a_name))
    × (((nonce : Text) × (snapshot_object_name raising named_actor 3 nonce ≡ ok a_name))
        ↔ ((0 < 3) × IsVersioned raising named_actor 3 a_name))
validate_snapshot_object_name_iff_example =
    validate_snapshot_object_name_iff raising named_actor 3 a_name
