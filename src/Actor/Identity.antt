-- ===== src/Actor/Identity.antt =====
-- Equality of actor keys, as `#[derive(PartialEq)]` makes it (src/actor/protocol.rs).
use little_actors.Prelude.{true, ◌≡◌, ◌↔◌, ==_iff, Eq, arith}
use little_actors.Prelude.Text.{text_eq}
use little_actors.Actor.{ActorKey, actor_beq}

pub actor_beq_iff : (a b : ActorKey) → (actor_beq a b ≡ true) ↔ (a ≡ b)
unfolding actor_beq
actor_beq_iff a b = ground (
  arith,
  ==_iff a.project_id b.project_id,
  ==_iff a.actor_name b.actor_name,
  ==_iff a.actor_id b.actor_id,
)

instance abbrev pub actor_eq : Eq ActorKey
actor_eq = record { beq = actor_beq; beq_correct = actor_beq_iff }
