-- ===== src/Sockets.antt =====
-- Socket connections, messages and effects (src/actor/executor_connection.rs).
pub mod Registry
pub mod Bounds
pub mod Validation
use little_actors.Prelude.{ℕ, Bool, Option, List}
use little_actors.Prelude.Text.{Text}
use little_actors.Json.{Value}
use little_actors.Actor.{ActorKey}
use little_actors.Lease.{ActorSocketConnection}

pub data ActorSocketMessage : Type 0 where
  text_message binary_message : Text → ActorSocketMessage

pub data ActorSocketEvent : Type 0 where
  connect : ActorSocketConnection → ActorSocketEvent
  message : Text → ActorSocketMessage → ActorSocketEvent
  disconnect : ActorSocketConnection → ℕ → Text → Bool → ActorSocketEvent

pub record ActorSocketInvocation : Type 0 where
  pub request_id : Text
  pub actor : ActorKey
  pub event : ActorSocketEvent
  pub connections : List ActorSocketConnection

pub data ActorSocketTagMatch : Type 0 where
  match_all match_any : ActorSocketTagMatch

-- A close or a reject carries a code and a reason; the identifiers are those of connections.
pub data ActorSocketEffect : Type 0 where
  state_snapshot : Text → Value → Option ℕ → ActorSocketEffect
  state_update : Value → List Text → List Text → Option ℕ → ActorSocketEffect
  send : Text → ActorSocketMessage → ActorSocketEffect
  broadcast : ActorSocketMessage → List Text → List Text → ActorSocketTagMatch → ActorSocketEffect
  close reject : Text → ℕ → Text → ActorSocketEffect
  set_metadata : Text → Value → ActorSocketEffect
  set_tags : Text → List Text → ActorSocketEffect
