-- ===== src/Actor/Outcome.antt =====
-- Invocations of actors and what comes of them (src/actor/protocol.rs,
-- src/actor/executor_connection.rs, src/host/actor_host.rs).
use little_actors.Prelude.{
  ℕ, Bool, true, false, not, ◌==◌, List, [], length, leb, Checked, ◌>>◌, ensure,
}
use little_actors.Prelude.Text.{Text, text, text_eq}
use little_actors.Json.{Value}
use little_actors.Actor.{ActorKey, max_method_bytes, validate_component}
use little_actors.Sockets.{
  ActorSocketEffect, ActorSocketEvent, connect, message, disconnect, ActorSocketInvocation,
}

pub record ActorInvocation : Type 0 where
  pub request_id : Text
  pub actor : ActorKey
  pub method : Text
  pub args : List Value

-- `ActorInvocation::validate`
unfoldable pub validate_invocation : ActorInvocation → Checked
validate_invocation invocation = do
  ensure (not (invocation.request_id == [])) "request ID must not be empty"
  ensure (leb (length invocation.request_id) 255) "request ID must be at most 255 bytes"
  little_actors.Actor.validate invocation.actor
  validate_component invocation.method max_method_bytes

pub record ActorInvocationFailure : Type 0 where
  pub code : Text
  pub message : Text

abbrev pub outcome_unknown_after_execution : ActorInvocationFailure
outcome_unknown_after_execution = record {
  code = text "outcome_unknown";
  message =
      text "actor execution completed, but its durable publication outcome could not be confirmed";
}

pub data ActorExecutionResult : Type 0 where
  completed : Value → List ActorSocketEffect → ActorExecutionResult
  failed : ActorInvocationFailure → ActorExecutionResult
  reroute host_unavailable : ActorExecutionResult

pub record ActorInterleavedOutcome : Type 0 where
  pub sequence : ℕ
  pub result : Value
  pub state : Value
  pub effects : List ActorSocketEffect

pub data ActorMethodOutcome : Type 0 where
  interleaved : ActorInterleavedOutcome → ActorMethodOutcome
  returned : Value → Value → List ActorSocketEffect → ActorMethodOutcome
  not_returned : ActorInvocationFailure → ActorMethodOutcome

pub data ActorOperation : Type 0 where
  activate : ActorKey → ActorOperation
  method : ActorInvocation → ActorOperation
  socket : ActorSocketInvocation → ActorOperation

abbrev pub is_disconnect_event : ActorSocketEvent → Bool
is_disconnect_event (connect connection) = false
is_disconnect_event (message id m) = false
is_disconnect_event (disconnect connection code reason clean) = true

-- `ActorOperation::is_disconnect`
abbrev pub is_disconnect : ActorOperation → Bool
is_disconnect (activate actor) = false
is_disconnect (method invocation) = false
is_disconnect (socket invocation) = is_disconnect_event invocation.event

-- `ActorOperation::actor`
abbrev pub actor_of : ActorOperation → ActorKey
actor_of (activate actor) = actor
actor_of (method invocation) = invocation.actor
actor_of (socket invocation) = invocation.actor

pub record ActorRequest : Type 0 where
  pub operation : ActorOperation
  pub owner_epoch : ℕ
