-- ===== src/Host/Runtime/Serial.antt =====
-- The runtime without a mailbox: one request after another (`invoke_actor` and `handle_socket_event`
-- of src/host/actor_runtime.rs, and the loop of `run_actor` in src/host/actor_host.rs).
use little_actors.Prelude.{
  Bool, true, false, not, ◌&&◌, ℕ, List, [], ◌∷◌, Result, ok, err, if◌then◌else◌, none, some,
}
use little_actors.Prelude.Action.{Action, pure, lift}
use little_actors.Prelude.Program.{◌>>=◌, ◌>>◌}
use little_actors.Prelude.Text.{text}
use little_actors.Json.{Value, null}
use little_actors.Actor.Outcome.{
  ActorInvocation, ActorExecutionResult, completed, failed, host_unavailable, ActorOperation,
  activate, method, socket, ActorRequest, is_disconnect,
}
use little_actors.Sockets.{ActorSocketEffect, ActorSocketInvocation}
use little_actors.Sockets.Validation.{validate_socket_effects}
use little_actors.Wire.{Codec}
use little_actors.Host.Admission.{PreparedInvocation, execute, answered}
use little_actors.Host.Runtime.{
  ActorSocketOutcome, interleaved_socket, handled, not_handled, CommitOrigin, CachedActorState,
  Call, invoked, handled_socket, ActorRuntime, History, Surroundings,
}
use little_actors.Host.Runtime.Publishing.{finish_pending_commit, publish_result}
use little_actors.Host.Runtime.Invoking.{
  holding, restore, event_connection, socket_event_name, unknown, Act, authority, evict,
  take_or_load_state,
}
use little_actors.Host.Runtime.Operations.{
  actor_error, failure_code, complete_with_state, prepare_invocation, evict_if, is_state,
  finish_serial,
}
use little_actors.Host.Runtime.Mailbox.{activate_actor}

-- A call whose failure is a value.
abbrev pub observe :
    {Bytes : Type 0} {A : Type 0}
    → (Result A → Call Bytes)
    → (History Bytes → Result A)
    → Action (ActorRuntime Bytes) (Result A)
observe entry answer runtime = (
  record runtime { history = entry (answer runtime.history) ∷ runtime.history },
  ok (answer runtime.history),
)

-- What an action came to, as a value.
abbrev pub attempt :
    {Bytes : Type 0} {A : Type 0}
    → Action (ActorRuntime Bytes) A
    → Action (ActorRuntime Bytes) (Result A)
attempt action runtime = let (after, result) = action runtime in (after, ok result)

-- What `execute_socket_event` makes of an answer.
pub data SocketExecuted : Type 0 where
  socket_done : Value → List ActorSocketEffect → SocketExecuted
  socket_refused : ActorExecutionResult → SocketExecuted

abbrev pub no_origin : CommitOrigin
no_origin = record { connection_id = none; interleaved = false }

-- The invocation that a socket's event is recorded as.
abbrev pub persistence_of : ActorSocketInvocation → ActorInvocation
persistence_of invocation = record {
  request_id = invocation.request_id;
  actor = invocation.actor;
  method = socket_event_name invocation.event;
  args = [];
}

module _ (c : Codec) (s : Surroundings c) where
  abbrev Bytes : Type 0
  Bytes = Codec.Bytes c

  unfoldable pub execute_prepared :
      ActorInvocation → ℕ → PreparedInvocation → Act c s ActorExecutionResult
  unfolding finish_serial
  execute_prepared invocation owner_epoch (answered result) = pure result
  execute_prepared invocation owner_epoch (execute state) = do
    outcome ← observe (invoked invocation state) (λ h. s.invoke_shared h invocation state)
    finish_serial c s invocation owner_epoch outcome no_origin

  -- `invoke_actor_once`, where `execute_method` and `finish_method` do what `finish_serial` does.
  unfoldable pub invoke_actor_once : ActorInvocation → ℕ → Act c s ActorExecutionResult
  unfolding prepare_invocation execute_prepared
  invoke_actor_once invocation owner_epoch = do
    prepared ← prepare_invocation c s invocation owner_epoch true
    execute_prepared invocation owner_epoch prepared

  unfoldable pub invoke_actor : ActorInvocation → ℕ → Act c s ActorExecutionResult
  unfolding invoke_actor_once
  invoke_actor invocation owner_epoch = do
    authority c s
    outcome ← attempt (invoke_actor_once invocation owner_epoch)
    authority c s
    lift outcome

  -- `execute_socket_event`, with whether the actor is evicted.
  unfoldable pub socket_result : Result ActorSocketOutcome → SocketExecuted × Bool
  unfolding validate_socket_effects
  socket_result (ok (interleaved_socket outcome)) =
      (socket_refused (actor_error (text "unexpected interleaved result")), false)
  socket_result (ok (handled state effects)) = elim (validate_socket_effects s.encoders effects) [
    | ok _ ↦ (socket_done state effects, false)
    | err e ↦ (socket_refused (actor_error (text "actor returned invalid socket effects")), true)
  ]
  socket_result (ok (not_handled failure)) = (
    socket_refused
        (failed (record { code = failure_code failure.code; message = failure.message })),
    false,
  )
  socket_result (err e) = (socket_refused (actor_error (text "actor executor failed")), false)

  unfoldable pub after_socket :
      ActorInvocation
      → List ActorSocketEffect
      → ℕ
      → Result ActorExecutionResult
      → Act c s ActorExecutionResult
  unfolding evict complete_with_state
  after_socket invocation effects version (ok (completed result none_sent)) runtime =
      complete_with_state c s invocation.actor version null effects runtime
  after_socket invocation effects version (ok result) runtime = (runtime, ok result)
  after_socket invocation effects version (err e) runtime =
      (evict c s invocation.actor runtime, ok unknown)

  unfoldable pub commit_socket :
      ActorInvocation
      → ℕ
      → CommitOrigin
      → CachedActorState
      → SocketExecuted
      → Act c s ActorExecutionResult
  unfolding complete_with_state publish_result after_socket
  commit_socket invocation owner_epoch origin cached (socket_refused result) =
      restore cached >> pure result
  commit_socket invocation owner_epoch origin cached (socket_done state effects) =
      if is_state c s cached.state state
      then (do
        restore cached
        complete_with_state c s invocation.actor cached.state_version null effects)
      else (do
        (held, publication) ←
            holding (publish_result c s invocation owner_epoch null state origin) cached
        after_socket invocation effects held.state_version publication)

  unfoldable pub socket_executed :
      ActorSocketInvocation
      → ℕ
      → CachedActorState
      → SocketExecuted × Bool
      → Act c s ActorExecutionResult
  unfolding commit_socket evict
  socket_executed invocation owner_epoch cached (executed, evicts) runtime =
      commit_socket (persistence_of invocation) owner_epoch
        (record { connection_id = some (event_connection invocation.event); interleaved = false })
        cached executed (evict_if c s evicts invocation.actor runtime)

  unfoldable pub execute_socket :
      ActorSocketInvocation
      → ℕ
      → CachedActorState
      → Result (Unit {0})
      → Act c s ActorExecutionResult
  unfolding socket_executed socket_result
  execute_socket invocation owner_epoch cached (err e) = pure unknown
  execute_socket invocation owner_epoch cached (ok _) = do
    outcome ←
        observe (handled_socket invocation cached.state)
          (λ h. s.handle_socket_shared h invocation cached.state)
    socket_executed invocation owner_epoch cached (socket_result outcome)

  unfoldable pub handle_socket_event_once : ActorSocketInvocation → ℕ → Act c s ActorExecutionResult
  unfolding take_or_load_state finish_pending_commit execute_socket
  handle_socket_event_once invocation owner_epoch = do
    cached ← take_or_load_state c s invocation.actor owner_epoch
    (held, finished) ← holding (finish_pending_commit c s (persistence_of invocation)) cached
    execute_socket invocation owner_epoch held finished

  unfoldable pub handle_socket_event : ActorSocketInvocation → ℕ → Act c s ActorExecutionResult
  unfolding handle_socket_event_once
  handle_socket_event invocation owner_epoch = do
    authority c s
    outcome ← attempt (handle_socket_event_once invocation owner_epoch)
    authority c s
    lift outcome

  unfoldable pub serve_operation : ActorOperation → ℕ → Act c s ActorExecutionResult
  unfolding activate_actor invoke_actor handle_socket_event
  serve_operation (activate actor) owner_epoch = do
    _ ← attempt (activate_actor c s actor)
    pure (completed null [])
  serve_operation (method invocation) owner_epoch = invoke_actor invocation owner_epoch
  serve_operation (socket invocation) owner_epoch = handle_socket_event invocation owner_epoch

  unfoldable pub serve_request : ActorRequest → Bool → Act c s ActorExecutionResult
  unfolding serve_operation
  serve_request request accepting =
      if not accepting && not (is_disconnect request.operation)
      then pure host_unavailable
      else serve_operation request.operation request.owner_epoch

  -- The loop, with what it answers, the newest first.
  unfoldable pub serve_requests :
      List (ActorRequest × Bool)
      → ActorRuntime Bytes × List (Result ActorExecutionResult)
      → ActorRuntime Bytes × List (Result ActorExecutionResult)
  unfolding serve_request
  serve_requests [] (runtime, answers) = (runtime, answers)
  serve_requests ((request, accepting) ∷ requests) (runtime, answers) =
      let (after, answer) = serve_request request accepting runtime in
      serve_requests requests (after, answer ∷ answers)
