-- ===== src/Host/Runtime/Operations.antt =====
-- The operations of the runtime that a mailbox calls (src/host/actor_runtime.rs). Error messages are
-- the source's, without interpolated values.
use little_actors.Prelude.{
  ℕ, Bool, true, false, not, ◌||◌, Option, none, some, List, [], ◌==◌, eqb, Result, ok, err,
  Checked, ensure, context, if◌then◌else◌,
}
use little_actors.Prelude.Text.{Text, text, text_eq}
use little_actors.Prelude.Action.{pure, lift}
use little_actors.Prelude.Program.{◌>>=◌, ◌>>◌}
use little_actors.Json.{Value}
use little_actors.Actor.{ActorKey}
use little_actors.Actor.Outcome.{
  ActorInvocation, ActorExecutionResult, completed, failed, ActorMethodOutcome, interleaved,
  returned, not_returned, ActorInterleavedOutcome,
}
use little_actors.Sockets.{ActorSocketEffect}
use little_actors.Sockets.Validation.{validate_socket_effects}
use little_actors.Wire.{Codec}
use little_actors.Host.Admission.{PreparedInvocation, answered}
use little_actors.Host.Runtime.{
  CommitOrigin, CachedActorState, ActorRuntime, Surroundings, ask, published,
}
use little_actors.Host.Runtime.Publishing.{finish_pending_commit, publish_result}
use little_actors.Host.Runtime.Invoking.{
  holding, beside, restore, take_cached, automatic, explicit, is_nil, unknown, Act, authority,
  evict, take_or_load_state, answer_or_execute,
}

-- What `method_result` makes of an execution.
pub data Executed : Type 0 where
  done : Value → Value → List ActorSocketEffect → Executed
  refused : ActorExecutionResult → Executed

abbrev pub actor_error : Text → ActorExecutionResult
actor_error message = failed (record { code = text "actor_error"; message = message })

-- The failures that leave the actor where it is.
abbrev pub keeps_actor : Text → Bool
keeps_actor code = code == text "actor_method_failed" || code == text "actor_socket_failed"

abbrev pub failure_code : Text → Text
failure_code code =
    if code == text "resource_exhausted" then text "resource_exhausted" else text "actor_error"

module _ (c : Codec) (s : Surroundings c) where
  abbrev Bytes : Type 0
  Bytes = Codec.Bytes c

  -- The answer, once the notifications were sent or refused.
  abbrev pub answer_sent : Value → List ActorSocketEffect → Checked → ActorExecutionResult
  answer_sent result effects (ok _) = completed result (explicit effects)
  answer_sent result effects (err e) = unknown

  unfoldable pub announce :
      ActorKey → ℕ → Value → List ActorSocketEffect → Act c s ActorExecutionResult
  unfolding automatic explicit
  announce actor version result effects runtime =
      let announced = automatic version effects in
      let (runtime', sent) =
        beside (ask (published actor announced) (λ h. s.publish h actor announced)) runtime in
      if is_nil announced
      then (runtime, ok (completed result (explicit effects)))
      else (runtime', ok (answer_sent result effects sent))

  unfoldable pub complete_with_state :
      ActorKey → ℕ → Value → List ActorSocketEffect → Act c s ActorExecutionResult
  unfolding announce
  complete_with_state actor version result effects = do
    authority c s
    announce actor version result effects

  unfoldable pub prepared_with :
      ActorInvocation → Bool → CachedActorState → Result (Unit {0}) → PreparedInvocation
  unfolding answer_or_execute
  prepared_with invocation replays cached (err e) = answered unknown
  prepared_with invocation replays cached (ok _) =
      answer_or_execute c s invocation.request_id replays cached

  unfoldable pub prepare_invocation : ActorInvocation → ℕ → Bool → Act c s PreparedInvocation
  unfolding take_or_load_state finish_pending_commit prepared_with
  prepare_invocation invocation owner_epoch replays = do
    authority c s
    cached ← take_or_load_state c s invocation.actor owner_epoch
    (held, finished) ← holding (finish_pending_commit c s invocation) cached
    pure (prepared_with invocation replays held finished)

  -- `method_result`: what the execution came to, and whether the actor is evicted.
  unfoldable pub method_result : Result ActorMethodOutcome → Executed × Bool
  unfolding validate_socket_effects
  method_result (ok (interleaved outcome)) =
      (refused (actor_error (text "unexpected interleaved result")), false)
  method_result (ok (returned result state effects)) =
      elim (validate_socket_effects s.encoders effects) [
        | ok _ ↦ (done result state effects, false)
        | err e ↦ (refused (actor_error (text "actor returned invalid socket effects")), true)
      ]
  method_result (ok (not_returned failure)) = (
    refused (failed (record { code = failure_code failure.code; message = failure.message })),
    not (keeps_actor failure.code),
  )
  method_result (err e) = (refused (actor_error (text "actor executor failed")), true)

  abbrev pub evict_if : Bool → ActorKey → ActorRuntime Bytes → ActorRuntime Bytes
  evict_if false actor runtime = runtime
  evict_if true actor runtime = evict c s actor runtime

  -- `cached.state.as_deref() == Some(&state)`
  abbrev pub is_state : Option Value → Value → Bool
  is_state none state = false
  is_state (some v) state = s.value_beq v state

  -- The end of `finish_method`, after `publish_result`.
  unfoldable pub after_publish :
      ActorInvocation
      → List ActorSocketEffect
      → ℕ
      → Result ActorExecutionResult
      → Act c s ActorExecutionResult
  unfolding evict complete_with_state
  after_publish invocation effects version (ok (completed result none_sent)) runtime =
      complete_with_state invocation.actor version result effects runtime
  after_publish invocation effects version (ok result) runtime = (runtime, ok result)
  after_publish invocation effects version (err e) runtime =
      (evict c s invocation.actor runtime, ok unknown)

  unfoldable pub finish_cached :
      ActorInvocation
      → ℕ
      → CommitOrigin
      → Value
      → Value
      → List ActorSocketEffect
      → CachedActorState
      → Act c s ActorExecutionResult
  unfolding complete_with_state publish_result after_publish
  finish_cached invocation owner_epoch origin result state effects cached =
      if is_state cached.state state
      then (do
        restore cached
        complete_with_state invocation.actor cached.state_version result effects)
      else (do
        (held, published') ←
            holding (publish_result c s invocation owner_epoch result state origin) cached
        after_publish invocation effects held.state_version published')

  unfoldable pub finish_method :
      ActorInvocation → ℕ → CommitOrigin → Executed → Act c s ActorExecutionResult
  unfolding finish_cached
  finish_method invocation owner_epoch origin (refused result) = pure result
  finish_method invocation owner_epoch origin (done result state effects) = do
    taken ← take_cached
    cached ← lift (context taken "actor invocation has no state")
    finish_cached invocation owner_epoch origin result state effects cached

  unfoldable pub finish_serial :
      ActorInvocation → ℕ → Result ActorMethodOutcome → CommitOrigin → Act c s ActorExecutionResult
  unfolding method_result finish_method evict
  finish_serial invocation owner_epoch outcome origin runtime =
      let (executed, evicts) = method_result outcome in
      finish_method invocation owner_epoch origin executed
        (evict_if evicts invocation.actor runtime)

  -- A change of state that is published, or none: the cached state and the outcome.
  unfoldable pub publish_change :
      ActorInvocation
      → ℕ
      → CommitOrigin
      → ActorInterleavedOutcome
      → CachedActorState
      → Act c s (CachedActorState × Result ActorExecutionResult)
  unfolding publish_result
  publish_change invocation owner_epoch origin outcome cached =
      if is_state cached.state outcome.state
      then holding (pure (completed outcome.result [])) cached
      else holding
          (publish_result c s invocation owner_epoch outcome.result outcome.state
            (record origin { interleaved = true }))
          cached

  unfoldable pub commit_interleaved :
      ActorInvocation → ℕ → ActorInterleavedOutcome → CommitOrigin → Act c s ActorExecutionResult
  unfolding publish_change validate_socket_effects
  commit_interleaved invocation owner_epoch outcome origin = do
    authority c s
    lift (validate_socket_effects s.encoders outcome.effects)
    taken ← take_cached
    cached ← lift (context taken "interleaved activation has no state")
    lift (ensure (eqb cached.owner_epoch owner_epoch) "interleaved ownership changed")
    (held, publication) ← publish_change invocation owner_epoch origin outcome cached
    _ ← lift publication
    complete_with_state invocation.actor held.state_version outcome.result outcome.effects
