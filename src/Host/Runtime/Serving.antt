-- ===== src/Host/Runtime/Serving.antt =====
-- The requests of an actor without a mailbox, and what is durable (src/host/actor_runtime.rs,
-- src/host/actor_host.rs).
use little_actors.Prelude.{Bool, true, false, not, ◌&&◌, ℕ, List, [], ◌∷◌, Result, ok, err, Checked}
use little_actors.Prelude.Action.{lift}
use little_actors.Prelude.Program.{Triple, >>=-Triple, Triple-change, if-Triple}
use little_actors.Json.{null}
use little_actors.Actor.Outcome.{
  ActorInvocation, ActorExecutionResult, completed, failed, reroute, host_unavailable,
  ActorOperation, activate, method, socket, ActorRequest, is_disconnect,
}
use little_actors.Sockets.{ActorSocketEffect, ActorSocketInvocation}
use little_actors.Wire.{Codec}
use little_actors.Host.Admission.{PreparedInvocation, execute, answered}
use little_actors.Host.Runtime.{
  CommitOrigin, CachedActorState, Call, invoked, handled_socket, ActorRuntime, History,
  Surroundings, ActorKey, evicted,
}
use little_actors.Host.Runtime.Publishing.{finish_pending_commit, publish_result}
use little_actors.Host.Runtime.Invoking.{Act, evict}
use little_actors.Host.Runtime.Operations.{is_state, evict_if}
use little_actors.Host.Runtime.Mailbox.{activate_actor}
use little_actors.Host.Runtime.Serial.{
  observe, attempt, SocketExecuted, socket_done, socket_refused, no_origin, execute_prepared,
  invoke_actor_once, invoke_actor, socket_result, after_socket, commit_socket, persistence_of,
  socket_executed, execute_socket, handle_socket_event_once, handle_socket_event, serve_operation,
  serve_request, serve_requests,
}
use little_actors.Host.Runtime.Confirming.{IsSound, Announces, IsKept-call}
use little_actors.Host.Runtime.Pending.{finish_pending_commit-Keeps}
use little_actors.Host.Runtime.Published.{publish_result-Keeps}
use little_actors.Host.Runtime.Keeping.{
  IsSoundTaken, IsSoundAt, Sound, call-IsSound, authority-Sound, complete_with_state-Sound,
}
use little_actors.Host.Runtime.Soundness.{
  prepare_invocation-Sound, take_or_load_state-Takes, holding-Sound, taken-at, restore-Sound,
  evict-IsSound, finish_serial-Sound,
}
use little_actors.Host.Runtime.Running.{Sound-IsSound, activate_actor-Sound}

module _ (c : Codec) (s : Surroundings c) where
  abbrev Bytes : Type 0
  Bytes = Codec.Bytes c

  observe-Sound :
      {A : Type 0} (entry : Result A → Call Bytes) (answer : History Bytes → Result A)
      → ((r : Result A) (h : History Bytes) → Announces c s (entry r) h)
      → Sound c s (observe entry answer)
  observe-Sound entry answer quiet = record {
    holds = λ runtime p. call-IsSound c s (entry (answer runtime.history)) runtime (quiet _ _) p;
  }

  attempt-Sound : {A : Type 0} (m : Act c s A) → Sound c s m → Sound c s (attempt m)
  attempt-Sound m t = record { holds = λ runtime p. Sound-IsSound c s m runtime t p }

  lift-Sound : {A : Type 0} (r : Result A) → Sound c s (lift r)
  lift-Sound (ok a) = record { holds = λ runtime p. p }
  lift-Sound (err e) = record { holds = λ runtime p. p }

  execute_prepared-Sound :
      (invocation : ActorInvocation) (epoch : ℕ) (prepared : PreparedInvocation)
      → Sound c s (execute_prepared c s invocation epoch prepared)
  unfolding execute_prepared
  execute_prepared-Sound invocation epoch (answered result) = record { holds = λ runtime p. p }
  execute_prepared-Sound invocation epoch (execute state) =
      >>=-Triple
        (observe-Sound (invoked invocation state) (λ h. s.invoke_shared h invocation state)
          (λ r h. tt))
        (λ outcome. finish_serial-Sound c s invocation epoch outcome no_origin)

  invoke_actor-Sound :
      (invocation : ActorInvocation) (epoch : ℕ) → Sound c s (invoke_actor c s invocation epoch)
  unfolding invoke_actor invoke_actor_once
  invoke_actor-Sound invocation epoch = >>=-Triple (authority-Sound c s) (λ _.
      >>=-Triple
        (attempt-Sound (invoke_actor_once c s invocation epoch) (
          >>=-Triple (prepare_invocation-Sound c s invocation epoch true)
            (execute_prepared-Sound invocation epoch)))
        (λ outcome. >>=-Triple (authority-Sound c s) (λ _. lift-Sound outcome)))

  after_socket-Sound :
      (invocation : ActorInvocation) (effects : List ActorSocketEffect) (version : ℕ)
      (publication : Result ActorExecutionResult)
      → Triple
          (IsSoundAt c s version)
          (after_socket c s invocation effects version publication)
          (IsSound c s)
          (λ _. IsSound c s)
  unfolding after_socket
  after_socket-Sound invocation effects version (ok (completed result sent)) =
      complete_with_state-Sound c s invocation.actor version null effects
  after_socket-Sound invocation effects version (ok (failed failure)) = record {
    holds = λ runtime p. p.0;
  }
  after_socket-Sound invocation effects version (ok reroute) = record { holds = λ runtime p. p.0 }
  after_socket-Sound invocation effects version (ok host_unavailable) = record {
    holds = λ runtime p. p.0;
  }
  after_socket-Sound invocation effects version (err e) = record {
    holds = λ runtime p. evict-IsSound c s invocation.actor runtime p.0;
  }

  commit_socket-Sound :
      (invocation : ActorInvocation) (epoch : ℕ) (origin : CommitOrigin) (cached : CachedActorState)
      (executed : SocketExecuted)
      → Triple
          (IsSoundTaken c s cached)
          (commit_socket c s invocation epoch origin cached executed)
          (IsSound c s)
          (λ _. IsSound c s)
  unfolding commit_socket
  commit_socket-Sound invocation epoch origin cached (socket_refused result) =
      >>=-Triple (restore-Sound c s cached) (λ _. record { holds = λ runtime p. p.0 })
  commit_socket-Sound invocation epoch origin cached (socket_done state effects) =
      if-Triple (is_state c s cached.state state)
        (λ _. >>=-Triple (restore-Sound c s cached) (λ _.
          Triple-change
            (complete_with_state-Sound c s invocation.actor cached.state_version null effects)
            (taken-at c s cached) (λ _ _ p. p)))
        (λ _.
          >>=-Triple
            (holding-Sound c s (publish_result c s invocation epoch null state origin) cached
              (publish_result-Keeps c s invocation epoch null state origin))
            (λ (held, publication).
              Triple-change (after_socket-Sound invocation effects held.state_version publication)
                (taken-at c s held) (λ _ _ p. p)))

  evict_if-taken :
      (b : Bool) (actor : ActorKey) (cached : CachedActorState) (runtime : ActorRuntime Bytes)
      → IsSoundTaken c s cached runtime
      → IsSoundTaken c s cached (evict_if c s b actor runtime)
  unfolding evict
  evict_if-taken false actor cached runtime p = p
  evict_if-taken true actor cached runtime (p, k) = (
    evict-IsSound c s actor runtime p,
    IsKept-call c s (evicted actor (s.evict_actor runtime.history actor)) runtime.history cached k,
  )

  execute_socket-Sound :
      (invocation : ActorSocketInvocation) (epoch : ℕ) (cached : CachedActorState)
      (finished : Checked)
      → Triple
          (IsSoundTaken c s cached)
          (execute_socket c s invocation epoch cached finished)
          (IsSound c s)
          (λ _. IsSound c s)
  unfolding execute_socket socket_executed
  execute_socket-Sound invocation epoch cached (err e) = record { holds = λ runtime p. p.0 }
  execute_socket-Sound invocation epoch cached (ok _) =
      >>=-Triple {Q = λ _. IsSoundTaken c s cached}
        (record {
          holds = λ runtime (p, k).
              let call =
                handled_socket invocation cached.state
                  (s.handle_socket_shared runtime.history invocation cached.state) in
              (call-IsSound c s call runtime tt p, IsKept-call c s call runtime.history cached k);
        })
        (λ outcome. record {
          holds = λ runtime p.
              (commit_socket-Sound (persistence_of invocation) epoch _ cached
                  (socket_result c s outcome).0).holds
                (evict_if c s (socket_result c s outcome).1 invocation.actor runtime)
                (evict_if-taken (socket_result c s outcome).1 invocation.actor cached runtime p);
        })

  handle_socket_event-Sound :
      (invocation : ActorSocketInvocation) (epoch : ℕ)
      → Sound c s (handle_socket_event c s invocation epoch)
  unfolding handle_socket_event handle_socket_event_once
  handle_socket_event-Sound invocation epoch = >>=-Triple (authority-Sound c s) (λ _.
      >>=-Triple
        (attempt-Sound (handle_socket_event_once c s invocation epoch) (
          >>=-Triple (take_or_load_state-Takes c s invocation.actor epoch) (λ cached.
            >>=-Triple
              (holding-Sound c s (finish_pending_commit c s (persistence_of invocation)) cached
                (finish_pending_commit-Keeps c s (persistence_of invocation)))
              (λ (held, finished). execute_socket-Sound invocation epoch held finished))))
        (λ outcome. >>=-Triple (authority-Sound c s) (λ _. lift-Sound outcome)))

  serve_operation-Sound :
      (operation : ActorOperation) (epoch : ℕ) → Sound c s (serve_operation c s operation epoch)
  unfolding serve_operation
  serve_operation-Sound (activate actor) epoch =
      >>=-Triple (attempt-Sound (activate_actor c s actor) (activate_actor-Sound c s actor))
        (λ _. record { holds = λ runtime p. p })
  serve_operation-Sound (method invocation) epoch = invoke_actor-Sound invocation epoch
  serve_operation-Sound (socket invocation) epoch = handle_socket_event-Sound invocation epoch

  serve_request-Sound :
      (request : ActorRequest) (accepting : Bool) → Sound c s (serve_request c s request accepting)
  unfolding serve_request
  serve_request-Sound request accepting =
      if-Triple (not accepting && not (is_disconnect request.operation))
        (λ _. record { holds = λ runtime p. p })
        (λ _. serve_operation-Sound request.operation request.owner_epoch)

  -- Without a mailbox, however the surroundings answer and the executor behaves: after any requests,
  -- accepted or not, each state notification that was sent had the version of a snapshot that was
  -- durable before, or version 0 if a load or an activation had found the actor without a state, and
  -- the cached state is that of a durable snapshot or empty at version 0 after such a load or
  -- activation.
  pub serve_requests-IsSound :
      (requests : List (ActorRequest × Bool)) (runtime : ActorRuntime Bytes)
      (answers : List (Result ActorExecutionResult))
      → IsSound c s runtime
      → IsSound c s (serve_requests c s requests (runtime, answers)).0
  unfolding serve_requests
  serve_requests-IsSound [] runtime answers p = p
  serve_requests-IsSound ((request, accepting) ∷ requests) runtime answers p =
      serve_requests-IsSound requests (serve_request c s request accepting runtime).0 _ (
        Sound-IsSound c s (serve_request c s request accepting) runtime
          (serve_request-Sound request accepting) p)
