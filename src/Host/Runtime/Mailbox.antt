-- ===== src/Host/Runtime/Mailbox.antt =====
-- The runtime as the mailbox of an actor uses it (src/host/actor_host/admission.rs), and
-- `activate_actor` (src/host/actor_runtime.rs). What the activation answers to its caller is left out.
use little_actors.Prelude.{
  Bool, true, false, ℕ, eqb, Option, none, some, Result, ok, err, if◌then◌else◌, [], Bool,
}
use little_actors.Prelude.Action.{pure, lift}
use little_actors.Prelude.Program.{◌>>=◌, ◌>>◌}
use little_actors.Json.{Value}
use little_actors.Actor.{ActorKey}
use little_actors.Wire.{Codec}
use little_actors.Host.Admission.{Runtime}
use little_actors.Host.Runtime.{
  CachedActorState, new_cached, ActorActivation, ActorRuntime, Surroundings, ask, acquired,
  hydrated,
}
use little_actors.Host.Runtime.Invoking.{
  beside, restore, Act, authority, evict, from_loaded, invocation_of, commit_origin, is_method,
}
use little_actors.Host.Runtime.Operations.{prepare_invocation, finish_serial, commit_interleaved}

abbrev pub state_of : Option CachedActorState → Option Value
state_of none = none
state_of (some cached) = cached.state

-- `ActorRuntime::new`
unfoldable pub new_runtime : {Bytes : Type 0} → ActorRuntime Bytes
new_runtime = record { history = []; cached_state = none; activation = none }

module _ (c : Codec) (s : Surroundings c) where
  abbrev Bytes : Type 0
  Bytes = Codec.Bytes c

  -- The state that an activation recovered, the Boolean telling a version that is 0.
  unfoldable pub recovered_at : Bool → ℕ → ℕ → Option Bytes → Result CachedActorState
  unfolding new_cached from_loaded
  recovered_at true owner_epoch version state = ok (new_cached owner_epoch)
  recovered_at false owner_epoch version none = err "activation has no recovered state"
  recovered_at false owner_epoch version (some bytes) = from_loaded c s owner_epoch version bytes

  unfoldable pub recovered : ActorActivation Bytes → Result CachedActorState
  unfolding recovered_at
  recovered activation =
      recovered_at (eqb activation.state_version 0) activation.owner_epoch activation.state_version
        activation.state

  -- What is left of the activation: a state that is used is taken out of it.
  unfoldable pub fill_cache :
      ActorActivation Bytes → Option CachedActorState → Act c s (ActorActivation Bytes)
  unfolding recovered
  fill_cache activation (some cached) = pure activation
  fill_cache activation none = do
    cached ← lift (recovered activation)
    restore cached
    pure (record activation {
      state = if eqb activation.state_version 0 then activation.state else none;
    })

  abbrev pub hydrate_actor : ActorKey → Act c s (Unit {0})
  hydrate_actor actor runtime =
      let state = state_of runtime.cached_state in
      beside (ask (hydrated actor state) (λ h. s.hydrate h actor state)) runtime

  unfoldable pub activate_new : ActorKey → Act c s (Unit {0})
  unfolding fill_cache
  activate_new actor = do
    activation ← beside (ask (acquired actor) (λ h. s.acquire_actor h actor))
    left ← (λ runtime. fill_cache activation runtime.cached_state runtime)
    hydrate_actor actor
    authority c s
    (λ runtime. (record runtime { activation = some left }, ok tt))

  unfoldable pub activate_once : ActorKey → Option (ActorActivation Bytes) → Act c s (Unit {0})
  unfolding activate_new
  activate_once actor (some activation) = pure tt
  activate_once actor none = activate_new actor

  unfoldable pub activate_actor : ActorKey → Act c s (Unit {0})
  unfolding activate_once
  activate_actor actor = do
    authority c s
    (λ runtime. activate_once actor runtime.activation runtime)

  -- `ActorRuntime` as it is called by `Mailbox`.
  abbrev pub actor_runtime : Runtime
  actor_runtime = record {
    State = ActorRuntime Bytes;
    prepare_invocation = λ runtime request.
        prepare_invocation c s (invocation_of request.operation) request.owner_epoch
          (is_method request.operation) runtime;
    activate_actor = λ runtime actor. activate_actor actor runtime;
    finish_serial = λ runtime request outcome.
        finish_serial c s (invocation_of request.operation) request.owner_epoch outcome
          (commit_origin request.operation) runtime;
    commit_interleaved = λ runtime request outcome.
        commit_interleaved c s (invocation_of request.operation) request.owner_epoch outcome
          (commit_origin request.operation) runtime;
    evict = λ runtime actor. evict c s actor runtime;
  }
