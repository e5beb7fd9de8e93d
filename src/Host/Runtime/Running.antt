-- ===== src/Host/Runtime/Running.antt =====
-- A run of an actor's mailbox, and what is durable (src/host/actor_runtime.rs,
-- src/host/actor_host/admission.rs).
use little_actors.Prelude.{
  ℕ, ◌≡◌, refl, inl, Bool, true, false, Option, none, some, List, ◌∷◌, eqb, Result, ok, err, subst,
  ok-injective, eqb_iff,
}
use little_actors.Prelude.Program.{Triple, After, >>=-Triple, >>=-lift-Triple}
use little_actors.Actor.{ActorKey}
use little_actors.Wire.{Codec}
use little_actors.Host.Admission.{new_mailbox, Event, run}
use little_actors.Host.Admission.Preserving.{Preserves, run-P}
use little_actors.Host.Runtime.{
  CachedActorState, new_cached, ActorActivation, acquired, hydrated, History, ActorRuntime,
  Surroundings, ask,
}
use little_actors.Host.Runtime.Invoking.{beside, Act, invocation_of, commit_origin, is_method}
use little_actors.Host.Runtime.Mailbox.{
  recovered_at, recovered, fill_cache, activate_new, activate_once, activate_actor, actor_runtime,
  state_of, new_runtime,
}
use little_actors.Host.Runtime.Confirming.{IsFoundEmpty-first, IsKept, IsSound, IsAnnouncing}
use little_actors.Host.Runtime.Keeping.{
  Sound, call-IsSound, beside-Sound, authority-Sound, from_loaded-IsFrom, loaded-IsKept,
}
use little_actors.Host.Runtime.Soundness.{
  prepare_invocation-Sound, evict-IsSound, finish_serial-Sound, commit_interleaved-Sound,
}

module _ (c : Codec) (s : Surroundings c) where
  abbrev Bytes : Type 0
  Bytes = Codec.Bytes c

  recovered_at-IsKept :
      (b : Bool) (epoch version : ℕ) (state : Option Bytes) (actor : ActorKey)
      (activation : ActorActivation Bytes) (history : History Bytes) (cached : CachedActorState)
      → eqb activation.state_version 0 ≡ b
      → activation.state ≡ state
      → recovered_at c s b epoch version state ≡ ok cached
      → IsKept c s (acquired actor (ok activation) ∷ history) cached
  unfolding recovered_at new_cached
  recovered_at-IsKept true epoch version state actor activation history cached z e h =
      subst (IsKept c s (acquired actor (ok activation) ∷ history)) (ok-injective h) (
        inl (
          refl,
          refl,
          IsFoundEmpty-first c s _ history ((eqb_iff activation.state_version 0).0 z),
        ),
        tt,
      )
  recovered_at-IsKept false epoch version none actor activation history cached z e h = absurd cc
  recovered_at-IsKept false epoch version (some bytes) actor activation history cached z e h =
      let (snapshot, d, from, none_pending) = from_loaded-IsFrom c s epoch version bytes h in
      loaded-IsKept c s (acquired actor (ok activation)) history snapshot cached (bytes, e, d) from
        none_pending

  -- Sound, just after the activation was acquired.
  abbrev IsAcquired : ActorActivation Bytes → ActorRuntime Bytes → Type 0
  IsAcquired activation runtime =
      IsSound c s runtime
      × ((cached : CachedActorState)
          → recovered c s activation ≡ ok cached
          → IsKept c s runtime.history cached)

  acquire-IsAcquired :
      (actor : ActorKey)
      → Triple
          (IsSound c s)
          (beside (ask (acquired actor) (λ h. s.acquire_actor h actor)))
          (IsSound c s)
          IsAcquired
  unfolding recovered
  acquire-IsAcquired actor = record {
    holds = λ runtime p.
        answered runtime (s.acquire_actor runtime.history actor)
          (call-IsSound c s (acquired actor (s.acquire_actor runtime.history actor)) runtime tt p);
  }
    where
      answered :
          (runtime : ActorRuntime Bytes) (r : Result (ActorActivation Bytes))
          → IsSound c s (record runtime { history = acquired actor r ∷ runtime.history })
          → After
              (IsSound c s)
              IsAcquired
              (record runtime { history = acquired actor r ∷ runtime.history })
              r
      answered runtime (ok activation) p = (
        p,
        λ cached h.
            recovered_at-IsKept (eqb activation.state_version 0) activation.owner_epoch
              activation.state_version activation.state actor activation runtime.history cached refl
              refl h,
      )
      answered runtime (err e) p = p

  fill_cache-Sound :
      (activation : ActorActivation Bytes) (cached : Option CachedActorState)
      → Triple
          (IsAcquired activation)
          (fill_cache c s activation cached)
          (IsSound c s)
          (λ _. IsSound c s)
  unfolding fill_cache
  fill_cache-Sound activation (some cached) = record { holds = λ runtime p. p.0 }
  fill_cache-Sound activation none =
      >>=-lift-Triple (recovered c s activation) (λ _ p. p.0)
        (λ cached e.
          >>=-Triple {Q = λ _. IsSound c s}
            (record { holds = λ runtime ((a, k), f). (a, f cached e) })
            (λ _. record { holds = λ runtime p. p }))

  activate_new-Sound : (actor : ActorKey) → Sound c s (activate_new c s actor)
  unfolding activate_new
  activate_new-Sound actor = >>=-Triple (acquire-IsAcquired actor) (λ activation.
      >>=-Triple
        (record {
          holds = λ runtime. (fill_cache-Sound activation runtime.cached_state).holds runtime;
        })
        (λ left.
          >>=-Triple
            (record {
              holds = λ runtime.
                  (beside-Sound c s (hydrated actor (state_of runtime.cached_state))
                      (λ h. s.hydrate h actor (state_of runtime.cached_state)) (λ r h. tt)).holds
                    runtime;
            })
            (λ _. >>=-Triple (authority-Sound c s) (λ _. record { holds = λ runtime p. p }))))

  activate_once-Sound :
      (actor : ActorKey) (activation : Option (ActorActivation Bytes))
      → Sound c s (activate_once c s actor activation)
  unfolding activate_once
  activate_once-Sound actor (some activation) = record { holds = λ runtime p. p }
  activate_once-Sound actor none = activate_new-Sound actor

  pub activate_actor-Sound : (actor : ActorKey) → Sound c s (activate_actor c s actor)
  unfolding activate_actor
  activate_actor-Sound actor = >>=-Triple (authority-Sound c s) (λ _. record {
    holds = λ runtime. (activate_once-Sound actor runtime.activation).holds runtime;
  })

  -- An operation that is sound leaves a sound state, whether it succeeded or failed.
  pub Sound-IsSound :
      {A : Type 0} (m : Act c s A) (runtime : ActorRuntime Bytes)
      → Sound c s m
      → IsSound c s runtime
      → IsSound c s (m runtime).0
  Sound-IsSound m runtime t p = both_ends (m runtime).0 (m runtime).1 (t.holds runtime p)
    where
      both_ends :
          {A : Type 0} (runtime : ActorRuntime Bytes) (r : Result A)
          → After (IsSound c s) (λ _. IsSound c s) runtime r
          → IsSound c s runtime
      both_ends runtime (ok a) h = h
      both_ends runtime (err e) h = h

  actor_runtime-Preserves : Preserves (actor_runtime c s) (IsSound c s)
  actor_runtime-Preserves = record {
    by_prepare = λ runtime request. Sound-IsSound _ runtime (
        prepare_invocation-Sound c s (invocation_of request.operation) request.owner_epoch
          (is_method request.operation));
    by_activate = λ runtime actor. Sound-IsSound _ runtime (activate_actor-Sound actor);
    by_finish = λ runtime request outcome. Sound-IsSound _ runtime (
        finish_serial-Sound c s (invocation_of request.operation) request.owner_epoch outcome
          (commit_origin request.operation));
    by_commit = λ runtime request outcome. Sound-IsSound _ runtime (
        commit_interleaved-Sound c s (invocation_of request.operation) request.owner_epoch outcome
          (commit_origin request.operation));
    by_evict = λ runtime actor. evict-IsSound c s actor runtime;
  }

  -- However the surroundings answer, and whatever happens to the mailbox of an actor: each state
  -- notification that was sent had the version of a snapshot that a write had confirmed, or a load
  -- had given, before it was sent, or version 0 if a load or an activation had found the actor without
  -- a state; the cached state is that of such a snapshot, with its version, request and result, or is
  -- empty at version 0 after such a load or activation; and a pending commit that is marked as durable
  -- is confirmed.
  pub run-IsSound :
      (events : List Event)
      → IsSound c s (run (actor_runtime c s) events (new_mailbox new_runtime)).runtime
  unfolding new_mailbox new_runtime IsAnnouncing
  run-IsSound events =
      run-P (actor_runtime c s) (IsSound c s) actor_runtime-Preserves events
        (new_mailbox new_runtime) (tt, tt)
