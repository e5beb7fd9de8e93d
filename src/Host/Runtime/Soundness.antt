-- ===== src/Host/Runtime/Soundness.antt =====
-- Every operation of an actor's runtime, and what is durable (src/host/actor_runtime.rs,
-- src/host/actor_host/admission.rs).
use little_actors.Prelude.{
  ℕ, ◌≡◌, refl, inl, Bool, true, false, Option, none, some, List, [], ◌∷◌, eqb, Result, ok, err,
  ensure, context, subst, >>=-eq-ok, ok-injective, String, eqb_iff,
}
use little_actors.Prelude.Action.{Action, pure, lift, continue}
use little_actors.Prelude.Program.{
  ◌>>=◌, Triple, After, >>=-Triple, >>=-lift-Triple, Triple-change, if-Triple,
}
use little_actors.Json.{Value}
use little_actors.Actor.{ActorKey}
use little_actors.Actor.Outcome.{
  ActorInvocation, ActorExecutionResult, completed, failed, reroute, host_unavailable,
  ActorMethodOutcome, ActorInterleavedOutcome,
}
use little_actors.Sockets.{ActorSocketEffect}
use little_actors.Sockets.Validation.{validate_socket_effects}
use little_actors.Wire.{Codec}
use little_actors.Host.Runtime.{
  CommitOrigin, CachedActorState, new_cached, loaded, evicted, ActorRuntime, Held, Surroundings,
}
use little_actors.Host.Runtime.Publishing.{finish_pending_commit, publish_result}
use little_actors.Host.Runtime.Invoking.{
  holding, restore, Act, evict, cached_from, load_state, load_answer, state_or_load,
  take_or_load_state, load_answer,
}
use little_actors.Host.Runtime.Operations.{
  Executed, done, refused, prepare_invocation, method_result, evict_if, is_state, after_publish,
  finish_cached, finish_method, finish_serial, publish_change, commit_interleaved,
}
use little_actors.Host.Runtime.Confirming.{
  IsFoundEmpty-first, IsKept, IsKeptIn, IsSound, IsSoundHeld, IsBacked-IsDurable, IsAnnouncing,
}
use little_actors.Host.Runtime.Pending.{Keeps, finish_pending_commit-Keeps}
use little_actors.Host.Runtime.Published.{publish_result-Keeps}
use little_actors.Host.Runtime.Keeping.{
  IsSoundTaken, IsSoundAt, Sound, call-IsSound, authority-Sound, complete_with_state-Sound,
  take_cached-Sound, from_loaded-IsFrom, loaded-IsKept,
}

module _ (c : Codec) (s : Surroundings c) where
  abbrev Bytes : Type 0
  Bytes = Codec.Bytes c

  -- Taking gives a cached state.
  abbrev pub Takes : Act c s CachedActorState → (ActorRuntime Bytes → Type 0) → Type 0
  Takes m P = Triple P m (IsSound c s) (IsSoundTaken c s)

  cached_from-IsKept :
      (b : Bool) (actor : ActorKey) (epoch version : ℕ) (bytes : Bytes)
      (runtime : ActorRuntime Bytes)
      → eqb version 0 ≡ b
      → IsSound c s
          (record runtime { history = loaded actor epoch (ok (version, bytes)) ∷ runtime.history })
      → (r : Result CachedActorState) → cached_from c s b epoch version bytes ≡ r
      → After
          (IsSound c s)
          (IsSoundTaken c s)
          (record runtime { history = loaded actor epoch (ok (version, bytes)) ∷ runtime.history })
          r
  unfolding cached_from new_cached
  cached_from-IsKept b actor epoch version bytes runtime z p (err e) h = p
  cached_from-IsKept true actor epoch version bytes runtime z p (ok cached) h =
      let (_, _, e) = >>=-eq-ok (ensure (eqb (c.len bytes) 0) _) _ h in
      (
        p,
        subst (IsKept c s (loaded actor epoch (ok (version, bytes)) ∷ runtime.history))
            (ok-injective e)
            (
              inl (refl, refl, IsFoundEmpty-first c s _ runtime.history ((eqb_iff version 0).0 z)),
              tt,
            ),
      )
  cached_from-IsKept false actor epoch version bytes runtime z p (ok cached) h =
      let (snapshot, e, from, none_pending) = from_loaded-IsFrom c s epoch version bytes h in
      (
        p,
        loaded-IsKept c s (loaded actor epoch (ok (version, bytes))) runtime.history snapshot cached
            e from none_pending,
      )

  load_state-Takes :
      (actor : ActorKey) (epoch : ℕ) → Takes (load_state c s actor epoch) (IsSound c s)
  unfolding load_state ◌>>=◌
  load_state-Takes actor epoch = record {
    holds = λ runtime p. answered runtime (s.load_actor_state runtime.history actor epoch) (
        call-IsSound c s (loaded actor epoch (s.load_actor_state runtime.history actor epoch))
          runtime tt p);
  }
    where
      answered :
          (runtime : ActorRuntime Bytes) (r : Result (ℕ × Bytes))
          → IsSound c s (record runtime { history = loaded actor epoch r ∷ runtime.history })
          → After
              (IsSound c s)
              (IsSoundTaken c s)
              (continue
                (load_answer c s epoch)
                (record runtime { history = loaded actor epoch r ∷ runtime.history })
                r).0
              (continue
                (load_answer c s epoch)
                (record runtime { history = loaded actor epoch r ∷ runtime.history })
                r).1
      answered runtime (ok (version, bytes)) p =
          cached_from-IsKept (eqb version 0) actor epoch version bytes runtime refl p _ refl
      answered runtime (err e) p = p

  state_or_load-Takes :
      (actor : ActorKey) (epoch : ℕ) (taken : Option CachedActorState)
      → Takes
          (state_or_load c s actor epoch taken)
          (λ runtime. IsSound c s runtime × IsKeptIn c s runtime.history taken)
  unfolding state_or_load
  state_or_load-Takes actor epoch none =
      Triple-change (load_state-Takes actor epoch) (λ runtime p. p.0) (λ _ _ p. p)
  state_or_load-Takes actor epoch (some cached) =
      if-Triple (eqb cached.owner_epoch epoch) (λ _. record { holds = λ runtime p. p })
        (λ _. Triple-change (load_state-Takes actor epoch) (λ runtime p. p.0) (λ _ _ p. p))

  pub take_or_load_state-Takes :
      (actor : ActorKey) (epoch : ℕ) → Takes (take_or_load_state c s actor epoch) (IsSound c s)
  unfolding take_or_load_state
  take_or_load_state-Takes actor epoch =
      >>=-Triple (take_cached-Sound c s) (state_or_load-Takes actor epoch)

  -- A commit on a taken state gives one back, whatever it comes to.
  pub holding-Sound :
      {A : Type 0} (commit : Action (Held Bytes) A) (cached : CachedActorState)
      → Keeps c s commit
      → Triple
          (IsSoundTaken c s cached)
          (holding commit cached)
          (IsSound c s)
          (λ (held, result) runtime. IsSoundTaken c s held runtime)
  holding-Sound commit cached keeps = record {
    holds = λ runtime ((a, _), k).
        both_ends (commit (record { history = runtime.history; cached = cached })).0
          (commit (record { history = runtime.history; cached = cached })).1
          (keeps.holds (record { history = runtime.history; cached = cached }) (a, k));
  }
    where
      both_ends :
          {A : Type 0} (held : Held Bytes) (r : Result A)
          → After (IsSoundHeld c s) (λ _. IsSoundHeld c s) held r
          → (IsAnnouncing c s held.history × IsKept c s held.history held.cached)
            × IsKept c s held.history held.cached
      both_ends held (ok a) (h, k) = ((h, k), k)
      both_ends held (err e) (h, k) = ((h, k), k)

  pub prepare_invocation-Sound :
      (invocation : ActorInvocation) (epoch : ℕ) (replays : Bool)
      → Sound c s (prepare_invocation c s invocation epoch replays)
  unfolding prepare_invocation
  prepare_invocation-Sound invocation epoch replays = >>=-Triple (authority-Sound c s) (λ _.
      >>=-Triple (take_or_load_state-Takes invocation.actor epoch) (λ cached.
        >>=-Triple
          (holding-Sound (finish_pending_commit c s invocation) cached
            (finish_pending_commit-Keeps c s invocation))
          (λ _. record { holds = λ runtime p. p.0 })))

  pub evict-IsSound :
      (actor : ActorKey) (runtime : ActorRuntime Bytes)
      → IsSound c s runtime
      → IsSound c s (evict c s actor runtime)
  unfolding evict
  evict-IsSound actor runtime p =
      call-IsSound c s (evicted actor (s.evict_actor runtime.history actor)) runtime tt p

  -- The version of a state that was put back.
  pub taken-at :
      (cached : CachedActorState) (runtime : ActorRuntime Bytes)
      → IsSoundTaken c s cached runtime
      → IsSoundAt c s cached.state_version runtime
  taken-at cached runtime (p, k) = (p, IsBacked-IsDurable c s runtime.history cached k.0)

  after_publish-Sound :
      (invocation : ActorInvocation) (effects : List ActorSocketEffect) (version : ℕ)
      (published : Result ActorExecutionResult)
      → Triple
          (IsSoundAt c s version)
          (after_publish c s invocation effects version published)
          (IsSound c s)
          (λ _. IsSound c s)
  unfolding after_publish
  after_publish-Sound invocation effects version (ok (completed result sent)) =
      complete_with_state-Sound c s invocation.actor version result effects
  after_publish-Sound invocation effects version (ok (failed failure)) = record {
    holds = λ runtime p. p.0;
  }
  after_publish-Sound invocation effects version (ok reroute) = record { holds = λ runtime p. p.0 }
  after_publish-Sound invocation effects version (ok host_unavailable) = record {
    holds = λ runtime p. p.0;
  }
  after_publish-Sound invocation effects version (err e) = record {
    holds = λ runtime p. evict-IsSound invocation.actor runtime p.0;
  }

  pub restore-Sound :
      (cached : CachedActorState)
      → Triple
          (IsSoundTaken c s cached)
          (restore cached)
          (IsSound c s)
          (λ _. IsSoundTaken c s cached)
  restore-Sound cached = record { holds = λ runtime ((a, _), k). ((a, k), k) }

  finish_cached-Sound :
      (invocation : ActorInvocation) (epoch : ℕ) (origin : CommitOrigin) (result state : Value)
      (effects : List ActorSocketEffect) (cached : CachedActorState)
      → Triple
          (IsSoundTaken c s cached)
          (finish_cached c s invocation epoch origin result state effects cached)
          (IsSound c s)
          (λ _. IsSound c s)
  unfolding finish_cached
  finish_cached-Sound invocation epoch origin result state effects cached =
      if-Triple (is_state c s cached.state state)
        (λ _. >>=-Triple (restore-Sound cached) (λ _.
          Triple-change
            (complete_with_state-Sound c s invocation.actor cached.state_version result effects)
            (taken-at cached) (λ _ _ p. p)))
        (λ _.
          >>=-Triple
            (holding-Sound (publish_result c s invocation epoch result state origin) cached
              (publish_result-Keeps c s invocation epoch result state origin))
            (λ (held, published).
              Triple-change (after_publish-Sound invocation effects held.state_version published)
                (taken-at held) (λ _ _ p. p)))

  -- A cached state that must be there.
  context-IsKept :
      {A : Type 0} {f : CachedActorState → Act c s A} (taken : Option CachedActorState) (e : String)
      → ((cached : CachedActorState)
          → Triple (IsSoundTaken c s cached) (f cached) (IsSound c s) (λ _. IsSound c s))
      → Triple
          (λ runtime. IsSound c s runtime × IsKeptIn c s runtime.history taken)
          (lift (context taken e) >>= f)
          (IsSound c s)
          (λ _. IsSound c s)
  unfolding ◌>>=◌
  context-IsKept none e next = record { holds = λ runtime p. p.0 }
  context-IsKept (some cached) e next = record {
    holds = λ runtime p. (next cached).holds runtime p;
  }

  finish_method-Sound :
      (invocation : ActorInvocation) (epoch : ℕ) (origin : CommitOrigin) (executed : Executed)
      → Sound c s (finish_method c s invocation epoch origin executed)
  unfolding finish_method
  finish_method-Sound invocation epoch origin (refused result) = record { holds = λ runtime p. p }
  finish_method-Sound invocation epoch origin (done result state effects) =
      >>=-Triple (take_cached-Sound c s) (λ taken.
        context-IsKept taken _ (finish_cached-Sound invocation epoch origin result state effects))

  pub evict_if-IsSound :
      (b : Bool) (actor : ActorKey) (runtime : ActorRuntime Bytes)
      → IsSound c s runtime
      → IsSound c s (evict_if c s b actor runtime)
  evict_if-IsSound true actor runtime p = evict-IsSound actor runtime p
  evict_if-IsSound false actor runtime p = p

  pub finish_serial-Sound :
      (invocation : ActorInvocation) (epoch : ℕ) (outcome : Result ActorMethodOutcome)
      (origin : CommitOrigin)
      → Sound c s (finish_serial c s invocation epoch outcome origin)
  unfolding finish_serial
  finish_serial-Sound invocation epoch outcome origin = record {
    holds = λ runtime p.
        (finish_method-Sound invocation epoch origin (method_result c s outcome).0).holds
          (evict_if c s (method_result c s outcome).1 invocation.actor runtime)
          (evict_if-IsSound (method_result c s outcome).1 invocation.actor runtime p);
  }

  publish_change-Sound :
      (invocation : ActorInvocation) (epoch : ℕ) (origin : CommitOrigin)
      (outcome : ActorInterleavedOutcome) (cached : CachedActorState)
      → Triple
          (IsSoundTaken c s cached)
          (publish_change c s invocation epoch origin outcome cached)
          (IsSound c s)
          (λ (held, result). IsSoundTaken c s held)
  unfolding publish_change
  publish_change-Sound invocation epoch origin outcome cached =
      if-Triple (is_state c s cached.state outcome.state)
        (λ _.
          holding-Sound (pure (completed outcome.result [])) cached
            (record { holds = λ held p. p }))
        (λ _.
          holding-Sound
            (publish_result c s invocation epoch outcome.result outcome.state
              (record origin { interleaved = true }))
            cached
            (publish_result-Keeps c s invocation epoch outcome.result outcome.state
              (record origin { interleaved = true })))

  pub commit_interleaved-Sound :
      (invocation : ActorInvocation) (epoch : ℕ) (outcome : ActorInterleavedOutcome)
      (origin : CommitOrigin)
      → Sound c s (commit_interleaved c s invocation epoch outcome origin)
  unfolding commit_interleaved
  commit_interleaved-Sound invocation epoch outcome origin = >>=-Triple (authority-Sound c s) (λ _.
      >>=-lift-Triple (validate_socket_effects s.encoders outcome.effects) (λ _ p. p)
        (λ _ _. >>=-Triple (take_cached-Sound c s) (λ taken. context-IsKept taken _ (λ cached.
          >>=-lift-Triple (ensure (eqb cached.owner_epoch epoch) _) (λ _ p. p.0)
            (λ _ _.
              >>=-Triple (publish_change-Sound invocation epoch origin outcome cached)
                (λ (held, published).
                  >>=-lift-Triple published (λ _ p. p.0)
                    (λ _ _.
                      Triple-change
                        (complete_with_state-Sound c s invocation.actor held.state_version
                          outcome.result outcome.effects)
                        (taken-at held) (λ _ _ p. p))))))))
