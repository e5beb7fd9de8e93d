-- ===== src/Host/Runtime/Replaying.antt =====
-- A request that comes again (src/host/actor_runtime.rs).
use little_actors.Prelude.{
  ◌∷◌, ℕ, ◌≡◌, refl, sym, ◌∙◌, inl, inr, ◌+◌, true, false, Option, none, some, List, [], ==_refl,
  Result, ok, err, Checked, subst, String, Result-cases, eqb_iff,
}
use little_actors.Prelude.Text.{text_eq, text}
use little_actors.Prelude.Program.{◌>>=◌, Triple, After, >>=-Triple, if-Triple}
use little_actors.Json.{Value}
use little_actors.Actor.Outcome.{ActorInvocation, ActorExecutionResult, completed, returned}
use little_actors.Sockets.{ActorSocketEffect}
use little_actors.Sockets.Validation.{validate_socket_effects}
use little_actors.Wire.{Codec}
use little_actors.Host.Admission.{PreparedInvocation, answered}
use little_actors.Host.Runtime.{
  PendingStateCommit, CommitOrigin, CachedActorState, checked_authority, ActorRuntime, Held,
  Surroundings,
}
use little_actors.Host.Runtime.Publishing.{finish_pending, finish_pending_commit, publish_result}
use little_actors.Host.Runtime.Invoking.{
  holding, evict, state_or_load, take_or_load_state, replay_of, replay, answer_or_execute,
}
use little_actors.Host.Runtime.Operations.{
  done, prepared_with, prepare_invocation, method_result, is_state, finish_cached, finish_method,
  finish_serial, actor_error,
}
use little_actors.Host.Runtime.Committed.{IsCommitted, publish_result-IsCommitted}
use little_actors.Host.Runtime.Acknowledging.{
  Anyhow, IsCommittedNow, Remembers, IsAcknowledged, IsPublished, after_publish-IsAcknowledged,
}

module _ (c : Codec) (s : Surroundings c) where
  abbrev Bytes : Type 0
  Bytes = Codec.Bytes c

  module _ (epoch version : ℕ) (invocation : ActorInvocation) (state result : Value) where
    abbrev IsNow : CachedActorState → Type 0
    IsNow = IsCommittedNow c s epoch version invocation state result

    -- The cached state that the runtime has.
    abbrev Has : CachedActorState → ActorRuntime Bytes → Type 0
    Has cached runtime = runtime.cached_state ≡ some cached

    -- Nothing is pending, so that nothing is to be finished.
    finish_nothing :
        (owner : ℕ) (pending : Option PendingStateCommit) (held : Held Bytes)
        → pending ≡ none
        → finish_pending c s invocation owner pending held ≡ (held, ok tt)
    unfolding finish_pending
    finish_nothing owner none held e = refl
    finish_nothing owner (some pending) held e = absurd cc

    -- The result is answered if the authority is confirmed.
    abbrev answer_after : Checked → Result PreparedInvocation
    answer_after (ok _) = ok (answered (completed result []))
    answer_after (err e) = err e

    -- The request was answered, or refused, and nothing else was asked for or changed.
    abbrev pub IsRepeated : ActorRuntime Bytes → Type 0
    IsRepeated runtime = prepare_invocation c s invocation epoch true runtime ≡ (
      record runtime {
        history = checked_authority (s.ensure_authority runtime.history) ∷ runtime.history;
      },
      answer_after (s.ensure_authority runtime.history),
    )

    taken-same :
        (k : CachedActorState) (runtime : ActorRuntime Bytes)
        → IsNow k
        → take_or_load_state c s invocation.actor epoch (record runtime { cached_state = some k })
          ≡ (record runtime { cached_state = none }, ok k)
    unfolding take_or_load_state state_or_load ◌>>=◌
    taken-same k runtime q = rw ((eqb_iff k.owner_epoch epoch).1 q.epoch_is) refl

    prepared_with-result :
        (k : CachedActorState)
        → IsNow k
        → prepared_with c s invocation true k (ok tt) ≡ answered (completed result [])
    unfolding prepared_with answer_or_execute replay replay_of
    prepared_with-result k q = rw (q.request_is, q.result_is, ==_refl invocation.request_id) refl

    repeats :
        (k : CachedActorState) (runtime : ActorRuntime Bytes)
        → IsNow k
        → IsRepeated (record runtime { cached_state = some k })
    unfolding prepare_invocation finish_pending_commit ◌>>=◌
    repeats k runtime q = elim (Result-cases (s.ensure_authority runtime.history)) [
      | inl (_, e) ↦
          let checked : ActorRuntime Bytes = record runtime {
            history = checked_authority (ok tt) ∷ runtime.history;
          } in
          rw (e, taken-same k checked q)
            (rw
              (finish_nothing k.owner_epoch k.pending
                (record { history = checked.history; cached = k }) q.pending_is)
              (rw (prepared_with-result k q) refl))
      | inr (m, e) ↦ rw e refl
    ]

  module _ (epoch version : ℕ) (invocation : ActorInvocation) (state result : Value)
      (effects : List ActorSocketEffect) (origin : CommitOrigin) (cached : CachedActorState) where
    abbrev StartsAt : Type 0
    StartsAt =
        (cached.owner_epoch ≡ epoch)
        × (cached.state_version ≡ version)
        × (is_state c s cached.state state ≡ false)

    holding-IsPublished :
        StartsAt
        → Triple
            (Anyhow c s)
            (holding (publish_result c s invocation epoch result state origin) cached)
            (Anyhow c s)
            (λ (held, r). IsPublished c s epoch (version + 1) invocation state result r)
    holding-IsPublished (p, v, _) = record {
      holds = λ runtime _.
          left runtime
            (publish_result c s invocation epoch result state origin
              (record { history = runtime.history; cached = cached })).0
            (publish_result c s invocation epoch result state origin
              (record { history = runtime.history; cached = cached })).1
            ((publish_result-IsCommitted c s epoch invocation epoch result state origin
                version).holds
              (record { history = runtime.history; cached = cached }) (p, v));
    }
      where
        left :
            (runtime : ActorRuntime Bytes) (held : Held Bytes) (r : Result ActorExecutionResult)
            → After
                (λ _. Unit)
                (λ answer held'.
                  IsCommitted epoch (version + 1) invocation.request_id state result held'.cached
                  × (answer ≡ completed result []))
                held
                r
            → IsPublished c s epoch
                (version + 1)
                invocation
                state
                result
                r
                (record runtime { history = held.history; cached_state = some held.cached })
        left runtime held (ok answer) (q, e) = (e, (held.cached, refl, q))
        left runtime held (err e) h = tt

    finish_cached-IsAcknowledged :
        StartsAt
        → Triple
            (Anyhow c s)
            (finish_cached c s invocation epoch origin result state effects cached)
            (Anyhow c s)
            (IsAcknowledged c s epoch (version + 1) invocation state result)
    unfolding finish_cached
    finish_cached-IsAcknowledged (p, v, changed) =
        if-Triple (is_state c s cached.state state)
          (λ same. absurd (let q : true ≡ false = sym same ∙ changed in cc))
          (λ _. >>=-Triple (holding-IsPublished (p, v, changed)) (λ (held, publication).
            after_publish-IsAcknowledged c s epoch (version + 1) invocation state result
              held.state_version effects publication))

    finish_method-IsAcknowledged :
        StartsAt
        → Triple
            (λ runtime. runtime.cached_state ≡ some cached)
            (finish_method c s invocation epoch origin (done result state effects))
            (Anyhow c s)
            (IsAcknowledged c s epoch (version + 1) invocation state result)
    unfolding finish_method ◌>>=◌
    finish_method-IsAcknowledged starts = record {
      holds = λ runtime e.
          rw e (
            (finish_cached-IsAcknowledged starts).holds (record runtime { cached_state = none })
              tt);
    }

    finish_serial-valid :
        (runtime : ActorRuntime Bytes)
        → validate_socket_effects s.encoders effects ≡ ok tt
        → finish_serial c s invocation epoch (ok (returned result state effects)) origin runtime
          ≡ finish_method c s invocation epoch origin (done result state effects) runtime
    unfolding finish_serial method_result
    finish_serial-valid runtime e = rw (method_result, e) refl

    -- Effects that are not valid are refused.
    finish_serial-invalid :
        (runtime : ActorRuntime Bytes) (m : String)
        → validate_socket_effects s.encoders effects ≡ err m
        → finish_serial c s invocation epoch (ok (returned result state effects)) origin runtime ≡ (
          evict c s invocation.actor runtime,
          ok (actor_error (text "actor returned invalid socket effects")),
        )
    unfolding finish_serial method_result finish_method
    finish_serial-invalid runtime m e = rw (method_result, e) refl

    finish_serial-acknowledges :
        (runtime after : ActorRuntime Bytes) (answer : Value) (sent : List ActorSocketEffect)
        → StartsAt
        → runtime.cached_state ≡ some cached
        → finish_serial c s invocation epoch (ok (returned result state effects)) origin runtime
          ≡ (after, ok (completed answer sent))
        → IsAcknowledged c s epoch
            (version + 1)
            invocation
            state
            result
            (completed answer sent)
            after
    finish_serial-acknowledges runtime after answer sent starts e h =
        elim (Result-cases (validate_socket_effects s.encoders effects)) [
          | inl (_, valid) ↦
              subst
                (λ (p : ActorRuntime Bytes × Result ActorExecutionResult).
                  After (Anyhow c s)
                    (IsAcknowledged c s epoch (version + 1) invocation state result) p.0 p.1)
                (sym (finish_serial-valid runtime valid) ∙ h)
                ((finish_method-IsAcknowledged starts).holds runtime e)
          | inr (m, invalid) ↦
              absurd (let h' = sym (finish_serial-invalid runtime m invalid) ∙ h in cc)
        ]

    -- Let an actor's method return a state that is not the cached one, at the epoch and the version
    -- of the cached state. If the invocation is answered as completed, the answer is the result of
    -- the method, the cached state is the new one at the next version, and the same request, if it
    -- comes again right then, asks for nothing but the authority: if that is confirmed it is answered
    -- with the result instead of being executed, otherwise it is refused, and the cached state stays
    -- as it is either way.
    pub finish_serial-replays :
        (runtime after : ActorRuntime Bytes) (answer : Value) (sent : List ActorSocketEffect)
        → StartsAt
        → runtime.cached_state ≡ some cached
        → finish_serial c s invocation epoch (ok (returned result state effects)) origin runtime
          ≡ (after, ok (completed answer sent))
        → (answer ≡ result)
          × Remembers c s epoch (version + 1) invocation state result after.cached_state
          × IsRepeated epoch (version + 1) invocation state result after
    finish_serial-replays runtime after answer sent starts e h =
        let (same, (k, has, q)) = finish_serial-acknowledges runtime after answer sent starts e h in
        (
          same,
          (k, has, q),
          subst
              (λ (o : Option CachedActorState).
                IsRepeated epoch (version + 1) invocation state result
                  (record after { cached_state = o }))
              (sym has) (repeats epoch (version + 1) invocation state result k after q),
        )
