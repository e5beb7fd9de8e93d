-- ===== src/Host/Runtime/Acknowledging.antt =====
-- What an acknowledgement tells of the cached state (src/host/actor_runtime.rs).
use little_actors.Prelude.{
  ℕ, ◌≡◌, refl, sym, inl, inr, Option, some, List, [], ◌∷◌, Result, ok, err, Checked, Bool-cases,
  subst,
}
use little_actors.Prelude.Text.{text_eq}
use little_actors.Prelude.Program.{Triple, After, >>=-Triple}
use little_actors.Json.{Value}
use little_actors.Actor.Outcome.{
  ActorInvocation, ActorExecutionResult, completed, failed, reroute, host_unavailable,
}
use little_actors.Sockets.{ActorSocketEffect}
use little_actors.Wire.{Codec}
use little_actors.Host.Runtime.{
  CachedActorState, Call, checked_authority, published, ActorRuntime, History, Surroundings, ask,
}
use little_actors.Host.Runtime.Invoking.{beside, automatic, is_nil}
use little_actors.Host.Runtime.Operations.{
  announce, answer_sent, complete_with_state, after_publish,
}
use little_actors.Host.Runtime.Committed.{IsCommitted}

module _ (c : Codec) (s : Surroundings c) where
  abbrev Bytes : Type 0
  Bytes = Codec.Bytes c

  abbrev pub Anyhow : ActorRuntime Bytes → Type 0
  Anyhow runtime = Unit

  After-any :
      {A : Type 0} (P : ActorRuntime Bytes → Type 0) (runtime : ActorRuntime Bytes) (r : Result A)
      → P runtime
      → After Anyhow (λ _. P) runtime r
  After-any P runtime (ok a) p = p
  After-any P runtime (err e) p = tt

  -- A call leaves the cached state.
  pub beside-cached :
      {A : Type 0} (P : Option CachedActorState → Type 0) (entry : Result A → Call Bytes)
      (answer : History Bytes → Result A)
      → Triple
          (λ runtime. P runtime.cached_state)
          (beside (ask entry answer))
          Anyhow
          (λ _ runtime. P runtime.cached_state)
  beside-cached P entry answer = record {
    holds = λ runtime p.
        After-any (λ t. P t.cached_state)
          (record runtime { history = entry (answer runtime.history) ∷ runtime.history })
          (answer runtime.history) p;
  }

  module _ (epoch version : ℕ) (invocation : ActorInvocation) (state result : Value) where
    abbrev pub IsCommittedNow : CachedActorState → Type 0
    IsCommittedNow cached = IsCommitted epoch version invocation.request_id state result cached

    -- The cached state of a runtime is that of the committed request.
    abbrev pub Remembers : Option CachedActorState → Type 0
    Remembers cached = (k : CachedActorState) × (cached ≡ some k) × IsCommittedNow k

    -- What an answer tells of the runtime.
    abbrev pub IsAcknowledged : ActorExecutionResult → ActorRuntime Bytes → Type 0
    IsAcknowledged (completed answer sent) runtime =
        (answer ≡ result) × Remembers runtime.cached_state
    IsAcknowledged (failed failure) runtime = Unit
    IsAcknowledged reroute runtime = Unit
    IsAcknowledged host_unavailable runtime = Unit

    announce-IsAcknowledged :
        (at : ℕ) (effects : List ActorSocketEffect)
        → Triple
            (λ runtime. Remembers runtime.cached_state)
            (announce c s invocation.actor at result effects)
            Anyhow
            IsAcknowledged
    unfolding announce
    announce-IsAcknowledged at effects = record {
      holds = λ runtime p. elim (Bool-cases (is_nil (automatic at effects))) [
        | inl e ↦ rw e (refl, p)
        | inr e ↦ rw e (
            sent
              (record runtime {
                history =
                    published invocation.actor (automatic at effects)
                      (s.publish runtime.history invocation.actor (automatic at effects))
                    ∷ runtime.history;
              })
              (s.publish runtime.history invocation.actor (automatic at effects)) p)
      ];
    }
      where
        sent :
            (runtime : ActorRuntime Bytes) (r : Checked)
            → Remembers runtime.cached_state
            → IsAcknowledged (answer_sent c s result effects r) runtime
        sent runtime (ok _) p = (refl, p)
        sent runtime (err e) p = tt

    pub complete-IsAcknowledged :
        (at : ℕ) (effects : List ActorSocketEffect)
        → Triple
            (λ runtime. Remembers runtime.cached_state)
            (complete_with_state c s invocation.actor at result effects)
            Anyhow
            IsAcknowledged
    unfolding complete_with_state
    complete-IsAcknowledged at effects =
        >>=-Triple (beside-cached Remembers checked_authority s.ensure_authority)
          (λ _. announce-IsAcknowledged at effects)

    -- A publication, and what it left.
    abbrev pub IsPublished : Result ActorExecutionResult → ActorRuntime Bytes → Type 0
    IsPublished (ok answer) runtime =
        (answer ≡ completed result []) × Remembers runtime.cached_state
    IsPublished (err e) runtime = Unit

    pub after_publish-IsAcknowledged :
        (at : ℕ) (effects : List ActorSocketEffect) (r : Result ActorExecutionResult)
        → Triple (IsPublished r) (after_publish c s invocation effects at r) Anyhow IsAcknowledged
    unfolding after_publish
    after_publish-IsAcknowledged at effects (ok (completed answer sent)) = record {
      holds = λ runtime (e, p).
          subst
            (λ (v : Value).
              After Anyhow IsAcknowledged
                (complete_with_state c s invocation.actor at v effects runtime).0
                (complete_with_state c s invocation.actor at v effects runtime).1)
            (let q : completed answer sent ≡ completed result [] = e in
              sym (let g : answer ≡ result = cc in g))
            ((complete-IsAcknowledged at effects).holds runtime p);
    }
    after_publish-IsAcknowledged at effects (ok (failed failure)) = record { holds = λ _ _. tt }
    after_publish-IsAcknowledged at effects (ok reroute) = record { holds = λ _ _. tt }
    after_publish-IsAcknowledged at effects (ok host_unavailable) = record { holds = λ _ _. tt }
    after_publish-IsAcknowledged at effects (err e) = record { holds = λ _ _. tt }
