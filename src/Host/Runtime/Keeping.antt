-- ===== src/Host/Runtime/Keeping.antt =====
-- The operations of an actor's runtime, and what is durable (src/host/actor_runtime.rs).
use little_actors.Prelude.{
  ℕ, ◌≡◌, refl, sym, inl, inr, none, List, [], ◌∷◌, All, eqb, leb, Result, ok, err, Checked, ensure,
  arith, Bool-cases, subst, >>=-eq-ok, ok-injective, String,
}
use little_actors.Prelude.Program.{Triple, After, >>=-Triple}
use little_actors.Json.{Value}
use little_actors.Actor.{ActorKey}
use little_actors.Sockets.{
  ActorSocketEffect, state_snapshot, state_update, send, broadcast, close, reject, set_metadata,
  set_tags,
}
use little_actors.Replica.Store.{decode}
use little_actors.Snapshot.{StateSnapshot}
use little_actors.Wire.{Codec}
use little_actors.Host.Runtime.{
  CachedActorState, Call, checked_authority, published, ActorRuntime, History, Surroundings, ask,
}
use little_actors.Host.Runtime.Invoking.{
  beside, take_cached, automatic, is_nil, Act, authority, from_loaded,
}
use little_actors.Host.Runtime.Operations.{announce, complete_with_state}
use little_actors.Host.Runtime.Confirming.{
  IsConfirmed, IsDurable, IsFrom, IsKept, IsKeptIn, IsAnnounced, Announces, IsSound, IsDurable-call,
  IsKeptIn-call, IsAnnouncing-call, Confirms, IsPendingIn,
}

module _ (c : Codec) (s : Surroundings c) where
  abbrev Bytes : Type 0
  Bytes = Codec.Bytes c

  -- Sound, with a cached state that was taken.
  abbrev pub IsSoundTaken : CachedActorState → ActorRuntime Bytes → Type 0
  IsSoundTaken cached runtime = IsSound c s runtime × IsKept c s runtime.history cached

  -- Sound, with the version of a durable snapshot.
  abbrev pub IsSoundAt : ℕ → ActorRuntime Bytes → Type 0
  IsSoundAt version runtime = IsSound c s runtime × IsDurable c s runtime.history version

  abbrev pub Sound : {A : Type 0} → Act c s A → Type 0
  Sound m = Triple (IsSound c s) m (IsSound c s) (λ _. IsSound c s)

  pub call-IsSound :
      (call : Call Bytes) (runtime : ActorRuntime Bytes)
      → Announces c s call runtime.history
      → IsSound c s runtime
      → IsSound c s (record runtime { history = call ∷ runtime.history })
  call-IsSound call runtime a (h, k) = (
    IsAnnouncing-call c s call runtime.history a h,
    IsKeptIn-call c s call runtime.history runtime.cached_state k,
  )

  pub After-any :
      {A : Type 0} (P : ActorRuntime Bytes → Type 0) (runtime : ActorRuntime Bytes) (r : Result A)
      → P runtime
      → After P (λ _. P) runtime r
  After-any P runtime (ok a) p = p
  After-any P runtime (err e) p = p

  pub beside-Sound :
      {A : Type 0} (entry : Result A → Call Bytes) (answer : History Bytes → Result A)
      → ((r : Result A) (h : History Bytes) → Announces c s (entry r) h)
      → Sound (beside (ask entry answer))
  beside-Sound entry answer quiet = record {
    holds = λ runtime p.
        After-any (IsSound c s)
          (record runtime { history = entry (answer runtime.history) ∷ runtime.history })
          (answer runtime.history)
          (call-IsSound (entry (answer runtime.history)) runtime (quiet _ _) p);
  }

  pub authority-Sound : Sound (authority c s)
  authority-Sound = beside-Sound checked_authority s.ensure_authority (λ r h. tt)

  -- Checking the authority does not change what is durable.
  authority-at :
      (version : ℕ)
      → Triple (IsSoundAt version) (authority c s) (IsSound c s) (λ _. IsSoundAt version)
  authority-at version = record {
    holds = λ runtime (p, d). checked runtime p d (s.ensure_authority runtime.history);
  }
    where
      checked :
          (runtime : ActorRuntime Bytes)
          → IsSound c s runtime
          → IsDurable c s runtime.history version
          → (r : Checked)
          → After
              (IsSound c s)
              (λ _. IsSoundAt version)
              (record runtime { history = checked_authority r ∷ runtime.history })
              r
      checked runtime p d (ok _) = (
        call-IsSound (checked_authority (ok tt)) runtime tt p,
        IsDurable-call c s (checked_authority (ok tt)) runtime.history version d,
      )
      checked runtime p d (err e) = call-IsSound (checked_authority (err e)) runtime tt p

  -- What is announced has the version that is given.
  automatic-IsAnnounced :
      (history : History Bytes) (version : ℕ) (effects : List ActorSocketEffect)
      → IsDurable c s history version
      → All (IsAnnounced c s history) (automatic version effects)
  unfolding automatic
  automatic-IsAnnounced history version [] d = tt
  automatic-IsAnnounced history version (state_snapshot id state v ∷ effects) d =
      (d, automatic-IsAnnounced history version effects d)
  automatic-IsAnnounced history version (state_update changes removed except_ids v ∷ effects) d =
      (d, automatic-IsAnnounced history version effects d)
  automatic-IsAnnounced history version (send id message ∷ effects) d =
      automatic-IsAnnounced history version effects d
  automatic-IsAnnounced history version (broadcast message except_ids tags tag_match ∷ effects) d =
      automatic-IsAnnounced history version effects d
  automatic-IsAnnounced history version (close id code reason ∷ effects) d =
      automatic-IsAnnounced history version effects d
  automatic-IsAnnounced history version (reject id code reason ∷ effects) d =
      automatic-IsAnnounced history version effects d
  automatic-IsAnnounced history version (set_metadata id metadata ∷ effects) d =
      automatic-IsAnnounced history version effects d
  automatic-IsAnnounced history version (set_tags id tags ∷ effects) d =
      automatic-IsAnnounced history version effects d

  announce-Sound :
      (actor : ActorKey) (version : ℕ) (result : Value) (effects : List ActorSocketEffect)
      → Triple
          (IsSoundAt version)
          (announce c s actor version result effects)
          (IsSound c s)
          (λ _. IsSound c s)
  unfolding announce
  announce-Sound actor version result effects = record {
    holds = λ runtime (p, d). elim (Bool-cases (is_nil (automatic version effects))) [
      | inl e ↦ rw e p
      | inr e ↦ rw e (
          call-IsSound
            (published actor (automatic version effects)
              (s.publish runtime.history actor (automatic version effects)))
            runtime (automatic-IsAnnounced runtime.history version effects d) p)
    ];
  }

  pub complete_with_state-Sound :
      (actor : ActorKey) (version : ℕ) (result : Value) (effects : List ActorSocketEffect)
      → Triple
          (IsSoundAt version)
          (complete_with_state c s actor version result effects)
          (IsSound c s)
          (λ _. IsSound c s)
  unfolding complete_with_state
  complete_with_state-Sound actor version result effects =
      >>=-Triple (authority-at version) (λ _. announce-Sound actor version result effects)

  -- The cached state leaves the runtime.
  pub take_cached-Sound :
      Triple
        (IsSound c s)
        take_cached
        (IsSound c s)
        (λ taken runtime. IsSound c s runtime × IsKeptIn c s runtime.history taken)
  take_cached-Sound = record { holds = λ runtime (a, k). ((a, tt), k) }

  -- A state that was loaded is that of the snapshot that it decodes to.
  pub from_loaded-IsFrom :
      (epoch version : ℕ) (bytes : Bytes) {cached : CachedActorState}
      → from_loaded c s epoch version bytes ≡ ok cached
      → (snapshot : StateSnapshot) × (decode c bytes ≡ ok snapshot)
        × IsFrom c s cached snapshot
        × (cached.pending ≡ none)
  unfolding from_loaded
  from_loaded-IsFrom epoch version bytes h =
      let (snapshot, e, h₁) = >>=-eq-ok (decode c bytes) _ h in
      let (_, same, h₂) = >>=-eq-ok (ensure (eqb snapshot.state_version version) _) _ h₁ in
      let (_, _, h₃) = >>=-eq-ok (ensure (leb snapshot.owner_epoch epoch) _) _ h₂ in
      let (state, r, h₄) = >>=-eq-ok (s.value_from_str snapshot.state) _ h₃ in
      subst
        (λ (x : CachedActorState).
          (snapshot' : StateSnapshot) × (decode c bytes ≡ ok snapshot')
          × IsFrom c s x snapshot'
          × (x.pending ≡ none))
        (ok-injective h₄)
        (
          snapshot,
          e,
          record {
            version_is = version_same snapshot.state_version version _ same;
            state_is = (state, refl, inr r);
            request_is = refl;
            result_is = refl;
          },
          refl,
        )
    where
      version_same : (a b : ℕ) (e : String) → ensure (eqb a b) e ≡ ok tt → b ≡ a
      version_same a b e h = ground (arith)

  -- A load that succeeds gives a state that is kept.
  pub loaded-IsKept :
      (call : Call Bytes) (history : History Bytes) (snapshot : StateSnapshot)
      (cached : CachedActorState)
      → Confirms c s call snapshot
      → IsFrom c s cached snapshot
      → cached.pending ≡ none
      → IsKept c s (call ∷ history) cached
  unfolding IsConfirmed
  loaded-IsKept call history snapshot cached h from e =
      (inr (snapshot, inl h, from), subst (IsPendingIn c s (call ∷ history)) (sym e) tt)
