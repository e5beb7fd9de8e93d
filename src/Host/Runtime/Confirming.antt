-- ===== src/Host/Runtime/Confirming.antt =====
-- What the history of an actor's runtime confirms: the snapshots that are durable, and which cached
-- states, pending commits and notifications rest on them (src/host/actor_runtime.rs).
use little_actors.Prelude.{
  ℕ, ◌≡◌, ◌⊎◌, inl, inr, true, false, Option, none, some, [], ◌∷◌, All, ok, err, sym,
}
use little_actors.Prelude.Text.{Text}
use little_actors.Json.{Value}
use little_actors.Replica.Store.{decode}
use little_actors.Snapshot.{StateSnapshot}
use little_actors.Sockets.{
  ActorSocketEffect, state_snapshot, state_update, send, broadcast, close, reject, set_metadata,
  set_tags,
}
use little_actors.Wire.{Codec}
use little_actors.Host.Runtime.{
  WritePlan, PendingStateCommit, CachedActorState, Call, checked_authority, read_clock, prepared,
  wrote, loaded, acquired, hydrated, published, evicted, invoked, handled_socket, History,
  ActorRuntime, Held, Surroundings, StateWrite,
}
use little_actors.Host.Runtime.Publishing.{encode}

module _ (c : Codec) (s : Surroundings c) where
  abbrev Bytes : Type 0
  Bytes = Codec.Bytes c

  abbrev Never : Type 0
  Never = false ≡ true

  -- A write that succeeded confirms the snapshot that was encoded, a load the one that it decodes to.
  abbrev pub Confirms : Call Bytes → StateSnapshot → Type 0
  Confirms (wrote plan bytes (ok answer)) snapshot = encode c s snapshot ≡ ok bytes
  Confirms (wrote plan bytes (err e)) snapshot = Never
  Confirms (loaded actor epoch (ok (version, bytes))) snapshot = decode c bytes ≡ ok snapshot
  Confirms (loaded actor epoch (err e)) snapshot = Never
  Confirms (acquired actor (ok activation)) snapshot =
      (bytes : Bytes) × (activation.state ≡ some bytes) × (decode c bytes ≡ ok snapshot)
  Confirms (acquired actor (err e)) snapshot = Never
  Confirms (checked_authority r) snapshot = Never
  Confirms (read_clock r) snapshot = Never
  Confirms (prepared actor epoch version r) snapshot = Never
  Confirms (hydrated actor state r) snapshot = Never
  Confirms (published actor effects r) snapshot = Never
  Confirms (evicted actor r) snapshot = Never
  Confirms (invoked invocation state r) snapshot = Never
  Confirms (handled_socket invocation state r) snapshot = Never

  unfoldable pub IsConfirmed : History Bytes → StateSnapshot → Type 0
  IsConfirmed [] snapshot = Never
  IsConfirmed (call ∷ history) snapshot = Confirms call snapshot ⊎ IsConfirmed history snapshot

  -- A load or an activation that found the actor without a state.
  abbrev FindsNothing : Call Bytes → Type 0
  FindsNothing (loaded actor epoch (ok (version, bytes))) = version ≡ 0
  FindsNothing (loaded actor epoch (err e)) = Never
  FindsNothing (acquired actor (ok activation)) = activation.state_version ≡ 0
  FindsNothing (acquired actor (err e)) = Never
  FindsNothing (wrote plan bytes r) = Never
  FindsNothing (checked_authority r) = Never
  FindsNothing (read_clock r) = Never
  FindsNothing (prepared actor epoch version r) = Never
  FindsNothing (hydrated actor state r) = Never
  FindsNothing (published actor effects r) = Never
  FindsNothing (evicted actor r) = Never
  FindsNothing (invoked invocation state r) = Never
  FindsNothing (handled_socket invocation state r) = Never

  unfoldable pub IsFoundEmpty : History Bytes → Type 0
  IsFoundEmpty [] = Never
  IsFoundEmpty (call ∷ history) = FindsNothing call ⊎ IsFoundEmpty history

  -- The version of a snapshot that is durable, or 0 once the actor was found without a state.
  abbrev pub IsDurable : History Bytes → ℕ → Type 0
  IsDurable history version =
      ((version ≡ 0) × IsFoundEmpty history)
      ⊎ ((snapshot : StateSnapshot) × IsConfirmed history snapshot
          × (snapshot.state_version ≡ version))

  -- The text of a snapshot is that of a state.
  abbrev pub Carries : Text → Value → Type 0
  Carries raw state = (s.encoders.value_to_vec state ≡ ok raw) ⊎ (s.value_from_str raw ≡ ok state)

  pub record IsFrom (cached : CachedActorState) (snapshot : StateSnapshot) : Type 0 where
    pub version_is : cached.state_version ≡ snapshot.state_version
    pub state_is : (state : Value) × (cached.state ≡ some state) × Carries snapshot.state state
    pub request_is : cached.last_request_id ≡ some snapshot.request_id
    pub result_is : cached.last_result ≡ some snapshot.result

  -- The cached state is that of an actor that was found without one, or that of a snapshot that is
  -- durable.
  abbrev pub IsBacked : History Bytes → CachedActorState → Type 0
  IsBacked history cached =
      ((cached.state_version ≡ 0) × (cached.state ≡ none) × IsFoundEmpty history)
      ⊎ ((snapshot : StateSnapshot) × IsConfirmed history snapshot × IsFrom cached snapshot)

  -- The ticket and the pending commit do not matter.
  pub IsBacked-change :
      (history : History Bytes) (cached : CachedActorState) (pending : Option PendingStateCommit)
      (next : Option WritePlan)
      → IsBacked history cached
      → IsBacked history (record cached { pending = pending; next_write = next })
  IsBacked-change history cached pending next (inl h) = inl h
  IsBacked-change history cached pending next (inr (snapshot, h, from)) = inr (
    snapshot,
    h,
    record {
      version_is = from.version_is;
      state_is = from.state_is;
      request_is = from.request_is;
      result_is = from.result_is;
    },
  )

  pub record IsPending (history : History Bytes) (pending : PendingStateCommit) : Type 0 where
    pub carries : Carries pending.snapshot.state pending.state
    pub confirmed : pending.durable ≡ true → IsConfirmed history pending.snapshot

  abbrev pub IsPendingIn : History Bytes → Option PendingStateCommit → Type 0
  IsPendingIn history none = Unit
  IsPendingIn history (some pending) = IsPending history pending

  abbrev pub IsKept : History Bytes → CachedActorState → Type 0
  IsKept history cached = IsBacked history cached × IsPendingIn history cached.pending

  abbrev pub IsKeptIn : History Bytes → Option CachedActorState → Type 0
  IsKeptIn history none = Unit
  IsKeptIn history (some cached) = IsKept history cached

  -- A notification of a state has a version that is durable.
  abbrev pub IsAnnounced : History Bytes → ActorSocketEffect → Type 0
  IsAnnounced history (state_snapshot id state (some version)) = IsDurable history version
  IsAnnounced history (state_snapshot id state none) = Never
  IsAnnounced history (state_update changes removed except_ids (some version)) =
      IsDurable history version
  IsAnnounced history (state_update changes removed except_ids none) = Never
  IsAnnounced history (send id message) = Unit
  IsAnnounced history (broadcast message except_ids tags tag_match) = Unit
  IsAnnounced history (close id code reason) = Unit
  IsAnnounced history (reject id code reason) = Unit
  IsAnnounced history (set_metadata id metadata) = Unit
  IsAnnounced history (set_tags id tags) = Unit

  -- What a call says, after the calls before it.
  abbrev pub Announces : Call Bytes → History Bytes → Type 0
  Announces (published actor effects r) history = All (IsAnnounced history) effects
  Announces (wrote plan bytes r) history = Unit
  Announces (loaded actor epoch r) history = Unit
  Announces (acquired actor r) history = Unit
  Announces (checked_authority r) history = Unit
  Announces (read_clock r) history = Unit
  Announces (prepared actor epoch version r) history = Unit
  Announces (hydrated actor state r) history = Unit
  Announces (evicted actor r) history = Unit
  Announces (invoked invocation state r) history = Unit
  Announces (handled_socket invocation state r) history = Unit

  unfoldable pub IsAnnouncing : History Bytes → Type 0
  IsAnnouncing [] = Unit
  IsAnnouncing (call ∷ history) = Announces call history × IsAnnouncing history

  -- Every notification was of a durable version, and the cached state is durable.
  abbrev pub IsSound : ActorRuntime Bytes → Type 0
  IsSound runtime = IsAnnouncing runtime.history × IsKeptIn runtime.history runtime.cached_state

  abbrev pub IsSoundHeld : Held Bytes → Type 0
  IsSoundHeld held = IsAnnouncing held.history × IsKept held.history held.cached

  -- A history that grows goes on confirming.
  pub IsConfirmed-call :
      (call : Call Bytes) (history : History Bytes) (snapshot : StateSnapshot)
      → IsConfirmed history snapshot
      → IsConfirmed (call ∷ history) snapshot
  unfolding IsConfirmed
  IsConfirmed-call call history snapshot h = inr h

  pub wrote-IsConfirmed :
      (plan : WritePlan) (bytes : Bytes) (answer : StateWrite) (history : History Bytes)
      (snapshot : StateSnapshot)
      → encode c s snapshot ≡ ok bytes
      → IsConfirmed (wrote plan bytes (ok answer) ∷ history) snapshot
  unfolding IsConfirmed
  wrote-IsConfirmed plan bytes answer history snapshot e = inl e

  pub IsFoundEmpty-first :
      (call : Call Bytes) (history : History Bytes)
      → FindsNothing call
      → IsFoundEmpty (call ∷ history)
  unfolding IsFoundEmpty
  IsFoundEmpty-first call history h = inl h

  IsFoundEmpty-call :
      (call : Call Bytes) (history : History Bytes)
      → IsFoundEmpty history
      → IsFoundEmpty (call ∷ history)
  unfolding IsFoundEmpty
  IsFoundEmpty-call call history h = inr h

  pub IsDurable-call :
      (call : Call Bytes) (history : History Bytes) (version : ℕ)
      → IsDurable history version
      → IsDurable (call ∷ history) version
  IsDurable-call call history version (inl (z, h)) = inl (z, IsFoundEmpty-call call history h)
  IsDurable-call call history version (inr (snapshot, h, e)) =
      inr (snapshot, IsConfirmed-call call history snapshot h, e)

  pub IsPending-call :
      (call : Call Bytes) (history : History Bytes) (pending : PendingStateCommit)
      → IsPending history pending
      → IsPending (call ∷ history) pending
  IsPending-call call history pending p = record {
    carries = p.carries;
    confirmed = λ h. IsConfirmed-call call history pending.snapshot (p.confirmed h);
  }

  IsPendingIn-call :
      (call : Call Bytes) (history : History Bytes) (pending : Option PendingStateCommit)
      → IsPendingIn history pending
      → IsPendingIn (call ∷ history) pending
  IsPendingIn-call call history none p = tt
  IsPendingIn-call call history (some pending) p = IsPending-call call history pending p

  pub IsBacked-call :
      (call : Call Bytes) (history : History Bytes) (cached : CachedActorState)
      → IsBacked history cached
      → IsBacked (call ∷ history) cached
  IsBacked-call call history cached (inl (z, n, h)) = inl (z, n, IsFoundEmpty-call call history h)
  IsBacked-call call history cached (inr (snapshot, h, from)) =
      inr (snapshot, IsConfirmed-call call history snapshot h, from)

  pub IsKept-call :
      (call : Call Bytes) (history : History Bytes) (cached : CachedActorState)
      → IsKept history cached
      → IsKept (call ∷ history) cached
  IsKept-call call history cached (b, p) =
      (IsBacked-call call history cached b, IsPendingIn-call call history cached.pending p)

  pub IsKeptIn-call :
      (call : Call Bytes) (history : History Bytes) (cached : Option CachedActorState)
      → IsKeptIn history cached
      → IsKeptIn (call ∷ history) cached
  IsKeptIn-call call history none h = tt
  IsKeptIn-call call history (some cached) h = IsKept-call call history cached h

  pub IsAnnouncing-call :
      (call : Call Bytes) (history : History Bytes)
      → Announces call history
      → IsAnnouncing history
      → IsAnnouncing (call ∷ history)
  unfolding IsAnnouncing
  IsAnnouncing-call call history a h = (a, h)

  -- The version of a cached state is durable.
  pub IsBacked-IsDurable :
      (history : History Bytes) (cached : CachedActorState)
      → IsBacked history cached
      → IsDurable history cached.state_version
  IsBacked-IsDurable history cached (inl (z, _, h)) = inl (z, h)
  IsBacked-IsDurable history cached (inr (snapshot, h, from)) =
      inr (snapshot, h, sym from.version_is)
