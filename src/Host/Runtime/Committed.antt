-- ===== src/Host/Runtime/Committed.antt =====
-- What a publication that succeeded leaves in the cached state (src/host/actor_runtime.rs).
use little_actors.Prelude.{
  ℕ, ◌≡◌, refl, sym, ◌∙◌, ap, ◌+◌, Bool, true, false, Option, none, some, [], ◌∷◌, eqb, leb, ltb,
  Result, ok, err, if◌then◌else◌, subst, >>=-eq-ok, ok-injective,
}
use little_actors.Prelude.Text.{Text}
use little_actors.Prelude.Action.{Action, continue}
use little_actors.Prelude.Program.{
  ◌>>=◌, Triple, After, >>=-Triple, >>=-lift-Triple, Triple-change, if-Triple,
}
use little_actors.Json.{Value}
use little_actors.Actor.Outcome.{ActorInvocation, completed}
use little_actors.Naming.{u64_max}
use little_actors.Replica.Store.{checked_add}
use little_actors.Snapshot.{StateSnapshot, validate}
use little_actors.Wire.{Codec}
use little_actors.Host.Runtime.{
  WritePlan, CommitOrigin, PendingStateCommit, CachedActorState, Call, prepared, wrote, read_clock,
  Surroundings, ask, History, Held, saturating_add, state_write_ticket_safety_ms,
}
use little_actors.Host.Runtime.Publishing.{
  outside, settle, new_snapshot, encode, prepare_write, make_durable, finish_pending,
  finish_pending_commit, ticket_for, take_ticket, attributed, install, publish_with, then_publish,
  publish_result,
}

-- A cached state that is the result of a request, at a version.
pub record IsCommitted (epoch version : ℕ) (request_id : Text) (state result : Value)
    (cached : CachedActorState) : Type 0 where
  pub epoch_is : cached.owner_epoch ≡ epoch
  pub version_is : cached.state_version ≡ version
  pub state_is : cached.state ≡ some state
  pub request_is : cached.last_request_id ≡ some request_id
  pub result_is : cached.last_result ≡ some result
  pub pending_is : cached.pending ≡ none

-- A snapshot that is made of these values.
abbrev IsMadeOf : ℕ → Text → Value → StateSnapshot → Type 0
IsMadeOf version request_id result snapshot =
    (snapshot.state_version ≡ version)
    × (snapshot.request_id ≡ request_id)
    × (snapshot.result ≡ result)

module _ (c : Codec) (s : Surroundings c) where
  abbrev Bytes : Type 0
  Bytes = Codec.Bytes c

  abbrev Anything : Held Bytes → Type 0
  Anything held = Unit

  -- The epoch of the cached state.
  abbrev IsAt : ℕ → Held Bytes → Type 0
  IsAt epoch held = held.cached.owner_epoch ≡ epoch

  abbrev KeepsEpoch : {A : Type 0} → ℕ → Action (Held Bytes) A → Type 0
  KeepsEpoch epoch m = Triple (IsAt epoch) m Anything (λ _. IsAt epoch)

  After-any :
      {A : Type 0} (P : Held Bytes → Type 0) (held : Held Bytes) (r : Result A)
      → P held
      → After Anything (λ _. P) held r
  After-any P held (ok a) p = p
  After-any P held (err e) p = tt

  -- A call changes nothing that is cached.
  outside-any :
      {A : Type 0} (P : CachedActorState → Type 0) (entry : Result A → Call Bytes)
      (answer : History Bytes → Result A)
      → Triple
          (λ held. P held.cached)
          (outside (ask entry answer))
          Anything
          (λ _ held. P held.cached)
  outside-any P entry answer = record {
    holds = λ held p.
        After-any (λ held'. P held'.cached)
          (record held { history = entry (answer held.history) ∷ held.history })
          (answer held.history) p;
  }

  prepare_write-KeepsEpoch :
      (epoch : ℕ) (invocation : ActorInvocation) (asked : ℕ)
      → KeepsEpoch epoch (prepare_write c s invocation asked)
  unfolding prepare_write
  prepare_write-KeepsEpoch epoch invocation asked = record {
    holds = λ held.
        (outside-any (λ cached. cached.owner_epoch ≡ epoch)
            (prepared invocation.actor asked held.cached.state_version)
            (λ h. s.prepare_state_write h invocation.actor asked held.cached.state_version)).holds
          held;
  }

  ticket_for-KeepsEpoch :
      (epoch : ℕ) (invocation : ActorInvocation) (asked version : ℕ) (next : Option WritePlan)
      → KeepsEpoch epoch (ticket_for c s invocation asked version next)
  unfolding ticket_for
  ticket_for-KeepsEpoch epoch invocation asked version none =
      prepare_write-KeepsEpoch epoch invocation asked
  ticket_for-KeepsEpoch epoch invocation asked version (some ticket) =
      if-Triple (eqb ticket.state_version version)
        (λ _.
          >>=-Triple (outside-any (λ cached. cached.owner_epoch ≡ epoch) read_clock s.unix_millis)
            (λ now.
              if-Triple (ltb (saturating_add now state_write_ticket_safety_ms) ticket.expires_at_ms)
                (λ _. record { holds = λ held p. p })
                (λ _. prepare_write-KeepsEpoch epoch invocation asked)))
        (λ _. prepare_write-KeepsEpoch epoch invocation asked)

  take_ticket-KeepsEpoch :
      (epoch : ℕ) (invocation : ActorInvocation) (asked version : ℕ)
      → KeepsEpoch epoch (take_ticket c s invocation asked version)
  unfolding take_ticket
  take_ticket-KeepsEpoch epoch invocation asked version = record {
    holds = λ held p.
        (ticket_for-KeepsEpoch epoch invocation asked version held.cached.next_write).holds
          (record held { cached = record held.cached { next_write = none } }) p;
  }

  new_snapshot-IsMadeOf :
      (version epoch : ℕ) (request_id : Text) (state result : Value) {snapshot : StateSnapshot}
      → new_snapshot c s version epoch request_id state result ≡ ok snapshot
      → IsMadeOf version request_id result snapshot
  unfolding new_snapshot
  new_snapshot-IsMadeOf version epoch request_id state result {snapshot = snapshot} h =
      let (raw, e, h') = >>=-eq-ok (s.encoders.value_to_vec state) _ h in
      let (_, _, h'') = >>=-eq-ok (validate _) _ h' in
      subst (λ (x : StateSnapshot). IsMadeOf version request_id result x) (ok-injective h'')
        (refl, refl, refl)

  -- The pending commit that was installed, at the epoch.
  abbrev IsInstalled : ℕ → PendingStateCommit → Held Bytes → Type 0
  IsInstalled epoch pending held =
      (held.cached.owner_epoch ≡ epoch) × (held.cached.pending ≡ some pending)

  install-IsInstalled :
      (epoch : ℕ) (pending : PendingStateCommit) (bytes : Bytes)
      → Triple
          (IsAt epoch)
          (install c s pending bytes)
          Anything
          (λ _. IsInstalled epoch (record pending { durable = true }))
  unfolding install
  install-IsInstalled epoch pending bytes =
      >>=-Triple {Q = λ _. IsAt epoch} (record { holds = λ held p. p })
        (λ _.
          >>=-Triple
            (outside-any (λ cached. cached.owner_epoch ≡ epoch) (wrote pending.ticket bytes)
              (λ h. s.write_snapshot h pending.ticket bytes))
            (λ _. record { holds = λ held p. (p, refl) }))

  settle-IsCommitted :
      (epoch : ℕ) (pending : PendingStateCommit)
      → Triple (IsAt epoch) (settle pending) Anything (λ _ held.
        IsCommitted epoch pending.snapshot.state_version pending.snapshot.request_id pending.state
          pending.snapshot.result held.cached)
  unfolding settle
  settle-IsCommitted epoch pending =
      >>=-lift-Triple (checked_add pending.snapshot.state_version 1 _) (λ _ _. tt)
        (λ version e. record {
          holds = λ held p. record {
            epoch_is = p;
            version_is = refl;
            state_is = refl;
            request_is = refl;
            result_is = refl;
            pending_is = refl;
          };
        })

  abbrev FinishesAs : ℕ → PendingStateCommit → Action (Held Bytes) (Unit {0}) → Type 0
  FinishesAs epoch pending m = Triple (IsAt epoch) m Anything (λ _ held.
      IsCommitted epoch pending.snapshot.state_version pending.snapshot.request_id pending.state
        pending.snapshot.result held.cached)

  finish_pending-IsCommitted :
      (epoch owner : ℕ) (invocation : ActorInvocation) (pending : PendingStateCommit)
      → FinishesAs epoch pending
          (finish_pending c s invocation owner (some (record pending { durable = true })))
  unfolding finish_pending make_durable ◌>>=◌
  finish_pending-IsCommitted epoch owner invocation pending = record {
    holds = (settle-IsCommitted epoch (record pending { durable = true })).holds;
  }

  finish_pending_commit-IsCommitted :
      (epoch : ℕ) (invocation : ActorInvocation) (pending : PendingStateCommit)
      → Triple
          (IsInstalled epoch (record pending { durable = true }))
          (finish_pending_commit c s invocation)
          Anything
          (λ _ held.
            IsCommitted epoch pending.snapshot.state_version pending.snapshot.request_id
              pending.state pending.snapshot.result held.cached)
  unfolding finish_pending_commit
  finish_pending_commit-IsCommitted epoch invocation pending = record {
    holds = λ held (p, e).
        (subst
            (λ o.
              FinishesAs epoch pending (finish_pending c s invocation held.cached.owner_epoch o))
            (sym e)
            (finish_pending-IsCommitted epoch held.cached.owner_epoch invocation pending)).holds
          held p;
  }

  publish_with-IsCommitted :
      (at : ℕ) (invocation : ActorInvocation) (epoch : ℕ) (result state : Value)
      (origin : CommitOrigin) (version : ℕ) (ticket : WritePlan)
      → Triple
          (IsAt at)
          (publish_with c s invocation epoch result state origin version ticket)
          Anything
          (λ answer held.
            IsCommitted at version invocation.request_id state result held.cached
            × (answer ≡ completed result []))
  unfolding publish_with attributed
  publish_with-IsCommitted at invocation epoch result state origin version ticket =
      >>=-lift-Triple _ (λ held p. tt)
        (λ _ _.
          >>=-lift-Triple _ (λ held p. tt)
            (λ _ _.
              >>=-lift-Triple (new_snapshot c s version epoch invocation.request_id state result)
                (λ held p. tt)
                (λ snapshot e.
                  >>=-Triple
                    (outside-any (λ cached. cached.owner_epoch ≡ at) read_clock s.unix_millis)
                    (λ now.
                      >>=-lift-Triple (encode c s (attributed c s invocation origin now snapshot))
                        (λ held p. tt)
                        (λ bytes e'. >>=-Triple (install-IsInstalled at _ bytes) (λ _.
                          >>=-Triple
                            (finish_pending_commit-IsCommitted at invocation (record {
                              snapshot = attributed c s invocation origin now snapshot;
                              state = state;
                              ticket = ticket;
                              durable = false;
                            }))
                            (λ _. record {
                              holds = λ held p. (made_of held snapshot e p, refl);
                            })))))))
    where
      made_of :
          (held : Held Bytes) (snapshot : StateSnapshot)
          → new_snapshot c s version epoch invocation.request_id state result ≡ ok snapshot
          → IsCommitted at snapshot.state_version snapshot.request_id state snapshot.result
              held.cached
          → IsCommitted at version invocation.request_id state result held.cached
      made_of held snapshot e p =
          let (v, q, r) =
            new_snapshot-IsMadeOf version epoch invocation.request_id state result e in
          record {
            epoch_is = p.epoch_is;
            version_is = p.version_is ∙ v;
            state_is = p.state_is;
            request_is = p.request_is ∙ ap some q;
            result_is = p.result_is ∙ ap some r;
            pending_is = p.pending_is;
          }

  -- A publication that succeeds answers with its result and leaves the new state, one version on.
  pub publish_result-IsCommitted :
      (at : ℕ) (invocation : ActorInvocation) (epoch : ℕ) (result state : Value)
      (origin : CommitOrigin) (version : ℕ)
      → Triple
          (λ held. IsAt at held × (held.cached.state_version ≡ version))
          (publish_result c s invocation epoch result state origin)
          Anything
          (λ answer held.
            IsCommitted at (version + 1) invocation.request_id state result held.cached
            × (answer ≡ completed result []))
  unfolding publish_result then_publish
  publish_result-IsCommitted at invocation epoch result state origin version = record {
    holds = λ held (p, e).
        from_test held p held.cached.state_version e (leb (held.cached.state_version + 1) u64_max);
  }
    where
      from_test :
          (held : Held Bytes)
          → IsAt at held
          → (n : ℕ) → n ≡ version
          → (b : Bool)
          → After Anything
              (λ answer held'.
                IsCommitted at (version + 1) invocation.request_id state result held'.cached
                × (answer ≡ completed result []))
              (continue
                (then_publish c s invocation epoch result state origin)
                held
                (if b then ok (n + 1) else err "actor state version overflow")).0
              (continue
                (then_publish c s invocation epoch result state origin)
                held
                (if b then ok (n + 1) else err "actor state version overflow")).1
      from_test held p n e true =
          (Triple-change
              (>>=-Triple (take_ticket-KeepsEpoch at invocation epoch (n + 1))
                (publish_with-IsCommitted at invocation epoch result state origin (n + 1)))
              (λ _ q. q)
              (λ answer held'.
                subst
                  (λ (v : ℕ).
                    IsCommitted at (v + 1) invocation.request_id state result held'.cached
                    × (answer ≡ completed result []))
                  e)).holds
            held p
      from_test held p n e false = tt
