-- ===== src/Host/Runtime/Pending.antt =====
-- Commits, and what is durable (src/host/actor_runtime.rs).
use little_actors.Prelude.{
  ℕ, ◌≡◌, refl, inl, inr, Bool, true, false, Option, none, some, ◌∷◌, leb, Result, ok, err,
  Bool-cases,
}
use little_actors.Prelude.Text.{text_eq}
use little_actors.Prelude.Action.{Action}
use little_actors.Prelude.Program.{Triple, After, >>=-Triple, >>=-lift-Triple, Triple-change}
use little_actors.Actor.Outcome.{ActorInvocation}
use little_actors.Replica.Store.{checked_add}
use little_actors.Wire.{Codec}
use little_actors.Host.Runtime.{
  WritePlan, StateWrite, PendingStateCommit, Call, prepared, wrote, read_clock, Surroundings, ask,
  History, Held, saturating_add,
}
use little_actors.Host.Runtime.Publishing.{
  outside, update, set_pending, settle, encode, prepare_write, renew_if, write_pending,
  make_durable, finish_pending, finish_pending_commit,
}
use little_actors.Host.Runtime.Confirming.{
  IsPending, IsSoundHeld, Announces, IsPending-call, IsKept-call, IsAnnouncing-call,
  IsBacked-change, wrote-IsConfirmed, IsPendingIn,
}

module _ (c : Codec) (s : Surroundings c) where
  abbrev Bytes : Type 0
  Bytes = Codec.Bytes c

  -- Sound, with a commit at hand that may be pending.
  abbrev pub IsSoundWith : PendingStateCommit → Held Bytes → Type 0
  IsSoundWith pending held = IsSoundHeld c s held × IsPending c s held.history pending

  abbrev pub Keeps : {A : Type 0} → Action (Held Bytes) A → Type 0
  Keeps m = Triple (IsSoundHeld c s) m (IsSoundHeld c s) (λ _. IsSoundHeld c s)

  abbrev pub KeepsWith : {A : Type 0} → PendingStateCommit → Action (Held Bytes) A → Type 0
  KeepsWith pending m = Triple (IsSoundWith pending) m (IsSoundHeld c s) (λ _. IsSoundWith pending)

  -- A call that announces nothing false.
  call-IsSoundHeld :
      (call : Call Bytes) (held : Held Bytes)
      → Announces c s call held.history
      → IsSoundHeld c s held
      → IsSoundHeld c s (record held { history = call ∷ held.history })
  call-IsSoundHeld call held a (h, k) =
      (IsAnnouncing-call c s call held.history a h, IsKept-call c s call held.history held.cached k)

  After-any :
      {A : Type 0} (P : Held Bytes → Type 0) (held : Held Bytes) (r : Result A)
      → P held
      → After P (λ _. P) held r
  After-any P held (ok a) p = p
  After-any P held (err e) p = p

  After-with :
      {A : Type 0} (pending : PendingStateCommit) (held : Held Bytes) (r : Result A)
      → IsSoundWith pending held
      → After (IsSoundHeld c s) (λ _. IsSoundWith pending) held r
  After-with pending held (ok a) p = p
  After-with pending held (err e) p = p.0

  pub outside-Keeps :
      {A : Type 0} (entry : Result A → Call Bytes) (answer : History Bytes → Result A)
      → ((r : Result A) (h : History Bytes) → Announces c s (entry r) h)
      → Keeps (outside (ask entry answer))
  outside-Keeps entry answer quiet = record {
    holds = λ held p.
        After-any (IsSoundHeld c s) _ (answer held.history)
          (call-IsSoundHeld (entry (answer held.history)) held (quiet _ _) p);
  }

  pub outside-KeepsWith :
      {A : Type 0} (pending : PendingStateCommit) (entry : Result A → Call Bytes)
      (answer : History Bytes → Result A)
      → ((r : Result A) (h : History Bytes) → Announces c s (entry r) h)
      → KeepsWith pending (outside (ask entry answer))
  outside-KeepsWith pending entry answer quiet = record {
    holds = λ held (p, q). After-with pending _ (answer held.history) (
      call-IsSoundHeld (entry (answer held.history)) held (quiet _ _) p,
      IsPending-call c s (entry (answer held.history)) held.history pending q,
    );
  }

  pub set_pending-KeepsWith :
      (pending : PendingStateCommit) → KeepsWith pending (update (set_pending (some pending)))
  set_pending-KeepsWith pending = record {
    holds = λ held ((a, (b, p)), q). (
      (
        a,
        (IsBacked-change c s held.history held.cached (some pending) held.cached.next_write b, q),
      ),
      q,
    );
  }

  pub prepare_write-Keeps :
      (invocation : ActorInvocation) (epoch : ℕ) → Keeps (prepare_write c s invocation epoch)
  unfolding prepare_write
  prepare_write-Keeps invocation epoch = record {
    holds = λ held.
        (outside-Keeps (prepared invocation.actor epoch held.cached.state_version)
            (λ h. s.prepare_state_write h invocation.actor epoch held.cached.state_version)
            (λ r h. tt)).holds
          held;
  }

  prepare_write-KeepsWith :
      (pending : PendingStateCommit) (invocation : ActorInvocation) (epoch : ℕ)
      → KeepsWith pending (prepare_write c s invocation epoch)
  unfolding prepare_write
  prepare_write-KeepsWith pending invocation epoch = record {
    holds = λ held.
        (outside-KeepsWith pending (prepared invocation.actor epoch held.cached.state_version)
            (λ h. s.prepare_state_write h invocation.actor epoch held.cached.state_version)
            (λ r h. tt)).holds
          held;
  }

  -- Another ticket leaves a pending commit as sound as it was.
  with_ticket :
      (pending : PendingStateCommit) (ticket : WritePlan) (held : Held Bytes)
      → IsSoundWith pending held
      → IsSoundWith (record pending { ticket = ticket }) held
  with_ticket pending ticket held (p, q) =
      (p, record { carries = q.carries; confirmed = q.confirmed })

  -- What a step on the pending commit gives.
  abbrev Renews : PendingStateCommit → Action (Held Bytes) PendingStateCommit → Type 0
  Renews pending m = Triple (IsSoundWith pending) m (IsSoundHeld c s) IsSoundWith

  renew_if-Renews :
      (b : Bool) (invocation : ActorInvocation) (epoch : ℕ) (pending : PendingStateCommit)
      → Renews pending (renew_if c s b invocation epoch pending)
  unfolding renew_if
  renew_if-Renews false invocation epoch pending = record { holds = λ held p. p }
  renew_if-Renews true invocation epoch pending =
      >>=-Triple (prepare_write-KeepsWith pending invocation epoch) (λ renewed.
        >>=-lift-Triple _ (λ held p. p.0)
          (λ _ _.
            >>=-Triple
              (Triple-change (set_pending-KeepsWith (record pending { ticket = renewed }))
                (λ held. with_ticket pending renewed held) (λ _ held p. p))
              (λ _. record { holds = λ held p. p })))

  -- A write that succeeds confirms the snapshot that was encoded.
  pub write-confirms :
      (pending : PendingStateCommit) (bytes : Bytes)
      → encode c s pending.snapshot ≡ ok bytes
      → Triple
          (IsSoundWith pending)
          (outside
            (ask (wrote pending.ticket bytes) (λ h. s.write_snapshot h pending.ticket bytes)))
          (IsSoundHeld c s)
          (λ _. IsSoundWith (record pending { durable = true }))
  write-confirms pending bytes e = record {
    holds = λ held p. written held p (s.write_snapshot held.history pending.ticket bytes);
  }
    where
      written :
          (held : Held Bytes)
          → IsSoundWith pending held
          → (r : Result StateWrite)
          → After
              (IsSoundHeld c s)
              (λ _. IsSoundWith (record pending { durable = true }))
              (record held { history = wrote pending.ticket bytes r ∷ held.history })
              r
      written held p (ok answer) = (
        call-IsSoundHeld (wrote pending.ticket bytes (ok answer)) held tt p.0,
        record {
          carries = p.1.carries;
          confirmed = λ _.
              wrote-IsConfirmed c s pending.ticket bytes answer held.history pending.snapshot e;
        },
      )
      written held p (err message) =
          call-IsSoundHeld (wrote pending.ticket bytes (err message)) held tt p.0

  abbrev IsMade : PendingStateCommit → Held Bytes → Type 0
  IsMade pending held = IsSoundWith pending held × (pending.durable ≡ true)

  -- The pending commit is durable at the end.
  abbrev Makes : PendingStateCommit → Action (Held Bytes) PendingStateCommit → Type 0
  Makes pending m = Triple (IsSoundWith pending) m (IsSoundHeld c s) IsMade

  write_pending-Makes :
      (invocation : ActorInvocation) (epoch : ℕ) (pending : PendingStateCommit)
      → Makes pending (write_pending c s invocation epoch pending)
  unfolding write_pending
  write_pending-Makes invocation epoch pending =
      >>=-Triple (outside-KeepsWith pending read_clock s.unix_millis (λ r h. tt)) (λ now.
        >>=-Triple
          (renew_if-Renews (leb pending.ticket.expires_at_ms (saturating_add now 5000)) invocation
            epoch pending)
          (λ current.
            >>=-lift-Triple (encode c s current.snapshot) (λ held p. p.0)
              (λ bytes e. >>=-Triple (write-confirms current bytes e) (λ _.
                >>=-Triple (set_pending-KeepsWith (record current { durable = true }))
                  (λ _. record { holds = λ held p. (p, refl) })))))

  make_durable-Makes :
      (invocation : ActorInvocation) (epoch : ℕ) (pending : PendingStateCommit)
      → Makes pending (make_durable c s invocation epoch pending)
  unfolding make_durable
  make_durable-Makes invocation epoch pending = elim (Bool-cases pending.durable) [
    | inl e ↦ rw (make_durable, e) (record { holds = λ held p. (p, refl) })
    | inr e ↦
        rw (make_durable, e)
          (write_pending-Makes invocation epoch (record pending { durable = false }))
  ]

  -- A commit that is durable becomes the cached state.
  settle-Keeps :
      (pending : PendingStateCommit)
      → Triple (IsMade pending) (settle pending) (IsSoundHeld c s) (λ _. IsSoundHeld c s)
  unfolding settle
  settle-Keeps pending =
      >>=-lift-Triple (checked_add pending.snapshot.state_version 1 _) (λ held p. p.0.0)
        (λ version e. record {
          holds = λ held ((p, q), d). (
            p.0,
            (
              inr (
                pending.snapshot,
                q.confirmed d,
                record {
                  version_is = refl;
                  state_is = (pending.state, refl, q.carries);
                  request_is = refl;
                  result_is = refl;
                },
              ),
              tt,
            ),
          );
        })

  finish_pending-Keeps :
      (invocation : ActorInvocation) (epoch : ℕ) (pending : Option PendingStateCommit)
      → Triple
          (λ held. IsSoundHeld c s held × IsPendingIn c s held.history pending)
          (finish_pending c s invocation epoch pending)
          (IsSoundHeld c s)
          (λ _. IsSoundHeld c s)
  unfolding finish_pending
  finish_pending-Keeps invocation epoch none = record { holds = λ held p. p.0 }
  finish_pending-Keeps invocation epoch (some pending) =
      >>=-Triple (make_durable-Makes invocation epoch pending) settle-Keeps

  pub finish_pending_commit-Keeps :
      (invocation : ActorInvocation) → Keeps (finish_pending_commit c s invocation)
  unfolding finish_pending_commit
  finish_pending_commit-Keeps invocation = record {
    holds = λ held p.
        (finish_pending-Keeps invocation held.cached.owner_epoch held.cached.pending).holds held
          (p, p.1.1);
  }
