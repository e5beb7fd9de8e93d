-- ===== src/Host/Runtime/Publishing.antt =====
-- Committing a state: `publish_result` and `finish_pending_commit` (src/host/actor_runtime.rs), and
-- making and encoding a snapshot (src/state_log.rs). Logs and timings are left out.
use little_actors.Prelude.{
  ℕ, suc, ◌+◌, Bool, true, false, not, ◌&&◌, Option, none, some, [], ◌∷◌, ◌==◌, eqb, leb, ltb,
  Result, ok, err, Checked, ensure, if◌then◌else◌,
}
use little_actors.Prelude.Text.{Text, text_eq}
use little_actors.Prelude.Action.{Action, pure, lift, continue}
use little_actors.Prelude.Program.{◌>>=◌, ◌>>◌}
use little_actors.Json.{Value}
use little_actors.Actor.Outcome.{ActorInvocation, ActorExecutionResult, completed}
use little_actors.Naming.{object_name}
use little_actors.Replica.{stream_beq}
use little_actors.Replica.Store.{checked_add}
use little_actors.Snapshot.{StateSnapshot, validate}
use little_actors.Wire.{Codec}
use little_actors.Host.Runtime.{
  WritePlan, CommitOrigin, PendingStateCommit, CachedActorState, prepared, wrote, read_clock,
  Surroundings, ask, History, Held, saturating_add, state_write_ticket_safety_ms,
}

-- A call on what is held.
abbrev pub outside :
    {Bytes : Type 0} {A : Type 0} → Action (History Bytes) A → Action (Held Bytes) A
outside call held =
    let (history, answer) = call held.history in (record held { history = history }, answer)

-- A change of the cached state.
abbrev pub update :
    {Bytes : Type 0} → (CachedActorState → CachedActorState) → Action (Held Bytes) (Unit {0})
update change held = (record held { cached = change held.cached }, ok tt)

abbrev pub set_pending : Option PendingStateCommit → CachedActorState → CachedActorState
set_pending pending cached = record cached { pending = pending }

-- The cached state once its pending commit is durable.
abbrev pub settled : PendingStateCommit → WritePlan → CachedActorState → CachedActorState
settled pending next cached = record cached {
  pending = none;
  state_version = pending.snapshot.state_version;
  state = some pending.state;
  last_request_id = some pending.snapshot.request_id;
  last_result = some pending.snapshot.result;
  next_write = some next;
}

module _ {Bytes : Type 0} where
  -- The last part of `finish_pending_commit`.
  unfoldable pub settle : PendingStateCommit → Action (Held Bytes) (Unit {0})
  settle pending = do
    version ← lift (checked_add pending.snapshot.state_version 1 "state version overflow")
    update (
        settled pending (record pending.ticket {
          state_version = version;
          object_name = object_name pending.ticket.stream.prefix version;
        }))

module _ (c : Codec) (s : Surroundings c) where
  abbrev Bytes : Type 0
  Bytes = Codec.Bytes c

  -- `StateSnapshot::new`
  unfoldable pub new_snapshot : ℕ → ℕ → Text → Value → Value → Result StateSnapshot
  new_snapshot version owner_epoch request_id state result =
      little_actors.Prelude.◌>>=◌ (s.encoders.value_to_vec state) (λ raw.
        let snapshot : StateSnapshot = record {
          attribution = none;
          state_version = version;
          owner_epoch = owner_epoch;
          request_id = request_id;
          state = raw;
          result = result;
        } in
        little_actors.Prelude.◌>>◌ (validate snapshot) (ok snapshot))

  -- `StateSnapshot::encode`
  unfoldable pub encode : StateSnapshot → Result Bytes
  encode snapshot = little_actors.Prelude.◌>>◌ (validate snapshot) (s.snapshot_to_vec snapshot)

  abbrev pub clock : Action (History Bytes) ℕ
  clock = ask read_clock s.unix_millis

  unfoldable pub prepare_write : ActorInvocation → ℕ → Action (Held Bytes) WritePlan
  prepare_write invocation owner_epoch held =
      let version = held.cached.state_version in
      outside
        (ask (prepared invocation.actor owner_epoch version)
          (λ h. s.prepare_state_write h invocation.actor owner_epoch version))
        held

  -- A new ticket for the pending commit, if its own is about to expire.
  unfoldable pub renew_if :
      Bool → ActorInvocation → ℕ → PendingStateCommit → Action (Held Bytes) PendingStateCommit
  unfolding prepare_write
  renew_if false invocation owner_epoch pending = pure pending
  renew_if true invocation owner_epoch pending = do
    renewed ← prepare_write invocation owner_epoch
    lift (
        ensure
          (stream_beq renewed.stream pending.ticket.stream
            && renewed.object_name == pending.ticket.object_name)
          "pending writer has been fenced")
    update (set_pending (some (record pending { ticket = renewed })))
    pure (record pending { ticket = renewed })

  unfoldable pub write_pending :
      ActorInvocation → ℕ → PendingStateCommit → Action (Held Bytes) PendingStateCommit
  unfolding renew_if encode saturating_add
  write_pending invocation owner_epoch pending = do
    now ← outside clock
    current ←
        renew_if (leb pending.ticket.expires_at_ms (saturating_add now 5000)) invocation owner_epoch
          pending
    bytes ← lift (encode current.snapshot)
    _ ← outside (ask (wrote current.ticket bytes) (λ h. s.write_snapshot h current.ticket bytes))
    update (set_pending (some (record current { durable = true })))
    pure (record current { durable = true })

  unfoldable pub make_durable :
      ActorInvocation → ℕ → PendingStateCommit → Action (Held Bytes) PendingStateCommit
  unfolding write_pending
  make_durable invocation owner_epoch pending =
      if pending.durable then pure pending else write_pending invocation owner_epoch pending

  unfoldable pub finish_pending :
      ActorInvocation → ℕ → Option PendingStateCommit → Action (Held Bytes) (Unit {0})
  unfolding make_durable settle
  finish_pending invocation owner_epoch none = pure tt
  finish_pending invocation owner_epoch (some pending) = do
    durable ← make_durable invocation owner_epoch pending
    settle durable

  unfoldable pub finish_pending_commit : ActorInvocation → Action (Held Bytes) (Unit {0})
  unfolding finish_pending
  finish_pending_commit invocation held =
      finish_pending invocation held.cached.owner_epoch held.cached.pending held

  -- The ticket that the last write left, if it still serves, or a new one.
  unfoldable pub ticket_for :
      ActorInvocation → ℕ → ℕ → Option WritePlan → Action (Held Bytes) WritePlan
  unfolding prepare_write saturating_add
  ticket_for invocation owner_epoch version none = prepare_write invocation owner_epoch
  ticket_for invocation owner_epoch version (some ticket) =
      if eqb ticket.state_version version
      then (do
        now ← outside clock
        if ltb (saturating_add now state_write_ticket_safety_ms) ticket.expires_at_ms
            then pure ticket
            else prepare_write invocation owner_epoch)
      else prepare_write invocation owner_epoch

  unfoldable pub take_ticket : ActorInvocation → ℕ → ℕ → Action (Held Bytes) WritePlan
  unfolding ticket_for
  take_ticket invocation owner_epoch version held =
      ticket_for invocation owner_epoch version held.cached.next_write
        (record held { cached = record held.cached { next_write = none } })

  unfoldable pub attributed : ActorInvocation → CommitOrigin → ℕ → StateSnapshot → StateSnapshot
  attributed invocation origin now snapshot = record snapshot {
    attribution = some (record {
      operation = invocation.method;
      connection_id = origin.connection_id;
      committed_at_ms = now;
      interleaved = origin.interleaved;
    });
  }

  -- The write of a pending commit that was just installed.
  unfoldable pub install : PendingStateCommit → Bytes → Action (Held Bytes) (Unit {0})
  install pending bytes = do
    update (set_pending (some pending))
    _ ← outside (ask (wrote pending.ticket bytes) (λ h. s.write_snapshot h pending.ticket bytes))
    update (set_pending (some (record pending { durable = true })))

  unfoldable pub publish_with :
      ActorInvocation
      → ℕ
      → Value
      → Value
      → CommitOrigin
      → ℕ
      → WritePlan
      → Action (Held Bytes) ActorExecutionResult
  unfolding new_snapshot encode attributed install finish_pending_commit
  publish_with invocation owner_epoch result state origin version ticket = do
    lift (ensure (eqb ticket.state_version version) "state write ticket has the wrong version")
    lift (
        ensure (eqb ticket.stream.owner_epoch owner_epoch)
          "write capability belongs to another owner epoch")
    snapshot ← lift (new_snapshot version owner_epoch invocation.request_id state result)
    now ← outside clock
    let snapshot' = attributed invocation origin now snapshot
    bytes ← lift (encode snapshot')
    install (record { snapshot = snapshot'; state = state; ticket = ticket; durable = false }) bytes
    finish_pending_commit invocation
    pure (completed result [])

  unfoldable pub then_publish :
      ActorInvocation
      → ℕ
      → Value
      → Value
      → CommitOrigin
      → ℕ
      → Action (Held Bytes) ActorExecutionResult
  unfolding take_ticket publish_with
  then_publish invocation owner_epoch result state origin version = do
    ticket ← take_ticket invocation owner_epoch version
    publish_with invocation owner_epoch result state origin version ticket

  -- `publish_result` and `publish_result_once`
  unfoldable pub publish_result :
      ActorInvocation → ℕ → Value → Value → CommitOrigin → Action (Held Bytes) ActorExecutionResult
  unfolding then_publish
  publish_result invocation owner_epoch result state origin held =
      continue (then_publish invocation owner_epoch result state origin) held
        (checked_add held.cached.state_version 1 "actor state version overflow")
