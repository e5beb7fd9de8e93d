-- ===== src/Host/Runtime.antt =====
-- The runtime of one actor: the cached state, its pending commit, and what it asks of its
-- surroundings (src/host/actor_runtime.rs). Every call of the storage, the snapshot writer, the
-- publisher, the executor and the clock is an entry of a history, the newest first, and the answers
-- are any functions of the history. Times are milliseconds that are not negative.
pub mod Publishing
pub mod Invoking
pub mod Operations
pub mod Acknowledging
pub mod Replaying
pub mod Committed
pub mod Serial
pub mod Running
pub mod Serving
pub mod Soundness
pub mod Keeping
pub mod Published
pub mod Pending
pub mod Confirming
pub mod Mailbox
use little_actors.Prelude.{
  ℕ, zero, suc, ◌+◌, ◌-◌, ◌^◌, Bool, true, false, Option, none, some, List, [], ◌∷◌, ◌==◌, leb,
  Result, ok, err, Checked,
}
use little_actors.Prelude.Text.{Text, text_eq}
use little_actors.Prelude.Action.{Action}
use little_actors.Json.{Value}
use little_actors.Actor.{ActorKey}
use little_actors.Actor.Outcome.{
  ActorMethodOutcome, ActorInterleavedOutcome, ActorInvocation, ActorInvocationFailure,
}
use little_actors.Replica.{ReplicaStream, stream_beq}
use little_actors.Replica.Ticket.{ReplicationTicket}
use little_actors.Sockets.{ActorSocketEffect, ActorSocketInvocation}
use little_actors.Sockets.Validation.{Encoders}
use little_actors.Snapshot.{StateSnapshot}
use little_actors.Wire.{Codec}

pub record WritePlan : Type 0 where
  pub stream : ReplicaStream
  pub state_version : ℕ
  pub object_name : Text
  pub expires_at_ms : ℕ
  pub replication : Option ReplicationTicket

pub data StateWrite : Type 0 where
  written already_exists replicated : StateWrite

pub record ActorActivation (Bytes : Type 0) : Type 0 where
  pub owner_epoch : ℕ
  pub state_version : ℕ
  pub state : Option Bytes

pub data ActorSocketOutcome : Type 0 where
  interleaved_socket : ActorInterleavedOutcome → ActorSocketOutcome
  handled : Value → List ActorSocketEffect → ActorSocketOutcome
  not_handled : ActorInvocationFailure → ActorSocketOutcome

pub record CommitOrigin : Type 0 where
  pub connection_id : Option Text
  pub interleaved : Bool

pub record PendingStateCommit : Type 0 where
  pub snapshot : StateSnapshot
  pub state : Value
  pub ticket : WritePlan
  pub durable : Bool

pub record CachedActorState : Type 0 where
  pub owner_epoch : ℕ
  pub state_version : ℕ
  pub state : Option Value
  pub last_request_id : Option Text
  pub last_result : Option Value
  pub next_write : Option WritePlan
  pub pending : Option PendingStateCommit

-- `CachedActorState::new`
unfoldable pub new_cached : ℕ → CachedActorState
new_cached owner_epoch = record {
  owner_epoch = owner_epoch;
  state_version = 0;
  state = none;
  last_request_id = none;
  last_result = none;
  next_write = none;
  pending = none;
}

-- A call with its arguments and its answer.
pub data Call (Bytes : Type 0) : Type 0 where
  checked_authority : Checked → Call Bytes
  read_clock : Result ℕ → Call Bytes
  prepared : ActorKey → ℕ → ℕ → Result WritePlan → Call Bytes
  wrote : WritePlan → Bytes → Result StateWrite → Call Bytes
  loaded : ActorKey → ℕ → Result (ℕ × Bytes) → Call Bytes
  acquired : ActorKey → Result (ActorActivation Bytes) → Call Bytes
  hydrated : ActorKey → Option Value → Checked → Call Bytes
  published : ActorKey → List ActorSocketEffect → Checked → Call Bytes
  evicted : ActorKey → Checked → Call Bytes
  invoked : ActorInvocation → Option Value → Result ActorMethodOutcome → Call Bytes
  handled_socket : ActorSocketInvocation → Option Value → Result ActorSocketOutcome → Call Bytes

abbrev pub History : Type 0 → Type 0
History Bytes = List (Call Bytes)

-- The formats, and the answers of the surroundings.
pub record Surroundings (c : Codec) : Type 0 where
  -- `serde_json::to_vec` of a snapshot, `from_str` of a value, and `==` on values
  pub snapshot_to_vec : StateSnapshot → Result (Codec.Bytes c)
  pub value_from_str : Text → Result Value
  pub value_beq : Value → Value → Bool
  pub encoders : Encoders
  pub ensure_authority : History (Codec.Bytes c) → Checked
  -- the clock, which may stand before the epoch
  pub unix_millis : History (Codec.Bytes c) → Result ℕ
  pub prepare_state_write : History (Codec.Bytes c) → ActorKey → ℕ → ℕ → Result WritePlan
  pub write_snapshot : History (Codec.Bytes c) → WritePlan → Codec.Bytes c → Result StateWrite
  pub load_actor_state : History (Codec.Bytes c) → ActorKey → ℕ → Result (ℕ × Codec.Bytes c)
  pub acquire_actor : History (Codec.Bytes c) → ActorKey → Result (ActorActivation (Codec.Bytes c))
  pub hydrate : History (Codec.Bytes c) → ActorKey → Option Value → Checked
  pub publish : History (Codec.Bytes c) → ActorKey → List ActorSocketEffect → Checked
  pub evict_actor : History (Codec.Bytes c) → ActorKey → Checked
  pub invoke_shared :
      History (Codec.Bytes c) → ActorInvocation → Option Value → Result ActorMethodOutcome
  pub handle_socket_shared :
      History (Codec.Bytes c) → ActorSocketInvocation → Option Value → Result ActorSocketOutcome

-- A call, its answer and the longer history.
abbrev pub ask :
    {Bytes : Type 0} {A : Type 0}
    → (Result A → Call Bytes)
    → (History Bytes → Result A)
    → Action (History Bytes) A
ask entry answer h = (entry (answer h) ∷ h, answer h)

-- `ActorRuntime`
pub record ActorRuntime (Bytes : Type 0) : Type 0 where
  pub history : History Bytes
  pub cached_state : Option CachedActorState
  pub activation : Option (ActorActivation Bytes)

-- What a commit works on: the cached state that was taken from the runtime.
pub record Held (Bytes : Type 0) : Type 0 where
  pub history : History Bytes
  pub cached : CachedActorState

-- `a.saturating_add(b)` on `i64`, of numbers that are not negative
unfoldable pub saturating_add : ℕ → ℕ → ℕ
saturating_add a b = elim (leb (a + b) (2 ^ 63 - 1)) [ true ↦ a + b | false ↦ 2 ^ 63 - 1 ]

abbrev pub state_write_ticket_safety_ms : ℕ
state_write_ticket_safety_ms = 5000
