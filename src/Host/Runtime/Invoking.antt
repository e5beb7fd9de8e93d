-- ===== src/Host/Runtime/Invoking.antt =====
-- The runtime's part in an invocation: the state before it, and the commit and the notifications
-- after it (src/host/actor_runtime.rs), and the runtime as a mailbox sees it
-- (src/host/actor_host.rs). Logs and timings are left out.
use little_actors.Prelude.{
  ℕ, suc, Bool, true, false, not, ◌&&◌, ◌||◌, Option, none, some, List, [], ◌∷◌, ◌==◌, eqb, leb,
  Result, ok, err, Checked, ensure, context, if◌then◌else◌,
}
use little_actors.Prelude.Text.{Text, text, text_eq}
use little_actors.Prelude.Action.{Action, pure, lift}
use little_actors.Prelude.Program.{◌>>=◌}
use little_actors.Json.{Value}
use little_actors.Actor.{ActorKey}
use little_actors.Actor.Outcome.{
  ActorInvocation, ActorExecutionResult, completed, failed, outcome_unknown_after_execution,
  ActorOperation, activate, method, socket,
}
use little_actors.Sockets.{
  ActorSocketEffect, ActorSocketEvent, connect, message, disconnect, state_snapshot, state_update,
}
use little_actors.Replica.Store.{decode}
use little_actors.Wire.{Codec}
use little_actors.Host.Admission.{PreparedInvocation, execute, answered}
use little_actors.Host.Runtime.{
  CommitOrigin, CachedActorState, new_cached, ActorRuntime, Held, History, Surroundings, ask,
  checked_authority, loaded, evicted,
}

-- A commit on a cached state, which then goes back to the runtime, whatever the commit came to.
abbrev pub holding :
    {Bytes : Type 0} {A : Type 0}
    → Action (Held Bytes) A
    → CachedActorState
    → Action (ActorRuntime Bytes) (CachedActorState × Result A)
holding commit cached runtime =
    let (held, result) = commit (record { history = runtime.history; cached = cached }) in
    (
      record runtime { history = held.history; cached_state = some held.cached },
      ok (held.cached, result),
    )

abbrev pub beside :
    {Bytes : Type 0} {A : Type 0} → Action (History Bytes) A → Action (ActorRuntime Bytes) A
beside call runtime =
    let (history, answer) = call runtime.history in (record runtime { history = history }, answer)

abbrev pub restore : {Bytes : Type 0} → CachedActorState → Action (ActorRuntime Bytes) (Unit {0})
restore cached runtime = (record runtime { cached_state = some cached }, ok tt)

-- `self.cached_state.take()`
abbrev pub take_cached : {Bytes : Type 0} → Action (ActorRuntime Bytes) (Option CachedActorState)
take_cached runtime = (record runtime { cached_state = none }, ok runtime.cached_state)

-- The last result, if the last request is this one.
unfoldable pub replay_of : Option Text → Option Value → Text → Option Value
replay_of none result request_id = none
replay_of (some last) result request_id = if last == request_id then result else none

-- `CachedActorState::replay`
unfoldable pub replay : CachedActorState → Text → Option Value
unfolding replay_of
replay cached request_id = replay_of cached.last_request_id cached.last_result request_id

-- A result that is known is answered.
abbrev pub known_or_execute : Option Value → Option Value → PreparedInvocation
known_or_execute state none = execute state
known_or_execute state (some result) = answered (completed result [])

abbrev pub socket_event_name : ActorSocketEvent → Text
socket_event_name (connect connection) = text "onConnect"
socket_event_name (message id m) = text "onMessage"
socket_event_name (disconnect connection code reason clean) = text "onDisconnect"

abbrev pub event_connection : ActorSocketEvent → Text
event_connection (connect connection) = connection.id
event_connection (message id m) = id
event_connection (disconnect connection code reason clean) = connection.id

-- `ActorOperation::invocation`
abbrev pub invocation_of : ActorOperation → ActorInvocation
invocation_of (activate actor) = record {
  request_id = text "activate";
  actor = actor;
  method = text "activate";
  args = [];
}
invocation_of (method invocation) = invocation
invocation_of (socket invocation) = record {
  request_id = invocation.request_id;
  actor = invocation.actor;
  method = socket_event_name invocation.event;
  args = [];
}

-- `ActorOperation::commit_origin`
abbrev pub commit_origin : ActorOperation → CommitOrigin
commit_origin (activate actor) = record { connection_id = none; interleaved = false }
commit_origin (method invocation) = record { connection_id = none; interleaved = false }
commit_origin (socket invocation) = record {
  connection_id = some (event_connection invocation.event);
  interleaved = false;
}

abbrev pub is_method : ActorOperation → Bool
is_method (method invocation) = true
is_method (activate actor) = false
is_method (socket invocation) = false

-- The effects that announce a state, with its version, and the others: the `partition` and the loop
-- of `complete_with_state`.
unfoldable pub automatic : ℕ → List ActorSocketEffect → List ActorSocketEffect
automatic version [] = []
automatic version (state_snapshot id state v ∷ effects) =
    state_snapshot id state (some version) ∷ automatic version effects
automatic version (state_update changes removed except_ids v ∷ effects) =
    state_update changes removed except_ids (some version) ∷ automatic version effects
automatic version (effect ∷ effects) = automatic version effects

unfoldable pub explicit : List ActorSocketEffect → List ActorSocketEffect
explicit [] = []
explicit (state_snapshot id state v ∷ effects) = explicit effects
explicit (state_update changes removed except_ids v ∷ effects) = explicit effects
explicit (effect ∷ effects) = effect ∷ explicit effects

abbrev pub is_nil {ℓ} : {A : Type ℓ} → List A → Bool
is_nil [] = true
is_nil (x ∷ xs) = false

abbrev pub unknown : ActorExecutionResult
unknown = failed outcome_unknown_after_execution

module _ (c : Codec) (s : Surroundings c) where
  abbrev Bytes : Type 0
  Bytes = Codec.Bytes c

  abbrev pub Act : Type 0 → Type 0
  Act A = Action (ActorRuntime Bytes) A

  abbrev pub authority : Act (Unit {0})
  authority = beside (ask checked_authority s.ensure_authority)

  -- `evict`, whose error is only logged.
  unfoldable pub evict : ActorKey → ActorRuntime Bytes → ActorRuntime Bytes
  evict actor runtime = (beside (ask (evicted actor) (λ h. s.evict_actor h actor)) runtime).0

  unfoldable pub from_loaded : ℕ → ℕ → Bytes → Result CachedActorState
  from_loaded owner_epoch version bytes = little_actors.Prelude.◌>>=◌ (decode c bytes) (λ snapshot.
      little_actors.Prelude.◌>>◌
        (ensure (eqb snapshot.state_version version)
          "actor snapshot version does not match its state head")
        (little_actors.Prelude.◌>>◌
          (ensure (leb snapshot.owner_epoch owner_epoch)
            "actor snapshot belongs to a newer owner epoch")
          (little_actors.Prelude.◌>>=◌ (s.value_from_str snapshot.state) (λ state. ok (record {
            owner_epoch = owner_epoch;
            state_version = version;
            state = some state;
            last_request_id = some snapshot.request_id;
            last_result = some snapshot.result;
            next_write = none;
            pending = none;
          })))))

  -- The state that a load gave.
  unfoldable pub cached_from : Bool → ℕ → ℕ → Bytes → Result CachedActorState
  unfolding from_loaded
  cached_from true owner_epoch version bytes =
      little_actors.Prelude.◌>>◌ (ensure (eqb (c.len bytes) 0) "uninitialized actor has state")
        (ok (new_cached owner_epoch))
  cached_from false owner_epoch version bytes = from_loaded owner_epoch version bytes

  unfoldable pub load_answer : ℕ → ℕ × Bytes → Act CachedActorState
  unfolding cached_from
  load_answer owner_epoch (version, bytes) =
      lift (cached_from (eqb version 0) owner_epoch version bytes)

  unfoldable pub load_state : ActorKey → ℕ → Act CachedActorState
  unfolding load_answer
  load_state actor owner_epoch = do
    answer ← beside (ask (loaded actor owner_epoch) (λ h. s.load_actor_state h actor owner_epoch))
    load_answer owner_epoch answer

  unfoldable pub state_or_load : ActorKey → ℕ → Option CachedActorState → Act CachedActorState
  unfolding load_state
  state_or_load actor owner_epoch none = load_state actor owner_epoch
  state_or_load actor owner_epoch (some cached) =
      if eqb cached.owner_epoch owner_epoch then pure cached else load_state actor owner_epoch

  unfoldable pub take_or_load_state : ActorKey → ℕ → Act CachedActorState
  unfolding state_or_load
  take_or_load_state actor owner_epoch = do
    cached ← take_cached
    state_or_load actor owner_epoch cached

  -- What to do once no commit is pending.
  unfoldable pub answer_or_execute : Text → Bool → CachedActorState → PreparedInvocation
  unfolding replay
  answer_or_execute request_id replays cached =
      known_or_execute cached.state (if replays then replay cached request_id else none)
