-- ===== src/Host/Admission.antt =====
-- The mailbox of an actor: admission, execution and the commits of interleaved snapshots in their
-- order (src/host/actor_host/admission.rs). The actor's runtime and its executor are a parameter:
-- the mailbox is told by an event what an execution came to. Traces and timings are left out.
pub mod Draining
pub mod Committing
pub mod Ordering
pub mod Preserving
use little_actors.Prelude.{
  ℕ, zero, suc, ◌+◌, Bool, true, false, not, ◌&&◌, ◌||◌, Option, none, some, List, [], ◌∷◌, ◌==◌,
  nat_eq, eqb, ltb, length, Result, ok, err, Checked, if◌then◌else◌,
}
use little_actors.Prelude.Dict.{Dict, lookup, insert, remove}
use little_actors.Prelude.Text.{Text, text, text_eq}
use little_actors.Json.{Value, null}
use little_actors.Actor.{ActorKey}
use little_actors.Actor.Outcome.{
  ActorRequest, ActorOperation, activate, method, socket, is_disconnect, actor_of, ActorInvocation,
  ActorInvocationFailure, ActorExecutionResult, completed, failed, reroute, host_unavailable,
  ActorInterleavedOutcome, ActorMethodOutcome, interleaved, returned, not_returned,
  outcome_unknown_after_execution,
}

pub data PreparedInvocation : Type 0 where
  execute : Option Value → PreparedInvocation
  answered : ActorExecutionResult → PreparedInvocation

-- `ActorRuntime`, over a type of states
pub record Runtime : Type 1 where
  pub State : Type 0
  pub prepare_invocation : State → ActorRequest → State × Result PreparedInvocation
  pub activate_actor : State → ActorKey → State × Checked
  pub finish_serial :
      State → ActorRequest → Result ActorMethodOutcome → State × Result ActorExecutionResult
  pub commit_interleaved :
      State → ActorRequest → ActorInterleavedOutcome → State × Result ActorExecutionResult
  pub evict : State → ActorKey → State

pub record Mailbox (S : Type 0) : Type 0 where
  pub runtime : S
  -- what was sent to `completed`, the newest first
  pub finished : List (ActorRequest × Result ActorExecutionResult)
  -- the executions, each with the state that it was given
  pub running : Dict ℕ (ActorRequest × Option Value)
  pub ready : Dict ℕ (ℕ × ActorRequest × ActorInterleavedOutcome)
  pub next_invocation : ℕ
  pub blocked_on : Option ℕ
  pub is_interleaved : Bool
  pub next_sequence : ℕ

-- The mailbox at the start of `run`.
unfoldable pub new_mailbox : {S : Type 0} → S → Mailbox S
new_mailbox runtime = record {
  runtime = runtime;
  finished = [];
  running = [];
  ready = [];
  next_invocation = 0;
  blocked_on = none;
  is_interleaved = false;
  next_sequence = 1;
}

abbrev pub has_value {ℓ} : {A : Type ℓ} → Option A → Bool
has_value none = false
has_value (some a) = true

-- The failures of a method that an interleaved actor goes on after.
abbrev pub is_method_failure : Text → Bool
is_method_failure code =
    code == text "actor_method_failed"
    || code == text "actor_socket_failed"
    || code == text "method_not_found"
    || code == text "method_not_callable"

module _ (r : Runtime) where
  abbrev pub Box : Type 0
  Box = Mailbox (Runtime.State r)

  unfoldable pub finish : ActorRequest → Result ActorExecutionResult → Box → Box
  finish request result box = record box { finished = (request, result) ∷ box.finished }

  -- The mailbox goes on if the answer is `true`.
  unfoldable pub stop : ActorRequest → Box → Box × Bool
  unfolding finish
  stop request box = (
    finish request (ok (failed outcome_unknown_after_execution))
        (record box { runtime = r.evict box.runtime (actor_of request.operation) }),
    false,
  )

  unfoldable pub release : ℕ → Box → Box
  release id box = elim box.blocked_on [
    | none ↦ box
    | some blocked ↦ if eqb blocked id then record box { blocked_on = none } else box
  ]

  unfoldable pub activate_in : ActorKey → ActorRequest → Box → Box × Bool
  unfolding finish
  activate_in actor request box =
      let (runtime, result) = r.activate_actor box.runtime actor in
      let request' = record request {
        operation = method (record {
          request_id = text "activate";
          actor = actor;
          method = text "activate";
          args = [];
        });
      } in
      (
        finish request' (ok (completed null [])) (record box { runtime = runtime }),
        elim result [ ok _ ↦ true | err e ↦ false ],
      )

  unfoldable pub admit_prepared : ActorRequest → Box → Result PreparedInvocation → Box × Bool
  unfolding finish stop
  admit_prepared request box (ok (execute state)) =
      let id = suc box.next_invocation in
      (
        record box {
          next_invocation = id;
          blocked_on = some id;
          running = insert id (request, state) box.running;
        },
        true,
      )
  admit_prepared request box (ok (answered result)) = (finish request (ok result) box, true)
  admit_prepared request box (err e) = stop request box

  unfoldable pub admit_operation : ActorOperation → ActorRequest → Box → Box × Bool
  unfolding activate_in admit_prepared
  admit_operation (activate actor) request box = activate_in actor request box
  admit_operation operation request box =
      let (runtime, prepared) = r.prepare_invocation box.runtime request in
      admit_prepared request (record box { runtime = runtime }) prepared

  unfoldable pub admit : ActorRequest → Bool → Box → Box × Bool
  unfolding admit_operation finish
  admit request accepting box =
      if not accepting && not (is_disconnect request.operation)
      then (finish request (ok host_unavailable) box, true)
      else admit_operation request.operation request box

  -- After a commit: whether the loop goes on.
  unfoldable pub committed : ℕ → ActorRequest → Box → Result ActorExecutionResult → Box × Bool
  unfolding finish release stop
  committed id request box (ok (completed result effects)) = (
    release id (
        finish request (ok (completed result effects))
          (record box { next_sequence = suc box.next_sequence })),
    true,
  )
  committed id request box (ok (failed failure)) = stop request box
  committed id request box (ok reroute) = stop request box
  committed id request box (ok host_unavailable) = stop request box
  committed id request box (err e) = stop request box

  unfoldable pub commit_one : ℕ → ActorRequest → ActorInterleavedOutcome → Box → Box × Bool
  unfolding committed
  commit_one id request outcome box =
      let (runtime, result) = r.commit_interleaved box.runtime request outcome in
      committed id request
        (record box { runtime = runtime; ready = remove box.next_sequence box.ready }) result

  -- The loop of `commit_ready`, which removes an entry in each round.
  unfoldable pub commit_in : ℕ → Box → Box × Bool
  unfolding commit_one
  commit_in zero box = (box, true)
  commit_in (suc rounds) box = elim (lookup box.next_sequence box.ready) [
    | none ↦ (box, true)
    | some (id, request, outcome) ↦
        let (box', continues) = commit_one id request outcome box in
        let rest = commit_in rounds box' in if continues then rest else (box', false)
  ]

  unfoldable pub commit_ready : Box → Box × Bool
  unfolding commit_in
  commit_ready box = commit_in (length box.ready) box

  unfoldable pub executed_interleaved :
      ℕ → ActorRequest → ActorInterleavedOutcome → Box → Box × Bool
  unfolding commit_ready stop
  executed_interleaved id request outcome box =
      if ltb outcome.sequence box.next_sequence || has_value (lookup outcome.sequence box.ready)
      then stop request box
      else commit_ready
          (record box { ready = insert outcome.sequence (id, request, outcome) box.ready })

  unfoldable pub executed_among : ℕ → ActorRequest → Result ActorMethodOutcome → Box → Box × Bool
  unfolding finish stop release
  executed_among id request (ok (not_returned failure)) box =
      if is_method_failure failure.code
      then (
        release id (
            finish request
              (ok (failed (record { code = text "actor_error"; message = failure.message }))) box),
        true,
      )
      else stop request box
  executed_among id request result box = stop request box

  unfoldable pub executed_alone : ℕ → ActorRequest → Result ActorMethodOutcome → Box → Box × Bool
  unfolding finish release
  executed_alone id request result box =
      let (runtime, answer) = r.finish_serial box.runtime request result in
      (release id (finish request answer (record box { runtime = runtime })), true)

  unfoldable pub executed : ℕ → ActorRequest → Result ActorMethodOutcome → Box → Box × Bool
  unfolding executed_interleaved executed_among executed_alone
  executed id request (ok (interleaved outcome)) box =
      executed_interleaved id request outcome (record box { is_interleaved = true })
  executed id request result box =
      if box.is_interleaved
      then executed_among id request result box
      else executed_alone id request result box

-- What the loop of `run` receives.
pub data Event : Type 0 where
  execution : ℕ → Result ActorMethodOutcome → Event
  permission : Event
  arrival : ActorRequest → Bool → Event

module _ (r : Runtime) where
  unfoldable pub step_execution :
      ℕ → Result ActorMethodOutcome → Option (ActorRequest × Option Value) → Box r → Box r × Bool
  unfolding executed
  step_execution id result none box = (box, true)
  step_execution id result (some (request, state)) box =
      executed r id request result (record box { running = remove id box.running })

  -- One round of the loop of `run`, whose guards leave an event that is not enabled waiting.
  unfoldable pub step : Event → Box r → Box r × Bool
  unfolding step_execution admit
  step (execution id result) box = step_execution id result (lookup id box.running) box
  step permission box =
      if has_value box.blocked_on
      then (record box { is_interleaved = true; blocked_on = none }, true)
      else (box, true)
  step (arrival request accepting) box =
      if has_value box.blocked_on then (box, true) else admit r request accepting box

  unfoldable pub run : List Event → Box r → Box r
  unfolding step
  run [] box = box
  run (event ∷ events) box =
      let (box', continues) = step event box in
      let rest = run events box' in if continues then rest else box'
