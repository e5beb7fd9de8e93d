-- ===== src/Host/Admission/Ordering.antt =====
-- The sequence numbers of interleaved snapshots in a run (src/host/actor_host/admission.rs).
use little_actors.Prelude.{
  ℕ, Bool, true, false, ◌≡◌, refl, Option, none, some, Bool-cases, inl, inr, List, [], ◌∷◌, ◌&&◌,
  not, nat_eq, Result, ok, err, arith, if◌then◌else◌, not,
}
use little_actors.Prelude.Dict.{Dict, lookup, remove}
use little_actors.Json.{Value}
use little_actors.Actor.Outcome.{
  ActorRequest, ActorOperation, activate, method, socket, ActorExecutionResult, failed,
  ActorInterleavedOutcome, ActorMethodOutcome, interleaved, returned, not_returned, is_disconnect,
}
use little_actors.Host.Admission.{
  Runtime, Box, Event, execution, permission, arrival, PreparedInvocation, execute, answered,
  new_mailbox, has_value, is_method_failure, finish, admit, admit_operation, admit_prepared,
  activate_in, executed, executed_among, executed_alone, step, step_execution, run, text,
}
use little_actors.Host.Admission.Committing.{
  recording, numbers_below, log_of, IsOrdered, same-IsOrdered, release-IsOrdered, stop-IsOrdered,
  executed_interleaved-IsOrdered,
}

module _ (r : Runtime) where
  executed_among-IsOrdered :
      (id : ℕ) (request : ActorRequest) (result : Result ActorMethodOutcome)
      (box : Box (recording r))
      → IsOrdered r box
      → IsOrdered r (executed_among (recording r) id request result box).0
  unfolding executed_among finish
  executed_among-IsOrdered id request (ok (interleaved outcome)) box v =
      stop-IsOrdered r request box v
  executed_among-IsOrdered id request (ok (returned result state effects)) box v =
      stop-IsOrdered r request box v
  executed_among-IsOrdered id request (err e) box v = stop-IsOrdered r request box v
  executed_among-IsOrdered id request (ok (not_returned failure)) box v =
      elim (Bool-cases (is_method_failure failure.code)) [
        | inl known ↦
            let answer : Result ActorExecutionResult =
              ok (failed (record { code = text "actor_error"; message = failure.message })) in
            let box' : Box (recording r) = finish (recording r) request answer box in
            rw known (release-IsOrdered r id box' (same-IsOrdered r box box' refl refl refl v))
        | inr unknown ↦ rw unknown (stop-IsOrdered r request box v)
      ]

  executed_alone-IsOrdered :
      (id : ℕ) (request : ActorRequest) (result : Result ActorMethodOutcome)
      (box : Box (recording r))
      → IsOrdered r box
      → IsOrdered r (executed_alone (recording r) id request result box).0
  unfolding executed_alone finish
  executed_alone-IsOrdered id request result box v =
      let (s, answer) = r.finish_serial box.runtime.0 request result in
      let box' : Box (recording r) =
        finish (recording r) request answer (record box { runtime = (s, log_of r box) }) in
      release-IsOrdered r id box' (same-IsOrdered r box box' refl refl refl v)

  executed_other-IsOrdered :
      (id : ℕ) (request : ActorRequest) (result : Result ActorMethodOutcome)
      (box : Box (recording r))
      → IsOrdered r box
      → IsOrdered r
          (if box.is_interleaved
            then executed_among (recording r) id request result box
            else executed_alone (recording r) id request result box).0
  executed_other-IsOrdered id request result box v =
      either_way box.is_interleaved (executed_among (recording r) id request result box)
        (executed_alone (recording r) id request result box)
        (executed_among-IsOrdered id request result box v)
        (executed_alone-IsOrdered id request result box v)
    where
      either_way :
          (b : Bool) (x y : Box (recording r) × Bool)
          → IsOrdered r x.0
          → IsOrdered r y.0
          → IsOrdered r (if b then x else y).0
      either_way true x y p q = p
      either_way false x y p q = q

  executed-IsOrdered :
      (id : ℕ) (request : ActorRequest) (result : Result ActorMethodOutcome)
      (box : Box (recording r))
      → IsOrdered r box
      → IsOrdered r (executed (recording r) id request result box).0
  unfolding executed
  executed-IsOrdered id request (ok (interleaved outcome)) box v =
      let box' : Box (recording r) = record box { is_interleaved = true } in
      executed_interleaved-IsOrdered r id request outcome box'
        (same-IsOrdered r box box' refl refl refl v)
  executed-IsOrdered id request (ok (returned result state effects)) box v =
      executed_other-IsOrdered id request (ok (returned result state effects)) box v
  executed-IsOrdered id request (ok (not_returned failure)) box v =
      executed_other-IsOrdered id request (ok (not_returned failure)) box v
  executed-IsOrdered id request (err e) box v = executed_other-IsOrdered id request (err e) box v

  admit_prepared-IsOrdered :
      (request : ActorRequest) (box : Box (recording r)) (prepared : Result PreparedInvocation)
      → IsOrdered r box
      → IsOrdered r (admit_prepared (recording r) request box prepared).0
  unfolding admit_prepared finish
  admit_prepared-IsOrdered request box (ok (execute state)) v =
      same-IsOrdered r box _ refl refl refl v
  admit_prepared-IsOrdered request box (ok (answered result)) v =
      same-IsOrdered r box _ refl refl refl v
  admit_prepared-IsOrdered request box (err e) v = stop-IsOrdered r request box v

  prepare-IsOrdered :
      (request : ActorRequest) (box : Box (recording r))
      → IsOrdered r box
      → IsOrdered r
          (let (s, prepared) = r.prepare_invocation box.runtime.0 request in
            admit_prepared
              (recording r)
              request
              (record box { runtime = (s, log_of r box) })
              prepared).0
  prepare-IsOrdered request box v =
      let (s, prepared) = r.prepare_invocation box.runtime.0 request in
      let box' : Box (recording r) = record box { runtime = (s, log_of r box) } in
      admit_prepared-IsOrdered request box' prepared (same-IsOrdered r box box' refl refl refl v)

  admit_operation-IsOrdered :
      (operation : ActorOperation) (request : ActorRequest) (box : Box (recording r))
      → IsOrdered r box
      → IsOrdered r (admit_operation (recording r) operation request box).0
  unfolding admit_operation activate_in finish
  admit_operation-IsOrdered (activate actor) request box v = same-IsOrdered r box _ refl refl refl v
  admit_operation-IsOrdered (method invocation) request box v = prepare-IsOrdered request box v
  admit_operation-IsOrdered (socket invocation) request box v = prepare-IsOrdered request box v

  admit-IsOrdered :
      (request : ActorRequest) (accepting : Bool) (box : Box (recording r))
      → IsOrdered r box
      → IsOrdered r (admit (recording r) request accepting box).0
  unfolding admit finish
  admit-IsOrdered request accepting box v =
      elim (Bool-cases (not accepting && not (is_disconnect request.operation))) [
        | inl refused ↦ rw refused (same-IsOrdered r box _ refl refl refl v)
        | inr admitted ↦ rw admitted (admit_operation-IsOrdered request.operation request box v)
      ]

  step_execution-IsOrdered :
      (id : ℕ) (result : Result ActorMethodOutcome) (found : Option (ActorRequest × Option Value))
      (box : Box (recording r))
      → IsOrdered r box
      → IsOrdered r (step_execution (recording r) id result found box).0
  unfolding step_execution
  step_execution-IsOrdered id result none box v = v
  step_execution-IsOrdered id result (some (request, state)) box v =
      let box' : Box (recording r) = record box { running = remove id box.running } in
      executed-IsOrdered id request result box' (same-IsOrdered r box box' refl refl refl v)

  step-IsOrdered :
      (event : Event) (box : Box (recording r))
      → IsOrdered r box
      → IsOrdered r (step (recording r) event box).0
  unfolding step
  step-IsOrdered (execution id result) box v =
      step_execution-IsOrdered id result (lookup id box.running) box v
  step-IsOrdered permission box v = elim (Bool-cases (has_value box.blocked_on)) [
    | inl blocked ↦ rw blocked (same-IsOrdered r box _ refl refl refl v)
    | inr idle ↦ rw idle v
  ]
  step-IsOrdered (arrival request accepting) box v = elim (Bool-cases (has_value box.blocked_on)) [
    | inl blocked ↦ rw blocked v
    | inr idle ↦ rw idle (admit-IsOrdered request accepting box v)
  ]

  run-IsOrdered :
      (events : List Event) (box : Box (recording r))
      → IsOrdered r box
      → IsOrdered r (run (recording r) events box)
  unfolding run
  run-IsOrdered [] box v = v
  run-IsOrdered (event ∷ events) box v =
      let (box', continues) = step (recording r) event box in
      let w = step-IsOrdered event box v in
      elim (Bool-cases continues) [
        | inl goes_on ↦ rw goes_on (run-IsOrdered events box' w)
        | inr ends ↦ rw ends w
      ]

  -- Whatever a new mailbox receives, and however its runtime answers, the snapshots that it has
  -- committed have the sequence numbers from 1 up to the one before the next, in this order, each
  -- once and without a gap.
  pub run-in_order :
      (s : Runtime.State r) (events : List Event)
      → log_of r (run (recording r) events (new_mailbox (s, [])))
        ≡ numbers_below (run (recording r) events (new_mailbox (s, []))).next_sequence
  unfolding new_mailbox
  run-in_order s events =
      (run-IsOrdered events (new_mailbox (s, [])) (record {
        positive = omega arith;
        log = unfold numbers_below in refl;
        keyed = λ k id request outcome e. absurd (nothing k id request outcome e);
      })).log
    where
      nothing :
          (k id : ℕ) (request : ActorRequest) (outcome : ActorInterleavedOutcome)
          → lookup k (let m : Dict ℕ (ℕ × ActorRequest × ActorInterleavedOutcome) = [] in m)
            ≡ some (id, request, outcome)
          → ⊥
      nothing k id request outcome e = unfold lookup in cc
