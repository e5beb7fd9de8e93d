-- ===== src/Host/Admission/Preserving.antt =====
-- Predicates on an actor's runtime, through its mailbox (src/host/actor_host/admission.rs).
use little_actors.Prelude.{
  ℕ, zero, suc, Bool, true, false, not, ◌&&◌, ◌||◌, subst, sym, Option-cases, inl, inr, List, [],
  ◌∷◌, nat_eq, ltb, Result, ok, err, if◌then◌else◌,
}
use little_actors.Prelude.Dict.{lookup, insert, remove}
use little_actors.Actor.{ActorKey}
use little_actors.Actor.Outcome.{
  ActorRequest, ActorOperation, activate, method, socket, is_disconnect, ActorExecutionResult,
  completed, failed, reroute, host_unavailable, ActorInterleavedOutcome, ActorMethodOutcome,
  interleaved, returned, not_returned, actor_of,
}
use little_actors.Host.Admission.{
  Runtime, Box, PreparedInvocation, execute, answered, finish, stop, release, activate_in,
  admit_prepared, admit_operation, admit, committed, commit_one, commit_in, commit_ready,
  executed_interleaved, executed_among, executed_alone, executed, Event, execution, permission,
  arrival, step_execution, step, run, has_value, is_method_failure,
}
use little_actors.Host.Admission.Draining.{release-same}

pub record Preserves (r : Runtime) (P : Runtime.State r → Type 0) : Type 0 where
  pub by_prepare :
      (x : Runtime.State r) (request : ActorRequest) → P x → P (r.prepare_invocation x request).0
  pub by_activate : (x : Runtime.State r) (actor : ActorKey) → P x → P (r.activate_actor x actor).0
  pub by_finish :
      (x : Runtime.State r) (request : ActorRequest) (outcome : Result ActorMethodOutcome)
      → P x
      → P (r.finish_serial x request outcome).0
  pub by_commit :
      (x : Runtime.State r) (request : ActorRequest) (outcome : ActorInterleavedOutcome)
      → P x
      → P (r.commit_interleaved x request outcome).0
  pub by_evict : (x : Runtime.State r) (actor : ActorKey) → P x → P (r.evict x actor)

module _ (r : Runtime) (P : Runtime.State r → Type 0) (keeps : Preserves r P) where
  abbrev Holds : Box r × Bool → Type 0
  Holds result = P result.0.runtime

  either_way : (b : Bool) (x y : Box r × Bool) → Holds x → Holds y → Holds (if b then x else y)
  either_way true x y p q = p
  either_way false x y p q = q

  release-P : (id : ℕ) (box : Box r) → P box.runtime → P (release r id box).runtime
  release-P id box p = subst P (sym (release-same r id box).2) p

  stop-P : (request : ActorRequest) (box : Box r) → P box.runtime → Holds (stop r request box)
  unfolding stop finish
  stop-P request box p = keeps.by_evict box.runtime (actor_of request.operation) p

  admit_prepared-P :
      (request : ActorRequest) (box : Box r) (prepared : Result PreparedInvocation)
      → P box.runtime
      → Holds (admit_prepared r request box prepared)
  unfolding admit_prepared finish
  admit_prepared-P request box (ok (execute state)) p = p
  admit_prepared-P request box (ok (answered result)) p = p
  admit_prepared-P request box (err e) p = stop-P request box p

  admit_operation-P :
      (operation : ActorOperation) (request : ActorRequest) (box : Box r)
      → P box.runtime
      → Holds (admit_operation r operation request box)
  unfolding admit_operation activate_in finish
  admit_operation-P (activate actor) request box p = keeps.by_activate box.runtime actor p
  admit_operation-P (method invocation) request box p =
      admit_prepared-P request
        (record box { runtime = (r.prepare_invocation box.runtime request).0 })
        (r.prepare_invocation box.runtime request).1 (keeps.by_prepare box.runtime request p)
  admit_operation-P (socket invocation) request box p =
      admit_prepared-P request
        (record box { runtime = (r.prepare_invocation box.runtime request).0 })
        (r.prepare_invocation box.runtime request).1 (keeps.by_prepare box.runtime request p)

  admit-P :
      (request : ActorRequest) (accepting : Bool) (box : Box r)
      → P box.runtime
      → Holds (admit r request accepting box)
  unfolding admit finish
  admit-P request accepting box p =
      either_way (not accepting && not (is_disconnect request.operation)) _ _ p
        (admit_operation-P request.operation request box p)

  committed-P :
      (id : ℕ) (request : ActorRequest) (box : Box r) (result : Result ActorExecutionResult)
      → P box.runtime
      → Holds (committed r id request box result)
  unfolding committed finish
  committed-P id request box (ok (completed result effects)) p = release-P id _ p
  committed-P id request box (ok (failed failure)) p = stop-P request box p
  committed-P id request box (ok reroute) p = stop-P request box p
  committed-P id request box (ok host_unavailable) p = stop-P request box p
  committed-P id request box (err e) p = stop-P request box p

  commit_one-P :
      (id : ℕ) (request : ActorRequest) (outcome : ActorInterleavedOutcome) (box : Box r)
      → P box.runtime
      → Holds (commit_one r id request outcome box)
  unfolding commit_one
  commit_one-P id request outcome box p =
      committed-P id request
        (record box {
          runtime = (r.commit_interleaved box.runtime request outcome).0;
          ready = remove box.next_sequence box.ready;
        })
        (r.commit_interleaved box.runtime request outcome).1
        (keeps.by_commit box.runtime request outcome p)

  commit_in-P : (rounds : ℕ) (box : Box r) → P box.runtime → Holds (commit_in r rounds box)
  unfolding commit_in
  commit_in-P zero box p = p
  commit_in-P (suc rounds) box p = elim (Option-cases (lookup box.next_sequence box.ready)) [
    | inl e ↦ rw (commit_in, e) p
    | inr ((id, request, outcome), e) ↦
        let one = commit_one-P id request outcome box p in
        rw (commit_in, e)
          (either_way (commit_one r id request outcome box).1 _ _
            (commit_in-P rounds (commit_one r id request outcome box).0 one) one)
  ]

  executed_interleaved-P :
      (id : ℕ) (request : ActorRequest) (outcome : ActorInterleavedOutcome) (box : Box r)
      → P box.runtime
      → Holds (executed_interleaved r id request outcome box)
  unfolding executed_interleaved commit_ready
  executed_interleaved-P id request outcome box p =
      either_way
        (ltb outcome.sequence box.next_sequence || has_value (lookup outcome.sequence box.ready)) _
        _ (stop-P request box p)
        (commit_in-P _
          (record box { ready = insert outcome.sequence (id, request, outcome) box.ready }) p)

  executed_among-P :
      (id : ℕ) (request : ActorRequest) (result : Result ActorMethodOutcome) (box : Box r)
      → P box.runtime
      → Holds (executed_among r id request result box)
  unfolding executed_among finish
  executed_among-P id request (ok (interleaved outcome)) box p = stop-P request box p
  executed_among-P id request (ok (returned result state effects)) box p = stop-P request box p
  executed_among-P id request (err e) box p = stop-P request box p
  executed_among-P id request (ok (not_returned failure)) box p =
      either_way (is_method_failure failure.code) _ _ (release-P id _ p) (stop-P request box p)

  executed_other-P :
      (id : ℕ) (request : ActorRequest) (result : Result ActorMethodOutcome) (box : Box r)
      → P box.runtime
      → Holds (
          if box.is_interleaved
          then executed_among r id request result box
          else executed_alone r id request result box)
  unfolding executed_alone finish
  executed_other-P id request result box p =
      either_way box.is_interleaved _ _ (executed_among-P id request result box p)
        (release-P id _ (keeps.by_finish box.runtime request result p))

  executed-P :
      (id : ℕ) (request : ActorRequest) (result : Result ActorMethodOutcome) (box : Box r)
      → P box.runtime
      → Holds (executed r id request result box)
  unfolding executed
  executed-P id request (ok (interleaved outcome)) box p =
      executed_interleaved-P id request outcome (record box { is_interleaved = true }) p
  executed-P id request (ok (returned result state effects)) box p =
      executed_other-P id request (ok (returned result state effects)) box p
  executed-P id request (ok (not_returned failure)) box p =
      executed_other-P id request (ok (not_returned failure)) box p
  executed-P id request (err e) box p = executed_other-P id request (err e) box p

  step-P : (event : Event) (box : Box r) → P box.runtime → Holds (step r event box)
  unfolding step step_execution
  step-P (execution id result) box p = elim (Option-cases (lookup id box.running)) [
    | inl e ↦ rw e p
    | inr ((request, state), e) ↦
        rw e (executed-P id request result (record box { running = remove id box.running }) p)
  ]
  step-P permission box p = either_way (has_value box.blocked_on) _ _ p p
  step-P (arrival request accepting) box p =
      either_way (has_value box.blocked_on) _ _ p (admit-P request accepting box p)

  -- What the operations of the runtime preserve holds after any events.
  pub run-P : (events : List Event) (box : Box r) → P box.runtime → P (run r events box).runtime
  unfolding run
  run-P [] box p = p
  run-P (event ∷ events) box p =
      let one = step-P event box p in
      both_ends (step r event box).1 _ _ (run-P events (step r event box).0 one) one
    where
      both_ends :
          (b : Bool) (x y : Box r) → P x.runtime → P y.runtime → P (if b then x else y).runtime
      both_ends true x y p q = p
      both_ends false x y p q = q
