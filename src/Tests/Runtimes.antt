-- ===== src/Tests/Runtimes.antt =====
-- Runs of an actor's runtime under its mailbox, and effects that are validated
-- (src/host/actor_runtime.rs, src/actor/socket.rs).
use little_actors.Prelude.{
  ℕ, ◌+◌, ◌≡◌, ◌↔◌, refl, false, true, none, some, List, [], ◌∷◌, All, Result, ok, err,
}
use little_actors.Prelude.Program.{◌>>=◌}
use little_actors.Prelude.Text.{Text, text, text_eq, text_beq, starts_with}
use little_actors.Json.{null, object, end}
use little_actors.Snapshot.{validate}
use little_actors.Actor.{ActorKey, actor_beq}
use little_actors.Actor.Outcome.{
  ActorInvocation, activate, method, returned, ActorMethodOutcome, ActorExecutionResult,
}
use little_actors.Sockets.{ActorSocketEffect, close, set_tags, state_snapshot}
use little_actors.Sockets.Validation.{Encoders, validate_socket_effects}
use little_actors.Sockets.Validation.Limits.{EffectFits, validate_socket_effects-Fits}
use little_actors.Host.Admission.{Event, arrival, execution, run, new_mailbox}
use little_actors.Host.Runtime.{
  WritePlan, replicated, ActorRuntime, new_cached, Surroundings, handled,
}
use little_actors.Host.Runtime.Publishing.{
  publish_result, then_publish, take_ticket, ticket_for, prepare_write, publish_with, new_snapshot,
  encode, attributed, install, finish_pending_commit, finish_pending, make_durable, settle,
}
use little_actors.Host.Runtime.Invoking.{automatic, explicit}
use little_actors.Naming.{object_name, decimal}
use little_actors.Host.Runtime.Mailbox.{actor_runtime, new_runtime}
use little_actors.Host.Runtime.Operations.{
  finish_serial, method_result, finish_method, finish_cached, after_publish, complete_with_state,
  announce,
}
use little_actors.Host.Runtime.Confirming.{IsSound, IsAnnouncing}
use little_actors.Host.Runtime.Running.{run-IsSound}
use little_actors.Host.Runtime.Serial.{serve_requests}
use little_actors.Host.Runtime.Serving.{serve_requests-IsSound}
use little_actors.Host.Runtime.Acknowledging.{Remembers}
use little_actors.Host.Runtime.Replaying.{IsRepeated, finish_serial-replays}
use little_actors.Host.Queues.{
  QueueEvent, arrives, leaves, queue_events, enqueue, push_waiting, drop_request, retain_waiting,
}
use little_actors.Host.Queues.Restoring.{IsReport, queue_events-restore}
use little_actors.Tests.Documents.{Document, snapshot, documents}

abbrev plain : Encoders
plain = record {
  value_to_vec = λ v. ok (text "{}");
  effect_to_vec = λ effect. ok (text "{}");
  base64_decode = λ t. ok t;
}

abbrev a_plan : ℕ → ℕ → WritePlan
a_plan epoch version = record {
  stream = record { session = text "s"; prefix = text "p/"; owner_epoch = epoch; base_version = 0 };
  state_version = version + 1;
  object_name = text "o";
  expires_at_ms = 100_000;
  replication = none;
}

-- Surroundings in which every call succeeds.
abbrev sunny : Surroundings documents
sunny = record {
  snapshot_to_vec = λ s. ok (snapshot s);
  value_from_str = λ t. ok (object end);
  value_beq = λ a b. false;
  encoders = plain;
  ensure_authority = λ h. ok tt;
  unix_millis = λ h. ok 1;
  prepare_state_write = λ h actor epoch version. ok (a_plan epoch version);
  write_snapshot = λ h plan bytes. ok replicated;
  load_actor_state = λ h actor epoch. err "no state";
  acquire_actor = λ h actor. ok (record { owner_epoch = 1; state_version = 0; state = none });
  hydrate = λ h actor state. ok tt;
  publish = λ h actor effects. ok tt;
  evict_actor = λ h actor. ok tt;
  invoke_shared = λ h invocation state. ok (returned null (object end) []);
  handle_socket_shared = λ h invocation state. ok (handled (object end) []);
}

abbrev the_actor : ActorKey
the_actor = record { project_id = text "p"; actor_name = text "n"; actor_id = text "i" }

abbrev an_invocation : ActorInvocation
an_invocation = record { request_id = text "q"; actor = the_actor; method = text "m"; args = [] }

abbrev a_snapshot_for : Text → ActorSocketEffect
a_snapshot_for id = state_snapshot id (object end) none

abbrev an_outcome : Result ActorMethodOutcome
an_outcome = ok (returned null (object end) (a_snapshot_for (text "c") ∷ []))

-- An actor is activated, runs a method and commits its state.
abbrev a_day : List Event
a_day =
    arrival (record { operation = activate the_actor; owner_epoch = 1 }) true
    ∷ arrival (record { operation = method an_invocation; owner_epoch = 1 }) true
    ∷ execution 1 an_outcome
    ∷ []

run-IsSound_example :
    IsSound documents sunny
      (run (actor_runtime documents sunny) a_day (new_mailbox new_runtime)).runtime
run-IsSound_example = run-IsSound documents sunny a_day

abbrev a_runtime : ActorRuntime Document
a_runtime = record { history = []; cached_state = some (new_cached 1); activation = none }

abbrev finished : ActorRuntime Document × Result ActorExecutionResult
finished =
    finish_serial documents sunny an_invocation 1 (ok (returned null (object end) []))
      (record { connection_id = none; interleaved = false }) a_runtime

finish_serial-replays_example :
    (null ≡ null)
    × Remembers documents sunny 1 1 an_invocation (object end) null finished.0.cached_state
    × IsRepeated documents sunny 1 1 an_invocation (object end) null finished.0
unfolding new_cached finish_serial method_result finish_method finish_cached publish_result
    then_publish take_ticket ticket_for prepare_write publish_with new_snapshot encode attributed
    install finish_pending_commit finish_pending make_durable settle after_publish
    complete_with_state announce automatic explicit ◌>>=◌ validate_socket_effects validate
    starts_with object_name decimal text_beq
finish_serial-replays_example =
    finish_serial-replays documents sunny 1 0 an_invocation (object end) null []
      (record { connection_id = none; interleaved = false }) (new_cached 1) a_runtime finished.0
      null [] (refl, refl, refl) refl refl

abbrev some_effects : List ActorSocketEffect
some_effects =
    close (text "c") 3000 (text "bye") ∷ set_tags (text "c") (text "red" ∷ text "blue" ∷ []) ∷ []

validate_socket_effects-Fits_example :
    (validate_socket_effects plain some_effects ≡ ok tt) ↔ All (EffectFits plain) some_effects
validate_socket_effects-Fits_example = validate_socket_effects-Fits plain some_effects

-- Without a mailbox: the actor is activated and runs a method.
serve_requests-IsSound_example :
    IsSound documents sunny
      (serve_requests documents sunny
        ((record { operation = activate the_actor; owner_epoch = 1 }, true)
          ∷ (record { operation = method an_invocation; owner_epoch = 1 }, true)
          ∷ [])
        (new_runtime, [])).0
unfolding new_runtime IsAnnouncing
serve_requests-IsSound_example =
    serve_requests-IsSound documents sunny
      ((record { operation = activate the_actor; owner_epoch = 1 }, true)
        ∷ (record { operation = method an_invocation; owner_epoch = 1 }, true)
        ∷ [])
      new_runtime [] (tt, tt)

-- Two requests of an actor wait, and the first one leaves.
abbrev queue_run : List QueueEvent
queue_run =
    arrives (text "1") the_actor (text "m")
    ∷ arrives (text "2") the_actor (text "m")
    ∷ leaves (text "1")
    ∷ []

queue_events-restore_example :
    IsReport (queue_events queue_run [])
    × (queue_events
          (arrives (text "3") the_actor (text "m") ∷ leaves (text "3") ∷ [])
          (queue_events queue_run [])
        ≡ queue_events queue_run [])
unfolding queue_events enqueue push_waiting drop_request retain_waiting actor_beq text_beq
queue_events-restore_example =
    queue_events-restore queue_run (text "3") the_actor (text "m") ((refl, tt), tt)
