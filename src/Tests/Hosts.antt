-- ===== src/Tests/Hosts.antt =====
-- Runs of a mailbox and of the sockets of a host (src/host/actor_host/admission.rs,
-- src/sockets/mod.rs).
use little_actors.Prelude.{nat_eq, ℕ, true, ◌≡◌, refl, none, List, [], ◌∷◌, ok}
use little_actors.Prelude.Dict.{lookup, insert, remove}
use little_actors.Prelude.Text.{text}
use little_actors.Json.{null}
use little_actors.Actor.{ActorKey}
use little_actors.Lease.{ActorSocketConnection}
use little_actors.Actor.Outcome.{
  ActorRequest, method, completed, interleaved, ActorInterleavedOutcome,
}
use little_actors.Sockets.{disconnect, text_message, broadcast, match_all}
use little_actors.Sockets.Registry.{
  register, unregister, prepare_event, open_connection, apply, socket_channel,
}
use little_actors.Sockets.Bounds.{IsBounded, operations-IsBounded}
use little_actors.Host.Admission.{
  Runtime, Mailbox, Event, execution, arrival, permission, execute, new_mailbox, run, commit_ready,
  step, commit_in, step_execution, commit_one, executed, committed, executed_interleaved, release,
  finish, admit, admit_operation, admit_prepared,
}
use little_actors.Host.Admission.Draining.{commit_ready-IsDrained}
use little_actors.Host.Admission.Committing.{recording, log_of, numbers_below}
use little_actors.Host.Admission.Ordering.{run-in_order}

-- A runtime that does all that it is asked to.
abbrev willing : Runtime
willing = record {
  State = ℕ;
  prepare_invocation = λ s request. (s, ok (execute none));
  activate_actor = λ s actor. (s, ok tt);
  finish_serial = λ s request result. (s, ok (completed null []));
  commit_interleaved = λ s request outcome. (s, ok (completed null []));
  evict = λ s actor. s;
}

abbrev an_actor : ActorKey
an_actor = record { project_id = text "p"; actor_name = text "n"; actor_id = text "i" }

abbrev a_request : ActorRequest
a_request = record {
  operation =
      method (record { request_id = text "q"; actor = an_actor; method = text "m"; args = [] });
  owner_epoch = 1;
}

abbrev outcome_at : ℕ → ActorInterleavedOutcome
outcome_at n = record { sequence = n; result = null; state = null; effects = [] }

-- Two invocations run at once, and the second one completes first.
abbrev two_interleaved : List Event
two_interleaved =
    arrival a_request true
    ∷ permission
    ∷ arrival a_request true
    ∷ permission
    ∷ execution 2 (ok (interleaved (outcome_at 2)))
    ∷ execution 1 (ok (interleaved (outcome_at 1)))
    ∷ []

run-in_order_example :
    log_of willing (run (recording willing) two_interleaved (new_mailbox (0, [])))
    ≡ numbers_below (run (recording willing) two_interleaved (new_mailbox (0, []))).next_sequence
run-in_order_example = run-in_order willing 0 two_interleaved

both_committed :
    log_of willing (run (recording willing) two_interleaved (new_mailbox (0, []))) ≡ 2 ∷ 1 ∷ []
unfolding run step step_execution executed executed_interleaved commit_ready commit_in commit_one
    committed release finish admit admit_operation admit_prepared new_mailbox lookup insert remove
both_committed = refl

abbrev ready_box : Mailbox ℕ
ready_box = record (new_mailbox 0) {
  ready = (2, (2, a_request, outcome_at 2)) ∷ (1, (1, a_request, outcome_at 1)) ∷ [];
  next_sequence = 1;
}

commit_ready-IsDrained_example :
    lookup (commit_ready willing ready_box).0.next_sequence (commit_ready willing ready_box).0.ready
    ≡ none
unfolding commit_ready commit_in commit_one committed release finish lookup remove new_mailbox
commit_ready-IsDrained_example = commit_ready-IsDrained willing ready_box refl

abbrev a_connection : ActorSocketConnection
a_connection = record { id = text "c"; metadata = null; tags = [] }

operations-IsBounded_example :
    IsBounded (register an_actor a_connection socket_channel []).0
    × IsBounded (unregister an_actor (text "c") []).0
    × IsBounded (prepare_event an_actor (disconnect a_connection 1000 (text "bye") true) []).0
    × IsBounded (open_connection an_actor (text "c") [])
    × IsBounded (apply an_actor (broadcast (text_message (text "hi")) [] [] match_all ∷ []) [])
operations-IsBounded_example =
    operations-IsBounded an_actor a_connection (text "c")
      (disconnect a_connection 1000 (text "bye") true)
      (broadcast (text_message (text "hi")) [] [] match_all ∷ []) [] tt
