-- ===== src/Host/Queues.antt =====
-- The requests that wait for their actors, as a host reports them (src/host/queues.rs). The fresh
-- identifier of a request is an argument.
pub mod Restoring
use little_actors.Prelude.{Bool, true, false, not, List, [], ◌∷◌, ◌++◌, ◌==◌, keep, if◌then◌else◌}
use little_actors.Prelude.Text.{Text, text_eq}
use little_actors.Actor.{ActorKey}
use little_actors.Actor.Identity.{actor_eq}
use little_actors.Lease.{WaitingOperation}

-- `ActorQueueInventory` (src/host_leases.rs)
pub record ActorQueueInventory : Type 0 where
  pub actor : ActorKey
  pub waiting : List WaitingOperation

abbrev pub ActorQueues : Type 0
ActorQueues = List ActorQueueInventory

-- The queue of the actor, or a new one at the end, takes the request.
unfoldable pub push_waiting : ActorKey → WaitingOperation → ActorQueues → ActorQueues
push_waiting actor request [] = record { actor = actor; waiting = request ∷ [] } ∷ []
push_waiting actor request (queue ∷ queues) =
    let rest = push_waiting actor request queues in
    if queue.actor == actor
    then record queue { waiting = queue.waiting ++ (request ∷ []) } ∷ queues
    else queue ∷ rest

-- `ActorQueues::enqueue`
unfoldable pub enqueue : Text → ActorKey → Text → ActorQueues → ActorQueues
unfolding push_waiting
enqueue id actor operation queues =
    push_waiting actor (record { id = id; operation = operation }) queues

abbrev pub is_other : Text → WaitingOperation → Bool
is_other id waiting = not (waiting.id == id)

unfoldable pub retain_waiting : Text → ActorQueues → ActorQueues
retain_waiting id [] = []
retain_waiting id (queue ∷ queues) =
    record queue { waiting = keep (is_other id) queue.waiting } ∷ retain_waiting id queues

abbrev pub is_filled : List WaitingOperation → Bool
is_filled [] = false
is_filled (request ∷ requests) = true

abbrev pub is_busy : ActorQueueInventory → Bool
is_busy queue = is_filled queue.waiting

-- `WaitingRequest::drop`
unfoldable pub drop_request : Text → ActorQueues → ActorQueues
unfolding retain_waiting
drop_request id queues = keep is_busy (retain_waiting id queues)

-- What happens to the queues.
pub data QueueEvent : Type 0 where
  arrives : Text → ActorKey → Text → QueueEvent
  leaves : Text → QueueEvent

unfoldable pub queue_events : List QueueEvent → ActorQueues → ActorQueues
unfolding enqueue drop_request
queue_events [] queues = queues
queue_events (arrives id actor operation ∷ events) queues =
    queue_events events (enqueue id actor operation queues)
queue_events (leaves id ∷ events) queues = queue_events events (drop_request id queues)
