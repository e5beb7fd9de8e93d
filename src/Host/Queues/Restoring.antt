-- ===== src/Host/Queues/Restoring.antt =====
-- The report of the queues (src/host/queues.rs).
use little_actors.Prelude.{
  ◌≡◌, refl, ap, Bool, true, false, Bool-cases, inl, inr, List, [], ◌∷◌, ◌++◌, ◌==◌, ==_iff,
  ==_refl, All, keep, arith,
}
use little_actors.Prelude.Text.{Text, text_eq}
use little_actors.Actor.{ActorKey}
use little_actors.Actor.Identity.{actor_eq}
use little_actors.Lease.{WaitingOperation}
use little_actors.Host.Queues.{
  ActorQueueInventory, ActorQueues, push_waiting, enqueue, is_other, retain_waiting, is_filled,
  is_busy, drop_request, QueueEvent, arrives, leaves, queue_events,
}

-- The actor has no queue.
abbrev IsWithout : ActorKey → ActorQueues → Type 0
IsWithout actor queues =
    All (λ (queue : ActorQueueInventory). (queue.actor == actor) ≡ false) queues

-- Every queue has a request, and no two belong to one actor.
unfoldable pub IsReport : ActorQueues → Type 0
IsReport [] = Unit
IsReport (queue ∷ queues) =
    (is_busy queue ≡ true) × (IsWithout queue.actor queues × IsReport queues)

-- No request has the identifier.
abbrev pub IsFresh : Text → ActorQueues → Type 0
IsFresh id queues =
    All (λ (queue : ActorQueueInventory). All (λ w. is_other id w ≡ true) queue.waiting) queues

keep_every : {A : Type 0} (p : A → Bool) (xs : List A) → All (λ x. p x ≡ true) xs → keep p xs ≡ xs
keep_every p [] h = refl
keep_every p (x ∷ xs) (e, h) = rw e (ap (λ ys. x ∷ ys) (keep_every p xs h))

-- What was appended and does not pass is all that goes.
keep-append :
    {A : Type 0} (p : A → Bool) (xs : List A) (y : A)
    → All (λ x. p x ≡ true) xs
    → p y ≡ false
    → keep p (xs ++ (y ∷ [])) ≡ xs
keep-append p [] y h e = rw e refl
keep-append p (x ∷ xs) y (k, h) e = rw k (ap (λ ys. x ∷ ys) (keep-append p xs y h e))

drop_request-fresh :
    (id : Text) (queues : ActorQueues)
    → IsReport queues
    → IsFresh id queues
    → drop_request id queues ≡ queues
unfolding drop_request retain_waiting IsReport
drop_request-fresh id [] v f = refl
drop_request-fresh id (queue ∷ queues) (b, (_, v)) (w, f) =
    rw (keep_every (is_other id) queue.waiting w)
      (rw b (ap (λ (qs : ActorQueues). queue ∷ qs) (drop_request-fresh id queues v f)))

-- A request that leaves restores the report that there was before it came.
pub drop_request-enqueue :
    (id : Text) (actor : ActorKey) (operation : Text) (queues : ActorQueues)
    → IsReport queues
    → IsFresh id queues
    → drop_request id (enqueue id actor operation queues) ≡ queues
unfolding drop_request retain_waiting enqueue push_waiting IsReport
drop_request-enqueue id actor operation [] v f = rw (==_refl id) refl
drop_request-enqueue id actor operation (queue ∷ queues) (b, (_, v)) (w, f) =
    elim (Bool-cases (queue.actor == actor)) [
      | inl same ↦ rw same (
          rw
            (keep-append (is_other id) queue.waiting (record { id = id; operation = operation }) w
              (rw (==_refl id) refl))
            (rw b (ap (λ (qs : ActorQueues). queue ∷ qs) (drop_request-fresh id queues v f))))
      | inr other ↦ rw other (
          rw (keep_every (is_other id) queue.waiting w) (
            rw b (
              ap (λ (qs : ActorQueues). queue ∷ qs)
                (drop_request-enqueue id actor operation queues v f))))
    ]

filled-append :
    (xs : List WaitingOperation) (y : WaitingOperation) → is_filled (xs ++ (y ∷ [])) ≡ true
filled-append [] y = refl
filled-append (x ∷ xs) y = refl

push_waiting-IsWithout :
    (a actor : ActorKey) (request : WaitingOperation) (queues : ActorQueues)
    → (actor == a) ≡ false
    → IsWithout a queues
    → IsWithout a (push_waiting actor request queues)
unfolding push_waiting
push_waiting-IsWithout a actor request [] e h = (e, tt)
push_waiting-IsWithout a actor request (queue ∷ queues) e (k, h) =
    elim (Bool-cases (queue.actor == actor)) [
      | inl same ↦ rw same (k, h)
      | inr other ↦ rw other (k, push_waiting-IsWithout a actor request queues e h)
    ]

enqueue-IsReport :
    (actor : ActorKey) (request : WaitingOperation) (queues : ActorQueues)
    → IsReport queues
    → IsReport (push_waiting actor request queues)
unfolding push_waiting IsReport
enqueue-IsReport actor request [] v = (refl, (tt, tt))
enqueue-IsReport actor request (queue ∷ queues) (b, (h, v)) =
    elim (Bool-cases (queue.actor == actor)) [
      | inl same ↦ rw same (filled-append queue.waiting request, (h, v))
      | inr other ↦ rw other (
        b,
        (
          push_waiting-IsWithout queue.actor actor request queues (flipped queue.actor actor other)
              h,
          enqueue-IsReport actor request queues v,
        ),
      )
    ]
  where
    flipped : (a b : ActorKey) → (a == b) ≡ false → (b == a) ≡ false
    flipped a b h = ground (arith, ==_iff a b, ==_iff b a)

drop_request-IsWithout :
    (a : ActorKey) (id : Text) (queues : ActorQueues)
    → IsWithout a queues
    → IsWithout a (drop_request id queues)
unfolding drop_request retain_waiting
drop_request-IsWithout a id [] h = tt
drop_request-IsWithout a id (queue ∷ queues) (k, h) =
    elim (Bool-cases (is_filled (keep (is_other id) queue.waiting))) [
      | inl filled ↦ rw filled (k, drop_request-IsWithout a id queues h)
      | inr gone ↦ rw gone (drop_request-IsWithout a id queues h)
    ]

drop_request-IsReport :
    (id : Text) (queues : ActorQueues) → IsReport queues → IsReport (drop_request id queues)
unfolding drop_request retain_waiting IsReport
drop_request-IsReport id [] v = tt
drop_request-IsReport id (queue ∷ queues) (b, (h, v)) =
    elim (Bool-cases (is_filled (keep (is_other id) queue.waiting))) [
      | inl filled ↦ rw filled (
        filled,
        (drop_request-IsWithout queue.actor id queues h, drop_request-IsReport id queues v),
      )
      | inr gone ↦ rw gone (drop_request-IsReport id queues v)
    ]

queue_events-IsReport :
    (events : List QueueEvent) (queues : ActorQueues)
    → IsReport queues
    → IsReport (queue_events events queues)
unfolding queue_events enqueue
queue_events-IsReport [] queues v = v
queue_events-IsReport (arrives id actor operation ∷ events) queues v =
    queue_events-IsReport events (enqueue id actor operation queues)
      (enqueue-IsReport actor (record { id = id; operation = operation }) queues v)
queue_events-IsReport (leaves id ∷ events) queues v =
    queue_events-IsReport events (drop_request id queues) (drop_request-IsReport id queues v)

-- However requests come and go, from a host without any: every queue in the report has a request and
-- belongs to another actor than the others. A request with an identifier that no waiting one has may
-- then come and leave again, and the report is what it was, in the same order.
pub queue_events-restore :
    (events : List QueueEvent) (id : Text) (actor : ActorKey) (operation : Text)
    → IsFresh id (queue_events events [])
    → IsReport (queue_events events [])
      × (queue_events (arrives id actor operation ∷ leaves id ∷ []) (queue_events events [])
          ≡ queue_events events [])
unfolding IsReport
queue_events-restore events id actor operation fresh =
    let v = queue_events-IsReport events [] tt in
    (
      v,
      unfold queue_events in
          drop_request-enqueue id actor operation (queue_events events []) v fresh,
    )
