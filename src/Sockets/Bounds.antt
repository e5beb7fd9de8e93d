-- ===== src/Sockets/Bounds.antt =====
-- The bounds of the registry (src/sockets/mod.rs).
use little_actors.Prelude.{
  ℕ, suc, ◌≤◌, Bool, true, ◌≡◌, refl, Option, none, some, Bool-cases, inl, inr, List, [], ◌∷◌, ◌++◌,
  ◌==◌, ltb, leb, length, arith, if◌then◌else◌, Eq, subst, ap,
}
use little_actors.Prelude.Dict.{Dict, lookup, insert, remove}
use little_actors.Prelude.Text.{Text, text_eq}
use little_actors.Actor.{ActorKey}
use little_actors.Actor.Identity.{actor_eq}
use little_actors.Lease.{ActorSocketConnection}
use little_actors.Sockets.{
  ActorSocketEvent, connect, message, disconnect, ActorSocketEffect, state_snapshot, state_update,
  send, broadcast, close, reject, set_metadata, set_tags,
}
use little_actors.Sockets.Registry.{
  max_connections_per_actor, max_queued_messages, OutboundMessage, Channel, offer, RegisteredSocket,
  Connections, SocketRegistry, entries_of, register, unregister, unregister_in, update_in,
  update_all, with_connections, send_to, apply_one, apply, open_connection, prepare_event,
  socket_channel,
}

-- Every value of a map has a property.
abbrev pub AllValues {κ ℓ μ} : {K : Type κ} {V : Type ℓ} → (V → Type μ) → Dict K V → Type μ
AllValues P [] = Unit
AllValues P ((k, v) ∷ m) = P v × AllValues P m

module _ {κ ℓ μ} {K : Type κ} {V : Type ℓ} ⦃e : Eq K⦄ (P : V → Type μ) where
  remove-AllValues : (k : K) (m : Dict K V) → AllValues P m → AllValues P (remove k m)
  unfolding remove
  remove-AllValues k [] h = h
  remove-AllValues k ((j, v) ∷ m) h = elim (Bool-cases (j == k)) [
    | inl same ↦ rw same (remove-AllValues k m h.1)
    | inr other ↦ rw other (h.0, remove-AllValues k m h.1)
  ]

  insert-AllValues :
      (k : K) (v : V) (m : Dict K V) → P v → AllValues P m → AllValues P (insert k v m)
  unfolding insert
  insert-AllValues k v m p h = (p, remove-AllValues k m h)

  lookup-AllValues : (k : K) (m : Dict K V) {v : V} → AllValues P m → lookup k m ≡ some v → P v
  unfolding lookup
  lookup-AllValues k [] h e = cc
  lookup-AllValues k ((j, w) ∷ m) {v} h e = elim (Bool-cases (j == k)) [
    | inl same ↦ subst P (some_injective w v (rw same at e)) h.0
    | inr other ↦ lookup-AllValues k m h.1 (rw other at e)
  ]
    where
      some_injective : (x y : V) → some x ≡ some y → x ≡ y
      some_injective x y h = cc

length-remove {κ ℓ} :
    {K : Type κ} {V : Type ℓ} ⦃e : Eq K⦄ (k : K) (m : Dict K V) → length (remove k m) ≤ length m
unfolding remove
length-remove k [] = omega arith
length-remove k ((j, v) ∷ m) = ground (arith, length-remove k m)

abbrev pub IsQueueBounded : RegisteredSocket → Type 0
IsQueueBounded entry = length entry.outbound.queue ≤ max_queued_messages

-- The connections of one actor.
pub record AreBounded (entries : Connections) : Type 0 where
  pub few : length entries ≤ max_connections_per_actor
  pub queues : AllValues IsQueueBounded entries

abbrev pub IsBounded : SocketRegistry → Type 0
IsBounded registry = AllValues AreBounded registry

offer-bounded :
    (m : OutboundMessage) (channel : Channel)
    → length channel.queue ≤ max_queued_messages
    → length (offer m channel).queue ≤ max_queued_messages
unfolding offer
offer-bounded m channel h = elim (Bool-cases (ltb (length channel.queue) max_queued_messages)) [
  | inl fits ↦
      rw fits (omega (arith, length-snoc channel.queue m, fits_lt (length channel.queue) fits))
  | inr full ↦ rw full h
]
  where
    length-snoc :
        (q : List OutboundMessage) (m : OutboundMessage) → length (q ++ (m ∷ [])) ≡ suc (length q)
    length-snoc [] m = refl
    length-snoc (x ∷ q) m = ap suc (length-snoc q m)

    fits_lt : (n : ℕ) → ltb n max_queued_messages ≡ true → suc n ≤ max_queued_messages
    fits_lt n h = ground arith

-- A change of an entry keeps its queue within its bound.
abbrev Keeps : (RegisteredSocket → RegisteredSocket) → Type 0
Keeps f = (entry : RegisteredSocket) → IsQueueBounded entry → IsQueueBounded (f entry)

update_in-AreBounded :
    (id : Text) (f : RegisteredSocket → RegisteredSocket)
    → Keeps f
    → (entries : Connections) → AreBounded entries
    → AreBounded (update_in id f entries)
unfolding update_in
update_in-AreBounded id f keeps entries h = record {
  few = rw (same_length entries) h.few;
  queues = each entries h.queues;
}
  where
    same_length : (entries : Connections) → length (update_in id f entries) ≡ length entries
    same_length [] = refl
    same_length ((k, entry) ∷ rest) = ap suc (same_length rest)

    each :
        (entries : Connections)
        → AllValues IsQueueBounded entries
        → AllValues IsQueueBounded (update_in id f entries)
    each [] h = tt
    each ((k, entry) ∷ rest) h = elim (Bool-cases (k == id)) [
      | inl same ↦ (rw same (keeps entry h.0), each rest h.1)
      | inr other ↦ (rw other h.0, each rest h.1)
    ]

update_all-AreBounded :
    (f : RegisteredSocket → RegisteredSocket)
    → Keeps f
    → (entries : Connections) → AreBounded entries
    → AreBounded (update_all f entries)
unfolding update_all
update_all-AreBounded f keeps entries h = record {
  few = rw (same_length entries) h.few;
  queues = each entries h.queues;
}
  where
    same_length : (entries : Connections) → length (update_all f entries) ≡ length entries
    same_length [] = refl
    same_length ((k, entry) ∷ rest) = ap suc (same_length rest)

    each :
        (entries : Connections)
        → AllValues IsQueueBounded entries
        → AllValues IsQueueBounded (update_all f entries)
    each [] h = tt
    each ((k, entry) ∷ rest) h = (keeps entry h.0, each rest h.1)

with_connections-IsBounded :
    (actor : ActorKey) (f : Connections → Connections)
    → ((entries : Connections) → AreBounded entries → AreBounded (f entries))
    → (registry : SocketRegistry) → IsBounded registry
    → IsBounded (with_connections actor f registry)
unfolding with_connections
with_connections-IsBounded actor f keeps [] h = tt
with_connections-IsBounded actor f keeps ((k, entries) ∷ rest) h = elim (Bool-cases (k == actor)) [
  | inl same ↦ (rw same (keeps entries h.0), with_connections-IsBounded actor f keeps rest h.1)
  | inr other ↦ (rw other h.0, with_connections-IsBounded actor f keeps rest h.1)
]

send-Keeps : (m : OutboundMessage) → Keeps (send_to m)
send-Keeps m entry h = offer-bounded m entry.outbound h

if-Keeps :
    (test : RegisteredSocket → Bool) (m : OutboundMessage)
    → Keeps (λ entry. if test entry then send_to m entry else entry)
if-Keeps test m entry h = elim (Bool-cases (test entry)) [
  | inl yes_ ↦ rw yes_ (send-Keeps m entry h)
  | inr no_ ↦ rw no_ h
]

apply_one-IsBounded :
    (actor : ActorKey) (effect : ActorSocketEffect) (registry : SocketRegistry)
    → IsBounded registry
    → IsBounded (apply_one actor effect registry)
unfolding apply_one
apply_one-IsBounded actor (state_snapshot id state none) registry h = h
apply_one-IsBounded actor (state_snapshot id state (some version)) registry h =
    with_connections-IsBounded actor _
      (update_in-AreBounded id _ (λ entry k. send-Keeps _ (record entry { state_ready = true }) k))
      registry h
apply_one-IsBounded actor (state_update changes removed except none) registry h = h
apply_one-IsBounded actor (state_update changes removed except (some version)) registry h =
    with_connections-IsBounded actor _ (update_all-AreBounded _ (if-Keeps _ _)) registry h
apply_one-IsBounded actor (broadcast m except tags how) registry h =
    with_connections-IsBounded actor _ (update_all-AreBounded _ (if-Keeps _ _)) registry h
apply_one-IsBounded actor (set_metadata id metadata) registry h =
    with_connections-IsBounded actor _ (update_in-AreBounded id _ (λ entry k. k)) registry h
apply_one-IsBounded actor (set_tags id tags) registry h =
    with_connections-IsBounded actor _ (update_in-AreBounded id _ (λ entry k. k)) registry h
apply_one-IsBounded actor (send id m) registry h =
    with_connections-IsBounded actor _ (update_in-AreBounded id _ (send-Keeps _)) registry h
apply_one-IsBounded actor (close id code reason) registry h =
    with_connections-IsBounded actor _ (update_in-AreBounded id _ (send-Keeps _)) registry h
apply_one-IsBounded actor (reject id code reason) registry h =
    with_connections-IsBounded actor _ (update_in-AreBounded id _ (send-Keeps _)) registry h

apply-IsBounded :
    (actor : ActorKey) (effects : List ActorSocketEffect) (registry : SocketRegistry)
    → IsBounded registry
    → IsBounded (apply actor effects registry)
unfolding apply
apply-IsBounded actor [] registry h = h
apply-IsBounded actor (effect ∷ effects) registry h =
    apply-IsBounded actor effects (apply_one actor effect registry)
      (apply_one-IsBounded actor effect registry h)

entries_of-AreBounded :
    (o : Option Connections)
    → ((entries : Connections) → o ≡ some entries → AreBounded entries)
    → AreBounded (entries_of o)
entries_of-AreBounded none h = record { few = omega arith; queues = tt }
entries_of-AreBounded (some entries) h = h entries refl

register-IsBounded :
    (actor : ActorKey) (connection : ActorSocketConnection) (registry : SocketRegistry)
    → IsBounded registry
    → IsBounded (register actor connection socket_channel registry).0
unfolding register socket_channel
register-IsBounded actor connection registry h =
    let entries = entries_of (lookup actor registry) in
    let own =
      entries_of-AreBounded (lookup actor registry)
        (λ entries e. lookup-AllValues AreBounded actor registry h e) in
    elim (Bool-cases (leb max_connections_per_actor (length entries))) [
      | inl full ↦ rw full (insert-AllValues AreBounded actor entries registry own h)
      | inr room ↦ rw room (
          insert-AllValues AreBounded actor _ registry
            (record {
              few = insert_length connection.id _ entries (ground arith);
              queues =
                  insert-AllValues IsQueueBounded connection.id _ entries (omega arith) own.queues;
            })
            h)
    ]
  where
    insert_length :
        (id : Text) (entry : RegisteredSocket) (entries : Connections)
        → suc (length entries) ≤ max_connections_per_actor
        → length (insert id entry entries) ≤ max_connections_per_actor
    insert_length id entry entries h = unfold insert in omega (arith, length-remove id entries)

AreBounded-remove :
    (id : Text) (entries : Connections) → AreBounded entries → AreBounded (remove id entries)
AreBounded-remove id entries h = record {
  few = omega (arith, length-remove id entries, h.few);
  queues = remove-AllValues IsQueueBounded id entries h.queues;
}

unregister-IsBounded :
    (actor : ActorKey) (id : Text) (registry : SocketRegistry)
    → IsBounded registry
    → IsBounded (unregister actor id registry).0
unfolding unregister unregister_in
unregister-IsBounded actor id registry h =
    by_entries (lookup actor registry) (λ entries e. lookup-AllValues AreBounded actor registry h e)
  where
    left :
        (entries : Connections)
        → AreBounded entries
        → IsBounded (elim entries [
          | [] ↦ remove actor registry
          | (entry ∷ rest) ↦ insert actor (entry ∷ rest) registry
        ])
    left [] own = remove-AllValues AreBounded actor registry h
    left (entry ∷ rest) own = insert-AllValues AreBounded actor (entry ∷ rest) registry own h

    by_entries :
        (o : Option Connections)
        → ((entries : Connections) → o ≡ some entries → AreBounded entries)
        → IsBounded (unregister_in actor id o registry).0
    by_entries none own = h
    by_entries (some entries) own =
        left (remove id entries) (AreBounded-remove id entries (own entries refl))

prepare_event-IsBounded :
    (actor : ActorKey) (event : ActorSocketEvent) (registry : SocketRegistry)
    → IsBounded registry
    → IsBounded (prepare_event actor event registry).0
unfolding prepare_event
prepare_event-IsBounded actor (connect connection) registry h = h
prepare_event-IsBounded actor (message id m) registry h = h
prepare_event-IsBounded actor (disconnect connection code reason clean) registry h =
    unregister-IsBounded actor connection.id registry h

-- Every operation of the registry keeps it within its bounds: at most 128 connections of an actor,
-- and at most 32 messages in the queue of a connection. A connection is registered with an empty
-- queue.
pub operations-IsBounded :
    (actor : ActorKey) (connection : ActorSocketConnection) (id : Text) (event : ActorSocketEvent)
    (effects : List ActorSocketEffect) (registry : SocketRegistry)
    → IsBounded registry
    → IsBounded (register actor connection socket_channel registry).0
      × IsBounded (unregister actor id registry).0
      × IsBounded (prepare_event actor event registry).0
      × IsBounded (open_connection actor id registry)
      × IsBounded (apply actor effects registry)
unfolding open_connection
operations-IsBounded actor connection id event effects registry h = (
  register-IsBounded actor connection registry h,
  unregister-IsBounded actor id registry h,
  prepare_event-IsBounded actor event registry h,
  with_connections-IsBounded actor _ (update_in-AreBounded id _ (λ entry k. k)) registry h,
  apply-IsBounded actor effects registry h,
)
