-- ===== src/Sockets/Registry.antt =====
-- The registry of a host's socket connections (src/sockets/mod.rs). Each connection has a queue of
-- outbound messages of bounded length, and a message that does not fit cancels it.
use little_actors.Prelude.{
  ℕ, Bool, true, false, not, ◌&&◌, ◌||◌, Option, none, some, List, [], ◌∷◌, ◌++◌, ◌==◌, ltb, leb,
  length, all, any, if◌then◌else◌,
}
use little_actors.Prelude.Dict.{Dict, lookup, insert, remove}
use little_actors.Prelude.Text.{Text, text, text_eq}
use little_actors.Json.{Value, Items, string, array, number, object, field, end, nil, cons}
use little_actors.Actor.{ActorKey}
use little_actors.Actor.Identity.{actor_eq}
use little_actors.Lease.{ActorSocketConnection}
use little_actors.Sockets.{
  ActorSocketMessage, ActorSocketEvent, connect, message, disconnect, ActorSocketTagMatch,
  match_all, match_any, ActorSocketEffect, state_snapshot, state_update, send, broadcast, close,
  reject, set_metadata, set_tags,
}

abbrev pub max_connections_per_actor : ℕ
max_connections_per_actor = 128

-- `mpsc::channel(32)`
abbrev pub max_queued_messages : ℕ
max_queued_messages = 32

pub data OutboundMessage : Type 0 where
  deliver : ActorSocketMessage → OutboundMessage
  control : Value → OutboundMessage
  close_with : ℕ → Text → OutboundMessage

-- The sender and the receiver of a connection.
pub record Channel : Type 0 where
  pub queue : List OutboundMessage
  pub overflow : Bool

unfoldable pub socket_channel : Channel
socket_channel = record { queue = []; overflow = false }

-- `SocketSender::send`
unfoldable pub offer : OutboundMessage → Channel → Channel
offer m channel =
    if ltb (length channel.queue) max_queued_messages
    then record channel { queue = channel.queue ++ (m ∷ []) }
    else record channel { overflow = true }

-- `SocketReceiver::recv`, which prefers the overflow; `none` waits.
unfoldable pub recv : Channel → Option (OutboundMessage × Channel)
recv channel =
    if channel.overflow
    then some (close_with 1013 (text "socket output queue is full"), channel)
    else (elim channel.queue [ [] ↦ none | (m ∷ rest) ↦ some (m, record channel { queue = rest }) ])

pub record RegisteredSocket : Type 0 where
  pub connection : ActorSocketConnection
  pub outbound : Channel
  pub is_open : Bool
  pub state_ready : Bool

abbrev pub Connections : Type 0
Connections = Dict Text RegisteredSocket

abbrev pub SocketRegistry : Type 0
SocketRegistry = Dict ActorKey Connections

abbrev pub entries_of : Option Connections → Connections
entries_of none = []
entries_of (some connections) = connections

-- `SocketRegistry::insert`
unfoldable pub register :
    ActorKey → ActorSocketConnection → Channel → SocketRegistry → SocketRegistry × Bool
register actor connection outbound registry =
    let connections = entries_of (lookup actor registry) in
    if leb max_connections_per_actor (length connections)
    then (insert actor connections registry, false)
    else (
      insert actor
          (insert connection.id
            (record {
              connection = connection;
              outbound = outbound;
              is_open = false;
              state_ready = false;
            })
            connections)
          registry,
      true,
    )

abbrev pub connection_of : Option RegisteredSocket → Option ActorSocketConnection
connection_of none = none
connection_of (some entry) = some entry.connection

-- `SocketRegistry::remove`
unfoldable pub unregister_in :
    ActorKey
    → Text
    → Option Connections
    → SocketRegistry
    → SocketRegistry × Option ActorSocketConnection
unregister_in actor id none registry = (registry, none)
unregister_in actor id (some connections) registry = (
  (elim (remove id connections) [
    | [] ↦ remove actor registry
    | (entry ∷ rest) ↦ insert actor (entry ∷ rest) registry
  ]),
  connection_of (lookup id connections),
)

unfoldable pub unregister :
    ActorKey → Text → SocketRegistry → SocketRegistry × Option ActorSocketConnection
unfolding unregister_in
unregister actor id registry = unregister_in actor id (lookup actor registry) registry

-- The open connections.
unfoldable pub open_in : Connections → List ActorSocketConnection
open_in [] = []
open_in ((id, entry) ∷ rest) =
    if entry.is_open then entry.connection ∷ open_in rest else open_in rest

-- `SocketRegistry::connections`
unfoldable pub connections : ActorKey → SocketRegistry → List ActorSocketConnection
unfolding open_in
connections actor registry = open_in (entries_of (lookup actor registry))

abbrev pub removed_or : Option ActorSocketConnection → ActorSocketConnection → ActorSocketConnection
removed_or none connection = connection
removed_or (some removed) connection = removed

unfoldable pub prepare_event :
    ActorKey
    → ActorSocketEvent
    → SocketRegistry
    → SocketRegistry × (ActorSocketEvent × List ActorSocketConnection)
unfolding connections unregister
prepare_event actor (connect connection) registry =
    (registry, (connect connection, connections actor registry ++ (connection ∷ [])))
prepare_event actor (message id m) registry = (registry, (message id m, connections actor registry))
prepare_event actor (disconnect connection code reason clean) registry =
    let (registry', removed) = unregister actor connection.id registry in
    (
      registry',
      (disconnect (removed_or removed connection) code reason clean, connections actor registry'),
    )

-- Changing one entry, if it is there.
unfoldable pub update_in : Text → (RegisteredSocket → RegisteredSocket) → Connections → Connections
update_in id f [] = []
update_in id f ((k, entry) ∷ rest) = (k, (if k == id then f entry else entry)) ∷ update_in id f rest

unfoldable pub update_all : (RegisteredSocket → RegisteredSocket) → Connections → Connections
update_all f [] = []
update_all f ((k, entry) ∷ rest) = (k, f entry) ∷ update_all f rest

unfoldable pub with_connections :
    ActorKey → (Connections → Connections) → SocketRegistry → SocketRegistry
with_connections actor f [] = []
with_connections actor f ((k, entries) ∷ rest) =
    (k, (if k == actor then f entries else entries)) ∷ with_connections actor f rest

abbrev pub send_to : OutboundMessage → RegisteredSocket → RegisteredSocket
send_to m entry = record entry { outbound = offer m entry.outbound }

abbrev pub contains : List Text → Text → Bool
contains ids id = any (λ x. x == id) ids

abbrev pub has_tags : ActorSocketTagMatch → List Text → List Text → Bool
has_tags match_all tags own = all (contains own) tags
has_tags match_any tags own = any (contains own) tags

abbrev pub no_tags : List Text → Bool
no_tags [] = true
no_tags (tag ∷ tags) = false

-- The recipients of a broadcast.
unfoldable pub is_recipient : List Text → List Text → ActorSocketTagMatch → RegisteredSocket → Bool
is_recipient except tags how entry =
    entry.is_open
    && not (contains except entry.connection.id)
    && (no_tags tags || has_tags how tags entry.connection.tags)

-- The recipients of a state update.
unfoldable pub is_subscriber : List Text → RegisteredSocket → Bool
is_subscriber except entry = entry.state_ready && not (contains except entry.connection.id)

unfoldable pub items_of : List Text → Items
items_of [] = nil
items_of (s ∷ rest) = cons (string s) (items_of rest)

abbrev pub state_message : Value → ℕ → Value
state_message state version = object (
    field (text "type") (string (text "state"))
      (field (text "state") state (field (text "version") (number version) end)))

unfoldable pub update_message : Value → List Text → ℕ → Value
unfolding items_of
update_message changes removed version = object (
    field (text "type") (string (text "state_update")) (
      field (text "changes") changes (
        field (text "removed") (array (items_of removed))
          (field (text "version") (number version) end))))

unfoldable pub apply_one : ActorKey → ActorSocketEffect → SocketRegistry → SocketRegistry
unfolding with_connections update_in update_all offer is_recipient is_subscriber update_message
apply_one actor (state_snapshot id state none) registry = registry
apply_one actor (state_snapshot id state (some version)) registry =
    with_connections actor
      (update_in id (λ entry.
        send_to (control (state_message state version)) (record entry { state_ready = true })))
      registry
apply_one actor (state_update changes removed except none) registry = registry
apply_one actor (state_update changes removed except (some version)) registry =
    with_connections actor
      (update_all (λ entry.
        if is_subscriber except entry
        then send_to (control (update_message changes removed version)) entry
        else entry))
      registry
apply_one actor (broadcast m except tags how) registry =
    with_connections actor
      (update_all
        (λ entry. if is_recipient except tags how entry then send_to (deliver m) entry else entry))
      registry
apply_one actor (set_metadata id metadata) registry =
    with_connections actor
      (update_in id
        (λ entry. record entry { connection = record entry.connection { metadata = metadata } }))
      registry
apply_one actor (set_tags id tags) registry =
    with_connections actor
      (update_in id
        (λ entry. record entry { connection = record entry.connection { tags = tags } }))
      registry
apply_one actor (send id m) registry =
    with_connections actor (update_in id (send_to (deliver m))) registry
apply_one actor (close id code reason) registry =
    with_connections actor (update_in id (send_to (close_with code reason))) registry
apply_one actor (reject id code reason) registry =
    with_connections actor (update_in id (send_to (close_with code reason))) registry

unfoldable pub apply : ActorKey → List ActorSocketEffect → SocketRegistry → SocketRegistry
unfolding apply_one
apply actor [] registry = registry
apply actor (effect ∷ effects) registry = apply actor effects (apply_one actor effect registry)

-- `SocketRegistry::activate`
unfoldable pub open_connection : ActorKey → Text → SocketRegistry → SocketRegistry
unfolding with_connections update_in
open_connection actor id registry =
    with_connections actor (update_in id (λ entry. record entry { is_open = true })) registry
