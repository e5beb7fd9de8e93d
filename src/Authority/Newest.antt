-- ===== src/Authority/Newest.antt =====
-- Choosing the newest snapshot of an actor from the bucket's keys and the heads of its replicas
-- (src/bucket/runtime.rs). The answers of peers that are asked together come in the order in which
-- they complete.
pub mod Choosing
pub mod Listing
use little_actors.Prelude.{
  ℕ, suc, ◌||◌, Option, none, some, List, [], ◌∷◌, eqb, ltb, Result, ok, err, ensure, if◌then◌else◌,
  ◌>>=◌, ◌>>◌,
}
use little_actors.Prelude.Text.{Text, text_eq}
use little_actors.Naming.{Position, snapshot_position}
use little_actors.Replica.{ReplicaTarget, ReplicaStream, SnapshotRef, StreamHead, stream_beq}
use little_actors.Replica.Store.{decode, reference}
use little_actors.Authority.Advance.{advance, position_beq, position_ltb}
use little_actors.Authority.Sealing.{is_empty}
use little_actors.Wire.{Codec}

pub record LoadedSnapshot (Bytes : Type 0) : Type 0 where
  pub reference : SnapshotRef
  pub bytes : Bytes

abbrev pub reference_of : {Bytes : Type 0} → Option (LoadedSnapshot Bytes) → Option SnapshotRef
reference_of none = none
reference_of (some loaded) = some loaded.reference

-- `max_by_key` over the keys of an epoch: the last of the newest.
unfoldable pub newer_key : Option (Position × Text) → Position → Text → Option (Position × Text)
newer_key none position key = some (position, key)
newer_key (some (best, best_key)) position key =
    if position_ltb (some position) (some best) then some (best, best_key) else some (position, key)

unfoldable pub consider :
    ℕ → Option (Position × Text) → Text → Option Position → Option (Position × Text)
unfolding newer_key
consider epoch best key none = best
consider epoch best key (some (e, v)) = if eqb e epoch then newer_key best (e, v) key else best

unfoldable pub newest_key : ℕ → Option (Position × Text) → List Text → Option (Position × Text)
unfolding consider
newest_key epoch best [] = best
newest_key epoch best (key ∷ keys) =
    newest_key epoch (consider epoch best key (snapshot_position key)) keys

-- The heads that answered, and the newest snapshot with theirs.
unfoldable pub add_heads :
    ReplicaStream
    → ℕ
    → Option SnapshotRef
    → List (Result StreamHead)
    → Result (ℕ × Option SnapshotRef)
add_heads stream witnesses candidate [] = ok (witnesses, candidate)
add_heads stream witnesses candidate (err e ∷ answers) =
    add_heads stream witnesses candidate answers
add_heads stream witnesses candidate (ok head ∷ answers) = do
  ensure (stream_beq head.stream stream) "replica returned another stream"
  candidate' ← advance candidate head.latest
  add_heads stream (suc witnesses) candidate' answers

-- What the heads of replicas add to the newest snapshot that the bucket knows.
unfoldable pub candidate_of :
    ReplicaStream
    → List ReplicaTarget
    → Option SnapshotRef
    → Option SnapshotRef
    → List (Result StreamHead)
    → Result (Option SnapshotRef)
unfolding add_heads
candidate_of stream replicas base loaded answers = do
  known ← advance base loaded
  (witnesses, candidate) ← add_heads stream 0 known answers
  ensure (is_empty replicas || ltb 0 witnesses)
      "no complete replica witness; refusing to lose acknowledged state"
  ok candidate

unfoldable pub decode_snapshot :
    (c : Codec) → Text → Codec.Bytes c → Result (LoadedSnapshot (Codec.Bytes c))
decode_snapshot c object bytes = do
  snapshot ← decode c bytes
  ensure
      (position_beq (snapshot_position object)
        (some (snapshot.owner_epoch, snapshot.state_version)))
      "snapshot identity does not match its object"
  ok (record { reference = reference c object snapshot bytes; bytes = bytes })
