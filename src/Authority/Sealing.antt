-- ===== src/Authority/Sealing.antt =====
-- Sealing the replicas of a session and collecting the newest snapshot of each stream
-- (`seal_replicas` of src/bucket/runtime/session.rs). The answers of the peers come in the order in
-- which they complete.
use little_actors.Prelude.{
  ℕ, suc, Bool, true, false, not, ◌||◌, Option, none, some, List, [], ◌∷◌, ◌==◌, ltb, Result, ok,
  err, ◌>>=◌, ◌>>◌, ensure, if◌then◌else◌,
}
use little_actors.Prelude.Dict.{Dict, lookup, insert}
use little_actors.Prelude.Text.{Text, text_eq}
use little_actors.Naming.{object_name}
use little_actors.Replica.{SnapshotRef, StreamHead, SessionHead}
use little_actors.Authority.{Session}
use little_actors.Authority.Advance.{advance}

abbrev pub Newest : Type 0
Newest = Dict Text (Option SnapshotRef)

-- `entry(prefix).or_insert(None)`
abbrev pub entry : Option (Option SnapshotRef) → Option SnapshotRef
entry none = none
entry (some current) = current

unfoldable pub add_latest : Newest → StreamHead → Option SnapshotRef → Result Newest
add_latest snapshots head none = ok snapshots
add_latest snapshots head (some snapshot) = do
  ensure (snapshot.object == object_name head.stream.prefix snapshot.state_version)
      "replica snapshot identity mismatch"
  newest ← advance (entry (lookup head.stream.prefix snapshots)) (some snapshot)
  ok (insert head.stream.prefix newest snapshots)

unfoldable pub add_streams : Text → Newest → List StreamHead → Result Newest
unfolding add_latest
add_streams id snapshots [] = ok snapshots
add_streams id snapshots (head ∷ heads) = do
  ensure (head.stream.session == id) "replica returned another session's stream"
  snapshots' ← add_latest snapshots head head.latest
  add_streams id snapshots' heads

pub record Witnesses : Type 0 where
  pub count : ℕ
  pub snapshots : Newest

unfoldable pub add_answer : Text → Witnesses → Result SessionHead → Result Witnesses
unfolding add_streams
add_answer id seen (err e) = ok seen
add_answer id seen (ok head) = do
  ensure (head.session == id) "replica returned another session"
  if not head.initialized || not head.sealed then ok seen else (do
    snapshots ← add_streams id seen.snapshots head.streams
    ok (record { count = suc seen.count; snapshots = snapshots }))

unfoldable pub add_answers : Text → Witnesses → List (Result SessionHead) → Result Witnesses
unfolding add_answer
add_answers id seen [] = ok seen
add_answers id seen (answer ∷ answers) = do
  seen' ← add_answer id seen answer
  add_answers id seen' answers

-- `into_values().flatten()`
unfoldable pub known_snapshots : Newest → List SnapshotRef
known_snapshots [] = []
known_snapshots ((prefix, none) ∷ rest) = known_snapshots rest
known_snapshots ((prefix, some snapshot) ∷ rest) = snapshot ∷ known_snapshots rest

abbrev pub is_empty {ℓ} : {A : Type ℓ} → List A → Bool
is_empty [] = true
is_empty (x ∷ xs) = false

unfoldable pub seal_replicas : Session → List (Result SessionHead) → Result (List SnapshotRef)
unfolding add_answers known_snapshots
seal_replicas session answers = do
  seen ← add_answers session.id (record { count = 0; snapshots = [] }) answers
  ensure (is_empty session.replicas || ltb 0 seen.count)
      "no complete replica witness; refusing to lose acknowledged state"
  ok (known_snapshots seen.snapshots)
