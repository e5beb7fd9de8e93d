-- ===== src/Replica/Progress.antt =====
-- The versions of streams (src/replication/store.rs).
use little_actors.Prelude.{
  ℕ, ◌≤◌, ◌≡◌, Option, none, some, Result-cases, inl, inr, List, [], ◌∷◌, ok, ==_iff, arith,
}
use little_actors.Prelude.Dict.{lookup, lookup-insert}
use little_actors.Prelude.Text.{Text, text_eq}
use little_actors.Replica.{ReplicaStream, StreamHead}
use little_actors.Replica.Frame.{put-SameMaps, append-parts}
use little_actors.Replica.Steps.{latest_version, append-cases, append-streams, head_of-cases}
use little_actors.Replica.Fence.{initialize_session-ok}
use little_actors.Replica.Store.{StoreState, save_session}
use little_actors.Replica.Store.Operations.{
  Call, initialize, write, head, seal, store, fetch, append, initialize_session, seal_session,
  put_object, serve, serve_all,
}
use little_actors.Wire.{Codec}

abbrev pub head_version : Option StreamHead → ℕ
head_version none = 0
head_version (some h) = latest_version h.latest

module _ (c : Codec) where
  open c use {Bytes, len}

  append_grows :
      (s : StoreState Bytes) (stream : ReplicaStream) (bytes : Bytes) (p : Text)
      {t : StoreState Bytes}
      → append c s stream bytes ≡ ok t
      → head_version (lookup p s.streams) ≤ head_version (lookup p t.streams)
  append_grows s stream bytes p {t} h =
      let parts = append-parts c s stream bytes h in
      let own = head_of-cases c s stream parts.found in
      elim (append-cases c s stream bytes parts) [
        | inl advance ↦ elim (append-streams c s stream bytes parts) [
          | inl e ↦ rw e (
              ground (
                arith,
                lookup-insert p stream.prefix
                    (record { stream = stream; latest = some parts.snapshot }) s.streams,
                ==_iff stream.prefix p,
                own,
                advance.older,
              ))
          | inr e ↦ rw e.0 (omega arith)
        ]
        | inr repeat ↦ elim (append-streams c s stream bytes parts) [
          | inl e ↦ rw e (
              ground (
                arith,
                lookup-insert p stream.prefix
                    (record { stream = stream; latest = some parts.snapshot }) s.streams,
                ==_iff stream.prefix p,
                own,
                repeat.same,
              ))
          | inr e ↦ rw e.0 (omega arith)
        ]
      ]

  serve_grows :
      (s : StoreState Bytes) (call : Call Bytes) (p : Text)
      → head_version (lookup p s.streams) ≤ head_version (lookup p (serve c s call).streams)
  unfolding serve seal_session save_session put_object
  serve_grows s (initialize session) p = elim (Result-cases (initialize_session c s session)) [
    | inl (t, e) ↦ rw e (rw ((initialize_session-ok c s session e).1) (omega arith))
    | inr (_, e) ↦ rw e (omega arith)
  ]
  serve_grows s (write stream bytes) p = elim (Result-cases (append c s stream bytes)) [
    | inl (t, e) ↦ rw e (append_grows s stream bytes p e)
    | inr (_, e) ↦ rw e (omega arith)
  ]
  serve_grows s (head stream) p = omega arith
  serve_grows s (seal session) p = omega arith
  serve_grows s (store object bytes) p = elim (Result-cases (put_object c s object bytes)) [
    | inl (t, e) ↦ rw e (rw ((put-SameMaps c s _ bytes e).streams) (omega arith))
    | inr (_, e) ↦ rw e (omega arith)
  ]
  serve_grows s (fetch object) p = omega arith

  -- Whatever calls a replica answers, the version at the head of the stream under a prefix never
  -- decreases.
  pub serve_all_grows :
      (s : StoreState Bytes) (calls : List (Call Bytes)) (p : Text)
      → head_version (lookup p s.streams) ≤ head_version (lookup p (serve_all c s calls).streams)
  unfolding serve_all
  serve_all_grows s [] p = omega arith
  serve_all_grows s (call ∷ calls) p =
      omega (arith, serve_grows s call p, serve_all_grows (serve c s call) calls p)
