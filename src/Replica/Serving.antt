-- ===== src/Replica/Serving.antt =====
-- The calls that a replica answers, and its store's accounting (src/replication/store.rs).
use little_actors.Prelude.{◌≡◌, refl, List, [], ◌∷◌, Result-cases, inl, inr, ok}
use little_actors.Replica.{ReplicaStream}
use little_actors.Replica.Frame.{append-parts}
use little_actors.Replica.Steps.{append-cases}
use little_actors.Replica.Accounting.{
  IsValid, put-IsValid, prune_stream-IsValid, save_head-IsValid, save_session-IsValid,
}
use little_actors.Replica.Fence.{initialize_session-ok}
use little_actors.Replica.Store.{StoreState}
use little_actors.Replica.Store.Operations.{
  Call, initialize, write, head, seal, store, fetch, append, initialize_session, seal_session,
  put_object, serve, serve_all,
}
use little_actors.Wire.{Codec}

module _ (c : Codec) where
  open c use {Bytes}

  pub append-IsValid :
      (s : StoreState Bytes) (stream : ReplicaStream) (bytes : Bytes) {t : StoreState Bytes}
      → IsValid c s
      → append c s stream bytes ≡ ok t
      → IsValid c t
  append-IsValid s stream bytes v h =
      let parts = append-parts c s stream bytes h in
      elim (append-cases c s stream bytes parts) [
        | inl advance ↦
            prune_stream-IsValid c _ _
              (save_head-IsValid c advance.stored _ (put-IsValid c s _ bytes refl v advance.put_ok))
              advance.pruned
        | inr repeat ↦ prune_stream-IsValid c s parts.head v repeat.pruned
      ]

  pub serve-IsValid :
      (s : StoreState Bytes) (call : Call Bytes) → IsValid c s → IsValid c (serve c s call)
  unfolding serve seal_session put_object
  serve-IsValid s (initialize session) v = elim (Result-cases (initialize_session c s session)) [
    | inl (t, e) ↦
        rw e (rw ((initialize_session-ok c s session e).1) (save_session-IsValid c s _ v))
    | inr (_, e) ↦ rw e v
  ]
  serve-IsValid s (write stream bytes) v = elim (Result-cases (append c s stream bytes)) [
    | inl (t, e) ↦ rw e (append-IsValid s stream bytes v e)
    | inr (_, e) ↦ rw e v
  ]
  serve-IsValid s (head stream) v = v
  serve-IsValid s (seal session) v = save_session-IsValid c s _ v
  serve-IsValid s (store object bytes) v = elim (Result-cases (put_object c s object bytes)) [
    | inl (t, e) ↦ rw e (put-IsValid c s _ bytes refl v e)
    | inr (_, e) ↦ rw e v
  ]
  serve-IsValid s (fetch object) v = v

  -- Whatever calls a replica answers, failing or not, a valid store stays valid: each object is
  -- stored once, `used` is the sum of the stored sizes and at most the capacity, the blob files
  -- hold exactly the objects of the map with the sizes of their bytes, and the stream and session
  -- files are the maps in memory.
  pub serve_all-IsValid :
      (s : StoreState Bytes) (calls : List (Call Bytes))
      → IsValid c s
      → IsValid c (serve_all c s calls)
  unfolding serve_all
  serve_all-IsValid s [] v = v
  serve_all-IsValid s (call ∷ calls) v =
      serve_all-IsValid (serve c s call) calls (serve-IsValid s call v)
