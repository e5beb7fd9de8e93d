-- ===== src/Replica/Fence.antt =====
-- Sealed sessions and their streams (src/replication/store.rs).
use little_actors.Prelude.{
  true, false, ◌≡◌, refl, ◌∙◌, Option, none, some, Option-cases, Bool-cases, Result-cases, inl, inr,
  List, [], ◌∷◌, ok, ◌==◌, ==_iff, arith, if◌then◌else◌,
}
use little_actors.Prelude.Dict.{Dict, lookup, insert, lookup-insert}
use little_actors.Prelude.Text.{Text, text_eq}
use little_actors.Replica.{ReplicaStream, StreamHead, SessionHead}
use little_actors.Replica.Frame.{put-SameMaps, prune_stream-SameMaps, append-parts}
use little_actors.Replica.Steps.{append-cases, append-streams, head_of-cases}
use little_actors.Replica.Store.{StoreState, session_of, save_session, save_head}
use little_actors.Replica.Store.Operations.{
  Call, initialize, write, head, seal, store, fetch, or_unchanged, append, initialize_session,
  seal_session, put_object, serve, serve_all,
}
use little_actors.Wire.{Codec}

-- Each session stands under its own name.
pub record IsNamed (sessions : Dict Text SessionHead) : Type 0 where
  pub named : (k : Text) (h : SessionHead) → lookup k sessions ≡ some h → h.session ≡ k

insert-IsNamed :
    (h : SessionHead) (sessions : Dict Text SessionHead)
    → IsNamed sessions
    → IsNamed (insert h.session h sessions)
insert-IsNamed h sessions v = record {
  named = λ k g e.
      ground (arith, lookup-insert k h.session h sessions, ==_iff h.session k, v.named k g);
}

-- The head of a stream, if it belongs to a session.
abbrev pub if_in : Text → Option StreamHead → Option StreamHead
if_in id none = none
if_in id (some h) = if h.stream.session == id then some h else none

module _ (c : Codec) where
  open c use {Bytes}

  abbrev pub IsSealed : StoreState Bytes → Text → Type 0
  IsSealed s id = (session_of c s id).sealed ≡ true

  -- What a sealed session keeps: the seal, and the head under each prefix.
  pub record IsFrozen (id : Text) (s t : StoreState Bytes) : Type 0 where
    pub sealed : IsSealed t id
    pub heads : (p : Text) → if_in id (lookup p t.streams) ≡ if_in id (lookup p s.streams)

  session-session_of :
      (s : StoreState Bytes) (id : Text) → IsNamed s.sessions → (session_of c s id).session ≡ id
  unfolding session_of
  session-session_of s id v = elim (Option-cases (lookup id s.sessions)) [
    | inl e ↦ rw e
    | inr (h, e) ↦ rw e (v.named id h e)
  ]

  session_of-save_session :
      (s : StoreState Bytes) (h : SessionHead) (id : Text)
      → session_of c (save_session c s h) id ≡ (if h.session == id then h else session_of c s id)
  unfolding session_of save_session
  session_of-save_session s h id = ground (arith, lookup-insert id h.session h s.sessions)

  session_of-sessions :
      (s t : StoreState Bytes) (id : Text)
      → t.sessions ≡ s.sessions
      → session_of c t id ≡ session_of c s id
  unfolding session_of
  session_of-sessions s t id e = rw e

  append-sessions :
      (s : StoreState Bytes) (stream : ReplicaStream) (bytes : Bytes) {t : StoreState Bytes}
      → append c s stream bytes ≡ ok t
      → t.sessions ≡ s.sessions
  unfolding save_head
  append-sessions s stream bytes h =
      let parts = append-parts c s stream bytes h in
      elim (append-cases c s stream bytes parts) [
        | inl advance ↦
            (prune_stream-SameMaps c _ _ advance.pruned).sessions
            ∙ (put-SameMaps c s _ bytes advance.put_ok).sessions
        | inr repeat ↦ (prune_stream-SameMaps c s parts.head repeat.pruned).sessions
      ]

  append-IsFrozen :
      (id : Text) (s : StoreState Bytes) (stream : ReplicaStream) (bytes : Bytes)
      {t : StoreState Bytes}
      → IsSealed s id
      → append c s stream bytes ≡ ok t
      → IsFrozen id s t
  append-IsFrozen id s stream bytes {t} sealed h =
      let parts = append-parts c s stream bytes h in
      let other = head_of-cases c s stream parts.found in
      record {
        sealed = rw (session_of-sessions s t id (append-sessions s stream bytes h)) sealed;
        heads = λ p. elim (append-streams c s stream bytes parts) [
          | inl e ↦ rw e (
              ground (
                arith,
                lookup-insert p stream.prefix
                    (record { stream = stream; latest = some parts.snapshot }) s.streams,
                ==_iff stream.prefix p,
                ==_iff stream.session id,
                parts.unsealed,
                other,
              ))
          | inr e ↦ rw e.0
        ];
      }

  IsFrozen-refl : (id : Text) (s : StoreState Bytes) → IsSealed s id → IsFrozen id s s
  IsFrozen-refl id s h = record { sealed = h; heads = λ p. refl }

  save_session-IsFrozen :
      (id : Text) (s : StoreState Bytes) (h : SessionHead)
      → IsSealed s id
      → (h.session ≡ id → h.sealed ≡ true)
      → IsFrozen id s (save_session c s h)
  save_session-IsFrozen id s h sealed keeps = record {
    sealed =
        rw (session_of-save_session s h id) (ground (arith, sealed, ==_iff h.session id, keeps));
    heads = λ p. unfold save_session in refl;
  }

  pub initialize_session-ok :
      (s : StoreState Bytes) (session : Text) {t : StoreState Bytes}
      → initialize_session c s session ≡ ok t
      → ((session_of c s session).sealed ≡ false)
        × (t ≡ save_session c s (record (session_of c s session) { initialized = true }))
  unfolding initialize_session
  initialize_session-ok s session h = ground arith

  initialize-IsFrozen :
      (id session : Text) (s : StoreState Bytes)
      → IsNamed s.sessions
      → IsSealed s id
      → IsFrozen id s (or_unchanged s (initialize_session c s session))
  initialize-IsFrozen id session s v sealed = elim (Result-cases (initialize_session c s session)) [
    | inl (t, e) ↦
        let (unsealed, saved) = initialize_session-ok s session e in
        rw e (
          rw saved (
            save_session-IsFrozen id s (record (session_of c s session) { initialized = true })
              sealed (λ q. ground (arith, session-session_of s session v, sealed, unsealed))))
    | inr (_, e) ↦ rw e (IsFrozen-refl id s sealed)
  ]

  put-IsFrozen :
      (id object : Text) (bytes : Bytes) (s : StoreState Bytes)
      → IsSealed s id
      → IsFrozen id s (or_unchanged s (put_object c s object bytes))
  unfolding put_object
  put-IsFrozen id object bytes s sealed = elim (Result-cases (put_object c s object bytes)) [
    | inl (t, e) ↦
        let same = put-SameMaps c s _ bytes e in
        rw e (record {
          sealed = rw (session_of-sessions s t id same.sessions) sealed;
          heads = λ p. rw same.streams;
        })
    | inr (_, e) ↦ rw e (IsFrozen-refl id s sealed)
  ]

  write-IsFrozen :
      (id : Text) (stream : ReplicaStream) (bytes : Bytes) (s : StoreState Bytes)
      → IsSealed s id
      → IsFrozen id s (or_unchanged s (append c s stream bytes))
  write-IsFrozen id stream bytes s sealed = elim (Result-cases (append c s stream bytes)) [
    | inl (t, e) ↦ rw e (append-IsFrozen id s stream bytes sealed e)
    | inr (_, e) ↦ rw e (IsFrozen-refl id s sealed)
  ]

  -- One call leaves a sealed session as it is.
  serve-IsFrozen :
      (id : Text) (s : StoreState Bytes) (call : Call Bytes)
      → IsNamed s.sessions
      → IsSealed s id
      → IsFrozen id s (serve c s call)
  unfolding serve seal_session
  serve-IsFrozen id s (initialize session) v sealed = initialize-IsFrozen id session s v sealed
  serve-IsFrozen id s (write stream bytes) v sealed = write-IsFrozen id stream bytes s sealed
  serve-IsFrozen id s (head stream) v sealed = IsFrozen-refl id s sealed
  serve-IsFrozen id s (seal session) v sealed =
      save_session-IsFrozen id s (record (session_of c s session) { sealed = true }) sealed
        (λ e. refl)
  serve-IsFrozen id s (store object bytes) v sealed = put-IsFrozen id object bytes s sealed
  serve-IsFrozen id s (fetch object) v sealed = IsFrozen-refl id s sealed

  save_session-IsNamed :
      (s : StoreState Bytes) (h : SessionHead)
      → IsNamed s.sessions
      → IsNamed (save_session c s h).sessions
  unfolding save_session
  save_session-IsNamed s h v = insert-IsNamed h s.sessions v

  pub serve-IsNamed :
      (s : StoreState Bytes) (call : Call Bytes)
      → IsNamed s.sessions
      → IsNamed (serve c s call).sessions
  unfolding serve seal_session initialize_session put_object
  serve-IsNamed s (initialize session) v = elim (Bool-cases (session_of c s session).sealed) [
    | inl shut ↦ rw shut v
    | inr unsealed ↦ rw unsealed (save_session-IsNamed s _ v)
  ]
  serve-IsNamed s (write stream bytes) v = elim (Result-cases (append c s stream bytes)) [
    | inl (t, e) ↦ rw e (rw (append-sessions s stream bytes e) v)
    | inr (_, e) ↦ rw e v
  ]
  serve-IsNamed s (head stream) v = v
  serve-IsNamed s (seal session) v = save_session-IsNamed s _ v
  serve-IsNamed s (store object bytes) v = elim (Result-cases (put_object c s object bytes)) [
    | inl (t, e) ↦ rw e (rw ((put-SameMaps c s _ bytes e).sessions) v)
    | inr (_, e) ↦ rw e v
  ]
  serve-IsNamed s (fetch object) v = v

  -- Once a session is sealed, whatever calls a replica then answers (other initialisations, writes
  -- and seals included), the session is still sealed, and under every prefix the head of the
  -- session's stream is the one that it had. The states are those whose sessions stand under their
  -- own names.
  pub serve_all-IsFrozen :
      (id : Text) (s : StoreState Bytes) (calls : List (Call Bytes))
      → IsNamed s.sessions
      → IsSealed s id
      → IsFrozen id s (serve_all c s calls)
  unfolding serve_all
  serve_all-IsFrozen id s [] v sealed = IsFrozen-refl id s sealed
  serve_all-IsFrozen id s (call ∷ calls) v sealed =
      let first = serve-IsFrozen id s call v sealed in
      let rest =
        serve_all-IsFrozen id (serve c s call) calls (serve-IsNamed s call v) first.sealed in
      record { sealed = rest.sealed; heads = λ p. rest.heads p ∙ first.heads p }
