-- ===== src/Authority/Recovery/Fencing.antt =====
-- Registrations and replacements of replicas, and the record of the session
-- (src/bucket/runtime/startup.rs, src/bucket/runtime/repair.rs).
use little_actors.Prelude.{
  ℕ, Bool, true, false, ◌&&◌, ◌≡◌, ◌≢◌, refl, ap, sym, ◌∙◌, Option, none, some, List, Bool-cases,
  Result-cases, inl, inr, Result, ok, err, ensure, length, eqb, String,
}
use little_actors.Prelude.Action.{Action, pure, lift, continue, ◌>>=◌, ◌>>◌}
use little_actors.Prelude.Text.{Text}
use little_actors.Replica.{ReplicaScope, ReplicaTarget, ReplicaStream}
use little_actors.Replica.Ticket.{validate_ticket}
use little_actors.Authority.{Session}
use little_actors.Authority.Bucket.{Bucket, Lawful}
use little_actors.Authority.Bucket.Replacing.{replace-stale}
use little_actors.Authority.Paths.{session_key, scope_identity}
use little_actors.Authority.Peers.{Peers}
use little_actors.Authority.Recovery.{
  Storage, ReplicaMembership, is_open_state, is_session_of, save_session, initial_session,
  validate_initial_replicas, persisted_session, session_or_open, register_initial_replicas,
  replace_replicas,
}
use little_actors.Authority.Recovery.Closing.{IsStored}
use little_actors.Wire.{Codec}

module _ (c : Codec) (b : Bucket (Codec.Bytes c)) where
  -- An operation fails and leaves every object as it was.
  pub record IsRefused {A : Type 0} (s : Storage c b) (p : Storage c b × Result A) : Type 0 where
    pub fails : (a : A) → p.1 ≢ ok a
    pub same : (j : Text) → b.get p.0 j ≡ b.get s j

  refused :
      {A : Type 0} (s t : Storage c b) (e : String)
      → ((j : Text) → b.get t j ≡ b.get s j)
      → IsRefused {A = A} s (t, err e)
  refused s t e same = record { fails = λ a h. cc; same = same }

  replace_replicas-IsRefused :
      (peers : Peers (Codec.Bytes c)) (regions : ℕ) (scope : ReplicaScope)
      (replicas : List ReplicaTarget) (latest : Option (ReplicaStream × Codec.Bytes c))
      (s : Storage c b)
      → IsStored c b s (session_key c scope.host scope.session) is_open_state false
      → IsRefused s (replace_replicas c b peers regions scope replicas latest s)
  unfolding replace_replicas session_or_open
  replace_replicas-IsRefused peers regions scope replicas latest s stored =
      elim (Bool-cases (eqb (length replicas) regions)) [
        | inr fails ↦ rw fails (refused s s _ (λ j. refl))
        | inl enough ↦
            rw enough (elim (Result-cases (validate_ticket (record { replicas = replicas }))) [
              | inr (_, e) ↦ rw e (refused s s _ (λ j. refl))
              | inl (_, e) ↦
                  rw (e, stored.found, stored.reads, stored.passes) (refused s s _ (λ j. refl))
            ])
      ]

  -- What follows the write of `register_initial_replicas`, which is itself refused.
  register_rest :
      ℕ → ReplicaScope → List ReplicaTarget → Bool → Action (Storage c b) ReplicaMembership
  unfolding persisted_session
  register_rest regions scope replicas saved = do
    persisted ←
        persisted_session c b (session_key c scope.host scope.session)
          (initial_session c b scope replicas) saved
    lift (
        ensure
          (is_open_state persisted.state
            && is_session_of persisted (scope_identity c scope) scope.region)
          "initial replication session changed or was fenced")
    lift (validate_initial_replicas c b regions persisted.replicas)
    pure (record { scope = scope; replicas = persisted.replicas })

  rest-IsRefused :
      (regions : ℕ) (scope : ReplicaScope) (replicas : List ReplicaTarget) (s t : Storage c b)
      (r : Result Bool)
      → IsStored c b s (session_key c scope.host scope.session) is_open_state false
      → r ≢ ok true
      → ((j : Text) → b.get t j ≡ b.get s j)
      → IsRefused s (continue (register_rest regions scope replicas) t r)
  unfolding register_rest persisted_session
  rest-IsRefused regions scope replicas s t (ok true) stored fails same = absurd (fails refl)
  rest-IsRefused regions scope replicas s t (ok false) stored fails same =
      rw (same (session_key c scope.host scope.session), stored.found, stored.reads, stored.passes)
        (refused s t _ same)
  rest-IsRefused regions scope replicas s t (err e) stored fails same = refused s t e same

  -- A closed record is not the bytes of an open one.
  closed_bytes :
      (s : Storage c b) (key : Text) (initial : Session)
      → is_open_state initial.state ≡ true
      → (stored : IsStored c b s key is_open_state false)
      → stored.object.bytes ≢ c.write_session initial
  closed_bytes s key initial live stored e =
      let same : stored.session ≡ initial =
        ok_injective (sym stored.reads ∙ ap c.read_session e ∙ c.read-write_session initial) in
      absurd (cc (live, stored.passes, ap (λ (x : Session). is_open_state x.state) same))
    where
      ok_injective : {x y : Session} → ok x ≡ ok y → x ≡ y
      ok_injective h = cc

  register-IsRefused :
      (laws : Lawful b) (regions : ℕ) (scope : ReplicaScope) (replicas : List ReplicaTarget)
      (s : Storage c b)
      → IsStored c b s (session_key c scope.host scope.session) is_open_state false
      → IsRefused s (register_initial_replicas c b regions scope replicas s)
  unfolding register_initial_replicas register_rest save_session initial_session
  register-IsRefused laws regions scope replicas s stored =
      let key = session_key c scope.host scope.session in
      let initial = initial_session c b scope replicas in
      let (t, r) = save_session c b key none initial s in
      let stale =
        replace-stale ⦃e = c.bytes_eq⦄ b laws s key none (c.write_session initial)
          (some stored.object) stored.found (λ e. cc) (closed_bytes s key initial refl stored) in
      elim (Result-cases (validate_initial_replicas c b regions replicas)) [
        | inr (_, e) ↦ rw e (refused s s _ (λ j. refl))
        | inl (_, e) ↦ rw e (rest-IsRefused regions scope replicas s t r stored stale.0 stale.1)
      ]

  -- Once the record of a session is stored and no longer open, neither the first registration of its
  -- replicas nor a replacement of them succeeds, whatever the peers answer, and neither changes any
  -- object of the bucket.
  pub closed_session-IsRefused :
      (laws : Lawful b) (peers : Peers (Codec.Bytes c)) (regions : ℕ) (scope : ReplicaScope)
      (replicas : List ReplicaTarget) (latest : Option (ReplicaStream × Codec.Bytes c))
      (s : Storage c b)
      → IsStored c b s (session_key c scope.host scope.session) is_open_state false
      → IsRefused s (register_initial_replicas c b regions scope replicas s)
        × IsRefused s (replace_replicas c b peers regions scope replicas latest s)
  closed_session-IsRefused laws peers regions scope replicas latest s stored = (
    register-IsRefused laws regions scope replicas s stored,
    replace_replicas-IsRefused peers regions scope replicas latest s stored,
  )
