-- ===== src/Authority/Recovery/Closing.antt =====
-- The record of a session when `start_recovery` or `finish_recovery` returns
-- (src/bucket/runtime/session.rs).
use little_actors.Prelude.{
  ℕ, suc, Bool, true, false, ◌≡◌, ◌≢◌, refl, ap, sym, ◌∙◌, Option, none, some, Result, ok, err,
  ensure, context, if◌then◌else◌, subst, String,
}
use little_actors.Prelude.Action.{Action, pure, continue}
use little_actors.Prelude.Text.{Text}
use little_actors.Replica.{ReplicaScope}
use little_actors.Authority.{Session, RecoveryState, is_open, recovering, sealed}
use little_actors.Authority.Bucket.{Bucket, BucketObject, generation_of, Lawful}
use little_actors.Authority.Bucket.Replacing.{replace-holds, replace-current}
use little_actors.Authority.Paths.{session_key, scope_identity}
use little_actors.Authority.Recovery.{
  Storage, is_open_state, is_sealed_state, is_session_of, save_session, tombstone, start_at,
  start_found, start_round, loop, start_recovery, finish_at, finish_round, finish_recovery,
}
use little_actors.Wire.{Codec}

context-some : {A : Type 0} (o : Option A) (a : A) (e : String) → context o e ≡ ok a → o ≡ some a
context-some none a e h = cc
context-some (some x) a e h = cc

module _ (c : Codec) (b : Bucket (Codec.Bytes c)) where
  -- The stored record of a session passes a test of its recovery state.
  pub record IsStored (t : Storage c b) (key : Text) (test : RecoveryState → Bool) (v : Bool)
      : Type 0 where
    pub object : BucketObject (Codec.Bytes c)
    pub found : b.get t key ≡ ok (some object)
    pub session : Session
    pub reads : c.read_session object.bytes ≡ ok session
    pub passes : test session.state ≡ v

  -- What a round does: it has a value, and then the record is closed; it does not go round again.
  abbrev Closes :
      {A : Type 0} → Text → (RecoveryState → Bool) → Bool → Storage c b × Result (Option A) → Type 0
  Closes key test v (t, ok (some r)) = IsStored t key test v
  Closes key test v (t, ok none) = ⊥
  Closes key test v (t, err e) = Unit

  -- What a loop does once it has fuel.
  abbrev pub Ends :
      {A : Type 0} (key : Text) (test : RecoveryState → Bool) (v : Bool)
      → Storage c b × Option (Result A)
      → Type 0
  Ends key test v (t, some (ok a)) = IsStored t key test v
  Ends key test v (t, some (err e)) = Unit
  Ends key test v (t, none) = ⊥

  module _ (laws : Lawful b) where
    saved-IsStored :
        (s : Storage c b) (key : Text) (g : Option ℕ) (session : Session)
        (test : RecoveryState → Bool) {v : Bool}
        → (save_session c b key g session s).1 ≡ ok true
        → test session.state ≡ v
        → IsStored (save_session c b key g session s).0 key test v
    unfolding save_session
    saved-IsStored s key g session test h e =
        let (object, found, holds) =
          replace-holds ⦃e = c.bytes_eq⦄ b laws s key g (c.write_session session) h in
        record {
          object = object;
          found = found;
          session = session;
          reads = ap c.read_session holds ∙ c.read-write_session session;
          passes = e;
        }

    not_refused :
        (s : Storage c b) (key : Text) (o : Option (BucketObject (Codec.Bytes c)))
        (session : Session)
        → b.get s key ≡ ok o
        → (save_session c b key (generation_of o) session s).1 ≢ ok false
    unfolding save_session
    not_refused s key o session found =
        replace-current ⦃e = c.bytes_eq⦄ b laws s key (c.write_session session) o found

    -- A write of the record that is not refused closes it.
    write-Closes :
        {A : Type 0} (t : Storage c b) (key : Text) (test : RecoveryState → Bool) (v : Bool)
        (r : Result Bool) (x : A)
        → (r ≡ ok true → IsStored t key test v)
        → r ≢ ok false
        → Closes key test v (continue (λ saved. pure (if saved then some x else none)) t r)
    write-Closes t key test v (ok true) x stored refused = stored refl
    write-Closes t key test v (ok false) x stored refused = refused refl
    write-Closes t key test v (err e) x stored refused = tt

    -- A step that fails ends the round.
    after_ok :
        {A B : Type 0} (key : Text) (test : RecoveryState → Bool) (v : Bool) (s : Storage c b)
        (r : Result A) (f : A → Action (Storage c b) (Option B))
        → ((a : A) → r ≡ ok a → Closes key test v (f a s))
        → Closes key test v (continue f s r)
    after_ok key test v s (ok a) f h = h a refl
    after_ok key test v s (err e) f h = tt

    start_at-Closes :
        (s : Storage c b) (key : Text) (object : BucketObject (Codec.Bytes c)) (session : Session)
        (state : RecoveryState)
        → b.get s key ≡ ok (some object)
        → c.read_session object.bytes ≡ ok session
        → session.state ≡ state
        → Closes key is_open_state false (start_at c b key object.generation session state s)
    unfolding start_at
    start_at-Closes s key object session sealed found reads e = record {
      object = object;
      found = found;
      session = session;
      reads = reads;
      passes = rw e refl;
    }
    start_at-Closes s key object session recovering found reads e = record {
      object = object;
      found = found;
      session = session;
      reads = reads;
      passes = rw e refl;
    }
    start_at-Closes s key object session is_open found reads e =
        let session' : Session = record session { state = recovering } in
        let (t, r) = save_session c b key (some object.generation) session' s in
        write-Closes t key is_open_state false r (some session')
          (λ h. saved-IsStored s key (some object.generation) session' is_open_state h refl)
          (not_refused s key (some object) session' found)

    start_found-Closes :
        (s : Storage c b) (scope : ReplicaScope) (o : Option (BucketObject (Codec.Bytes c)))
        → b.get s (session_key c scope.host scope.session) ≡ ok o
        → Closes
            (session_key c scope.host scope.session)
            is_open_state
            false
            (start_found c b scope o s)
    unfolding start_found tombstone
    start_found-Closes s scope none found =
        let key = session_key c scope.host scope.session in
        let (t, r) = save_session c b key none (tombstone c b scope) s in
        write-Closes t key is_open_state false r none
          (λ h. saved-IsStored s key none (tombstone c b scope) is_open_state h refl)
          (not_refused s key none (tombstone c b scope) found)
    start_found-Closes s scope (some object) found =
        let key = session_key c scope.host scope.session in
        let go = λ (session : Session).
          λ (own : Unit {0}). start_at c b key object.generation session session.state in
        let own = λ (session : Session).
          ensure (is_session_of session (scope_identity c scope) scope.region)
            "session identity mismatch" in
        after_ok key is_open_state false s (c.read_session object.bytes)
          (λ session s'. continue (go session) s' (own session))
          (λ session reads.
            after_ok key is_open_state false s (own session) (go session)
              (λ _ checked. start_at-Closes s key object session session.state found reads refl))

    start_round-Closes :
        (s : Storage c b) (scope : ReplicaScope)
        → Closes
            (session_key c scope.host scope.session)
            is_open_state
            false
            (start_round c b scope s)
    unfolding start_round
    start_round-Closes s scope =
        let key = session_key c scope.host scope.session in
        after_ok key is_open_state false s (b.get s key) (start_found c b scope)
          (λ o found. start_found-Closes s scope o found)

    loop-Ends :
        {A : Type 0} (key : Text) (test : RecoveryState → Bool) (v : Bool) (fuel : ℕ)
        (round : Action (Storage c b) (Option A)) (s t : Storage c b) (r : Result (Option A))
        → round s ≡ (t, r)
        → Closes key test v (t, r)
        → Ends key test v (loop c b (suc fuel) round s)
    unfolding loop
    loop-Ends {A} key test v fuel round s t (ok (some a)) e closes =
        subst
          (λ (p : Storage c b × Result (Option A)). Ends {A = A} key test v (elim p.1 [
            | ok (some a) ↦ (p.0, some (ok a))
            | ok none ↦ loop c b fuel round p.0
            | err e ↦ (p.0, some (err e))
          ]))
          (sym e) closes
    loop-Ends key test v fuel round s t (ok none) e closes = absurd closes
    loop-Ends key test v fuel round s t (err m) e closes = rw (Ends, e) tt

    -- Over a lawful bucket that nothing else writes meanwhile, `start_recovery` comes to an end in
    -- one round, and if it succeeds the session's record is stored and no longer open.
    pub start_recovery-Ends :
        (fuel : ℕ) (scope : ReplicaScope) (s : Storage c b)
        → Ends
            (session_key c scope.host scope.session)
            is_open_state
            false
            (start_recovery c b (suc fuel) scope s)
    unfolding start_recovery
    start_recovery-Ends fuel scope s =
        let (t, r) = start_round c b scope s in
        loop-Ends (session_key c scope.host scope.session) is_open_state false fuel
          (start_round c b scope) s t r refl (start_round-Closes s scope)

    finish_at-Closes :
        (s : Storage c b) (key : Text) (session stored : Session)
        (current : BucketObject (Codec.Bytes c)) (state : RecoveryState)
        → session.state ≡ sealed
        → b.get s key ≡ ok (some current)
        → c.read_session current.bytes ≡ ok stored
        → stored.state ≡ state
        → Closes key is_sealed_state true (finish_at c b key session current state s)
    unfolding finish_at
    finish_at-Closes s key session stored current sealed shut found reads e = record {
      object = current;
      found = found;
      session = stored;
      reads = reads;
      passes = rw e refl;
    }
    finish_at-Closes s key session stored current recovering shut found reads e =
        let (t, r) = save_session c b key (some current.generation) session s in
        write-Closes t key is_sealed_state true r tt
          (λ h.
            saved-IsStored s key (some current.generation) session is_sealed_state h (rw shut refl))
          (not_refused s key (some current) session found)
    finish_at-Closes s key session stored current is_open shut found reads e =
        let (t, r) = save_session c b key (some current.generation) session s in
        write-Closes t key is_sealed_state true r tt
          (λ h.
            saved-IsStored s key (some current.generation) session is_sealed_state h (rw shut refl))
          (not_refused s key (some current) session found)

    -- Over a lawful bucket that nothing else writes meanwhile, `finish_recovery` comes to an end in
    -- one round, and if it succeeds the session's record is stored and sealed.
    pub finish_recovery-Ends :
        (fuel : ℕ) (scope : ReplicaScope) (session : Session) (s : Storage c b)
        → Ends
            (session_key c scope.host scope.session)
            is_sealed_state
            true
            (finish_recovery c b (suc fuel) scope session s)
    unfolding finish_recovery finish_round
    finish_recovery-Ends fuel scope session s =
        let key = session_key c scope.host scope.session in
        let session' : Session = record session { state = sealed } in
        let (t, r) = finish_round c b scope session s in
        let finish = λ (current : BucketObject (Codec.Bytes c)).
          λ (stored : Session). finish_at c b key session' current stored.state in
        let decoded = λ (current : BucketObject (Codec.Bytes c)).
          λ (s' : Storage c b). continue (finish current) s' (c.read_session current.bytes) in
        loop-Ends key is_sealed_state true fuel (finish_round c b scope session) s t r refl (
          after_ok key is_sealed_state true s (b.get s key)
            (λ object s'. continue decoded s' (context object "recovery record disappeared"))
            (λ object found.
              after_ok key is_sealed_state true s (context object "recovery record disappeared")
                decoded
                (λ current there.
                  after_ok key is_sealed_state true s (c.read_session current.bytes)
                    (finish current)
                    (λ stored reads.
                      finish_at-Closes s key session' stored current stored.state refl
                        (found ∙ ap ok (context-some object current _ there)) reads refl))))
