-- ===== src/Host/Runtime/Published.antt =====
-- Publishing a result, and what is durable (src/host/actor_runtime.rs).
use little_actors.Prelude.{
  ℕ, ◌≡◌, inl, inr, true, false, Option, none, some, eqb, ltb, Result, ok, err, Bool-cases, subst,
  >>=-eq-ok, ok-injective,
}
use little_actors.Prelude.Action.{continue}
use little_actors.Prelude.Program.{Triple, After, >>=-Triple, >>=-lift-Triple, Triple-change}
use little_actors.Json.{Value}
use little_actors.Actor.Outcome.{ActorInvocation}
use little_actors.Replica.Store.{checked_add}
use little_actors.Snapshot.{StateSnapshot, validate}
use little_actors.Wire.{Codec}
use little_actors.Host.Runtime.{
  WritePlan, CommitOrigin, PendingStateCommit, read_clock, Surroundings, Held, saturating_add,
  state_write_ticket_safety_ms, Text,
}
use little_actors.Host.Runtime.Publishing.{
  new_snapshot, encode, ticket_for, take_ticket, attributed, install, publish_with, then_publish,
  publish_result,
}
use little_actors.Host.Runtime.Confirming.{Carries, IsSoundHeld, IsBacked-change}
use little_actors.Host.Runtime.Pending.{
  IsSoundWith, Keeps, outside-Keeps, prepare_write-Keeps, set_pending-KeepsWith, write-confirms,
  finish_pending_commit-Keeps,
}

module _ (c : Codec) (s : Surroundings c) where
  abbrev Bytes : Type 0
  Bytes = Codec.Bytes c

  ticket_for-Keeps :
      (invocation : ActorInvocation) (epoch version : ℕ) (next : Option WritePlan)
      → Keeps c s (ticket_for c s invocation epoch version next)
  unfolding ticket_for
  ticket_for-Keeps invocation epoch version none = prepare_write-Keeps c s invocation epoch
  ticket_for-Keeps invocation epoch version (some ticket) =
      elim (Bool-cases (eqb ticket.state_version version)) [
        | inl e ↦ rw e (
            >>=-Triple (outside-Keeps c s read_clock s.unix_millis (λ r h. tt)) (λ now.
              elim (Bool-cases
                (ltb (saturating_add now state_write_ticket_safety_ms) ticket.expires_at_ms)) [
                  | inl k ↦ rw k (record { holds = λ held p. p })
                  | inr k ↦ rw k (prepare_write-Keeps c s invocation epoch)
                ]))
        | inr e ↦ rw e (prepare_write-Keeps c s invocation epoch)
      ]

  take_ticket-Keeps :
      (invocation : ActorInvocation) (epoch version : ℕ)
      → Keeps c s (take_ticket c s invocation epoch version)
  unfolding take_ticket
  take_ticket-Keeps invocation epoch version = record {
    holds = λ held (a, (b, p)).
        (ticket_for-Keeps invocation epoch version held.cached.next_write).holds
          (record held { cached = record held.cached { next_write = none } })
          (a, (IsBacked-change c s held.history held.cached held.cached.pending none b, p));
  }

  -- A new snapshot carries its state.
  new_snapshot-Carries :
      (version epoch : ℕ) (request_id : Text) (state result : Value) {snapshot : StateSnapshot}
      → new_snapshot c s version epoch request_id state result ≡ ok snapshot
      → Carries c s snapshot.state state
  unfolding new_snapshot
  new_snapshot-Carries version epoch request_id state result {snapshot = snapshot} h =
      let (raw, e, h') = >>=-eq-ok (s.encoders.value_to_vec state) _ h in
      let (_, _, h'') = >>=-eq-ok (validate _) _ h' in
      subst (λ (x : StateSnapshot). Carries c s x.state state) (ok-injective h'') (inl e)

  install-Keeps :
      (pending : PendingStateCommit) (bytes : Bytes)
      → encode c s pending.snapshot ≡ ok bytes
      → Triple
          (λ held. IsSoundWith c s pending held)
          (install c s pending bytes)
          (IsSoundHeld c s)
          (λ _. IsSoundHeld c s)
  unfolding install
  install-Keeps pending bytes e = >>=-Triple (set_pending-KeepsWith c s pending) (λ _.
      >>=-Triple (write-confirms c s pending bytes e) (λ _.
        Triple-change (set_pending-KeepsWith c s (record pending { durable = true })) (λ held p. p)
          (λ _ held p. p.0)))

  publish_with-Keeps :
      (invocation : ActorInvocation) (epoch : ℕ) (result state : Value) (origin : CommitOrigin)
      (version : ℕ) (ticket : WritePlan)
      → Keeps c s (publish_with c s invocation epoch result state origin version ticket)
  unfolding publish_with attributed
  publish_with-Keeps invocation epoch result state origin version ticket =
      >>=-lift-Triple _ (λ held p. p)
        (λ _ _.
          >>=-lift-Triple _ (λ held p. p)
            (λ _ _.
              >>=-lift-Triple (new_snapshot c s version epoch invocation.request_id state result)
                (λ held p. p)
                (λ snapshot e.
                  >>=-Triple (outside-Keeps c s read_clock s.unix_millis (λ r h. tt)) (λ now.
                    >>=-lift-Triple (encode c s (attributed c s invocation origin now snapshot))
                      (λ held p. p)
                      (λ bytes e'.
                        >>=-Triple
                          (Triple-change (install-Keeps _ bytes e')
                            (λ held p. (
                              p,
                              record {
                                carries =
                                    new_snapshot-Carries version epoch invocation.request_id state
                                      result e;
                                confirmed = λ h. absurd (let q : false ≡ true = h in cc);
                              },
                            ))
                            (λ _ held p. p))
                          (λ _.
                            >>=-Triple (finish_pending_commit-Keeps c s invocation)
                              (λ _. record { holds = λ held p. p })))))))

  pub publish_result-Keeps :
      (invocation : ActorInvocation) (epoch : ℕ) (result state : Value) (origin : CommitOrigin)
      → Keeps c s (publish_result c s invocation epoch result state origin)
  unfolding publish_result then_publish
  publish_result-Keeps invocation epoch result state origin = record {
    holds = λ held p.
        from_version held p
          (checked_add held.cached.state_version 1 "actor state version overflow");
  }
    where
      from_version :
          (held : Held Bytes)
          → IsSoundHeld c s held
          → (r : Result ℕ)
          → After
              (IsSoundHeld c s)
              (λ _. IsSoundHeld c s)
              (continue (then_publish c s invocation epoch result state origin) held r).0
              (continue (then_publish c s invocation epoch result state origin) held r).1
      from_version held p (ok version) =
          (>>=-Triple (take_ticket-Keeps invocation epoch version)
              (publish_with-Keeps invocation epoch result state origin version)).holds
            held p
      from_version held p (err e) = p
