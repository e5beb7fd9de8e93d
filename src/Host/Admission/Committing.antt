-- ===== src/Host/Admission/Committing.antt =====
-- Commits of interleaved snapshots and their order (src/host/actor_host/admission.rs).
use little_actors.Prelude.{
  ℕ, zero, suc, ◌≤◌, ◌≡◌, refl, sym, ap, ◌∙◌, some, Bool-cases, Option-cases, inl, inr, List, [],
  ◌∷◌, ◌==◌, ◌||◌, ltb, ==_iff, nat_eq, eqb, length, Result, ok, err, arith, if◌then◌else◌,
}
use little_actors.Prelude.Dict.{lookup, insert, remove, lookup-insert, lookup-remove}
use little_actors.Actor.Outcome.{
  ActorRequest, ActorExecutionResult, completed, failed, reroute, host_unavailable,
  ActorInterleavedOutcome,
}
use little_actors.Host.Admission.{
  Runtime, Box, has_value, finish, stop, release, committed, commit_one, commit_in, commit_ready,
  executed_interleaved,
}
use little_actors.Host.Admission.Draining.{release-same, commit_in-none, commit_in-some}

abbrev pub logged : Result ActorExecutionResult → ℕ → List ℕ → List ℕ
logged (ok (completed result effects)) n log = n ∷ log
logged r n log = log

-- A runtime that also logs the sequence number of each snapshot that it committed, the newest first.
abbrev pub recording : Runtime → Runtime
recording r = record {
  State = Runtime.State r × List ℕ;
  prepare_invocation = λ s request. let (t, x) = r.prepare_invocation s.0 request in ((t, s.1), x);
  activate_actor = λ s actor. let (t, x) = r.activate_actor s.0 actor in ((t, s.1), x);
  finish_serial =
      λ s request result. let (t, x) = r.finish_serial s.0 request result in ((t, s.1), x);
  commit_interleaved = λ s request outcome.
      let (t, x) = r.commit_interleaved s.0 request outcome in
      ((t, logged x outcome.sequence s.1), x);
  evict = λ s actor. (r.evict s.0 actor, s.1);
}

-- `n - 1`, …, 2, 1
unfoldable pub numbers_below : ℕ → List ℕ
numbers_below zero = []
numbers_below (suc n) = let rest = numbers_below n in if eqb n 0 then [] else n ∷ rest

module _ (r : Runtime) where
  abbrev pub log_of : Box (recording r) → List ℕ
  log_of box = box.runtime.1

  -- What was committed is all that precedes the next number, and what is ready stands under its own.
  pub record IsOrdered (box : Box (recording r)) : Type 0 where
    pub positive : 1 ≤ box.next_sequence
    pub log : log_of box ≡ numbers_below box.next_sequence
    pub keyed :
        (k id : ℕ) (request : ActorRequest) (outcome : ActorInterleavedOutcome)
        → lookup k box.ready ≡ some (id, request, outcome)
        → outcome.sequence ≡ k

  -- A change that touches none of it.
  pub same-IsOrdered :
      (box box' : Box (recording r))
      → box'.ready ≡ box.ready
      → box'.next_sequence ≡ box.next_sequence
      → log_of box' ≡ log_of box
      → IsOrdered box
      → IsOrdered box'
  same-IsOrdered box box' ready next log v = record {
    positive = rw next v.positive;
    log = log ∙ v.log ∙ ap numbers_below (sym next);
    keyed = λ k id request outcome e. v.keyed k id request outcome (sym (ap (lookup k) ready) ∙ e);
  }

  pub release-IsOrdered :
      (id : ℕ) (box : Box (recording r)) → IsOrdered box → IsOrdered (release (recording r) id box)
  release-IsOrdered id box v =
      let (ready, next, runtime) = release-same (recording r) id box in
      same-IsOrdered box (release (recording r) id box) ready next
        (ap (λ (s : Runtime.State r × List ℕ). s.1) runtime) v

  pub stop-IsOrdered :
      (request : ActorRequest) (box : Box (recording r))
      → IsOrdered box
      → IsOrdered (stop (recording r) request box).0
  unfolding stop finish
  stop-IsOrdered request box v = same-IsOrdered box _ refl refl refl v

  -- One commit of the snapshot whose turn it is.
  remove-keyed :
      (box : Box (recording r)) (k id : ℕ) (request : ActorRequest)
      (outcome : ActorInterleavedOutcome)
      → IsOrdered box
      → lookup k (remove box.next_sequence box.ready) ≡ some (id, request, outcome)
      → outcome.sequence ≡ k
  remove-keyed box k id request outcome v e = elim (Bool-cases (box.next_sequence == k)) [
    | inl same ↦ absurd (ground (arith, lookup-remove k box.next_sequence box.ready))
    | inr other ↦
        v.keyed k id request outcome
          (sym (lookup-remove k box.next_sequence box.ready ∙ rw other refl) ∙ e)
  ]

  left-IsOrdered :
      (box : Box (recording r)) (s : Runtime.State r)
      → IsOrdered box
      → IsOrdered
          (record box { runtime = (s, log_of box); ready = remove box.next_sequence box.ready })
  left-IsOrdered box s v = record {
    positive = v.positive;
    log = v.log;
    keyed = λ k id request outcome e. remove-keyed box k id request outcome v e;
  }

  numbers_below-suc : (n : ℕ) → 1 ≤ n → numbers_below (suc n) ≡ n ∷ numbers_below n
  unfolding numbers_below
  numbers_below-suc n h = elim (Bool-cases (eqb n 0)) [
    | inl e ↦ absurd (ground arith)
    | inr e ↦ rw e refl
  ]

  committed-IsOrdered :
      (id : ℕ) (request : ActorRequest) (outcome : ActorInterleavedOutcome)
      (box : Box (recording r)) (s : Runtime.State r) (result : Result ActorExecutionResult)
      → IsOrdered box
      → outcome.sequence ≡ box.next_sequence
      → IsOrdered
          (committed
            (recording r)
            id
            request
            (record box {
              runtime = (s, logged result outcome.sequence (log_of box));
              ready = remove box.next_sequence box.ready;
            })
            result).0
  unfolding committed finish
  committed-IsOrdered id request outcome box s (ok (completed result effects)) v turn =
      let next : Box (recording r) =
        finish (recording r) request (ok (completed result effects)) (record box {
          runtime = (s, outcome.sequence ∷ log_of box);
          ready = remove box.next_sequence box.ready;
          next_sequence = suc box.next_sequence;
        }) in
      release-IsOrdered id next (record {
        positive = omega arith;
        log =
            rw turn (ap (λ l. box.next_sequence ∷ l) v.log)
            ∙ sym (numbers_below-suc box.next_sequence v.positive);
        keyed = λ k id request outcome e. remove-keyed box k id request outcome v e;
      })
  committed-IsOrdered id request outcome box s (ok (failed failure)) v turn =
      stop-IsOrdered request _ (left-IsOrdered box s v)
  committed-IsOrdered id request outcome box s (ok reroute) v turn =
      stop-IsOrdered request _ (left-IsOrdered box s v)
  committed-IsOrdered id request outcome box s (ok host_unavailable) v turn =
      stop-IsOrdered request _ (left-IsOrdered box s v)
  committed-IsOrdered id request outcome box s (err e) v turn =
      stop-IsOrdered request _ (left-IsOrdered box s v)

  commit_one-IsOrdered :
      (id : ℕ) (request : ActorRequest) (outcome : ActorInterleavedOutcome)
      (box : Box (recording r))
      → IsOrdered box
      → outcome.sequence ≡ box.next_sequence
      → IsOrdered (commit_one (recording r) id request outcome box).0
  unfolding commit_one
  commit_one-IsOrdered id request outcome box v turn =
      let (s, result) = r.commit_interleaved box.runtime.0 request outcome in
      committed-IsOrdered id request outcome box s result v turn

  commit_in-IsOrdered :
      (rounds : ℕ) (box : Box (recording r))
      → IsOrdered box
      → IsOrdered (commit_in (recording r) rounds box).0
  commit_in-IsOrdered zero box v = unfold commit_in in v
  commit_in-IsOrdered (suc rounds) box v =
      elim (Option-cases (lookup box.next_sequence box.ready)) [
        | inl e ↦ rw (commit_in-none (recording r) rounds box e) v
        | inr ((id, request, outcome), e) ↦
            let (box', continues) = commit_one (recording r) id request outcome box in
            let w =
              commit_one-IsOrdered id request outcome box v
                (v.keyed box.next_sequence id request outcome e) in
            rw (commit_in-some (recording r) rounds box id request outcome e)
              (elim (Bool-cases continues) [
                | inl goes_on ↦ rw goes_on (commit_in-IsOrdered rounds box' w)
                | inr ends ↦ rw ends w
              ])
      ]

  pub executed_interleaved-IsOrdered :
      (id : ℕ) (request : ActorRequest) (outcome : ActorInterleavedOutcome)
      (box : Box (recording r))
      → IsOrdered box
      → IsOrdered (executed_interleaved (recording r) id request outcome box).0
  unfolding executed_interleaved commit_ready
  executed_interleaved-IsOrdered id request outcome box v =
      elim (Bool-cases
        (ltb outcome.sequence box.next_sequence || has_value (lookup outcome.sequence box.ready))) [
          | inl repeated ↦ rw repeated (stop-IsOrdered request box v)
          | inr fresh ↦
              let box' : Box (recording r) = record box {
                ready = insert outcome.sequence (id, request, outcome) box.ready;
              } in
              rw fresh (
                commit_in-IsOrdered (length box'.ready) box' (record {
                  positive = v.positive;
                  log = v.log;
                  keyed = λ k id' request' outcome' e. ground (
                    arith,
                    lookup-insert k outcome.sequence (id, request, outcome) box.ready,
                    ==_iff outcome.sequence k,
                    v.keyed k id' request' outcome',
                  );
                }))
        ]
