-- ===== src/Host/Admission/Draining.antt =====
-- The snapshots that `commit_ready` takes (src/host/actor_host/admission.rs).
use little_actors.Prelude.{
  ℕ, zero, suc, ◌≤◌, ◌<◌, Bool, true, false, ◌≡◌, refl, none, some, Bool-cases, Option-cases, inl,
  inr, [], ◌∷◌, ◌==◌, nat_eq, eqb, length, Result, ok, err, Eq, arith, if◌then◌else◌,
}
use little_actors.Prelude.Dict.{Dict, lookup, remove}
use little_actors.Actor.Outcome.{
  ActorRequest, ActorExecutionResult, completed, failed, reroute, host_unavailable,
  ActorInterleavedOutcome,
}
use little_actors.Host.Admission.{
  Runtime, Box, finish, stop, release, committed, commit_one, commit_in, commit_ready,
}

length-remove {κ ℓ} :
    {K : Type κ} {V : Type ℓ} ⦃e : Eq K⦄ (k : K) (m : Dict K V) → length (remove k m) ≤ length m
unfolding remove
length-remove k [] = omega arith
length-remove k ((j, v) ∷ m) = ground (arith, length-remove k m)

-- Removing an entry that is there makes the map shorter.
length-remove_found {κ ℓ} :
    {K : Type κ} {V : Type ℓ} ⦃e : Eq K⦄ (k : K) (m : Dict K V) {v : V}
    → lookup k m ≡ some v
    → length (remove k m) < length m
unfolding lookup remove
length-remove_found k [] h = cc
length-remove_found k ((j, w) ∷ m) h = elim (Bool-cases (j == k)) [
  | inl same ↦ rw same (omega (arith, length-remove k m))
  | inr other ↦ rw other (omega (arith, length-remove_found k m (rw other at h)))
]

-- An empty map has no entry.
lookup-short {κ ℓ} :
    {K : Type κ} {V : Type ℓ} ⦃e : Eq K⦄ (k : K) (m : Dict K V) → length m ≤ 0 → lookup k m ≡ none
unfolding lookup
lookup-short k [] h = refl
lookup-short k ((j, v) ∷ m) h = absurd (omega arith)

module _ (r : Runtime) where
  -- What releasing leaves.
  pub release-same :
      (id : ℕ) (box : Box r)
      → ((release r id box).ready ≡ box.ready)
        × ((release r id box).next_sequence ≡ box.next_sequence)
        × ((release r id box).runtime ≡ box.runtime)
  unfolding release
  release-same id box = elim (Option-cases box.blocked_on) [
    | inl e ↦ rw e (refl, refl, refl)
    | inr (blocked, e) ↦ rw e (elim (Bool-cases (eqb blocked id)) [
      | inl same ↦ rw same (refl, refl, refl)
      | inr other ↦ rw other (refl, refl, refl)
    ])
  ]

  committed-ready :
      (id : ℕ) (request : ActorRequest) (box : Box r) (result : Result ActorExecutionResult)
      → (committed r id request box result).0.ready ≡ box.ready
  unfolding committed stop finish
  committed-ready id request box (ok (completed result effects)) = (release-same id _).0
  committed-ready id request box (ok (failed failure)) = refl
  committed-ready id request box (ok reroute) = refl
  committed-ready id request box (ok host_unavailable) = refl
  committed-ready id request box (err e) = refl

  commit_one-ready :
      (id : ℕ) (request : ActorRequest) (outcome : ActorInterleavedOutcome) (box : Box r)
      → (commit_one r id request outcome box).0.ready ≡ remove box.next_sequence box.ready
  unfolding commit_one
  commit_one-ready id request outcome box =
      let (runtime, result) = r.commit_interleaved box.runtime request outcome in
      committed-ready id request
        (record box { runtime = runtime; ready = remove box.next_sequence box.ready }) result

  pub commit_in-none :
      (rounds : ℕ) (box : Box r)
      → lookup box.next_sequence box.ready ≡ none
      → commit_in r (suc rounds) box ≡ (box, true)
  unfolding commit_in
  commit_in-none rounds box e = rw (commit_in, e) refl

  -- The next round, or the state in which a commit stopped the loop.
  pub commit_in-some :
      (rounds : ℕ) (box : Box r) (id : ℕ) (request : ActorRequest)
      (outcome : ActorInterleavedOutcome)
      → lookup box.next_sequence box.ready ≡ some (id, request, outcome)
      → commit_in r (suc rounds) box ≡ (
          if (commit_one r id request outcome box).1
          then commit_in r rounds (commit_one r id request outcome box).0
          else ((commit_one r id request outcome box).0, false))
  unfolding commit_in
  commit_in-some rounds box id request outcome e = rw (commit_in, e) refl

  abbrev IsDrained : Box r × Bool → Type 0
  IsDrained p = p.1 ≡ true → lookup p.0.next_sequence p.0.ready ≡ none

  commit_in-IsDrained :
      (rounds : ℕ) (box : Box r) → length box.ready ≤ rounds → IsDrained (commit_in r rounds box)
  commit_in-IsDrained zero box h =
      unfold commit_in in λ _. lookup-short box.next_sequence box.ready h
  commit_in-IsDrained (suc rounds) box h =
      elim (Option-cases (lookup box.next_sequence box.ready)) [
        | inl e ↦ rw (commit_in-none rounds box e) (λ _. e)
        | inr ((id, request, outcome), e) ↦
            let (box', continues) = commit_one r id request outcome box in
            let shorter : length box'.ready ≤ rounds =
              rw (commit_one-ready id request outcome box)
                (omega (arith, length-remove_found box.next_sequence box.ready e)) in
            rw (commit_in-some rounds box id request outcome e) (elim (Bool-cases continues) [
              | inl goes_on ↦ rw goes_on (commit_in-IsDrained rounds box' shorter)
              | inr ends ↦ rw ends (λ h. absurd (let q : false ≡ true = h in cc))
            ])
      ]

  -- Committing the ready snapshots has rounds enough: if it was not stopped by a commit, no snapshot
  -- is left whose sequence number is the next one.
  pub commit_ready-IsDrained :
      (box : Box r)
      → (commit_ready r box).1 ≡ true
      → lookup (commit_ready r box).0.next_sequence (commit_ready r box).0.ready ≡ none
  unfolding commit_ready
  commit_ready-IsDrained box h = commit_in-IsDrained (length box.ready) box (omega arith) h
