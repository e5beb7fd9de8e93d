-- ===== src/Authority/Paths/Reading.antt =====
-- Actors and their storage keys (src/storage_paths.rs, src/actor/protocol.rs).
use little_actors.Prelude.{
  ℕ, Bool, true, not, ◌≡◌, refl, [], ◌∷◌, ◌++◌, eqb, all, ok, >>=-eq-ok, arith, Bool-cases, inl,
  inr, some, List, ap₂, sym, eqb_iff, ◌∙◌, ◌∙◌, ap,
}
use little_actors.Prelude.Text.{Text, text_eq}
use little_actors.Actor.{
  ActorKey, storage_key, validate, validate_component, component_byte, max_actor_name_bytes,
  max_actor_id_bytes, is_ascii_digit, is_ascii_lowercase, is_ascii_uppercase,
}
use little_actors.Authority.FileBucket.{split_on}
use little_actors.Authority.Paths.{strip_prefix, three_parts, actor_from_key}

abbrev pub is_other : ℕ → ℕ → Bool
is_other c b = not (eqb b c)

-- A part without the separator.
pub split_on-free : (c : ℕ) (s : Text) → all (is_other c) s ≡ true → split_on c s ≡ (s, [])
unfolding split_on
split_on-free c [] h = refl
split_on-free c (b ∷ s) h = elim (Bool-cases (eqb b c)) [
  | inl same ↦ absurd (ground arith)
  | inr other ↦ rw (split_on-free c s (ground arith), other) refl
]

pub split_on-append :
    (c : ℕ) (s t : Text)
    → all (is_other c) s ≡ true
    → split_on c (s ++ (c ∷ t)) ≡ (s, (split_on c t).0 ∷ (split_on c t).1)
unfolding split_on
split_on-append c [] t h = elim (Bool-cases (eqb c c)) [
  | inl same ↦ rw same refl
  | inr other ↦ absurd (ground arith)
]
split_on-append c (b ∷ s) t h = elim (Bool-cases (eqb b c)) [
  | inl same ↦ absurd (ground arith)
  | inr other ↦ rw (split_on-append c s t (ground arith), other) refl
]

pub strip_prefix-append : (p s : Text) → strip_prefix p (p ++ s) ≡ some s
unfolding strip_prefix
strip_prefix-append [] s = refl
strip_prefix-append (x ∷ p) s = ground (arith, strip_prefix-append p s)

-- The parts of a text, with the separator between them.
unfoldable pub join : ℕ → Text → List Text → Text
join sep part [] = part
join sep part (next ∷ parts) = part ++ (sep ∷ join sep next parts)

join-cons :
    (sep b : ℕ) (part : Text) (parts : List Text)
    → join sep (b ∷ part) parts ≡ b ∷ join sep part parts
unfolding join
join-cons sep b part [] = refl
join-cons sep b part (next ∷ parts) = refl

pub join-split_on : (sep : ℕ) (t : Text) → join sep (split_on sep t).0 (split_on sep t).1 ≡ t
unfolding join split_on
join-split_on sep [] = refl
join-split_on sep (b ∷ t) = elim (Bool-cases (eqb b sep)) [
  | inl same ↦
      rw same
        (ap₂ (λ (n : ℕ) (k : Text). n ∷ k) (sym ((eqb_iff b sep).0 same)) (join-split_on sep t))
  | inr other ↦ rw other (
      join-cons sep b (split_on sep t).0 (split_on sep t).1
      ∙ ap (λ (k : Text). b ∷ k) (join-split_on sep t))
]

pub strip_prefix-joins : (p t : Text) {s : Text} → strip_prefix p t ≡ some s → t ≡ p ++ s
unfolding strip_prefix
strip_prefix-joins [] t h = cc
strip_prefix-joins (x ∷ p) [] h = cc
strip_prefix-joins (x ∷ p) (y ∷ t) h = elim (Bool-cases (eqb x y)) [
  | inl same ↦
      ap₂ (λ (n : ℕ) (k : Text). n ∷ k) (sym ((eqb_iff x y).0 same))
        (strip_prefix-joins p t (rw same at h))
  | inr other ↦ absurd (let h' = rw other at h in cc)
]

-- A valid component has no colon.
component_byte-other : (b : ℕ) → component_byte b ≡ true → is_other b':' b ≡ true
unfolding component_byte is_ascii_digit is_ascii_lowercase is_ascii_uppercase
component_byte-other b h = ground arith

all-other : (s : Text) → all component_byte s ≡ true → all (is_other b':') s ≡ true
all-other [] h = refl
all-other (b ∷ s) h = ground (arith, component_byte-other b, all-other s)

validate_component-other :
    (s : Text) (n : ℕ) → validate_component s n ≡ ok tt → all (is_other b':') s ≡ true
unfolding validate_component
validate_component-other s n h = all-other s (ground arith)

parts :
    (a : ActorKey)
    → validate a ≡ ok tt
    → split_on b':' (a.project_id ++ (b':' ∷ (a.actor_name ++ (b':' ∷ a.actor_id))))
      ≡ (a.project_id, a.actor_name ∷ a.actor_id ∷ [])
unfolding validate
parts a h =
    let (_, project, rest) = >>=-eq-ok (validate_component a.project_id 64) _ h in
    let (_, name, rest') =
      >>=-eq-ok (validate_component a.actor_name max_actor_name_bytes) _ rest in
    let (_, id, rest'') = >>=-eq-ok (validate_component a.actor_id max_actor_id_bytes) _ rest' in
    rw
      (
        split_on-append b':' a.project_id (a.actor_name ++ (b':' ∷ a.actor_id))
            (validate_component-other a.project_id 64 project),
        split_on-append b':' a.actor_name a.actor_id
            (validate_component-other a.actor_name max_actor_name_bytes name),
        split_on-free b':' a.actor_id (validate_component-other a.actor_id max_actor_id_bytes id),
      )
      refl

-- From the storage key of a valid actor, `actor_from_key` reads the actor back.
pub actor_from_key-storage_key :
    (a : ActorKey) → validate a ≡ ok tt → actor_from_key (storage_key a) ≡ ok a
unfolding actor_from_key storage_key three_parts strip_prefix
actor_from_key-storage_key a h = rw (parts a h, h) refl
