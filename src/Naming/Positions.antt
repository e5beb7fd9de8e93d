-- ===== src/Naming/Positions.antt =====
-- `snapshot_position` and the naming of snapshots.
use mathlib.Core.List.{append_assoc}
use little_actors.Prelude.{
  ℕ, zero, suc, ◌/◌, ◌%◌, ◌≤◌, ◌≡◌, refl, ap, ap₂, ◌∙◌, none, some, [], ◌∷◌, ◌++◌, eqb, arith, all,
  not, Bool, true,
}
use little_actors.Prelude.Text.{Text, text, text_beq}
use little_actors.Naming.Numbers.{from_str_radix-decimal, from_str_radix-hex32}
use little_actors.Naming.{
  u64_max, digit_byte, digits_from, decimal, hex_from, hex32, rsplit_once, last_part, strip_suffix,
  snapshot_position, position_in, position_of, number_of, from_str_radix, object_name,
}

abbrev pub is_free : ℕ → Text → Bool
is_free c = all (λ b. not (eqb b c))

is_free-append :
    (c : ℕ) (s t : Text) → is_free c s ≡ true → is_free c t ≡ true → is_free c (s ++ t) ≡ true
is_free-append c [] t h k = k
is_free-append c (b ∷ s) t h k = ground (arith, is_free-append c s t)

rsplit_once-free : (c : ℕ) (s : Text) → is_free c s ≡ true → rsplit_once c s ≡ none
unfolding rsplit_once
rsplit_once-free c [] h = refl
rsplit_once-free c (b ∷ s) h = ground (arith, rsplit_once-free c s)

pub rsplit_once-append :
    (c : ℕ) (p s : Text) → is_free c s ≡ true → rsplit_once c (p ++ c ∷ s) ≡ some (p, s)
unfolding rsplit_once
rsplit_once-append c [] s h = ground (arith, rsplit_once-free c s)
rsplit_once-append c (b ∷ p) s h = ground (arith, rsplit_once-append c p s)

last_part-append : (c : ℕ) (p s : Text) → is_free c s ≡ true → last_part c (p ++ c ∷ s) ≡ s
unfolding last_part
last_part-append c p s h = ground (arith, rsplit_once-append c p s)

strip_suffix-append : (s : Text) → strip_suffix (text ".json") (s ++ text ".json") ≡ some s
unfolding strip_suffix text_beq
strip_suffix-append [] = refl
strip_suffix-append (b ∷ s) = ground (arith, strip_suffix-append s)

digit-free : (d : ℕ) → not (eqb (digit_byte d) b'/') ≡ true
unfolding digit_byte
digit-free d = ground arith

digits_from-free :
    (f n : ℕ) (acc : Text) → is_free b'/' acc ≡ true → is_free b'/' (digits_from f n acc) ≡ true
unfolding digits_from
digits_from-free zero n acc h = h
digits_from-free (suc f) n acc h = ground (
  arith,
  digit-free n,
  digit-free (n % 10),
  digits_from-free f (n / 10) (digit_byte (n % 10) ∷ acc),
)

hex_from-free :
    (k n : ℕ) (acc : Text) → is_free b'/' acc ≡ true → is_free b'/' (hex_from k n acc) ≡ true
unfolding hex_from
hex_from-free zero n acc h = h
hex_from-free (suc k) n acc h =
    hex_from-free k (n / 16) (digit_byte (n % 16) ∷ acc) (ground (arith, digit-free (n % 16)))

pub file-free : (v : ℕ) → is_free b'/' (decimal v ++ text ".json") ≡ true
file-free v =
    is_free-append b'/' (decimal v) (text ".json")
      (unfold decimal in digits_from-free (suc v) v [] refl) refl

-- The prefix under which an owner of an epoch stores its snapshots.
abbrev pub epoch_prefix : Text → ℕ → Text
epoch_prefix root epoch = root ++ (b'/' ∷ (hex32 epoch ++ (b'/' ∷ [])))

object-split :
    (root h file : Text)
    → (root ++ (b'/' ∷ (h ++ (b'/' ∷ [])))) ++ file ≡ (root ++ (b'/' ∷ h)) ++ (b'/' ∷ file)
object-split root h file = simp append_assoc

position_in-file :
    (root : Text) (epoch version : ℕ)
    → epoch ≤ u64_max
    → version ≤ u64_max
    → position_in (some (root ++ (b'/' ∷ hex32 epoch), decimal version ++ text ".json"))
      ≡ some (epoch, version)
unfolding position_in position_of
position_in-file root epoch version h k =
    ap₂ position_of
      (ap (number_of 10) (strip_suffix-append (decimal version)) ∙ from_str_radix-decimal version k)
      (ap (from_str_radix 16) (
          last_part-append b'/' root (hex32 epoch) (unfold hex32 in hex_from-free 32 epoch [] refl))
        ∙ from_str_radix-hex32 epoch h)

object_name-split :
    (root : Text) (epoch version : ℕ)
    → object_name (epoch_prefix root epoch) version
      ≡ (root ++ (b'/' ∷ hex32 epoch)) ++ (b'/' ∷ (decimal version ++ text ".json"))
unfolding object_name
object_name-split root epoch version =
    object-split root (hex32 epoch) (decimal version ++ text ".json")

snapshot_position-split :
    (p s : Text)
    → is_free b'/' s ≡ true
    → snapshot_position (p ++ (b'/' ∷ s)) ≡ position_in (some (p, s))
unfolding snapshot_position
snapshot_position-split p s h = ap position_in (rsplit_once-append b'/' p s h)

-- The position read from the name of a snapshot is the epoch and the version it was named for.
pub snapshot_position-object_name :
    (root : Text) (epoch version : ℕ)
    → epoch ≤ u64_max
    → version ≤ u64_max
    → snapshot_position (object_name (epoch_prefix root epoch) version) ≡ some (epoch, version)
snapshot_position-object_name root epoch version h k =
    ap snapshot_position (object_name-split root epoch version)
    ∙ snapshot_position-split (root ++ (b'/' ∷ hex32 epoch)) (decimal version ++ text ".json")
        (file-free version)
    ∙ position_in-file root epoch version h k
