-- ===== src/Naming.antt =====
-- The names of objects and how they are read back: numbers in decimal and hexadecimal (Rust's
-- `format!`, `parse` and `from_str_radix`), and src/bucket/runtime.rs `snapshot_position`.
pub mod Numbers
pub mod Positions
use little_actors.Prelude.{
  ℕ, zero, suc, ◌+◌, ◌-◌, ◌*◌, ◌/◌, ◌%◌, ◌^◌, Bool, true, false, ◌&&◌, ◌||◌, Option, none, some,
  List, [], ◌∷◌, ◌++◌, ◌==◌, ltb, leb, eqb, if◌then◌else◌,
}
use little_actors.Prelude.Text.{Text, text, text_eq, starts_with}

abbrev pub u64_max : ℕ
u64_max = 2 ^ 64 - 1

unfoldable pub digit_byte : ℕ → ℕ
digit_byte d = if ltb d 10 then b'0' + d else b'a' + (d - 10)

-- `char::to_digit(radix)`
unfoldable pub digit_value : ℕ → ℕ → Option ℕ
digit_value radix b =
    let d =
      if leb b'0' b && leb b b'9'
      then b - b'0'
      else if leb b'a' b && leb b b'z'
      then b - b'a' + 10
      else if leb b'A' b && leb b b'Z'
      then b - b'A' + 10
      else 36 in
    if ltb d radix then some d else none

-- `n.to_string()`, each digit in front of those already written.
digits_from : ℕ → ℕ → Text → Text
digits_from zero n acc = acc
digits_from (suc fuel) n acc =
    let rest = digits_from fuel (n / 10) (digit_byte (n % 10) ∷ acc) in
    if ltb n 10 then digit_byte n ∷ acc else rest

unfoldable pub decimal : ℕ → Text
unfolding digits_from digit_byte
decimal n = digits_from (suc n) n []

-- `format!("{n:0width$x}")` for a number of at most `width` digits.
hex_from : ℕ → ℕ → Text → Text
hex_from zero n acc = acc
hex_from (suc width) n acc = hex_from width (n / 16) (digit_byte (n % 16) ∷ acc)

unfoldable pub hex32 : ℕ → Text
unfolding hex_from digit_byte
hex32 n = hex_from 32 n []

-- One more digit, with the overflow tests of `u64`.
unfoldable pub push_digit : ℕ → ℕ → Option ℕ → Option ℕ
push_digit radix n none = none
push_digit radix n (some d) = if leb (n * radix + d) u64_max then some (n * radix + d) else none

unfoldable pub parse_digits : ℕ → Option ℕ → Text → Option ℕ
parse_digits radix none s = none
parse_digits radix (some n) [] = some n
parse_digits radix (some n) (b ∷ s) =
    parse_digits radix (push_digit radix n (digit_value radix b)) s

-- `u64::from_str_radix`, and `str::parse` at 10: a leading `+` is accepted, no digit is not.
unfoldable pub from_str_radix : ℕ → Text → Option ℕ
unfolding parse_digits push_digit digit_value
from_str_radix radix [] = none
from_str_radix radix (b ∷ []) = parse_digits radix (some 0) (b ∷ [])
from_str_radix radix (b ∷ c ∷ s) =
    if eqb b b'+'
    then parse_digits radix (some 0) (c ∷ s)
    else parse_digits radix (some 0) (b ∷ c ∷ s)

-- `s.rsplit_once(c)`: what stands before and after the last `c`.
unfoldable pub rsplit_once : ℕ → Text → Option (Text × Text)
rsplit_once c [] = none
rsplit_once c (b ∷ s) = elim (rsplit_once c s) [
  | some (before, after) ↦ some (b ∷ before, after)
  | none ↦ if eqb b c then some ([], s) else none
]

-- The first part of `s.rsplit(c)`.
unfoldable pub last_part : ℕ → Text → Text
unfolding rsplit_once
last_part c s = elim (rsplit_once c s) [ none ↦ s | some (before, after) ↦ after ]

-- `s.strip_suffix(suffix)`
unfoldable pub strip_suffix : Text → Text → Option Text
strip_suffix suffix [] = if suffix == [] then some [] else none
strip_suffix suffix (b ∷ s) = elim (strip_suffix suffix s) [
  | some rest ↦ some (b ∷ rest)
  | none ↦ if suffix == b ∷ s then some [] else none
]

abbrev pub Position : Type 0
Position = ℕ × ℕ

position_of : Option ℕ → Option ℕ → Option Position
position_of (some version) (some epoch) = some (epoch, version)
position_of version epoch = none

abbrev pub number_of : ℕ → Option Text → Option ℕ
number_of radix none = none
number_of radix (some s) = from_str_radix radix s

position_in : Option (Text × Text) → Option Position
position_in none = none
position_in (some (before, after)) =
    position_of (number_of 10 (strip_suffix (text ".json") after))
      (from_str_radix 16 (last_part b'/' before))

-- `(epoch, version)` of an object `…/{epoch:x}/{version}.json`
unfoldable pub snapshot_position : Text → Option Position
unfolding rsplit_once last_part strip_suffix from_str_radix position_of position_in
snapshot_position object = position_in (rsplit_once b'/' object)

-- `ReplicaStream::object`
unfoldable pub object_name : Text → ℕ → Text
unfolding decimal
object_name prefix version = prefix ++ (decimal version ++ text ".json")
