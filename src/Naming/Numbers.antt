-- ===== src/Naming/Numbers.antt =====
-- Reading back a printed number.
use native.Mathlib.Nat.{pow-suc}
use little_actors.Prelude.{
  ℕ, zero, suc, ◌+◌, ◌*◌, ◌/◌, ◌%◌, ◌^◌, ◌≤◌, ◌<◌, ◌≡◌, refl, ap, ◌∙◌, false, inl, inr, some,
  Bool-cases, [], ◌∷◌, ltb, eqb, arith, le→leb, ltb→lt,
}
use little_actors.Prelude.Text.{Text}
use little_actors.Naming.{
  u64_max, digit_byte, digit_value, digits_from, decimal, hex_from, hex32, push_digit, parse_digits,
  from_str_radix,
}

digit_value-digit_byte : (r d : ℕ) → d < r → r ≤ 16 → digit_value r (digit_byte d) ≡ some d
unfolding digit_value digit_byte
digit_value-digit_byte r d h k = ground arith

push-printed :
    (r n d m : ℕ)
    → d < r
    → r ≤ 16
    → n * r + d ≡ m
    → m ≤ u64_max
    → push_digit r n (digit_value r (digit_byte d)) ≡ some m
unfolding push_digit
push-printed r n d m h k e fits =
    ap (push_digit r n) (digit_value-digit_byte r d h k) ∙ rw e (rw (le→leb m u64_max fits))

-- One printed digit is one step of the parser.
push_printed :
    (r n d m : ℕ) (s : Text)
    → d < r
    → r ≤ 16
    → n * r + d ≡ m
    → m ≤ u64_max
    → parse_digits r (some n) (digit_byte d ∷ s) ≡ parse_digits r (some m) s
unfolding parse_digits
push_printed r n d m s h k e fits = ap (λ o. parse_digits r o s) (push-printed r n d m h k e fits)

parse-digits_from :
    (f n : ℕ) (acc : Text)
    → n < f
    → n ≤ u64_max
    → parse_digits 10 (some 0) (digits_from f n acc) ≡ parse_digits 10 (some n) acc
unfolding digits_from
parse-digits_from zero n acc h k = elim h [ ]
parse-digits_from (suc f) n acc h k = elim (Bool-cases (ltb n 10)) [
  | inl small ↦
      rw small (push_printed 10 0 n n acc (ltb→lt n 10 small) (omega arith) (omega arith) k)
  | inr big ↦ rw big (
      parse-digits_from f (n / 10) (digit_byte (n % 10) ∷ acc) (ground arith) (omega arith)
      ∙ push_printed 10 (n / 10) (n % 10) n acc (omega arith) (omega arith) (omega arith) k)
]

parse-hex_from :
    (k n : ℕ) (acc : Text)
    → n < 16 ^ k
    → n ≤ u64_max
    → parse_digits 16 (some 0) (hex_from k n acc) ≡ parse_digits 16 (some n) acc
unfolding hex_from
parse-hex_from zero n acc h k = rw (let e : n ≡ 0 = omega arith in e)
parse-hex_from (suc w) n acc h k =
    parse-hex_from w (n / 16) (digit_byte (n % 16) ∷ acc) (omega (arith, pow-suc 16 w))
      (omega arith)
    ∙ push_printed 16 (n / 16) (n % 16) n acc (omega arith) (omega arith) (omega arith) k

-- A text that begins with a byte other than `+`.
abbrev IsPlain : Text → Type 0
IsPlain [] = ⊥
IsPlain (b ∷ s) = eqb b b'+' ≡ false

from_str_radix-IsPlain :
    (r : ℕ) (s : Text) → IsPlain s → from_str_radix r s ≡ parse_digits r (some 0) s
from_str_radix-IsPlain r [] h = absurd h
from_str_radix-IsPlain r (b ∷ []) h = unfold from_str_radix in refl
from_str_radix-IsPlain r (b ∷ c ∷ s) h = unfold from_str_radix in rw h

digit-IsPlain : (d : ℕ) → eqb (digit_byte d) b'+' ≡ false
unfolding digit_byte
digit-IsPlain d = ground arith

digits_from-IsPlain : (f n : ℕ) (acc : Text) → IsPlain acc → IsPlain (digits_from f n acc)
unfolding digits_from
digits_from-IsPlain zero n acc h = h
digits_from-IsPlain (suc f) n acc h = elim (Bool-cases (ltb n 10)) [
  | inl small ↦ rw small (digit-IsPlain n)
  | inr big ↦
      rw big (digits_from-IsPlain f (n / 10) (digit_byte (n % 10) ∷ acc) (digit-IsPlain (n % 10)))
]

digits_from-suc-IsPlain : (f n : ℕ) (acc : Text) → IsPlain (digits_from (suc f) n acc)
unfolding digits_from
digits_from-suc-IsPlain f n acc = elim (Bool-cases (ltb n 10)) [
  | inl small ↦ rw small (digit-IsPlain n)
  | inr big ↦
      rw big (digits_from-IsPlain f (n / 10) (digit_byte (n % 10) ∷ acc) (digit-IsPlain (n % 10)))
]

decimal-IsPlain : (n : ℕ) → IsPlain (decimal n)
unfolding decimal
decimal-IsPlain n = digits_from-suc-IsPlain n n []

hex_from-IsPlain : (k n : ℕ) (acc : Text) → IsPlain acc → IsPlain (hex_from k n acc)
unfolding hex_from
hex_from-IsPlain zero n acc h = h
hex_from-IsPlain (suc k) n acc h =
    hex_from-IsPlain k (n / 16) (digit_byte (n % 16) ∷ acc) (digit-IsPlain (n % 16))

-- A `u64` printed in decimal is read back.
pub from_str_radix-decimal : (n : ℕ) → n ≤ u64_max → from_str_radix 10 (decimal n) ≡ some n
from_str_radix-decimal n h =
    from_str_radix-IsPlain 10 (decimal n) (decimal-IsPlain n)
    ∙ unfold decimal in parse-digits_from (suc n) n [] (omega arith) h ∙ unfold parse_digits in refl

-- A `u64` printed as 32 hexadecimal digits is read back.
pub from_str_radix-hex32 : (n : ℕ) → n ≤ u64_max → from_str_radix 16 (hex32 n) ≡ some n
from_str_radix-hex32 n h =
    from_str_radix-IsPlain 16 (hex32 n) (
      unfold hex32 in
      hex_from-IsPlain 31 (n / 16) (digit_byte (n % 16) ∷ []) (digit-IsPlain (n % 16)))
    ∙ unfold hex32 in parse-hex_from 32 n [] (omega arith) h ∙ unfold parse_digits in refl
