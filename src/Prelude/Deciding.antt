-- ===== src/Prelude/Deciding.antt =====
-- Checks that decide statements: what a check of other checks accepts is put together from what they
-- accept.
use Prim.Native.Nat.{ℕ, ◌≤◌, ◌<◌}
use Prim.Native.String.{String}
use mathlib.Core.Path.{◌≡◌, refl, sym, subst}
use mathlib.Core.Logic.{◌↔◌}
use mathlib.Core.Bool.{Bool, true, false, not, ◌&&◌}
use mathlib.Core.List.{List, [], ◌∷◌}
use native.Mathlib.Omega.{arith}
use little_actors.Prelude.Tests.{leb}
use little_actors.Prelude.Lists.{length, all, All}
use little_actors.Prelude.Fallible.{Result, ok, err, Checked, ◌>>=◌, ◌>>◌, ensure}
use little_actors.Prelude.Equality.{◌==◌}
use little_actors.Prelude.Text.{Text, text_eq, text_beq}

-- A check that succeeds exactly where a statement holds.
abbrev pub Decides {ℓ} : Checked → Type ℓ → Type ℓ
Decides check P = (check ≡ ok tt) ↔ P

pub ensure-Decides {ℓ} :
    {P : Type ℓ} (b : Bool) (e : String) → ((b ≡ true) ↔ P) → Decides (ensure b e) P
ensure-Decides true e (there, back) = (λ _. there refl, λ _. refl)
ensure-Decides false e (there, back) =
    (λ h. absurd cc, λ p. absurd (let q : false ≡ true = back p in cc))

-- One check after another decides both statements.
pub >>-Decides {ℓ κ} :
    {P : Type ℓ} {Q : Type κ} (m n : Checked) → Decides m P → Decides n Q → Decides (m >> n) (P × Q)
>>-Decides (ok tt) n (p, p') (q, q') = (λ h. (p refl, q h), λ (_, y). q' y)
>>-Decides (err e) n (p, p') d = (λ h. absurd cc, λ (x, _). absurd (let q = p' x in cc))

-- A check of a value that another package computes.
pub >>=-Decides {ℓ κ} :
    {A : Type κ} (P : A → Type ℓ) (r : Result A) (f : A → Checked)
    → ((a : A) → Decides (f a) (P a))
    → Decides (r >>= f) ((a : A) × (r ≡ ok a) × P a)
>>=-Decides P (ok a) f d = (
  λ h. (a, refl, (d a).0 h),
  λ (b, e, p). (d a).1 (subst P (sym (let q : ok a ≡ ok b = e in cc)) p),
)
>>=-Decides P (err e) f d = (λ h. absurd cc, λ (b, q, p). absurd cc)

pub Decides-change {ℓ κ} :
    {P : Type ℓ} {Q : Type κ} {m : Checked} → Decides m P → (P → Q) → (Q → P) → Decides m Q
Decides-change (there, back) f g = (λ h. f (there h), λ q. back (g q))

-- Checks group either way.
pub >>-assoc {ℓ κ} :
    {A : Type ℓ} {B : Type κ} (m : Checked) (n : Result A) (k : A → Result B)
    → (m >> n >>= k) ≡ (m >> (n >>= k))
>>-assoc (ok tt) n k = refl
>>-assoc (err e) n k = refl

pub leb_iff : (a b : ℕ) → (leb a b ≡ true) ↔ (a ≤ b)
leb_iff a b = ground arith

pub not_empty_iff : (t : Text) → (not (t == []) ≡ true) ↔ (0 < length t)
unfolding text_beq
not_empty_iff [] = ground arith
not_empty_iff (b ∷ t) = ground arith

pub &&-iff {ℓ κ} :
    {P : Type ℓ} {Q : Type κ} (a b : Bool)
    → ((a ≡ true) ↔ P)
    → ((b ≡ true) ↔ Q)
    → ((a && b) ≡ true) ↔ (P × Q)
&&-iff true b (p, p') (q, q') = (λ h. (p refl, q h), λ (x, y). q' y)
&&-iff false b (p, p') q = (λ h. absurd cc, λ (x, y). absurd (let h : false ≡ true = p' x in cc))

pub all_iff {ℓ κ} :
    {A : Type κ} (P : A → Type ℓ) (p : A → Bool)
    → ((a : A) → (p a ≡ true) ↔ P a)
    → (xs : List A) → (all p xs ≡ true) ↔ All P xs
all_iff P p d [] = (λ h. tt, λ q. refl)
all_iff P p d (x ∷ xs) = &&-iff (p x) (all p xs) (d x) (all_iff P p d xs)
