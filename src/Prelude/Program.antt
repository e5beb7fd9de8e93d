-- ===== src/Prelude/Program.antt =====
-- Actions on a state whose bind is kept shut, and what holds before and after them: a triple of an
-- action is put together from those of its steps.
use mathlib.Core.Path.{◌≡◌, refl}
use little_actors.Prelude.Fallible.{Result, ok, err}
use mathlib.Core.Bool.{Bool, true, false}
use little_actors.Prelude.Tests.{if◌then◌else◌}
use little_actors.Prelude.Action.{Action, continue}

infixl 5 ◌>>=◌ ◌>>◌
unfoldable pub ◌>>=◌ {ℓ} : {S A B : Type ℓ} → Action S A → (A → Action S B) → Action S B
m >>= f = little_actors.Prelude.Action.◌>>=◌ m f

abbrev pub ◌>>◌ {ℓ} : {S A B : Type ℓ} → Action S A → Action S B → Action S B
m >> n = m >>= λ _. n

-- What holds after an action: `Q` of its value, or `E` where it failed.
abbrev pub After {ℓ} : {S A : Type ℓ} → (S → Type ℓ) → (A → S → Type ℓ) → S → Result A → Type ℓ
After E Q s (ok a) = Q a s
After E Q s (err e) = E s

pub record Triple {ℓ} {S A : Type ℓ} (P : S → Type ℓ) (m : Action S A) (E : S → Type ℓ)
    (Q : A → S → Type ℓ) : Type ℓ where
  pub holds : (s : S) → P s → After E Q (m s).0 (m s).1

module _ {ℓ} {S A B : Type ℓ} where
  continue-After :
      (E : S → Type ℓ) (Q : A → S → Type ℓ) (R : B → S → Type ℓ) (f : A → Action S B) (s : S)
      (r : Result A)
      → ((a : A) → Triple (Q a) (f a) E R)
      → After E Q s r
      → After E R (continue f s r).0 (continue f s r).1
  continue-After E Q R f s (ok a) next h = (next a).holds s h
  continue-After E Q R f s (err e) next h = h

  pub >>=-Triple :
      {P E : S → Type ℓ} {Q : A → S → Type ℓ} {R : B → S → Type ℓ} {m : Action S A}
      {f : A → Action S B}
      → Triple P m E Q
      → ((a : A) → Triple (Q a) (f a) E R)
      → Triple P (m >>= f) E R
  unfolding ◌>>=◌
  >>=-Triple {E = E} {Q = Q} {R = R} {m = m} {f = f} first next = record {
    holds = λ s p. continue-After E Q R f (m s).0 (m s).1 next (first.holds s p);
  }

module _ {ℓ} {S A : Type ℓ} where
  After-lift :
      (P E : S → Type ℓ) (s : S) (r : Result A)
      → P s
      → (P s → E s)
      → After E (λ a t. P t × (r ≡ ok a)) s r
  After-lift P E s (ok a) p weaken = (p, refl)
  After-lift P E s (err e) p weaken = weaken p

  -- A value that is computed.
  pub lift-Triple :
      {P E : S → Type ℓ} (r : Result A)
      → ((s : S) → P s → E s)
      → Triple P (little_actors.Prelude.Action.lift r) E (λ a s. P s × (r ≡ ok a))
  lift-Triple {P = P} {E = E} r weaken = record { holds = λ s p. After-lift P E s r p (weaken s) }

  -- A triple whose conditions are changed.
  pub Triple-change :
      {P P' E : S → Type ℓ} {Q Q' : A → S → Type ℓ} {m : Action S A}
      → Triple P m E Q
      → ((s : S) → P' s → P s)
      → ((a : A) (s : S) → Q a s → Q' a s)
      → Triple P' m E Q'
  Triple-change {E = E} {Q = Q} {Q' = Q'} {m = m} t before after = record {
    holds = λ s p. weaken (m s).0 (m s).1 (t.holds s (before s p));
  }
    where
      weaken : (s : S) (r : Result A) → After E Q s r → After E Q' s r
      weaken s (ok a) h = after a s h
      weaken s (err e) h = h

module _ {ℓ} {S A B : Type ℓ} where
  -- A computed value, and what follows where it is one.
  pub >>=-lift-Triple :
      {P E : S → Type ℓ} {R : B → S → Type ℓ} (r : Result A) {f : A → Action S B}
      → ((s : S) → P s → E s)
      → ((a : A) → r ≡ ok a → Triple P (f a) E R)
      → Triple P (little_actors.Prelude.Action.lift r >>= f) E R
  >>=-lift-Triple r weaken next =
      >>=-Triple (lift-Triple r weaken) (λ a. record { holds = λ s (p, e). (next a e).holds s p })

module _ {ℓ} {S A : Type ℓ} where
  -- Two branches.
  pub if-Triple :
      {P E : S → Type ℓ} {Q : A → S → Type ℓ} {m n : Action S A} (b : Bool)
      → (b ≡ true → Triple P m E Q)
      → (b ≡ false → Triple P n E Q)
      → Triple P (if b then m else n) E Q
  if-Triple true yes_case no_case = yes_case refl
  if-Triple false yes_case no_case = no_case refl
