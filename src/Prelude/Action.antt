-- ===== src/Prelude/Action.antt =====
-- Operations on a state that outlives their errors: what was written before an error stays written.
use mathlib.Core.Path.{◌≡◌, refl}
use Prim.Native.String.{String}
use little_actors.Prelude.Fallible.{Result, ok, err}

abbrev pub Action {ℓ} : Type ℓ → Type ℓ → Type ℓ
Action S A = S → S × Result A

module _ {ℓ} {S A B : Type ℓ} where
  abbrev pub continue : (A → Action S B) → S → Result A → S × Result B
  continue f s (ok a) = f a s
  continue f s (err e) = (s, err e)

  infixl 5 ◌>>=◌ ◌>>◌
  abbrev pub ◌>>=◌ : Action S A → (A → Action S B) → Action S B
  ◌>>=◌ m f s = let (s', r) = m s in continue f s' r

  abbrev pub ◌>>◌ : Action S A → Action S B → Action S B
  m >> n = m >>= λ _. n

module _ {ℓ} {S A : Type ℓ} where
  abbrev pub pure : A → Action S A
  pure a s = (s, ok a)

  abbrev pub fail : String → Action S A
  fail e s = (s, err e)

  abbrev pub lift : Result A → Action S A
  lift r s = (s, r)

  abbrev pub read_with : (S → Result A) → Action S A
  read_with f s = (s, f s)

module _ {ℓ} {S A B : Type ℓ} where
  continue-ok :
      (f : A → Action S B) (u : S) (r : Result A) {t : S} {b : B}
      → continue f u r ≡ (t, ok b)
      → (a : A) × (r ≡ ok a) × (f a u ≡ (t, ok b))
  continue-ok f u (ok a) h = (a, refl, h)
  continue-ok f u (err e) h = cc

  -- A bind that succeeds has a first part that succeeds.
  pub bind-ok :
      (m : Action S A) (f : A → Action S B) (s : S) {t : S} {b : B}
      → (m >>= f) s ≡ (t, ok b)
      → (a : A) × (m s ≡ ((m s).0, ok a)) × (f a (m s).0 ≡ (t, ok b))
  bind-ok m f s h =
      let (a, e, rest) = continue-ok f (m s).0 (m s).1 h in (a, (λ i. ((m s).0, e i)), rest)
