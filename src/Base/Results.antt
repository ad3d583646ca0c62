-- ===== src/Base/Results.antt =====
-- Code that raises: a value, or the exception.
use mathlib.Core.Path.{◌≡◌, refl}

pub data Result {ℓ} (E A : Type ℓ) : Type ℓ where
  ok : A → Result E A
  err : E → Result E A

module _ {ℓ} {E A B : Type ℓ} where
  infixl 5 ◌>>=◌
  -- The next step of code that has not raised.
  abbrev pub ◌>>=◌ : Result E A → (A → Result E B) → Result E B
  ok a >>= next = next a
  err e >>= next = err e

  -- What code that did not raise went through.
  pub >>=-ok :
      (r : Result E A) (next : A → Result E B) (b : B)
      → (r >>= next) ≡ ok b
      → (a : A) × (r ≡ ok a) × (next a ≡ ok b)
  >>=-ok (ok a) next b h = (a, refl, h)
  >>=-ok (err e) next b h = cc
