-- ===== src/Float/Order.antt =====
-- What IEEE 754 says of the comparisons and of literals. A NaN is a value that is not `<=` itself;
-- away from it the order is total. Rounding is monotone, so literals are ordered as they are written.
use kubetee_subnet.Base.{ℕ, ◌*◌, ◌≤◌, ◌<◌, ◌≡◌, false, ◌⊎◌, arith}
use kubetee_subnet.Float.{Float, ◌⊗◌, lt, ◌≼◌, ◌≺◌, fmax, fmin}

pub record IsOrdered (F : Type 0) ⦃f : Float F⦄ : Type 0 where
  pub le_left : (a b : F) → a ≼ b → a ≼ a
  pub le_right : (a b : F) → a ≼ b → b ≼ b
  pub le_trans : (a b c : F) → a ≼ b → b ≼ c → a ≼ c
  pub le_total : (a b : F) → a ≼ a → b ≼ b → (a ≼ b) ⊎ (b ≼ a)
  pub lit_mono : (n d n' d' : ℕ) → 0 < d → 0 < d' → n * d' ≤ n' * d → f.lit n d ≼ f.lit n' d'
  -- A product with a factor up to 1 rounds to no more than the other operand, and one with a factor
  -- from 1 on to no less. The bounds keep the factor away from 0 and from infinity.
  pub mul_le : (a : F) (n d : ℕ) → f.lit 0 1 ≼ a → 0 < n → n ≤ d → d ≤ 1_000_000 → a ⊗ f.lit n d ≼ a
  pub mul_ge : (a : F) (n d : ℕ) → f.lit 0 1 ≼ a → 0 < d → d ≤ n → n ≤ 1_000_000 → a ≼ a ⊗ f.lit n d

-- Rounding keeps the order, as Python's `round` does.
abbrev pub RoundsInOrder : (F : Type 0) → ⦃f : Float F⦄ → Type 0
RoundsInOrder F ⦃f⦄ = (a b : F) (k : ℕ) → a ≼ b → f.round a k ≼ f.round b k

-- Every two values compare, as all floats but NaN do.
abbrev pub HasNoNan : (F : Type 0) → ⦃f : Float F⦄ → Type 0
HasNoNan F = (a b : F) → (a ≼ b) ⊎ (b ≼ a)

module _ {F : Type 0} ⦃f : Float F⦄ where
  pub lt→le : (a b : F) → a ≺ b → a ≼ b
  lt→le a b h = ground arith

  pub le_of_not_lt : IsOrdered F → (a b : F) → a ≼ a → b ≼ b → lt a b ≡ false → b ≼ a
  le_of_not_lt o a b ha hb h = ground (arith, o.le_total a b ha hb)

  -- `min(hi, max(lo, v))` lies in the band for every `v`, also for a NaN.
  pub clamp_bounds :
      IsOrdered F
      → (lo hi v : F) → lo ≼ hi
      → (lo ≼ fmin hi (fmax lo v)) × (fmin hi (fmax lo v) ≼ hi)
  clamp_bounds o lo hi v h = ground (arith, o.le_left lo hi h, o.le_right lo hi h)

  pub fmax_left : IsOrdered F → (a b : F) → a ≼ a → a ≼ fmax a b
  fmax_left o a b h = ground arith

  pub fmax_right : IsOrdered F → (a b : F) → a ≼ a → b ≼ b → b ≼ fmax a b
  fmax_right o a b ha hb = ground (arith, le_of_not_lt o a b ha hb)

  -- `min(a, b)` is at most `b`, and at most `a`, where both are numbers.
  pub fmin_right : IsOrdered F → (a b : F) → a ≼ a → b ≼ b → fmin a b ≼ b
  fmin_right o a b ha hb = ground (arith, o.le_total a b ha hb)
