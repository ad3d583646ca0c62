-- ===== src/Float.antt =====
-- Python's `float`, as the operations that the program makes with one. Nothing is said here of how
-- they round; what a theorem needs of them is a hypothesis of `Float.Order` or `Float.Exact`.
pub mod Order
pub mod Exact
pub mod Rational
pub mod Sums
use kubetee_subnet.Base.{
  ℕ, Bool, true, not, ◌&&◌, Option, List, [], ◌∷◌, if◌then◌else◌, ◌≡◌, String,
}

-- `lit n d` is the literal whose decimal expansion is n / d (0.75 is `lit 75 100`).
pub record Float (F : Type 0) : Type 0 where
  pub lit : ℕ → ℕ → F
  pub le : F → F → Bool
  pub add : F → F → F
  pub sub : F → F → F
  pub mul : F → F → F
  pub div : F → F → F
  pub round : F → ℕ → F
  pub parse : String → Option F
  -- `str(x)`
  pub show : F → String

module _ {F : Type 0} ⦃f : Float F⦄ where
  infixl 65 ◌⊕◌ ◌⊖◌
  infixl 70 ◌⊗◌ ◌⊘◌
  infix 50 ◌≼◌ ◌≺◌ ◌≈◌
  -- The rounded operations `+ - * /`.
  abbrev pub ◌⊕◌ : F → F → F
  ◌⊕◌ = f.add

  abbrev pub ◌⊖◌ : F → F → F
  ◌⊖◌ = f.sub

  abbrev pub ◌⊗◌ : F → F → F
  ◌⊗◌ = f.mul

  abbrev pub ◌⊘◌ : F → F → F
  ◌⊘◌ = f.div

  -- `a <= b`
  abbrev pub le : F → F → Bool
  le = f.le

  -- `a < b`: like `<=` it is false at a NaN.
  abbrev pub lt : F → F → Bool
  lt a b = f.le a b && not (f.le b a)

  abbrev pub ◌≼◌ : F → F → Type 0
  a ≼ b = f.le a b ≡ true

  abbrev pub ◌≺◌ : F → F → Type 0
  a ≺ b = lt a b ≡ true

  -- `a == b`, as a statement.
  abbrev pub ◌≈◌ : F → F → Type 0
  a ≈ b = (a ≼ b) × (b ≼ a)

  -- `float(n)`
  abbrev pub of_ℕ : ℕ → F
  of_ℕ n = f.lit n 1

  -- Python's `max(a, b)` and `min(a, b)` keep the first argument unless the second beats it.
  abbrev pub fmax : F → F → F
  fmax a b = if lt a b then b else a

  abbrev pub fmin : F → F → F
  fmin a b = if lt b a then b else a

  -- `sum(xs)` adds from the left, from 0.
  abbrev pub sum_from : F → List F → F
  sum_from acc [] = acc
  sum_from acc (x ∷ xs) = sum_from (acc ⊕ x) xs

  abbrev pub sum : List F → F
  sum xs = sum_from (of_ℕ 0) xs
