-- ===== src/Float/Exact.antt =====
-- Exact arithmetic on amounts that are not negative: what holds of the real numbers that the
-- floats stand for. Equations are Python's `==`, two orders.
use kubetee_subnet.Base.{ℕ, suc, ◌<◌, ◌⊎◌}
use kubetee_subnet.Float.{Float, ◌⊕◌, ◌⊖◌, ◌⊗◌, ◌⊘◌, ◌≼◌, ◌≺◌, ◌≈◌}

pub record IsExact (F : Type 0) ⦃f : Float F⦄ : Type 0 where
  pub le_trans : (a b c : F) → a ≼ b → b ≼ c → a ≼ c
  pub le_total : (a b : F) → (a ≼ b) ⊎ (b ≼ a)
  pub zero_add : (a : F) → f.lit 0 1 ⊕ a ≈ a
  pub add_comm : (a b : F) → a ⊕ b ≈ b ⊕ a
  pub add_assoc : (a b c : F) → a ⊕ b ⊕ c ≈ a ⊕ (b ⊕ c)
  pub add_mono : (a b c : F) → a ≼ b → a ⊕ c ≼ b ⊕ c
  pub mul_mono : (a b c : F) → a ≼ b → f.lit 0 1 ≼ c → a ⊗ c ≼ b ⊗ c
  pub zero_mul : (a : F) → f.lit 0 1 ⊗ a ≈ f.lit 0 1
  pub one_mul : (a : F) → f.lit 1 1 ⊗ a ≈ a
  pub mul_one : (a : F) → a ⊗ f.lit 1 1 ≈ a
  pub add_mul : (a b c : F) → (a ⊕ b) ⊗ c ≈ a ⊗ c ⊕ b ⊗ c
  pub div_eq_mul : (a b : F) → f.lit 0 1 ≺ b → a ⊘ b ≈ a ⊗ (f.lit 1 1 ⊘ b)
  pub mul_inv : (a : F) → f.lit 0 1 ≺ a → a ⊗ (f.lit 1 1 ⊘ a) ≈ f.lit 1 1
  pub inv_pos : (a : F) → f.lit 0 1 ≺ a → f.lit 0 1 ≺ f.lit 1 1 ⊘ a
  pub mul_pos : (a b : F) → f.lit 0 1 ≺ a → f.lit 0 1 ≺ b → f.lit 0 1 ≺ a ⊗ b
  pub add_sub : (a b : F) → b ≼ a → b ⊕ (a ⊖ b) ≈ a
  pub lit_suc : (n : ℕ) → f.lit (suc n) 1 ≈ f.lit n 1 ⊕ f.lit 1 1
  pub zero_lt_one : f.lit 0 1 ≺ f.lit 1 1
  pub lit_pos : (n d : ℕ) → 0 < n → 0 < d → f.lit 0 1 ≺ f.lit n d
