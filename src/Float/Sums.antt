-- ===== src/Float/Sums.antt =====
-- Sums in exact arithmetic: equality up to `==`, `sum` as a plain recursion, and the sum of a dict's
-- values after a scaling or a write.
use kubetee_subnet.Base.{◌≡◌, false, List, [], ◌∷◌, Eq, ◌==◌, Bool-cases, inl, inr, arith}
use kubetee_subnet.Dict.{Dict, get_or, insert, values, map_values}
use kubetee_subnet.Float.{Float, ◌⊕◌, ◌⊗◌, lt, ◌≼◌, ◌≺◌, ◌≈◌, of_ℕ, sum_from, sum}
use kubetee_subnet.Float.Exact.{IsExact}

module _ {F : Type 0} ⦃f : Float F⦄ where
  -- The sum as a plain recursion.
  abbrev pub total : List F → F
  total [] = of_ℕ 0
  total (x ∷ xs) = x ⊕ total xs

module _ {F : Type 0} ⦃f : Float F⦄ (x : IsExact F) where
  pub refl_lem : (a : F) → a ≈ a
  refl_lem a = ground (arith, x.le_total a a)

  pub trans : {a b c : F} → a ≈ b → b ≈ c → a ≈ c
  trans {a} {b} {c} h k = (x.le_trans a b c h.0 k.0, x.le_trans c b a k.1 h.1)

  pub symm : {a b : F} → a ≈ b → b ≈ a
  symm h = (h.1, h.0)

  pub add_left : {a b : F} (c : F) → a ≈ b → a ⊕ c ≈ b ⊕ c
  add_left {a} {b} c h = (x.add_mono a b c h.0, x.add_mono b a c h.1)

  pub add_right : {a b : F} (c : F) → a ≈ b → c ⊕ a ≈ c ⊕ b
  add_right {a} {b} c h = trans (x.add_comm c a) (trans (add_left c h) (x.add_comm b c))

  pub mul_left : {a b : F} (c : F) → of_ℕ 0 ≼ c → a ≈ b → a ⊗ c ≈ b ⊗ c
  mul_left {a} {b} c p h = (x.mul_mono a b c h.0 p, x.mul_mono b a c h.1 p)

  pub add_zero : (a : F) → a ⊕ of_ℕ 0 ≈ a
  add_zero a = trans (x.add_comm a (of_ℕ 0)) (x.zero_add a)

  pub lt→le : {a b : F} → a ≺ b → a ≼ b
  lt→le {a} {b} h = ground arith

  pub not_lt→le : (a b : F) → lt a b ≡ false → b ≼ a
  not_lt→le a b h = ground (arith, x.le_total a b)

  pub lt_of_lt_of_le : (a b c : F) → a ≺ b → b ≼ c → a ≺ c
  lt_of_lt_of_le a b c h k = ground (arith, x.le_trans a b c, x.le_trans c a b, x.le_trans b c a)

  pub add_pos : (a b : F) → of_ℕ 0 ≺ a → of_ℕ 0 ≼ b → of_ℕ 0 ≺ a ⊕ b
  add_pos a b h k = lt_of_lt_of_le (of_ℕ 0) a (a ⊕ b) h (
      x.le_trans a (a ⊕ of_ℕ 0) (a ⊕ b) (add_zero a).1 (
        x.le_trans (a ⊕ of_ℕ 0) (of_ℕ 0 ⊕ a) (a ⊕ b) (x.add_comm a (of_ℕ 0)).0
          (x.le_trans (of_ℕ 0 ⊕ a) (b ⊕ a) (a ⊕ b) (x.add_mono (of_ℕ 0) b a k) (x.add_comm b a).0)))

  sum_from-eq-total : (acc : F) (xs : List F) → sum_from acc xs ≈ acc ⊕ total xs
  sum_from-eq-total acc [] = symm (add_zero acc)
  sum_from-eq-total acc (y ∷ ys) =
      trans (sum_from-eq-total (acc ⊕ y) ys) (x.add_assoc acc y (total ys))

  pub sum-eq-total : (xs : List F) → sum xs ≈ total xs
  sum-eq-total xs = trans (sum_from-eq-total (of_ℕ 0) xs) (x.zero_add (total xs))

  pub swap_last : (a b c : F) → a ⊕ b ⊕ c ≈ a ⊕ c ⊕ b
  swap_last a b c =
      trans (x.add_assoc a b c) (trans (add_right a (x.add_comm b c)) (symm (x.add_assoc a c b)))

module _ {F K : Type 0} ⦃f : Float F⦄ (x : IsExact F) where
  pub total-scale :
      (c : F) (g : F → F)
      → of_ℕ 0 ≼ c
      → ((v : F) → g v ≈ v ⊗ c)
      → (d : Dict K F) → total (values (map_values g d)) ≈ total (values d) ⊗ c
  total-scale c g p h [] = symm x (x.zero_mul c)
  total-scale c g p h ((k, v) ∷ d) = trans x (add_left x _ (h v)) (
      trans x (add_right x (v ⊗ c) (total-scale c g p h d))
        (symm x (x.add_mul v (total (values d)) c)))

module _ {F K : Type 0} ⦃f : Float F⦄ ⦃e : Eq K⦄ (x : IsExact F) where
  -- A write that adds `w` to what the key holds adds `w` to the sum.
  pub total-insert :
      (k : K) (v w : F) (d : Dict K F)
      → v ≈ get_or k d (of_ℕ 0) ⊕ w
      → total (values (insert k v d)) ≈ total (values d) ⊕ w
  total-insert k v w [] h = trans x (add_zero x v) h
  total-insert k v w ((j, u) ∷ d) h = elim (Bool-cases (j == k)) [
    | inl same ↦
        rw same (trans x (add_left x _ (rw same at h)) (swap_last x u w (total (values d))))
    | inr other ↦ rw other (
        trans x (add_right x u (total-insert k v w d (rw other at h)))
          (symm x (x.add_assoc u (total (values d)) w)))
  ]
