-- ===== src/Scoring/Recycling.antt =====
-- The pro-rata step and the recycling of validator/miner_scoring.py, in exact arithmetic.
use kubetee_subnet.Base.{ℕ, ◌≡◌, Bool, true, false, nat_eq, Bool-cases, inl, inr}
use kubetee_subnet.Dict.{Dict, get_or, values, map_values}
use kubetee_subnet.Float.{Float, ◌⊕◌, ◌⊖◌, ◌⊗◌, ◌⊘◌, lt, ◌≼◌, ◌≺◌, ◌≈◌, of_ℕ, fmax, sum}
use kubetee_subnet.Float.Exact.{IsExact}
use kubetee_subnet.Float.Sums.{
  total, refl_lem, trans, symm, add_left, mul_left, add_zero, lt→le, not_lt→le, sum-eq-total,
  total-scale, total-insert,
}
use kubetee_subnet.Scoring.{pro_rata, recycle}

module _ {F : Type 0} ⦃f : Float F⦄ (x : IsExact F) where
  pub mul_inv_cong : (a t : F) → of_ℕ 0 ≺ t → a ≈ t → a ⊗ (of_ℕ 1 ⊘ t) ≈ of_ℕ 1
  mul_inv_cong a t p h =
      trans x (mul_left x (of_ℕ 1 ⊘ t) (lt→le x (x.inv_pos t p)) h) (x.mul_inv t p)

  pub scaled_to_one :
      (t : F) (d : Dict ℕ F)
      → of_ℕ 0 ≺ t
      → total (values d) ≈ t
      → total (values (map_values (λ w. w ⊗ (of_ℕ 1 ⊘ t)) d)) ≈ of_ℕ 1
  scaled_to_one t d p h =
      trans x
        (total-scale x (of_ℕ 1 ⊘ t) (λ w. w ⊗ (of_ℕ 1 ⊘ t)) (lt→le x (x.inv_pos t p))
          (λ v. refl_lem x _) d)
        (mul_inv_cong (total (values d)) t p h)

  pub divided_to_one :
      (t : F) (d : Dict ℕ F)
      → of_ℕ 0 ≺ t
      → total (values d) ≈ t
      → total (values (map_values (λ w. w ⊘ t) d)) ≈ of_ℕ 1
  divided_to_one t d p h =
      trans x
        (total-scale x (of_ℕ 1 ⊘ t) (λ w. w ⊘ t) (lt→le x (x.inv_pos t p)) (λ v. x.div_eq_mul v t p)
          d)
        (mul_inv_cong (total (values d)) t p h)

  abbrev pub remainder : F → F
  remainder t = fmax (of_ℕ 0) (of_ℕ 1 ⊖ t)

  -- Where the difference is not positive it is 0, up to `==`.
  pub add_remainder : (t : F) → t ≼ of_ℕ 1 → t ⊕ remainder t ≈ of_ℕ 1
  add_remainder t h = elim (Bool-cases (lt (of_ℕ 0) (of_ℕ 1 ⊖ t))) [
    | inl positive ↦ rw positive (x.add_sub (of_ℕ 1) t h)
    | inr zero' ↦ rw zero' (
      x.le_trans _ t _ (add_zero x t).0 h,
      x.le_trans _ _ _ (x.add_sub (of_ℕ 1) t h).1
          (grow t (of_ℕ 1 ⊖ t) (of_ℕ 0) (not_lt→le x (of_ℕ 0) (of_ℕ 1 ⊖ t) zero')),
    )
  ]
    where
      grow : (c a b : F) → a ≼ b → c ⊕ a ≼ c ⊕ b
      grow c a b k =
          x.le_trans _ _ _ (x.add_comm c a).0
            (x.le_trans _ _ _ (x.add_mono a b c k) (x.add_comm b c).0)

  pub no_remainder : (t : F) → t ≼ of_ℕ 1 → lt (of_ℕ 0) (remainder t) ≡ false → t ≈ of_ℕ 1
  no_remainder t h none_left = (
    h,
    x.le_trans _ _ _ (add_remainder t h).1 (
        x.le_trans _ _ _ (x.add_comm t (remainder t)).0 (
          x.le_trans _ _ _
            (x.add_mono (remainder t) (of_ℕ 0) t (not_lt→le x (of_ℕ 0) (remainder t) none_left))
            (x.zero_add t).0)),
  )

  -- What the pro-rata step hands on.
  pub record Fits (r : Dict ℕ F × F) : Type 0 where
    pub adds : total (values r.0) ≈ r.1
    pub below : r.1 ≼ of_ℕ 1
    pub positive : of_ℕ 0 ≺ r.1

  pub pro_rata-Fits : (d : Dict ℕ F) → of_ℕ 0 ≺ sum (values d) → Fits (pro_rata d)
  unfolding pro_rata
  pro_rata-Fits d p = elim (Bool-cases (lt (of_ℕ 1) (sum (values d)))) [
    | inl over ↦ rw over (record {
      adds = scaled_to_one (sum (values d)) d p (symm x (sum-eq-total x (values d)));
      below = (refl_lem x (of_ℕ 1)).0;
      positive = x.zero_lt_one;
    })
    | inr within ↦ rw within (record {
      adds = symm x (sum-eq-total x (values d));
      below = not_lt→le x (of_ℕ 1) (sum (values d)) within;
      positive = p;
    })
  ]

  pub recycle_to_one :
      (here : Bool) (owner : ℕ) (d : Dict ℕ F) (t : F)
      → total (values d) ≈ t
      → t ≼ of_ℕ 1
      → of_ℕ 0 ≺ t
      → total (values (recycle here owner d t (remainder t))) ≈ of_ℕ 1
  unfolding recycle
  recycle_to_one true owner d t h below p =
      trans x
        (total-insert x owner (get_or owner d (of_ℕ 0) ⊕ remainder t) (remainder t) d
          (refl_lem x _))
        (trans x (add_left x (remainder t) h) (add_remainder t below))
  recycle_to_one false owner d t h below p = elim (Bool-cases (lt (of_ℕ 0) (remainder t))) [
    | inl left ↦ rw (left, p) (divided_to_one t d p h)
    | inr spent ↦ rw spent (trans x h (no_remainder t below spent))
  ]
