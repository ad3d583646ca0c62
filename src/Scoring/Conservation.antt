-- ===== src/Scoring/Conservation.antt =====
-- The weights of validator/miner_scoring.py add up: nothing of the pool is lost or paid twice.
use kubetee_subnet.Base.{
  ℕ, zero, suc, ◌≡◌, refl, true, false, List, [], ◌∷◌, String, ◌==◌, nat_eq, if◌then◌else◌,
  is_empty, Bool-cases, inl, inr, ◌⊎◌, arith, ok, All, length,
}
use kubetee_subnet.Dict.{Dict, insert, values, map_values}
use kubetee_subnet.Dict.Laws.{All-insert}
use kubetee_subnet.Float.{Float, ◌⊕◌, ◌⊗◌, ◌⊘◌, ◌≼◌, ◌≺◌, ◌≈◌, of_ℕ, sum}
use kubetee_subnet.Float.Exact.{IsExact}
use kubetee_subnet.Float.Sums.{
  total, refl_lem, trans, symm, add_left, add_right, mul_left, add_zero, lt→le, lt_of_lt_of_le,
  add_pos, sum-eq-total, total-insert,
}
use kubetee_subnet.Scoring.{
  MinerInput, ScoreWeights, earned, is_earning, collect, is_present, even_from, even, pro_rata,
  unearned, split_pool, compute_weights,
}
use kubetee_subnet.Scoring.Earnings.{Distinct, Fresh, Fresh-insert, Fresh-nil, compute_weights-ok}
use kubetee_subnet.Scoring.Recycling.{Fits, pro_rata-Fits, recycle_to_one}

module _ {F : Type 0} ⦃f : Float F⦄ (x : IsExact F) where
  abbrev AllPos : Dict ℕ F → Type 0
  AllPos d = All (λ e. of_ℕ 0 ≺ e.1) d

  is_earning_pos :
      (usd_card : Dict String F) (hours : F) (m : MinerInput F)
      → is_earning usd_card hours m ≡ true
      → of_ℕ 0 ≺ earned usd_card hours m
  unfolding is_earning
  is_earning_pos usd_card hours m h = ground arith

  collect-AllPos :
      (usd_card : Dict String F) (hours : F) (miners : List (MinerInput F)) (d : Dict ℕ F)
      → AllPos d
      → AllPos (collect usd_card hours miners d)
  unfolding collect
  collect-AllPos usd_card hours [] d h = h
  collect-AllPos usd_card hours (m ∷ miners) d h =
      collect-AllPos usd_card hours miners _ (step (Bool-cases (is_earning usd_card hours m)))
    where
      step :
          (is_earning usd_card hours m ≡ true) ⊎ (is_earning usd_card hours m ≡ false)
          → AllPos
              (if is_earning usd_card hours m then insert m.uid (earned usd_card hours m) d else d)
      step (inl earns) = rw earns (
          All-insert (λ k v. of_ℕ 0 ≺ v) m.uid (earned usd_card hours m) d h
            (is_earning_pos usd_card hours m earns))
      step (inr unpaid) = rw unpaid h

  shares-AllPos :
      (pool : F) (d : Dict ℕ F)
      → of_ℕ 0 ≺ pool
      → AllPos d
      → AllPos (map_values (λ usd. usd ⊘ pool) d)
  shares-AllPos pool [] p h = tt
  shares-AllPos pool ((k, v) ∷ d) p h = (
    lt_of_lt_of_le x (of_ℕ 0) (v ⊗ (of_ℕ 1 ⊘ pool)) (v ⊘ pool)
        (x.mul_pos v (of_ℕ 1 ⊘ pool) h.0 (x.inv_pos pool p)) (x.div_eq_mul v pool p).1,
    shares-AllPos pool d p h.1,
  )

  total_nonneg : (d : Dict ℕ F) → AllPos d → of_ℕ 0 ≼ total (values d)
  total_nonneg [] h = (refl_lem x (of_ℕ 0)).0
  total_nonneg ((k, v) ∷ d) h = lt→le x (add_pos x v (total (values d)) h.0 (total_nonneg d h.1))

  sum_pos : (d : Dict ℕ F) → is_empty d ≡ false → AllPos d → of_ℕ 0 ≺ sum (values d)
  sum_pos [] e h = cc
  sum_pos ((k, v) ∷ d) e h =
      lt_of_lt_of_le x (of_ℕ 0) (v ⊕ total (values d)) _
        (add_pos x v (total (values d)) h.0 (total_nonneg d h.1)) (sum-eq-total x (v ∷ values d)).1

  -- n equal shares of a whole come to the whole.
  even_from-total :
      (share : F) (miners : List (MinerInput F)) (d : Dict ℕ F)
      → of_ℕ 0 ≼ share
      → Distinct miners
      → Fresh d miners
      → total (values (even_from share miners d)) ≈ total (values d) ⊕ of_ℕ (length miners) ⊗ share
  unfolding even_from
  even_from-total share [] d p h fresh =
      symm x (trans x (add_right x _ (x.zero_mul share)) (add_zero x _))
  even_from-total share (m ∷ miners) d p h fresh =
      trans x
        (even_from-total share miners (insert m.uid share d) p h.1
          (Fresh-insert m.uid share d miners h.0 fresh.1))
        (trans x (add_left x _ one_more) (
          trans x (x.add_assoc (total (values d)) share (of_ℕ (length miners) ⊗ share))
            (add_right x (total (values d)) (symm x (suc_mul (length miners))))))
    where
      one_more : total (values (insert m.uid share d)) ≈ total (values d) ⊕ share
      one_more = total-insert x m.uid share share d (rw fresh.0 (symm x (x.zero_add share)))

      suc_mul : (n : ℕ) → of_ℕ (suc n) ⊗ share ≈ share ⊕ of_ℕ n ⊗ share
      suc_mul n = trans x (mul_left x share p (x.lit_suc n)) (
          trans x (x.add_mul (of_ℕ n) (of_ℕ 1) share)
            (trans x (add_right x _ (x.one_mul share)) (x.add_comm _ share)))

  of_ℕ_pos : (n : ℕ) → f.lit 0 1 ≺ f.lit (suc n) 1
  of_ℕ_pos zero = x.zero_lt_one
  of_ℕ_pos (suc n) =
      lt_of_lt_of_le x (of_ℕ 0) (of_ℕ (suc n) ⊕ of_ℕ 1) _
        (add_pos x (of_ℕ (suc n)) (of_ℕ 1) (of_ℕ_pos n) (lt→le x x.zero_lt_one))
        (x.lit_suc (suc n)).1

  even_to_one :
      (m : MinerInput F) (miners : List (MinerInput F))
      → Distinct (m ∷ miners)
      → total (values (even (m ∷ miners))) ≈ of_ℕ 1
  unfolding even
  even_to_one m miners h =
      trans x
        (even_from-total share (m ∷ miners) [] (lt→le x (x.inv_pos n (of_ℕ_pos (length miners)))) h
          (Fresh-nil (m ∷ miners)))
        (trans x (x.zero_add _) (x.mul_inv n (of_ℕ_pos (length miners))))
    where
      n : F
      n = of_ℕ (suc (length miners))

      share : F
      share = of_ℕ 1 ⊘ n

  unearned_to_one :
      (m : MinerInput F) (miners : List (MinerInput F)) (owner : ℕ) (pool : F)
      → Distinct (m ∷ miners)
      → total (values (unearned (m ∷ miners) owner pool).weights) ≈ of_ℕ 1
  unfolding unearned
  unearned_to_one m miners owner pool h = elim (Bool-cases (is_present owner (m ∷ miners))) [
    | inl here ↦ rw here (add_zero x (of_ℕ 1))
    | inr absent ↦ rw absent (elim (Bool-cases (owner == 0)) [
      | inl e ↦ rw e (even_to_one m miners h)
      | inr e ↦ rw e (even_to_one m miners h)
    ])
  ]

  split_pool_to_one :
      (miners : List (MinerInput F)) (miner_usd : Dict ℕ F) (owner : ℕ) (pool : F)
      → of_ℕ 0 ≺ pool
      → is_empty miner_usd ≡ false
      → AllPos miner_usd
      → total (values (split_pool miners miner_usd owner pool).weights) ≈ of_ℕ 1
  unfolding split_pool
  split_pool_to_one miners miner_usd owner pool p paid h =
      recycle_to_one x (is_present owner miners) owner _ _ fits.adds fits.below fits.positive
    where
      still :
          (d : Dict ℕ F) → is_empty d ≡ false → is_empty (map_values (λ usd. usd ⊘ pool) d) ≡ false
      still [] e = e
      still (entry ∷ d) e = refl

      fits : Fits x (pro_rata (map_values (λ usd. usd ⊘ pool) miner_usd))
      fits =
          pro_rata-Fits x (map_values (λ usd. usd ⊘ pool) miner_usd)
            (sum_pos _ (still miner_usd paid) (shares-AllPos pool miner_usd p h))

  pool_pos :
      (miners : List (MinerInput F)) (usd_card : Dict String F) (usd_per_alpha hours : F)
      (owner : ℕ) (pool : F) {s : ScoreWeights F}
      → compute_weights miners usd_card usd_per_alpha hours owner pool ≡ ok s
      → of_ℕ 0 ≺ pool
  unfolding compute_weights
  pool_pos miners usd_card usd_per_alpha hours owner pool h =
      ground (arith, x.le_total (of_ℕ 0) pool)

  -- In exact arithmetic, for a metagraph that is not empty and whose uids are distinct, the weights
  -- that `compute_weights` returns add up to 1, whoever earns and whether or not the owner is there.
  pub weights_to_one :
      (m : MinerInput F) (miners : List (MinerInput F)) (usd_card : Dict String F)
      (usd_per_alpha window_hours : F) (owner_uid : ℕ) (pool : F) {s : ScoreWeights F}
      → Distinct (m ∷ miners)
      → compute_weights (m ∷ miners) usd_card usd_per_alpha window_hours owner_uid pool ≡ ok s
      → sum (values s.weights) ≈ of_ℕ 1
  weights_to_one m miners usd_card usd_per_alpha hours owner pool {s} h e =
      trans x (sum-eq-total x (values s.weights))
        (rw (compute_weights-ok usd_card hours (m ∷ miners) usd_per_alpha owner pool e) to_one)
    where
      paid : Dict ℕ F
      paid = collect usd_card hours (m ∷ miners) []

      to_one :
          total (
            values
              (if is_empty paid
                then unearned (m ∷ miners) owner pool
                else split_pool (m ∷ miners) paid owner pool).weights)
          ≈ of_ℕ 1
      to_one = elim (Bool-cases (is_empty paid)) [
        | inl unpaid ↦ rw unpaid (unearned_to_one m miners owner pool h)
        | inr some_paid ↦ rw some_paid (
            split_pool_to_one (m ∷ miners) paid owner pool
              (pool_pos (m ∷ miners) usd_card usd_per_alpha hours owner pool e) some_paid
              (collect-AllPos usd_card hours (m ∷ miners) [] tt))
      ]
