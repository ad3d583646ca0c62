-- ===== src/Chain/Pool.antt =====
-- The emission pool of validator/chain_state.py, and the scoring of validator/miner_scoring.py that
-- divides by it.
use mathlib.Core.Path.{subst}
use mathlib.Core.Option.{some-injective}
use kubetee_subnet.Base.{
  ℕ, ◌≡◌, refl, false, some, List, [], ◌∷◌, String, inl, inr, Bool-cases, ok, arith,
}
use kubetee_subnet.Base.Members.{and_then-some}
use kubetee_subnet.Dict.{Dict, values}
use kubetee_subnet.Float.{Float, le, ◌≺◌, of_ℕ, sum}
use kubetee_subnet.Float.Exact.{IsExact}
use kubetee_subnet.Scoring.{MinerInput, ScoreWeights, compute_weights}
use kubetee_subnet.Chain.{ChainState, pool_of, pool_from, emissions, spot_price, emission_pool_usd}

module _ {F : Type 0} ⦃f : Float F⦄ (x : IsExact F) where
  not_le→lt : (a b : F) → le a b ≡ false → b ≺ a
  not_le→lt a b h = ground (arith, x.le_total a b)

  lt→not_le : (a b : F) → b ≺ a → le a b ≡ false
  lt→not_le a b h = ground arith

  pool_of-positive : (total_alpha spot tao_usd : F) → of_ℕ 0 ≺ pool_of total_alpha spot tao_usd
  pool_of-positive total_alpha spot tao_usd = elim (Bool-cases (le total_alpha (of_ℕ 0))) [
    | inl e ↦ rw e x.zero_lt_one
    | inr some_alpha ↦ elim (Bool-cases (le spot (of_ℕ 0))) [
      | inl e ↦ rw (some_alpha, e) x.zero_lt_one
      | inr some_spot ↦ elim (Bool-cases (le tao_usd (of_ℕ 0))) [
        | inl e ↦ rw (some_alpha, some_spot, e) x.zero_lt_one
        | inr some_usd ↦
            rw (some_alpha, some_spot, some_usd)
              (x.mul_pos _ _
                (x.mul_pos _ _
                  (x.mul_pos _ _ (not_le→lt total_alpha (of_ℕ 0) some_alpha)
                    (x.lit_pos 5 10 (omega arith) (omega arith)))
                  (not_le→lt tao_usd (of_ℕ 0) some_usd))
                (not_le→lt spot (of_ℕ 0) some_spot))
      ]
    ]
  ]

  pool_from-positive :
      (chain : ChainState F) (tao_usd : F) (ems : Dict ℕ F) (pool : F)
      → pool_from chain tao_usd ems ≡ some pool
      → of_ℕ 0 ≺ pool
  pool_from-positive chain tao_usd [] pool h =
      subst (λ p. of_ℕ 0 ≺ p) (some-injective _ _ h) x.zero_lt_one
  pool_from-positive chain tao_usd (e ∷ ems) pool h =
      let (spot, read, h1) = and_then-some (spot_price chain) _ _ h in
      subst (λ p. of_ℕ 0 ≺ p) (some-injective _ _ h1)
        (pool_of-positive (sum (values (e ∷ ems))) spot tao_usd)

  pub emission_pool_usd-positive :
      (chain : ChainState F) (tao_usd pool : F)
      → emission_pool_usd chain tao_usd ≡ some pool
      → of_ℕ 0 ≺ pool
  unfolding emission_pool_usd
  emission_pool_usd-positive chain tao_usd pool h =
      let (ems, read, h1) = and_then-some (emissions chain) _ _ h in
      pool_from-positive chain tao_usd ems pool h1

  -- In exact arithmetic `compute_weights` never raises on the pool that the chain gives, whatever the
  -- emissions and the prices are.
  pub compute_weights-funded :
      (chain : ChainState F) (tao_usd pool : F) (miners : List (MinerInput F))
      (usd_card : Dict String F) (usd_per_alpha window_hours : F) (owner_uid : ℕ)
      → emission_pool_usd chain tao_usd ≡ some pool
      → (scores : ScoreWeights F) × (compute_weights miners usd_card usd_per_alpha window_hours
            owner_uid pool
          ≡ ok scores)
  unfolding compute_weights
  compute_weights-funded chain tao_usd pool miners usd_card usd_per_alpha window_hours owner_uid h =
      let funded = lt→not_le pool (of_ℕ 0) (emission_pool_usd-positive chain tao_usd pool h) in
      rw funded (_, refl)
