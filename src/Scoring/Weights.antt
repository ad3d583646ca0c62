-- ===== src/Scoring/Weights.antt =====
-- `weights` of validator/miner_scoring.py: what a miner's earnings come to as a weight.
use mathlib.Core.Option
use mathlib.Core.Option.{Option}
use kubetee_subnet.Base.{
  ℕ, ◌≡◌, refl, true, false, ◌≢◌, none, some, List, [], String, ◌==◌, nat_eq, if◌then◌else◌,
  is_empty, Bool-cases, inl, inr, arith, ok, ◌∙◌,
}
use kubetee_subnet.Dict.{Dict, lookup, values, map_values}
use kubetee_subnet.Dict.Laws.{lookup-insert, lookup-map_values}
use kubetee_subnet.Float.{Float, ◌⊗◌, ◌⊘◌, lt, of_ℕ, sum}
use kubetee_subnet.Scoring.{
  MinerInput, ScoreWeights, collect, is_present, pro_rata, recycle, unearned, split_pool,
  compute_weights,
}
use kubetee_subnet.Scoring.Earnings.{compute_weights-ok}

module _ {F : Type 0} ⦃f : Float F⦄ where
  -- The share of the pool, and the pro-rata step where the shares come to more than 1.
  abbrev pub weight_of : F → F → F → F
  weight_of pool total usd = if lt (of_ℕ 1) total then usd ⊘ pool ⊗ (of_ℕ 1 ⊘ total) else usd ⊘ pool

  scaled :
      (pool total : F)
      → lt (of_ℕ 1) total ≡ true
      → (o : Option F)
      → Option.map (λ w. w ⊗ (of_ℕ 1 ⊘ total)) (Option.map (λ usd. usd ⊘ pool) o)
        ≡ Option.map (weight_of pool total) o
  scaled pool total over none = refl
  scaled pool total over (some usd) = rw over

  direct :
      (pool total : F)
      → lt (of_ℕ 1) total ≡ false
      → (o : Option F) → Option.map (λ usd. usd ⊘ pool) o ≡ Option.map (weight_of pool total) o
  direct pool total within none = refl
  direct pool total within (some usd) = rw within

  pub lookup-pro_rata :
      (u : ℕ) (pool : F) (miner_usd : Dict ℕ F)
      → let total = sum (values (map_values (λ usd. usd ⊘ pool) miner_usd)) in
        lookup u (pro_rata (map_values (λ usd. usd ⊘ pool) miner_usd)).0
        ≡ Option.map (weight_of pool total) (lookup u miner_usd)
  unfolding pro_rata
  lookup-pro_rata u pool miner_usd =
      elim (Bool-cases (lt (of_ℕ 1) (sum (values (map_values (λ usd. usd ⊘ pool) miner_usd))))) [
        | inl over ↦ rw over (
            lookup-map_values _ u (map_values (λ usd. usd ⊘ pool) miner_usd)
            ∙ rw lookup-map_values (scaled pool _ over (lookup u miner_usd)))
        | inr within ↦
            rw within (lookup-map_values _ u miner_usd ∙ direct pool _ within (lookup u miner_usd))
      ]

  pub lookup-recycle_ne :
      (u owner : ℕ) (weights : Dict ℕ F) (total rest : F)
      → u ≢ owner
      → lookup u (recycle true owner weights total rest) ≡ lookup u weights
  unfolding recycle
  lookup-recycle_ne u owner weights total rest ne =
      lookup-insert owner u _ weights
      ∙ (let other : (owner == u) ≡ false = ground arith in rw other)

  -- With the owner in the metagraph, every other miner's weight is its earnings over the pool, scaled
  -- by 1 / total where the weights would come to more than 1, and a uid that earns nothing has none.
  pub weight_of_miner :
      (miners : List (MinerInput F)) (usd_card : Dict String F) (usd_per_alpha window_hours : F)
      (owner_uid : ℕ) (pool : F) (u : ℕ) {s : ScoreWeights F}
      → is_present owner_uid miners ≡ true
      → u ≢ owner_uid
      → compute_weights miners usd_card usd_per_alpha window_hours owner_uid pool ≡ ok s
      → lookup u s.weights
        ≡ Option.map
            (weight_of pool (sum (values (map_values (λ usd. usd ⊘ pool) s.miner_usd))))
            (lookup u s.miner_usd)
  unfolding unearned split_pool
  weight_of_miner miners usd_card usd_per_alpha window_hours owner_uid pool u here ne h =
      rw (compute_weights-ok usd_card window_hours miners usd_per_alpha owner_uid pool h)
        (elim (Bool-cases (is_empty (collect usd_card window_hours miners []))) [
          | inl unpaid ↦
              rw unpaid (let other : (owner_uid == u) ≡ false = ground arith in rw here (rw other))
          | inr paid ↦
              rw paid (rw here (lookup-recycle_ne u owner_uid _ _ _ ne ∙ lookup-pro_rata u pool _))
        ])
