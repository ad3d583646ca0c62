-- ===== src/Scoring.antt =====
-- validator/miner_scoring.py: the epoch's emission split between the miners and the owner.
-- A `uid` and a count of GPUs are natural numbers; a float is a `Float`.
pub mod Earnings
pub mod Unready
pub mod Weights
pub mod Recycling
pub mod Conservation
use kubetee_subnet.Base.{
  ℕ, zero, suc, Bool, false, ◌||◌, Option, none, some, List, [], ◌∷◌, String, ◌==◌, nat_eq,
  string_eq, if◌then◌else◌, any, is_empty, length, Result, ok, err,
}
use kubetee_subnet.Text.{upper}
use kubetee_subnet.Dict.{Dict, get_or, insert, values, map_values}
use kubetee_subnet.Float.{Float, ◌⊕◌, ◌⊖◌, ◌⊗◌, ◌⊘◌, le, lt, of_ℕ, fmax, fmin, sum}

abbrev pub gpus_per_worker : ℕ
gpus_per_worker = 8

pub record MinerInput (F : Type 0) : Type 0 where
  pub uid : ℕ
  pub hotkey : String
  pub ready : Bool
  pub gpu_class : Option String
  pub gpu_workers : ℕ
  pub gpu_breakdown : List (String × ℕ)
  pub total_qualifying_workers : ℕ
  pub cluster_name : Option String
  pub tenure : F

pub record ScoreWeights (F : Type 0) : Type 0 where
  pub weights : Dict ℕ F
  pub miner_usd : Dict ℕ F
  pub owner_weight : F
  pub total_pool_usd : F

-- The ValueError of `compute_weights`.
pub data ScoringError : Type 0 where
  pool_not_positive : ScoringError

-- `any(m.uid == owner_uid for m in miners)`
unfoldable pub is_present : {F : Type 0} → ℕ → List (MinerInput F) → Bool
is_present owner_uid miners = any (λ m. m.uid == owner_uid) miners

module _ {F : Type 0} ⦃f : Float F⦄ where
  unfoldable pub miner_shares : ScoreWeights F → Dict ℕ F
  miner_shares s =
      if le s.total_pool_usd (of_ℕ 0)
      then []
      else map_values (λ v. v ⊘ s.total_pool_usd) s.miner_usd

  -- The tests on `gpu_class` and `gpu_workers` are the patterns.
  unfoldable pub usd_target_per_hour : Option String → ℕ → Dict String F → F
  usd_target_per_hour none gpu_workers usd_card = of_ℕ 0
  usd_target_per_hour (some gpu_class) zero usd_card = of_ℕ 0
  usd_target_per_hour (some gpu_class) (suc n) usd_card =
      get_or (upper gpu_class) usd_card (of_ℕ 0) ⊗ of_ℕ gpus_per_worker ⊗ of_ℕ (suc n)

  unfoldable pub breakdown_from : F → List (String × ℕ) → Dict String F → F
  breakdown_from total [] usd_card = total
  breakdown_from total ((klass, gpu_count) ∷ rest) usd_card =
      breakdown_from (total ⊕ get_or (upper klass) usd_card (of_ℕ 0) ⊗ of_ℕ gpu_count) rest usd_card

  unfoldable pub usd_from_breakdown : List (String × ℕ) → Dict String F → F
  unfolding breakdown_from
  usd_from_breakdown gpu_breakdown usd_card = breakdown_from (of_ℕ 0) gpu_breakdown usd_card

  -- `target * tenure * window_hours`, in one pass of the loop of `compute_weights`
  unfoldable pub earned : Dict String F → F → MinerInput F → F
  earned usd_card window_hours m =
      (if is_empty m.gpu_breakdown
        then usd_target_per_hour m.gpu_class m.gpu_workers usd_card
        else usd_from_breakdown m.gpu_breakdown usd_card)
      ⊗ fmin (of_ℕ 1) (fmax (of_ℕ 0) m.tenure)
      ⊗ window_hours

  unfoldable pub is_earning : Dict String F → F → MinerInput F → Bool
  is_earning usd_card window_hours m =
      if m.ready then lt (of_ℕ 0) (earned usd_card window_hours m) else false

  -- The loop of `compute_weights` over the miners, which fills `miner_usd`.
  unfoldable pub collect : Dict String F → F → List (MinerInput F) → Dict ℕ F → Dict ℕ F
  collect usd_card window_hours [] miner_usd = miner_usd
  collect usd_card window_hours (m ∷ miners) miner_usd = collect usd_card window_hours miners (
      if is_earning usd_card window_hours m
      then insert m.uid (earned usd_card window_hours m) miner_usd
      else miner_usd)

  pub even_from : F → List (MinerInput F) → Dict ℕ F → Dict ℕ F
  even_from share [] d = d
  even_from share (m ∷ miners) d = even_from share miners (insert m.uid share d)

  -- `_even`
  unfoldable pub even : List (MinerInput F) → Dict ℕ F
  unfolding even_from
  even miners = even_from (of_ℕ 1 ⊘ of_ℕ (length miners)) miners []

  -- The branch in which no miner earns.
  unfoldable pub unearned : List (MinerInput F) → ℕ → F → ScoreWeights F
  unearned miners owner_uid emission_pool_usd = record {
    weights =
        if is_present owner_uid miners || owner_uid == 0
        then if is_present owner_uid miners then (owner_uid, of_ℕ 1) ∷ [] else even miners
        else even miners;
    miner_usd = [];
    owner_weight = of_ℕ 1;
    total_pool_usd = emission_pool_usd;
  }

  -- The weights after the pro-rata step, and their total.
  unfoldable pub pro_rata : Dict ℕ F → Dict ℕ F × F
  pro_rata weights =
      let total_weight = sum (values weights) in
      if lt (of_ℕ 1) total_weight
      then (map_values (λ w. w ⊗ (of_ℕ 1 ⊘ total_weight)) weights, of_ℕ 1)
      else (weights, total_weight)

  -- What the miners did not earn goes to the owner, or back to them in proportion.
  unfoldable pub recycle : Bool → ℕ → Dict ℕ F → F → F → Dict ℕ F
  recycle owner_present owner_uid weights total_weight owner_weight =
      if owner_present
      then insert owner_uid (get_or owner_uid weights (of_ℕ 0) ⊕ owner_weight) weights
      else if lt (of_ℕ 0) owner_weight
      then if lt (of_ℕ 0) total_weight then map_values (λ w. w ⊘ total_weight) weights else weights
      else weights

  -- The branch in which some miner earns.
  unfoldable pub split_pool : List (MinerInput F) → Dict ℕ F → ℕ → F → ScoreWeights F
  split_pool miners miner_usd owner_uid emission_pool_usd =
      let (weights, total_weight) =
        pro_rata (map_values (λ usd. usd ⊘ emission_pool_usd) miner_usd) in
      let owner_weight = fmax (of_ℕ 0) (of_ℕ 1 ⊖ total_weight) in
      record {
        weights = recycle (is_present owner_uid miners) owner_uid weights total_weight owner_weight;
        miner_usd = miner_usd;
        owner_weight = owner_weight;
        total_pool_usd = emission_pool_usd;
      }

  -- `usd_per_alpha` is an argument that the body never reads.
  unfoldable pub compute_weights :
      List (MinerInput F) → Dict String F → F → F → ℕ → F → Result ScoringError (ScoreWeights F)
  compute_weights miners usd_card usd_per_alpha window_hours owner_uid emission_pool_usd =
      if le emission_pool_usd (of_ℕ 0)
      then err pool_not_positive
      else let miner_usd = collect usd_card window_hours miners [] in
        ok (
          if is_empty miner_usd
          then unearned miners owner_uid emission_pool_usd
          else split_pool miners miner_usd owner_uid emission_pool_usd)
