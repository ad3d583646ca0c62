-- ===== src/Scoring/Earnings.antt =====
-- `miner_usd` of validator/miner_scoring.py: who is paid, and how much.
use kubetee_subnet.Base.{
  is_empty, beq_self, ℕ, ◌≡◌, refl, false, none, some, List, [], ◌∷◌, String, ◌==◌, nat_eq,
  if◌then◌else◌, All, Bool-cases, inl, inr, arith, ok, ◌∙◌,
}
use kubetee_subnet.Dict.{Dict, lookup, insert}
use kubetee_subnet.Dict.Laws.{lookup-insert}
use kubetee_subnet.Float.{Float}
use kubetee_subnet.Scoring.{
  MinerInput, ScoreWeights, earned, is_earning, collect, is_present, unearned, split_pool,
  compute_weights,
}

-- No two neurons of a metagraph share a uid.
abbrev pub Distinct : {F : Type 0} → List (MinerInput F) → Type 0
Distinct [] = Unit
Distinct (m ∷ miners) = (is_present m.uid miners ≡ false) × Distinct miners

-- The dict holds none of the miners.
abbrev pub Fresh : {F : Type 0} → Dict ℕ F → List (MinerInput F) → Type 0
Fresh d miners = All (λ m. lookup m.uid d ≡ none) miners

pub Fresh-insert :
    {F : Type 0} (u : ℕ) (v : F) (d : Dict ℕ F) (miners : List (MinerInput F))
    → is_present u miners ≡ false
    → Fresh d miners
    → Fresh (insert u v d) miners
unfolding is_present
Fresh-insert u v d [] a b = tt
Fresh-insert u v d (m ∷ miners) a b =
    let other : (u == m.uid) ≡ false = ground arith in
    (lookup-insert u m.uid v d ∙ rw other b.0, Fresh-insert u v d miners (ground arith) b.1)

pub Fresh-nil : {F : Type 0} (miners : List (MinerInput F)) → Fresh {F = F} [] miners
Fresh-nil [] = tt
Fresh-nil (m ∷ miners) = (refl, Fresh-nil miners)

module _ {F : Type 0} ⦃f : Float F⦄ (usd_card : Dict String F) (window_hours : F) where
  abbrev pub pay : MinerInput F → Dict ℕ F → Dict ℕ F
  pay m d =
      if is_earning usd_card window_hours m
      then insert m.uid (earned usd_card window_hours m) d
      else d

  -- What one pass of the loop leaves in the dict.
  pub lookup-step :
      (u : ℕ) (m : MinerInput F) (d : Dict ℕ F)
      → lookup u (pay m d) ≡ (
          if m.uid == u
          then if is_earning usd_card window_hours m
            then some (earned usd_card window_hours m)
            else lookup u d
          else lookup u d)
  lookup-step u m d = elim (Bool-cases (is_earning usd_card window_hours m)) [
    | inl earns ↦ rw earns (lookup-insert m.uid u (earned usd_card window_hours m) d)
    | inr unpaid ↦ rw unpaid (ground arith)
  ]

  pub lookup-collect_absent :
      (u : ℕ) (miners : List (MinerInput F)) (d : Dict ℕ F)
      → is_present u miners ≡ false
      → lookup u (collect usd_card window_hours miners d) ≡ lookup u d
  unfolding collect is_present
  lookup-collect_absent u [] d h = refl
  lookup-collect_absent u (m ∷ miners) d h =
      lookup-collect_absent u miners _ (ground arith)
      ∙ lookup-step u m d
      ∙ (let other : (m.uid == u) ≡ false = ground arith in rw other)

  abbrev pub Paid : Dict ℕ F → MinerInput F → Type 0
  Paid miner_usd m =
      lookup m.uid miner_usd
      ≡ (if is_earning usd_card window_hours m then some (earned usd_card window_hours m) else none)

  -- Where the dict holds none of the miners yet, the loop leaves each one's own earnings.
  collect-Paid :
      (miners : List (MinerInput F)) (d : Dict ℕ F)
      → Distinct miners
      → Fresh d miners
      → All (λ m. Paid (collect usd_card window_hours miners d) m) miners
  unfolding collect is_present
  collect-Paid [] d h fresh = tt
  collect-Paid (m ∷ miners) d h fresh = (
    lookup-collect_absent m.uid miners _ h.0
        ∙ lookup-step m.uid m d
        ∙ rw (beq_self m.uid) (rw fresh.0),
    collect-Paid miners _ h.1 kept,
  )
    where
      kept : All (λ n. lookup n.uid (pay m d) ≡ none) miners
      kept = elim (Bool-cases (is_earning usd_card window_hours m)) [
        | inl earns ↦
            rw earns (Fresh-insert m.uid (earned usd_card window_hours m) d miners h.0 fresh.1)
        | inr unpaid ↦ rw unpaid fresh.1
      ]

  module _ (miners : List (MinerInput F)) (usd_per_alpha : F) (owner_uid : ℕ) (pool : F) where
    -- What a call that does not raise returns.
    pub compute_weights-ok :
        {s : ScoreWeights F}
        → compute_weights miners usd_card usd_per_alpha window_hours owner_uid pool ≡ ok s
        → s ≡ (
            if is_empty (collect usd_card window_hours miners [])
            then unearned miners owner_uid pool
            else split_pool miners (collect usd_card window_hours miners []) owner_uid pool)
    unfolding compute_weights
    compute_weights-ok h = ground arith

    pub miner_usd-compute_weights :
        {s : ScoreWeights F}
        → compute_weights miners usd_card usd_per_alpha window_hours owner_uid pool ≡ ok s
        → s.miner_usd ≡ collect usd_card window_hours miners []
    unfolding unearned split_pool
    miner_usd-compute_weights h = ground (arith, compute_weights-ok h)

    -- With distinct uids, exactly the ready miners whose earnings are positive are in `miner_usd`,
    -- each with its own earnings, and no uid that is not a miner's is.
    pub compute_weights-Paid :
        {s : ScoreWeights F}
        → Distinct miners
        → compute_weights miners usd_card usd_per_alpha window_hours owner_uid pool ≡ ok s
        → All (Paid s.miner_usd) miners
          × ((u : ℕ) → is_present u miners ≡ false → lookup u s.miner_usd ≡ none)
    compute_weights-Paid distinct h =
        rw (miner_usd-compute_weights h) (
          collect-Paid miners [] distinct (Fresh-nil miners),
          λ u. lookup-collect_absent u miners [],
        )
