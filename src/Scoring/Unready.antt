-- ===== src/Scoring/Unready.antt =====
-- Only ready miners earn in validator/miner_scoring.py.
use kubetee_subnet.Base.{
  ℕ, ◌≡◌, sym, ◌∙◌, ◌⊎◌, inl, inr, true, some, List, [], ◌∷◌, String, ◌==◌, nat_eq, Bool-cases,
  nat_beq_iff, ok, arith,
}
use kubetee_subnet.Base.Members.{Some}
use kubetee_subnet.Dict.{Dict, lookup}
use kubetee_subnet.Float.{Float}
use kubetee_subnet.Scoring.{MinerInput, ScoreWeights, is_earning, collect, compute_weights}
use kubetee_subnet.Scoring.Earnings.{pay, lookup-step, miner_usd-compute_weights}

module _ {F : Type 0} ⦃f : Float F⦄ (usd_card : Dict String F) (window_hours : F) where
  is_earning-ready : (m : MinerInput F) → is_earning usd_card window_hours m ≡ true → m.ready ≡ true
  unfolding is_earning
  is_earning-ready m h = ground arith

  -- A ready miner of that uid.
  abbrev pub HasReady : ℕ → List (MinerInput F) → Type 0
  HasReady u miners = Some (λ m. (m.uid ≡ u) × (m.ready ≡ true)) miners

  lookup-pay :
      (u : ℕ) (m : MinerInput F) (d : Dict ℕ F) (x : F)
      → lookup u (pay usd_card window_hours m d) ≡ some x
      → ((m.uid ≡ u) × (m.ready ≡ true)) ⊎ (lookup u d ≡ some x)
  lookup-pay u m d x h =
      let step = sym (lookup-step usd_card window_hours u m d) ∙ h in
      elim (Bool-cases (m.uid == u)) [
        | inr other ↦ inr (rw other at step)
        | inl same ↦ elim (Bool-cases (is_earning usd_card window_hours m)) [
          | inl earns ↦ inl ((nat_beq_iff m.uid u).0 same, is_earning-ready m earns)
          | inr unpaid ↦ inr (rw (same, unpaid) at step)
        ]
      ]

  lookup-collect :
      (u : ℕ) (miners : List (MinerInput F)) (d : Dict ℕ F) (x : F)
      → lookup u (collect usd_card window_hours miners d) ≡ some x
      → HasReady u miners ⊎ (lookup u d ≡ some x)
  unfolding collect
  lookup-collect u [] d x h = inr h
  lookup-collect u (m ∷ miners) d x h =
      elim (lookup-collect u miners (pay usd_card window_hours m d) x h) [
        | inl rest ↦ inl (inr rest)
        | inr first ↦ elim (lookup-pay u m d x first) [
          | inl here ↦ inl (inl here)
          | inr before ↦ inr before
        ]
      ]

  -- A uid that earns is of a ready miner.
  pub compute_weights-HasReady :
      (miners : List (MinerInput F)) (usd_per_alpha : F) (owner_uid : ℕ) (pool : F) (u : ℕ) (x : F)
      (s : ScoreWeights F)
      → compute_weights miners usd_card usd_per_alpha window_hours owner_uid pool ≡ ok s
      → lookup u s.miner_usd ≡ some x
      → HasReady u miners
  compute_weights-HasReady miners usd_per_alpha owner_uid pool u x s h k =
      elim (lookup-collect u miners [] x (
        rw (miner_usd-compute_weights usd_card window_hours miners usd_per_alpha owner_uid pool h)
          at k)) [ inl ready ↦ ready | inr nothing ↦ cc nothing ]
