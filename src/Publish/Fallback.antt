-- ===== src/Publish/Fallback.antt =====
-- A reader that falls back on what the owner of validator/validator.py published.
use kubetee_subnet.Base.{ℕ, ◌≡◌, refl, false, some, String, string_eq, arith}
use kubetee_subnet.Dict.{Dict}
use kubetee_subnet.Float.{Float, ◌⊗◌, le, ◌≺◌, of_ℕ}
use kubetee_subnet.Float.Order.{lt→le}
use kubetee_subnet.Json.{obj}
use kubetee_subnet.Chain.{ChainState}
use kubetee_subnet.PriceFeed.{
  PriceFeed, seed_tao_usd, seed_from_published, tao_usd_from_published,
  usd_per_alpha_from_published,
}
use kubetee_subnet.Rates.{fallback_usd_per_alpha}
use kubetee_subnet.Publish.{payout_payload}

module _ {F : Type 0} ⦃f : Float F⦄ where
  above_not_le : (a : F) → of_ℕ 0 ≺ a → le a (of_ℕ 0) ≡ false
  above_not_le a h = ground arith

  -- Where the owner published two prices above 0, a reader whose services fail prices the cycle with
  -- just these, whatever its feed and its chain have: the product, the price of TAO and the rate. It is
  -- also the product that `usd_per_alpha_from_published` reads, and the feed keeps the price of TAO.
  pub fallback_usd_per_alpha-payout_payload :
      (epoch : ℕ) (published_at : F) (per_card : Dict String F) (usd alpha : F)
      (chain : ChainState F) (feed : PriceFeed F)
      → of_ℕ 0 ≺ usd
      → of_ℕ 0 ≺ alpha
      → (fallback_usd_per_alpha
            (some (payout_payload epoch published_at per_card (some usd) (some alpha)))
            chain
            feed
          ≡ (some (some (usd ⊗ alpha, usd, alpha)), record feed { last_tao_usd = some usd }))
        × (usd_per_alpha_from_published
              (obj (payout_payload epoch published_at per_card (some usd) (some alpha)))
            ≡ some (usd ⊗ alpha))
  unfolding payout_payload fallback_usd_per_alpha usd_per_alpha_from_published seed_from_published
      seed_tao_usd tao_usd_from_published
  fallback_usd_per_alpha-payout_payload epoch published_at per_card usd alpha chain feed h k =
      let usd_high = above_not_le usd h in
      let alpha_high = above_not_le alpha k in
      rw (h, k, usd_high, alpha_high, lt→le (of_ℕ 0) alpha k, h) (refl, refl)
