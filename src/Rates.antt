-- ===== src/Rates.antt =====
-- The prices of a cycle in validator/validator.py: `_fallback_usd_per_alpha`, and the part of `run_cycle`
-- from the published payout to the emission pool.
pub mod Above
use kubetee_subnet.Base.{
  Bool, true, false, Option, none, some, [], ◌∷◌, String, string_eq, if◌then◌else◌, and_then,
  Result, ok, err,
}
use kubetee_subnet.Float.{Float, ◌⊗◌, of_ℕ}
use kubetee_subnet.Json.{Json, obj, Fields, end, field, get, as_num}
use kubetee_subnet.Chain.{
  Graph, ChainState, emissions, emission_pool_usd, alpha_out_emission, moving_price, spot_price,
}
use kubetee_subnet.PriceFeed.{
  Raised, price_feed_error, other_error, Response, PriceFeed, only_above_0, seed_from_published,
  tao_usd_from_published, tao_usd, usd_per_alpha,
}

-- What the services give to one cycle: `payout` is a published payout that `fetch_published_payout`
-- returned. What is asked twice is there twice.
pub record Feeds (F : Type 0) : Type 0 where
  pub payout : Option (Fields F)
  pub taostats : Response F
  pub coingecko : Response F
  pub writable : Bool
  pub graph : Option (Graph F)
  pub pools : Response F
  pub payout_again : Option (Fields F)
  pub taostats_again : Response F
  pub coingecko_again : Response F
  pub writable_again : Bool

-- How the prices of a cycle come out.
pub data Priced (F : Type 0) : Type 0 where
  -- `skip cycle: price feed unavailable`
  no_price : Priced F
  -- Another exception.
  broken : Priced F
  -- `usd_per_alpha`, `tao_usd` and `emission_pool_usd`.
  priced : F → F → F → Priced F

module _ {F : Type 0} ⦃f : Float F⦄ where
  -- `if published: seed_from_published(published)`
  abbrev pub seed_payout : Option (Fields F) → PriceFeed F → PriceFeed F
  seed_payout none feed = feed
  seed_payout (some end) feed = feed
  seed_payout (some (field k v fs)) feed = seed_from_published (obj (field k v fs)) feed

  abbrev pub last_or_published : Option F → Option (Fields F) → Option F
  last_or_published (some last) payout = some last
  last_or_published none none = none
  last_or_published none (some end) = none
  last_or_published none (some (field k v fs)) = tao_usd_from_published (obj (field k v fs))

  abbrev pub payout_alpha : Option (Fields F) → Option F
  payout_alpha none = none
  payout_alpha (some fs) = only_above_0 (as_num (get "alpha_to_tao" fs))

  -- The payout's rate, or the spot price, whose reading may raise.
  abbrev pub alpha_or_spot : Option F → Option F → Option (Option F)
  alpha_or_spot (some alpha) spot = some (some alpha)
  alpha_or_spot none none = none
  alpha_or_spot none (some spot) = some (only_above_0 (some spot))

  abbrev pub both : Option F → Option F → Option (F × F × F)
  both none alpha = none
  both (some usd) none = none
  both (some usd) (some alpha) = some (usd ⊗ alpha, usd, alpha)

  -- `_fallback_usd_per_alpha`: the outer `none` is a raised exception, the inner one None.
  unfoldable pub fallback_usd_per_alpha :
      Option (Fields F) → ChainState F → PriceFeed F → Option (Option (F × F × F)) × PriceFeed F
  fallback_usd_per_alpha payout chain feed =
      let feed' = seed_payout payout feed in
      (
        and_then (alpha_or_spot (payout_alpha payout) (spot_price chain))
            (λ alpha. some (both (last_or_published feed'.last_tao_usd payout) alpha)),
        feed',
      )

  -- The pool, with the two readings of the line that logs it.
  abbrev pub with_pool : F → F → ChainState F → Option (Priced F)
  with_pool per_alpha usd chain = and_then (emissions chain) (λ ems.
      and_then (emission_pool_usd chain usd) (λ pool.
        and_then (alpha_out_emission chain)
          (λ out. and_then (moving_price chain) (λ moving. some (priced per_alpha usd pool)))))

  abbrev pub or_broken : Option (Priced F) → Priced F
  or_broken none = broken
  or_broken (some p) = p

  -- `tao_usd`, on the answer of the feed; a PriceFeedError counts as 0.
  abbrev pub with_usd :
      F → ChainState F → Result Raised F × PriceFeed F → Priced F × PriceFeed F × ChainState F
  with_usd per_alpha chain (ok usd, feed) = (or_broken (with_pool per_alpha usd chain), feed, chain)
  with_usd per_alpha chain (err price_feed_error, feed) =
      (or_broken (with_pool per_alpha (of_ℕ 0) chain), feed, chain)
  with_usd per_alpha chain (err other_error, feed) = (broken, feed, chain)

  abbrev pub with_fallback :
      ChainState F
      → Option (Option (F × F × F)) × PriceFeed F
      → Priced F × PriceFeed F × ChainState F
  with_fallback chain (none, feed) = (broken, feed, chain)
  with_fallback chain (some none, feed) = (no_price, feed, chain)
  with_fallback chain (some (some (per_alpha, usd, alpha)), feed) =
      (or_broken (with_pool per_alpha usd chain), feed, chain)

  abbrev pub with_price :
      Feeds F → Result Raised F × PriceFeed F × ChainState F → Priced F × PriceFeed F × ChainState F
  with_price w (ok per_alpha, feed, chain) =
      with_usd per_alpha chain (tao_usd w.taostats_again w.coingecko_again w.writable_again feed)
  with_price w (err price_feed_error, feed, chain) =
      with_fallback chain (fallback_usd_per_alpha w.payout_again chain feed)
  with_price w (err other_error, feed, chain) = (broken, feed, chain)

  -- From `fetch_published_payout` to `emission_pool_usd`.
  unfoldable pub cycle_rates :
      Feeds F → PriceFeed F → ChainState F → Priced F × PriceFeed F × ChainState F
  cycle_rates w feed chain = with_price w (
      usd_per_alpha w.taostats w.coingecko w.writable w.graph w.pools (seed_payout w.payout feed)
        chain)
