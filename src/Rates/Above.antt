-- ===== src/Rates/Above.antt =====
-- The prices of a cycle are above 0, and so is what the feed keeps, in exact arithmetic.
use mathlib.Core.Path.{subst}
use mathlib.Core.Option.{some-injective}
use kubetee_subnet.Base.{
  ◌≡◌, refl, inl, inr, Option, none, some, Option-cases, Bool, Bool-cases, Result, ok, err,
  string_eq, and_then,
}
use kubetee_subnet.Base.Members.{and_then-some}
use kubetee_subnet.Float.{Float, lt, ◌⊗◌, ◌≺◌, of_ℕ}
use kubetee_subnet.Float.Exact.{IsExact}
use kubetee_subnet.Json.{obj, Fields, end, field, get, as_num}
use kubetee_subnet.Chain.{
  Graph, ChainState, emissions, emission_pool_usd, alpha_out_emission, moving_price, spot_price,
}
use kubetee_subnet.Chain.Pool.{emission_pool_usd-positive}
use kubetee_subnet.PriceFeed.{
  Raised, price_feed_error, other_error, Response, PriceFeed, only_above_0, usd_per_alpha,
  after_coingecko, after_taostats, remember, or_error, product_of, times_alpha, alpha_to_tao,
  tao_usd, taostats_usd, get_json, tao_usd_from_coingecko,
}
use kubetee_subnet.PriceFeed.Positive.{
  IsPositive, IsAbove, only_above_0-IsAbove, usd_per_alpha-IsPositive, taostats_usd-IsPositive,
  tao_usd_from_coingecko-IsPositive,
}
use kubetee_subnet.PriceFeed.Kept.{
  IsKept, seed_from_published-IsKept, tao_usd_from_published-IsAbove, tao_usd-IsKept,
  usd_per_alpha-IsKept,
}
use kubetee_subnet.PriceFeed.Memory.{IsPrimed, IsServed, unused, tao_usd-IsServed}
use kubetee_subnet.Rates.{
  Feeds, Priced, no_price, broken, priced, seed_payout, last_or_published, payout_alpha,
  alpha_or_spot, both, fallback_usd_per_alpha, with_pool, or_broken, with_usd, with_fallback,
  with_price, cycle_rates,
}

module _ {F : Type 0} ⦃f : Float F⦄ where
  -- The price of an alpha, that of a TAO and the pool are above 0.
  abbrev pub AreAbove : Priced F → Type 0
  AreAbove no_price = Unit
  AreAbove broken = Unit
  AreAbove (priced per_alpha usd pool) = (of_ℕ 0 ≺ per_alpha) × (of_ℕ 0 ≺ usd) × (of_ℕ 0 ≺ pool)

  -- What the fallback returns is the product of two prices above 0.
  abbrev pub IsProduct : Option (Option (F × F × F)) → Type 0
  IsProduct none = Unit
  IsProduct (some none) = Unit
  IsProduct (some (some (per_alpha, usd, alpha))) =
      (per_alpha ≡ usd ⊗ alpha) × (of_ℕ 0 ≺ usd) × (of_ℕ 0 ≺ alpha)

  seed_payout-IsKept :
      (payout : Option (Fields F)) (feed : PriceFeed F)
      → IsKept feed
      → IsKept (seed_payout payout feed)
  seed_payout-IsKept none feed h = h
  seed_payout-IsKept (some end) feed h = h
  seed_payout-IsKept (some (field k v fs)) feed h =
      seed_from_published-IsKept (obj (field k v fs)) feed h

  payout_alpha-IsAbove : (payout : Option (Fields F)) → IsAbove (payout_alpha payout)
  payout_alpha-IsAbove none = tt
  payout_alpha-IsAbove (some fs) = only_above_0-IsAbove (as_num (get "alpha_to_tao" fs))

  both-IsProduct :
      (usd alpha : Option F) → IsAbove usd → IsAbove alpha → IsProduct (some (both usd alpha))
  both-IsProduct none alpha h k = tt
  both-IsProduct (some usd) none h k = tt
  both-IsProduct (some usd) (some alpha) h k = (refl, h, k)

  paired-IsProduct :
      (usd alpha spot : Option F)
      → IsAbove usd
      → IsAbove alpha
      → IsProduct (and_then (alpha_or_spot alpha spot) (λ a. some (both usd a)))
  paired-IsProduct usd (some alpha) spot h k = both-IsProduct usd (some alpha) h k
  paired-IsProduct usd none none h k = tt
  paired-IsProduct usd none (some spot) h k =
      both-IsProduct usd (only_above_0 (some spot)) h (only_above_0-IsAbove (some spot))

  -- Behind a price of an alpha, the feed has a price of a TAO above 0.
  abbrev pub IsBacked : Result Raised F → PriceFeed F → Type 0
  IsBacked (ok per_alpha) feed = IsPrimed feed
  IsBacked (err e) feed = Unit

  after_coingecko-IsBacked :
      (writable : Bool) (b : Result Raised F) (feed : PriceFeed F)
      → IsPositive b
      → (let (result, feed') = after_coingecko writable b feed in IsBacked result feed')
  unfolding remember
  after_coingecko-IsBacked writable (ok value) feed h = (value, refl, h)
  after_coingecko-IsBacked writable (err price_feed_error) feed h = kept feed.last_tao_usd refl
    where
      kept : (o : Option F) → feed.last_tao_usd ≡ o → IsBacked (or_error (only_above_0 o)) feed
      kept none e = tt
      kept (some v) e = elim (Bool-cases (lt (of_ℕ 0) v)) [
        | inl above ↦ rw above (v, e, above)
        | inr low ↦ rw low tt
      ]
  after_coingecko-IsBacked writable (err other_error) feed h = tt

  after_taostats-IsBacked :
      (writable : Bool) (a b : Result Raised F) (feed : PriceFeed F)
      → IsPositive a
      → IsPositive b
      → (let (result, feed') = after_taostats writable a b feed in IsBacked result feed')
  unfolding remember
  after_taostats-IsBacked writable (ok value) b feed h k = (value, refl, h)
  after_taostats-IsBacked writable (err price_feed_error) b feed h k =
      after_coingecko-IsBacked writable b feed k
  after_taostats-IsBacked writable (err other_error) b feed h k = tt

  product_of-IsBacked :
      (usd : F) (alpha : Result Raised F) (feed : PriceFeed F)
      → IsPrimed feed
      → IsBacked (product_of (ok usd) alpha) feed
  product_of-IsBacked usd (ok alpha) feed h = h
  product_of-IsBacked usd (err e) feed h = tt

  times_alpha-IsBacked :
      (read : Result Raised F × PriceFeed F) (answer : Option (Graph F)) (pools : Response F)
      (chain : ChainState F)
      → IsBacked read.0 read.1
      → (let (result, feed', chain') = times_alpha read answer pools chain in IsBacked result feed')
  times_alpha-IsBacked (err e, feed) answer pools chain h = tt
  times_alpha-IsBacked (ok usd, feed) answer pools chain h =
      product_of-IsBacked usd (alpha_to_tao answer pools chain).0 feed h

module _ {F : Type 0} ⦃f : Float F⦄ (x : IsExact F) where
  usd_per_alpha-IsBacked :
      (taostats coingecko : Response F) (writable : Bool) (answer : Option (Graph F))
      (pools : Response F) (feed : PriceFeed F) (chain : ChainState F)
      → (let (result, feed', chain') =
            usd_per_alpha taostats coingecko writable answer pools feed chain in
          IsBacked result feed')
  unfolding usd_per_alpha tao_usd
  usd_per_alpha-IsBacked taostats coingecko writable answer pools feed chain =
      times_alpha-IsBacked (tao_usd taostats coingecko writable feed) answer pools chain (
        after_taostats-IsBacked writable (taostats_usd (get_json taostats))
          (tao_usd_from_coingecko coingecko) feed
          (taostats_usd-IsPositive x.le_total (get_json taostats))
          (tao_usd_from_coingecko-IsPositive x.le_total coingecko))

  last_or_published-IsAbove :
      (last : Option F) (payout : Option (Fields F))
      → IsAbove last
      → IsAbove (last_or_published last payout)
  last_or_published-IsAbove (some last) payout h = h
  last_or_published-IsAbove none none h = tt
  last_or_published-IsAbove none (some end) h = tt
  last_or_published-IsAbove none (some (field k v fs)) h =
      tao_usd_from_published-IsAbove x.le_total (obj (field k v fs))

  fallback_usd_per_alpha-IsProduct :
      (payout : Option (Fields F)) (chain : ChainState F) (feed : PriceFeed F)
      → IsKept feed
      → IsProduct (fallback_usd_per_alpha payout chain feed).0
        × IsKept (fallback_usd_per_alpha payout chain feed).1
  unfolding fallback_usd_per_alpha
  fallback_usd_per_alpha-IsProduct payout chain feed h =
      let kept = seed_payout-IsKept payout feed h in
      (
        paired-IsProduct (last_or_published (seed_payout payout feed).last_tao_usd payout)
            (payout_alpha payout) (spot_price chain) (last_or_published-IsAbove _ payout kept)
            (payout_alpha-IsAbove payout),
        kept,
      )

  with_pool-AreAbove :
      (per_alpha usd : F) (chain : ChainState F)
      → of_ℕ 0 ≺ per_alpha
      → of_ℕ 0 ≺ usd
      → AreAbove (or_broken (with_pool per_alpha usd chain))
  with_pool-AreAbove per_alpha usd chain h g = elim (Option-cases (with_pool per_alpha usd chain)) [
    | inl e ↦ rw e tt
    | inr (p, e) ↦
        let (ems, q1, e1) = and_then-some (emissions chain) _ p e in
        let (pool, q2, e2) = and_then-some (emission_pool_usd chain usd) _ p e1 in
        let (out, q3, e3) = and_then-some (alpha_out_emission chain) _ p e2 in
        let (moving, q4, e4) = and_then-some (moving_price chain) _ p e3 in
        rw e (
          subst AreAbove (some-injective _ p e4)
            (h, g, emission_pool_usd-positive x chain usd pool q2))
  ]

  -- What a stage of the cycle hands on.
  abbrev IsFine : Priced F × PriceFeed F × ChainState F → Type 0
  IsFine r = AreAbove r.0 × IsKept r.1

  with_usd-IsFine :
      (per_alpha : F) (chain : ChainState F) (read : Result Raised F × PriceFeed F)
      → of_ℕ 0 ≺ per_alpha
      → IsServed read.0
      → IsKept read.1
      → IsFine (with_usd per_alpha chain read)
  with_usd-IsFine per_alpha chain (ok usd, feed) h g k =
      (with_pool-AreAbove per_alpha usd chain h g, k)
  with_usd-IsFine per_alpha chain (err price_feed_error, feed) h g k = absurd g
  with_usd-IsFine per_alpha chain (err other_error, feed) h g k = (tt, k)

  with_fallback-IsFine :
      (chain : ChainState F) (read : Option (Option (F × F × F)) × PriceFeed F)
      → IsProduct read.0
      → IsKept read.1
      → IsFine (with_fallback chain read)
  with_fallback-IsFine chain (none, feed) h k = (tt, k)
  with_fallback-IsFine chain (some none, feed) h k = (tt, k)
  with_fallback-IsFine chain (some (some (per_alpha, usd, alpha)), feed) (e, p, q) k =
      (with_pool-AreAbove per_alpha usd chain (rw e (x.mul_pos usd alpha p q)) p, k)

  with_price-IsFine :
      (w : Feeds F) (read : Result Raised F × PriceFeed F × ChainState F)
      → IsPositive read.0
      → IsBacked read.0 read.1
      → IsKept read.1
      → IsFine (with_price w read)
  with_price-IsFine w (ok per_alpha, feed, chain) h b k =
      with_usd-IsFine per_alpha chain _ h
        (tao_usd-IsServed x.le_total feed feed w.taostats_again w.coingecko_again w.writable_again b
          unused)
        (tao_usd-IsKept x.le_total w.taostats_again w.coingecko_again w.writable_again feed k)
  with_price-IsFine w (err price_feed_error, feed, chain) h b k =
      let fine = fallback_usd_per_alpha-IsProduct w.payout_again chain feed k in
      with_fallback-IsFine chain (fallback_usd_per_alpha w.payout_again chain feed) fine.0 fine.1
  with_price-IsFine w (err other_error, feed, chain) h b k = (tt, k)

  -- In exact arithmetic, where the last price of the feed, if any, is above 0: the prices of an alpha
  -- and of a TAO that a cycle goes on with are above 0, from the services or from the owner's last
  -- payout, and so is the pool, and the branch that counts a TAO as 0 is never taken; and the last price that the feed has afterwards is above 0.
  pub cycle_rates-AreAbove :
      (w : Feeds F) (feed : PriceFeed F) (chain : ChainState F)
      → IsKept feed
      → AreAbove (cycle_rates w feed chain).0 × IsKept (cycle_rates w feed chain).1
  unfolding cycle_rates
  cycle_rates-AreAbove w feed chain h =
      let seeded = seed_payout w.payout feed in
      with_price-IsFine w
        (usd_per_alpha w.taostats w.coingecko w.writable w.graph w.pools seeded chain)
        (usd_per_alpha-IsPositive x w.taostats w.coingecko w.writable w.graph w.pools seeded chain)
        (usd_per_alpha-IsBacked w.taostats w.coingecko w.writable w.graph w.pools seeded chain)
        (usd_per_alpha-IsKept x.le_total w.taostats w.coingecko w.writable w.graph w.pools seeded
          chain (seed_payout-IsKept w.payout feed h))
