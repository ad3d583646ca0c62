-- ===== src/PriceFeed/Positive.antt =====
-- The prices of validator/price_feed.py are above 0, where no value is a NaN: a NaN passes the tests.
use kubetee_subnet.Base.{
  inl, inr, Bool, Option, none, some, Bool-cases, Result, ok, err, arith, string_eq, List,
}
use kubetee_subnet.Float.{Float, le, lt, ◌≺◌, of_ℕ}
use kubetee_subnet.Float.Order.{HasNoNan}
use kubetee_subnet.Float.Exact.{IsExact}
use kubetee_subnet.Json.{Json, Fields, get, as_obj, as_num}
use kubetee_subnet.Epoch.{Miner}
use kubetee_subnet.Chain.{Graph, ChainState, metagraph, spot_price}
use kubetee_subnet.Extract.{price_keys, extract_first}
use kubetee_subnet.PriceFeed.{
  Raised, Response, PriceFeed, get_json, checked, usd_of_coin, usd_of_payload, coingecko_usd,
  tao_usd_from_coingecko, taostats_usd, only_above_0, spot_again, spot_or_again, chain_price,
  pool_price, pool_result, price_or_pool, alpha_to_tao, price_feed_error, other_error, or_error,
  after_coingecko, after_taostats, tao_usd, is_zero, product_of, times_alpha, usd_per_alpha,
}

module _ {F : Type 0} ⦃f : Float F⦄ where
  -- A result is above 0.
  abbrev pub IsPositive : Result Raised F → Type 0
  IsPositive (ok value) = of_ℕ 0 ≺ value
  IsPositive (err e) = Unit

  -- A price that may be missing is above 0.
  abbrev pub IsAbove : Option F → Type 0
  IsAbove none = Unit
  IsAbove (some value) = of_ℕ 0 ≺ value

  pub only_above_0-IsAbove : (o : Option F) → IsAbove (only_above_0 o)
  only_above_0-IsAbove none = tt
  only_above_0-IsAbove (some value) = elim (Bool-cases (lt (of_ℕ 0) value)) [
    | inl e ↦ rw e e
    | inr e ↦ rw e tt
  ]

  or_error-IsPositive : (o : Option F) → IsAbove o → IsPositive (or_error o)
  or_error-IsPositive none h = tt
  or_error-IsPositive (some value) h = h

  after_coingecko-IsPositive :
      (writable : Bool) (b : Result Raised F) (feed : PriceFeed F)
      → IsPositive b
      → IsPositive (after_coingecko writable b feed).0
  after_coingecko-IsPositive writable (ok value) feed h = h
  after_coingecko-IsPositive writable (err price_feed_error) feed h =
      or_error-IsPositive (only_above_0 feed.last_tao_usd) (only_above_0-IsAbove feed.last_tao_usd)
  after_coingecko-IsPositive writable (err other_error) feed h = tt

  after_taostats-IsPositive :
      (writable : Bool) (a b : Result Raised F) (feed : PriceFeed F)
      → IsPositive a
      → IsPositive b
      → IsPositive (after_taostats writable a b feed).0
  after_taostats-IsPositive writable (ok value) b feed h k = h
  after_taostats-IsPositive writable (err price_feed_error) b feed h k =
      after_coingecko-IsPositive writable b feed k
  after_taostats-IsPositive writable (err other_error) b feed h k = tt

  -- The price that the chain gives is above 0, at its first reading or its second.
  spot_again-IsAbove : (read : Option (List Miner) × ChainState F) → IsAbove (spot_again read).0
  spot_again-IsAbove (none, chain) = tt
  spot_again-IsAbove (some miners, chain) = only_above_0-IsAbove (spot_price chain)

  spot_or_again-IsAbove :
      (answer : Option (Graph F)) (chain : ChainState F) (spot : Option F)
      → IsAbove (spot_or_again answer chain spot).0
  spot_or_again-IsAbove answer chain none = tt
  spot_or_again-IsAbove answer chain (some price) = elim (Bool-cases (is_zero price)) [
    | inl zero' ↦ rw zero' (spot_again-IsAbove (metagraph answer chain))
    | inr other ↦ rw other (only_above_0-IsAbove (some price))
  ]

module _ {F : Type 0} ⦃f : Float F⦄ (total : HasNoNan F) where
  checked-IsPositive : (o : Option F) → IsPositive (checked o)
  checked-IsPositive none = tt
  checked-IsPositive (some value) = elim (Bool-cases (le value (of_ℕ 0))) [
    | inl low ↦ rw low tt
    | inr high ↦ rw high (ground (arith, total value (of_ℕ 0)))
  ]

  pub taostats_usd-IsPositive : (r : Result Raised (Json F)) → IsPositive (taostats_usd r)
  taostats_usd-IsPositive (err e) = tt
  taostats_usd-IsPositive (ok payload) = checked-IsPositive (extract_first payload price_keys)

  usd_of_coin-IsPositive : (o : Option (Fields F)) → IsPositive (usd_of_coin o)
  usd_of_coin-IsPositive none = tt
  usd_of_coin-IsPositive (some coin) = checked-IsPositive (as_num (get "usd" coin))

  usd_of_payload-IsPositive : (o : Option (Fields F)) → IsPositive (usd_of_payload o)
  usd_of_payload-IsPositive none = tt
  usd_of_payload-IsPositive (some payload) =
      usd_of_coin-IsPositive (as_obj (get "bittensor" payload))

  coingecko_usd-IsPositive : (r : Result Raised (Json F)) → IsPositive (coingecko_usd r)
  coingecko_usd-IsPositive (err e) = tt
  coingecko_usd-IsPositive (ok payload) = usd_of_payload-IsPositive (as_obj payload)

  pub tao_usd_from_coingecko-IsPositive :
      (response : Response F) → IsPositive (tao_usd_from_coingecko response)
  unfolding tao_usd_from_coingecko
  tao_usd_from_coingecko-IsPositive response = coingecko_usd-IsPositive (get_json response)

  pool_result-IsPositive : (r : Result Raised (Json F)) → IsPositive (pool_result r)
  pool_result-IsPositive (err e) = tt
  pool_result-IsPositive (ok payload) = checked-IsPositive (pool_price payload)

  price_or_pool-IsPositive :
      (pools : Response F) (read : Option F × ChainState F)
      → IsAbove read.0
      → IsPositive (price_or_pool pools read).0
  price_or_pool-IsPositive pools (some price, chain) h = h
  price_or_pool-IsPositive pools (none, chain) h = pool_result-IsPositive (get_json pools)

  tao_usd-IsPositive :
      (taostats coingecko : Response F) (writable : Bool) (feed : PriceFeed F)
      → IsPositive (tao_usd taostats coingecko writable feed).0
  unfolding tao_usd
  tao_usd-IsPositive taostats coingecko writable feed =
      after_taostats-IsPositive writable (taostats_usd (get_json taostats))
        (tao_usd_from_coingecko coingecko) feed (taostats_usd-IsPositive (get_json taostats))
        (tao_usd_from_coingecko-IsPositive coingecko)

  alpha_to_tao-IsPositive :
      (answer : Option (Graph F)) (pools : Response F) (chain : ChainState F)
      → IsPositive (alpha_to_tao answer pools chain).0
  unfolding alpha_to_tao chain_price
  alpha_to_tao-IsPositive answer pools chain =
      price_or_pool-IsPositive pools (chain_price answer chain)
        (spot_or_again-IsAbove answer chain (spot_price chain))

module _ {F : Type 0} ⦃f : Float F⦄ (x : IsExact F) where
  product_of-IsPositive :
      (a b : Result Raised F) → IsPositive a → IsPositive b → IsPositive (product_of a b)
  product_of-IsPositive (err e) b h k = tt
  product_of-IsPositive (ok a) (err e) h k = tt
  product_of-IsPositive (ok a) (ok b) h k = x.mul_pos a b h k

  times_alpha-IsPositive :
      (read : Result Raised F × PriceFeed F) (answer : Option (Graph F)) (pools : Response F)
      (chain : ChainState F)
      → IsPositive read.0
      → IsPositive (times_alpha read answer pools chain).0
  times_alpha-IsPositive (err e, feed) answer pools chain h = tt
  times_alpha-IsPositive (ok usd, feed) answer pools chain h =
      product_of-IsPositive (ok usd) (alpha_to_tao answer pools chain).0 h
        (alpha_to_tao-IsPositive x.le_total answer pools chain)

  -- In exact arithmetic the price of one alpha is above 0 wherever `usd_per_alpha` returns one,
  -- whatever the services, the chain and the memory of the feed give.
  pub usd_per_alpha-IsPositive :
      (taostats coingecko : Response F) (writable : Bool) (answer : Option (Graph F))
      (pools : Response F) (feed : PriceFeed F) (chain : ChainState F)
      → IsPositive (usd_per_alpha taostats coingecko writable answer pools feed chain).0
  unfolding usd_per_alpha
  usd_per_alpha-IsPositive taostats coingecko writable answer pools feed chain =
      times_alpha-IsPositive (tao_usd taostats coingecko writable feed) answer pools chain
        (tao_usd-IsPositive x.le_total taostats coingecko writable feed)
