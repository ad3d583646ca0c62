-- ===== src/PriceFeed/Kept.antt =====
-- What the feed of validator/price_feed.py keeps is above 0, where no value is a NaN.
use kubetee_subnet.Base.{
  inl, inr, Bool, Option, none, some, Bool-cases, Result, ok, err, arith, string_eq,
}
use kubetee_subnet.Float.{Float, le, lt, of_ℕ}
use kubetee_subnet.Float.Order.{HasNoNan}
use kubetee_subnet.Json.{Json, Fields, get, as_obj, as_num}
use kubetee_subnet.Chain.{Graph, ChainState}
use kubetee_subnet.PriceFeed.{
  Raised, price_feed_error, other_error, Response, PriceFeed, get_json, taostats_usd,
  tao_usd_from_coingecko, after_coingecko, after_taostats, cached_usd, load_usd, load_tao_usd_cache,
  new_feed, seed_tao_usd, seed_if, seed_from_published, unless_low, published_usd,
  tao_usd_from_published, remember, tao_usd, times_alpha, usd_per_alpha,
}
use kubetee_subnet.PriceFeed.Positive.{
  IsPositive, IsAbove, only_above_0-IsAbove, taostats_usd-IsPositive,
  tao_usd_from_coingecko-IsPositive,
}
use kubetee_subnet.PriceFeed.Memory.{Uses, unused, seeded, seeded_from, asked}

module _ {F : Type 0} ⦃f : Float F⦄ where
  -- The last price of the feed, where there is one, is above 0.
  abbrev pub IsKept : PriceFeed F → Type 0
  IsKept feed = IsAbove feed.last_tao_usd

  cached_usd-IsAbove : (o : Option (Fields F)) → IsAbove (cached_usd o)
  cached_usd-IsAbove none = tt
  cached_usd-IsAbove (some payload) = only_above_0-IsAbove (as_num (get "tao_usd" payload))

  load_usd-IsAbove : (cache : Option (Json F)) → IsAbove (load_usd cache)
  load_usd-IsAbove none = tt
  load_usd-IsAbove (some payload) = cached_usd-IsAbove (as_obj payload)

  start-IsKept : (cache : Option (Json F)) → IsKept (new_feed cache)
  unfolding new_feed load_tao_usd_cache
  start-IsKept cache = load_usd-IsAbove cache

  seed_tao_usd-IsKept :
      (value : F) (feed : PriceFeed F) → IsKept feed → IsKept (seed_tao_usd value feed)
  unfolding seed_tao_usd
  seed_tao_usd-IsKept value feed h = elim (Bool-cases (lt (of_ℕ 0) value)) [
    | inl e ↦ rw e e
    | inr e ↦ rw e h
  ]

  seed_if-IsKept : (o : Option F) (feed : PriceFeed F) → IsKept feed → IsKept (seed_if o feed)
  seed_if-IsKept none feed h = h
  seed_if-IsKept (some value) feed h = seed_tao_usd-IsKept value feed h

  pub seed_from_published-IsKept :
      (published : Json F) (feed : PriceFeed F)
      → IsKept feed
      → IsKept (seed_from_published published feed)
  unfolding seed_from_published
  seed_from_published-IsKept published feed h =
      seed_if-IsKept (tao_usd_from_published published) feed h

  after_coingecko-IsKept :
      (writable : Bool) (b : Result Raised F) (feed : PriceFeed F)
      → IsPositive b
      → IsKept feed
      → IsKept (after_coingecko writable b feed).1
  unfolding remember
  after_coingecko-IsKept writable (ok value) feed k h = k
  after_coingecko-IsKept writable (err price_feed_error) feed k h = h
  after_coingecko-IsKept writable (err other_error) feed k h = h

  after_taostats-IsKept :
      (writable : Bool) (a b : Result Raised F) (feed : PriceFeed F)
      → IsPositive a
      → IsPositive b
      → IsKept feed
      → IsKept (after_taostats writable a b feed).1
  unfolding remember
  after_taostats-IsKept writable (ok value) b feed j k h = j
  after_taostats-IsKept writable (err price_feed_error) b feed j k h =
      after_coingecko-IsKept writable b feed k h
  after_taostats-IsKept writable (err other_error) b feed j k h = h

  times_alpha-IsKept :
      (read : Result Raised F × PriceFeed F) (answer : Option (Graph F)) (pools : Response F)
      (chain : ChainState F)
      → IsKept read.1
      → IsKept (times_alpha read answer pools chain).1
  times_alpha-IsKept (err e, feed) answer pools chain h = h
  times_alpha-IsKept (ok usd, feed) answer pools chain h = h

module _ {F : Type 0} ⦃f : Float F⦄ (total : HasNoNan F) where
  unless_low-IsAbove : (o : Option F) → IsAbove (unless_low o)
  unless_low-IsAbove none = tt
  unless_low-IsAbove (some value) = elim (Bool-cases (le value (of_ℕ 0))) [
    | inl low ↦ rw low tt
    | inr high ↦ rw high (ground (arith, total value (of_ℕ 0)))
  ]

  published_usd-IsAbove : (o : Option (Fields F)) → IsAbove (published_usd o)
  published_usd-IsAbove none = tt
  published_usd-IsAbove (some published) = unless_low-IsAbove (as_num (get "tao_usd" published))

  pub tao_usd_from_published-IsAbove :
      (published : Json F) → IsAbove (tao_usd_from_published published)
  unfolding tao_usd_from_published
  tao_usd_from_published-IsAbove published = published_usd-IsAbove (as_obj published)

  pub tao_usd-IsKept :
      (taostats coingecko : Response F) (writable : Bool) (feed : PriceFeed F)
      → IsKept feed
      → IsKept (tao_usd taostats coingecko writable feed).1
  unfolding tao_usd
  tao_usd-IsKept taostats coingecko writable feed h =
      after_taostats-IsKept writable (taostats_usd (get_json taostats))
        (tao_usd_from_coingecko coingecko) feed (taostats_usd-IsPositive total (get_json taostats))
        (tao_usd_from_coingecko-IsPositive total coingecko) h

  pub usd_per_alpha-IsKept :
      (taostats coingecko : Response F) (writable : Bool) (answer : Option (Graph F))
      (pools : Response F) (feed : PriceFeed F) (chain : ChainState F)
      → IsKept feed
      → IsKept (usd_per_alpha taostats coingecko writable answer pools feed chain).1
  unfolding usd_per_alpha
  usd_per_alpha-IsKept taostats coingecko writable answer pools feed chain h =
      times_alpha-IsKept (tao_usd taostats coingecko writable feed) answer pools chain
        (tao_usd-IsKept taostats coingecko writable feed h)

  Uses-IsKept : {start feed : PriceFeed F} → Uses start feed → IsKept start → IsKept feed
  Uses-IsKept unused h = h
  Uses-IsKept (seeded {feed = feed} value uses) h =
      seed_tao_usd-IsKept value feed (Uses-IsKept uses h)
  Uses-IsKept (seeded_from {feed = feed} published uses) h =
      seed_from_published-IsKept published feed (Uses-IsKept uses h)
  Uses-IsKept (asked {feed = feed} taostats coingecko writable uses) h =
      tao_usd-IsKept taostats coingecko writable feed (Uses-IsKept uses h)

  -- Where no value is a NaN: whatever JSON the cache file held at the start, if it could be read, and
  -- whatever the feed was seeded with and the services answered since, the last price that it knows, if
  -- any, is above 0.
  pub new_feed-IsKept :
      (cache : Option (Json F)) (feed : PriceFeed F) → Uses (new_feed cache) feed → IsKept feed
  new_feed-IsKept cache feed uses = Uses-IsKept uses (start-IsKept cache)
