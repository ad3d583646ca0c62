-- ===== src/PriceFeed/Memory.antt =====
-- What the feed of validator/price_feed.py remembers: over any run of its operations, and over a restart.
use kubetee_subnet.Base.{
  ◌≡◌, refl, inl, inr, true, Bool, Option, none, some, Bool-cases, Result, ok, err, string_eq,
}
use kubetee_subnet.Float.{Float, lt, ◌≺◌, of_ℕ}
use kubetee_subnet.Float.Order.{HasNoNan}
use kubetee_subnet.PriceFeed.Positive.{
  IsPositive, taostats_usd-IsPositive, tao_usd_from_coingecko-IsPositive,
}
use kubetee_subnet.Json.{Json}
use kubetee_subnet.PriceFeed.{
  Raised, price_feed_error, other_error, Response, PriceFeed, get_json, taostats_usd,
  tao_usd_from_coingecko, after_coingecko, after_taostats, load_tao_usd_cache, save_tao_usd_cache,
  new_feed, seed_tao_usd, seed_if, seed_from_published, tao_usd_from_published, remember, tao_usd,
}

module _ {F : Type 0} ⦃f : Float F⦄ where
  -- A positive price that was remembered, and written, is the one that a restarted feed has.
  pub new_feed-remember :
      (value : F) (feed : PriceFeed F)
      → of_ℕ 0 ≺ value
      → new_feed (remember true value feed).cache ≡ remember true value feed
  unfolding new_feed remember load_tao_usd_cache save_tao_usd_cache
  new_feed-remember value feed h = rw h refl

  -- A feed that has a price above 0.
  abbrev pub IsPrimed : PriceFeed F → Type 0
  IsPrimed feed = (value : F) × (feed.last_tao_usd ≡ some value) × (of_ℕ 0 ≺ value)

  -- One operation on the feed after another.
  pub data Uses : PriceFeed F → PriceFeed F → Type 0 where
    unused : {feed : PriceFeed F} → Uses feed feed
    seeded :
        {start feed : PriceFeed F} (value : F)
        → Uses start feed
        → Uses start (seed_tao_usd value feed)
    seeded_from :
        {start feed : PriceFeed F} (published : Json F)
        → Uses start feed
        → Uses start (seed_from_published published feed)
    asked :
        {start feed : PriceFeed F} (taostats coingecko : Response F) (writable : Bool)
        → Uses start feed
        → Uses start (tao_usd taostats coingecko writable feed).1

  -- A price above 0, or an exception that is no PriceFeedError.
  abbrev pub IsServed : Result Raised F → Type 0
  IsServed (ok value) = of_ℕ 0 ≺ value
  IsServed (err price_feed_error) = ⊥
  IsServed (err other_error) = Unit

  seed_tao_usd-IsPrimed :
      (value : F) (feed : PriceFeed F) → IsPrimed feed → IsPrimed (seed_tao_usd value feed)
  unfolding seed_tao_usd
  seed_tao_usd-IsPrimed value feed p = elim (Bool-cases (lt (of_ℕ 0) value)) [
    | inl positive ↦ rw positive (value, refl, positive)
    | inr other ↦ rw other p
  ]

  seed_if-IsPrimed : (o : Option F) (feed : PriceFeed F) → IsPrimed feed → IsPrimed (seed_if o feed)
  seed_if-IsPrimed none feed p = p
  seed_if-IsPrimed (some value) feed p = seed_tao_usd-IsPrimed value feed p

  after_coingecko-IsPrimed :
      (writable : Bool) (b : Result Raised F) (feed : PriceFeed F)
      → IsPositive b
      → IsPrimed feed
      → (let (result, feed') = after_coingecko writable b feed in IsServed result × IsPrimed feed')
  unfolding remember
  after_coingecko-IsPrimed writable (ok value) feed h p = (h, (value, refl, h))
  after_coingecko-IsPrimed writable (err price_feed_error) feed h (value, e, positive) =
      rw (e, positive) (positive, (value, refl, positive))
  after_coingecko-IsPrimed writable (err other_error) feed h p = (tt, p)

  after_taostats-IsPrimed :
      (writable : Bool) (a b : Result Raised F) (feed : PriceFeed F)
      → IsPositive a
      → IsPositive b
      → IsPrimed feed
      → (let (result, feed') = after_taostats writable a b feed in IsServed result × IsPrimed feed')
  unfolding remember
  after_taostats-IsPrimed writable (ok value) b feed h k p = (h, (value, refl, h))
  after_taostats-IsPrimed writable (err price_feed_error) b feed h k p =
      after_coingecko-IsPrimed writable b feed k p
  after_taostats-IsPrimed writable (err other_error) b feed h k p = (tt, p)

module _ {F : Type 0} ⦃f : Float F⦄ (total : HasNoNan F) where
  tao_usd-IsPrimed :
      (taostats coingecko : Response F) (writable : Bool) (feed : PriceFeed F)
      → IsPrimed feed
      → (let (result, feed') = tao_usd taostats coingecko writable feed in
          IsServed result × IsPrimed feed')
  unfolding tao_usd
  tao_usd-IsPrimed taostats coingecko writable feed p =
      after_taostats-IsPrimed writable (taostats_usd (get_json taostats))
        (tao_usd_from_coingecko coingecko) feed (taostats_usd-IsPositive total (get_json taostats))
        (tao_usd_from_coingecko-IsPositive total coingecko) p

  Uses-IsPrimed : {start feed : PriceFeed F} → Uses start feed → IsPrimed start → IsPrimed feed
  unfolding seed_from_published
  Uses-IsPrimed unused p = p
  Uses-IsPrimed (seeded {feed = feed} value uses) p =
      seed_tao_usd-IsPrimed value feed (Uses-IsPrimed uses p)
  Uses-IsPrimed (seeded_from {feed = feed} published uses) p =
      seed_if-IsPrimed (tao_usd_from_published published) feed (Uses-IsPrimed uses p)
  Uses-IsPrimed (asked {feed = feed} taostats coingecko writable uses) p =
      (tao_usd-IsPrimed taostats coingecko writable feed (Uses-IsPrimed uses p)).1

  -- Where no value is a NaN: from a feed that has a price above 0, whatever is done with it and
  -- whatever the two services answer, `tao_usd` gives a price above 0 or passes on an exception of
  -- theirs that is no PriceFeedError.
  pub tao_usd-IsServed :
      (start feed : PriceFeed F) (taostats coingecko : Response F) (writable : Bool)
      → IsPrimed start
      → Uses start feed
      → IsServed (tao_usd taostats coingecko writable feed).0
  tao_usd-IsServed start feed taostats coingecko writable p uses =
      (tao_usd-IsPrimed taostats coingecko writable feed (Uses-IsPrimed uses p)).0
