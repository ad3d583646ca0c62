-- ===== src/PriceFeed.antt =====
-- validator/price_feed.py: the price of a token from its sources in order, and the last good one that
-- the feed keeps. What a request gave and whether the cache file can be written are arguments.
pub mod Memory
pub mod Kept
pub mod Positive
use kubetee_subnet.Base.{
  ◌&&◌, Bool, true, false, not, Option, none, some, List, [], ◌∷◌, String, string_eq, ◌==◌,
  if◌then◌else◌, Result, ok, err,
}
use kubetee_subnet.Dict.{Dict}
use kubetee_subnet.Float.{Float, ◌⊗◌, ◌⊘◌, le, lt, of_ℕ, fmax}
use kubetee_subnet.Json.{Json, num, obj, Fields, end, field, get, as_obj, as_num}
use kubetee_subnet.Epoch.{Miner}
use kubetee_subnet.Chain.{Graph, ChainState, metagraph, spot_price}
use kubetee_subnet.Extract.{price_keys, extract_first}

-- PriceFeedError, or any other exception.
pub data Raised : Type 0 where
  price_feed_error : Raised
  other_error : Raised

-- What `urlopen` and `read` come to: a URLError, another exception such as a timeout while the body is
-- read, or a body, which `json.loads` reads or finds invalid.
pub data Response (F : Type 0) : Type 0 where
  url_error : Response F
  other_failure : Response F
  body : Option (Json F) → Response F

-- The headers of `_get_json`.
unfoldable pub headers : String → Dict String String
headers api_key =
    ("Accept", "application/json")
    ∷ ("User-Agent", "kubetee-validator/0.1")
    ∷ (if api_key == "" then [] else ("Authorization", api_key) ∷ [])

unfoldable pub get_json : {F : Type 0} → Response F → Result Raised (Json F)
get_json url_error = err price_feed_error
get_json other_failure = err other_error
get_json (body none) = err price_feed_error
get_json (body (some payload)) = ok payload

-- `last_tao_usd` and the content of the cache file, `none` where it cannot be read.
pub record PriceFeed (F : Type 0) : Type 0 where
  pub last_tao_usd : Option F
  pub cache : Option (Json F)

module _ {F : Type 0} ⦃f : Float F⦄ where
  -- The end of `_tao_usd_from_coingecko` and of a source: the value, unless it is `<= 0`.
  abbrev pub checked : Option F → Result Raised F
  checked none = err price_feed_error
  checked (some value) = if le value (of_ℕ 0) then err price_feed_error else ok value

  abbrev pub usd_of_coin : Option (Fields F) → Result Raised F
  usd_of_coin none = err price_feed_error
  usd_of_coin (some coin) = checked (as_num (get "usd" coin))

  abbrev pub usd_of_payload : Option (Fields F) → Result Raised F
  usd_of_payload none = err price_feed_error
  usd_of_payload (some payload) = usd_of_coin (as_obj (get "bittensor" payload))

  abbrev pub coingecko_usd : Result Raised (Json F) → Result Raised F
  coingecko_usd (err e) = err e
  coingecko_usd (ok payload) = usd_of_payload (as_obj payload)

  unfoldable pub tao_usd_from_coingecko : Response F → Result Raised F
  unfolding get_json
  tao_usd_from_coingecko response = coingecko_usd (get_json response)

  -- `value` where it is above 0
  abbrev pub only_above_0 : Option F → Option F
  only_above_0 none = none
  only_above_0 (some value) = if lt (of_ℕ 0) value then some value else none

  abbrev pub cached_usd : Option (Fields F) → Option F
  cached_usd none = none
  cached_usd (some payload) = only_above_0 (as_num (get "tao_usd" payload))

  abbrev pub load_usd : Option (Json F) → Option F
  load_usd none = none
  load_usd (some payload) = cached_usd (as_obj payload)

  -- The content of the file; `none` is an OSError or a JSONDecodeError. Any other exception of reading it
  -- ends the construction of the feed.
  unfoldable pub load_tao_usd_cache : Option (Json F) → Option F
  load_tao_usd_cache cache = load_usd cache

  -- `_save_tao_usd_cache`; a file that cannot be written stays as it is.
  unfoldable pub save_tao_usd_cache : Bool → F → Option (Json F) → Option (Json F)
  save_tao_usd_cache writable tao_usd cache =
      if writable then some (obj (field "tao_usd" (num tao_usd) end)) else cache

  -- `__init__`
  unfoldable pub new_feed : Option (Json F) → PriceFeed F
  new_feed cache = record { last_tao_usd = load_tao_usd_cache cache; cache = cache }

  unfoldable pub seed_tao_usd : F → PriceFeed F → PriceFeed F
  seed_tao_usd tao_usd feed =
      if lt (of_ℕ 0) tao_usd then record feed { last_tao_usd = some tao_usd } else feed

  -- `None` unless it is a number that is not `<= 0`
  abbrev pub unless_low : Option F → Option F
  unless_low none = none
  unless_low (some value) = if le value (of_ℕ 0) then none else some value

  abbrev pub published_usd : Option (Fields F) → Option F
  published_usd none = none
  published_usd (some published) = unless_low (as_num (get "tao_usd" published))

  unfoldable pub tao_usd_from_published : Json F → Option F
  tao_usd_from_published published = published_usd (as_obj published)

  abbrev pub product_or_none : Option F → Option F → Option F
  product_or_none none b = none
  product_or_none (some a) none = none
  product_or_none (some a) (some b) = some (a ⊗ b)

  abbrev pub published_product : Option (Fields F) → Option F
  published_product none = none
  published_product (some published) =
      product_or_none (unless_low (as_num (get "tao_usd" published)))
        (unless_low (as_num (get "alpha_to_tao" published)))

  unfoldable pub usd_per_alpha_from_published : Json F → Option F
  usd_per_alpha_from_published published = published_product (as_obj published)

  abbrev pub seed_if : Option F → PriceFeed F → PriceFeed F
  seed_if none feed = feed
  seed_if (some value) feed = seed_tao_usd value feed

  unfoldable pub seed_from_published : Json F → PriceFeed F → PriceFeed F
  seed_from_published published feed = seed_if (tao_usd_from_published published) feed

  -- `_remember`
  unfoldable pub remember : Bool → F → PriceFeed F → PriceFeed F
  remember writable value feed = record {
    last_tao_usd = some value;
    cache = save_tao_usd_cache writable value feed.cache;
  }

  abbrev pub taostats_usd : Result Raised (Json F) → Result Raised F
  taostats_usd (err e) = err e
  taostats_usd (ok payload) = checked (extract_first payload price_keys)

  abbrev pub or_error : Option F → Result Raised F
  or_error none = err price_feed_error
  or_error (some value) = ok value

  abbrev pub after_coingecko : Bool → Result Raised F → PriceFeed F → Result Raised F × PriceFeed F
  after_coingecko writable (ok value) feed = (ok value, remember writable value feed)
  after_coingecko writable (err price_feed_error) feed =
      (or_error (only_above_0 feed.last_tao_usd), feed)
  after_coingecko writable (err other_error) feed = (err other_error, feed)

  abbrev pub after_taostats :
      Bool → Result Raised F → Result Raised F → PriceFeed F → Result Raised F × PriceFeed F
  after_taostats writable (ok value) coingecko feed = (ok value, remember writable value feed)
  after_taostats writable (err price_feed_error) coingecko feed =
      after_coingecko writable coingecko feed
  after_taostats writable (err other_error) coingecko feed = (err other_error, feed)

  -- `tao_usd`: Taostats, else CoinGecko, else the last good price.
  unfoldable pub tao_usd :
      Response F → Response F → Bool → PriceFeed F → Result Raised F × PriceFeed F
  tao_usd taostats coingecko writable feed =
      after_taostats writable (taostats_usd (get_json taostats)) (tao_usd_from_coingecko coingecko)
        feed

  -- `not value`
  abbrev pub is_zero : F → Bool
  is_zero x = le x (of_ℕ 0) && le (of_ℕ 0) x

  abbrev pub spot_again : Option (List Miner) × ChainState F → Option F × ChainState F
  spot_again (none, chain) = (none, chain)
  spot_again (some miners, chain) = (only_above_0 (spot_price chain), chain)

  abbrev pub spot_or_again : Option (Graph F) → ChainState F → Option F → Option F × ChainState F
  spot_or_again answer chain none = (none, chain)
  spot_or_again answer chain (some price) =
      if is_zero price
      then spot_again (metagraph answer chain)
      else (only_above_0 (some price), chain)

  -- The first half of `alpha_to_tao`, which takes an exception for no price. It reads the metagraph
  -- again where the one it has gives 0.
  unfoldable pub chain_price : Option (Graph F) → ChainState F → Option F × ChainState F
  chain_price answer chain = spot_or_again answer chain (spot_price chain)

  -- `alpha / max(tao, 1e-18)`, where both are there and not 0
  abbrev pub ratio_or : Option F → Option F → Option F → Option F
  ratio_or value none tao = value
  ratio_or value (some alpha) none = value
  ratio_or value (some alpha) (some tao) =
      if not (is_zero alpha) && not (is_zero tao)
      then some (alpha ⊘ fmax tao (f.lit 1 1_000_000_000_000_000_000))
      else value

  abbrev pub pool_price : Json F → Option F
  pool_price payload = price_or (extract_first payload ("price" ∷ []))
    where
      ratio : Option F → Option F
      ratio value =
          ratio_or value (extract_first payload ("alpha_in_pool" ∷ []))
            (extract_first payload ("tao_in_pool" ∷ []))

      price_or : Option F → Option F
      price_or none = ratio none
      price_or (some value) = if le value (of_ℕ 0) then ratio (some value) else some value

  abbrev pub pool_result : Result Raised (Json F) → Result Raised F
  pool_result (err e) = err e
  pool_result (ok payload) = checked (pool_price payload)

  abbrev pub price_or_pool : Response F → Option F × ChainState F → Result Raised F × ChainState F
  price_or_pool pools (some price, chain) = (ok price, chain)
  price_or_pool pools (none, chain) = (pool_result (get_json pools), chain)

  -- `alpha_to_tao`: the chain, else the pool API. A value of 0 is also `<= 0`.
  unfoldable pub alpha_to_tao :
      Option (Graph F) → Response F → ChainState F → Result Raised F × ChainState F
  alpha_to_tao answer pools chain = price_or_pool pools (chain_price answer chain)

  abbrev pub product_of : Result Raised F → Result Raised F → Result Raised F
  product_of (err e) b = err e
  product_of (ok a) (err e) = err e
  product_of (ok a) (ok b) = ok (a ⊗ b)

  abbrev pub times_alpha :
      Result Raised F × PriceFeed F
      → Option (Graph F)
      → Response F
      → ChainState F
      → Result Raised F × PriceFeed F × ChainState F
  times_alpha (err e, feed) answer pools chain = (err e, feed, chain)
  times_alpha (ok usd, feed) answer pools chain =
      let (alpha, chain') = alpha_to_tao answer pools chain in
      (product_of (ok usd) alpha, feed, chain')

  -- `usd_per_alpha`: the second price is asked only behind the first.
  unfoldable pub usd_per_alpha :
      Response F
      → Response F
      → Bool
      → Option (Graph F)
      → Response F
      → PriceFeed F
      → ChainState F
      → Result Raised F × PriceFeed F × ChainState F
  usd_per_alpha taostats coingecko writable answer pools feed chain =
      times_alpha (tao_usd taostats coingecko writable feed) answer pools chain
