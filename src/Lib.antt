-- ===== src/Lib.antt =====
-- The off-chain validator of a GPU subnet: validator/ of this repository, in Python. Once per cycle it reads
-- the metagraph and the clusters, judges which miners are ready, prices their GPUs, splits the epoch's
-- emission between them and submits the weights; the owner's validator also serves a read-only proxy.
--
-- The parts and their modules:
--   Base, Float, Dict, Text, Json: what the program uses of Python. A float is an interface, Float, with
--     its rounding left open; the laws that a theorem needs are hypotheses, Float.Order (the order, and
--     products with literals near 1) or Float.Exact (exact arithmetic), and Float.Rational is an instance
--     that has both. A dict is the list of its entries in order. Json is what json.loads returns.
--   Scoring: validator/miner_scoring.py. compute_weights is split at its loop (collect), at the branch in
--     which nobody earns (unearned) and at the pro-rata step and the recycling (pro_rata, recycle).
--   GpuCard, TargonSnapshot, TargonFeed, Market: validator/targon_payout_feed.py and
--     validator/market_pricing.py. A fetch is its outcome: none where it raised; reading a cache file is a
--     CacheFile, with an outcome for each exception. The feed object is a record that operations return, and
--     effective_card resolves the supply-side prices itself. Market.Frames reads the reply of a market query.
--   PriceCard: validator/price_card.py, from build_price_card to require_card.
--   Rancher: the labels of validator/rancher_client.py. Quantity, Freshness, Readiness and Verdict:
--     validator/infrastructure_validation.py, in the order in which validate_miner uses them. A reason is a
--     value of the type Reason. Code that raises returns none.
--   Fleet: _miner_gpu_breakdown and _miner_gpu_posture of validator/validator.py.
--   Cycle: _resolve_card, the publisher's floors and switches and the check of the card in run_cycle, of
--     validator/validator.py.
--   Epoch: _pad_to_metagraph and _set_weights_once_per_epoch of validator/validator.py, as a step on the
--     two fields that it keeps; Epoch.Once.Lifetime is every sequence of calls.
--   Chain: validator/chain_state.py. The state is the metagraph that was read last; the SDK's answers are
--     arguments.
--   Extract, PriceFeed: validator/price_feed.py. Extract is _extract_first; PriceFeed has the sources in their
--     order and the state, which is the last price and the cache file. PriceFeed.Memory.Uses is every
--     sequence of operations.
--   Rates, Inputs: two parts of run_cycle in validator/validator.py, the prices of a cycle with
--     _fallback_usd_per_alpha, and the loop over the miners.
--   Run: run_cycle itself, as a function from what the services answer (World) and the validator's state
--     to an outcome and the state afterwards; Run.Spaced.Cycles is run_forever. It calls the other parts
--     in the source's order: Chain, the evidence, Cycle, TargonFeed, Rates, Inputs, Scoring, Epoch.
--   Settings: validator/config.py, over an environment that is a function.
--   Publish: _publish_payout of validator/validator.py. Dashboard: the snapshot of run_cycle and
--     build_dashboard_json of validator/dashboard.py. Store: validator/hippius_store.py, a PUT being the
--     request that is sent.
--   Flags: validator/scripts/set_pricing_flags.py, from its parsed arguments to the card that it writes.
--   Proxy, Version: validator/rancher_proxy.py and validator/version.py. A handled request is its reply
--     and the upstream calls that were made for it.
--   Client: _get_all_pages and the signed headers of validator/rancher_client.py; Client.Served sends its
--     requests to Proxy. The loop runs on fuel, the number of requests; as many as the server has pages are
--     enough (Client.Pages).
--   Examples: the theorems at concrete inputs, and tests.
--
-- All loops but the client's are structural recursion on the list they run over, without fuel. Integers
-- are Python's, without a bound: counts, uids and blocks are natural numbers, and a difference that
-- Python compares is written as a sum.
--
-- Parameters: datetime.fromisoformat and strptime (Freshness.Clock), int of a text and of a float,
-- json.loads, bytes.fromhex, the sr25519 check, SHA-256 and HMAC (Store.Crypto), the URL parser and encoder, the
-- chain's answers and the upstream client. Text is ASCII.
--
-- Not modelled: HTTP and TLS, the chain SDK and the derivation of the keypair, metrics, logs, the HTML of
-- the dashboard, the start-up in main, and the smoke scripts, which are input and output round the modelled
-- parts.
pub mod Base
pub mod Float
pub mod Dict
pub mod Text
pub mod Json
pub mod Scoring
pub mod GpuCard
pub mod Market
pub mod TargonSnapshot
pub mod TargonFeed
pub mod PriceCard
pub mod Epoch
pub mod Rancher
pub mod Quantity
pub mod Freshness
pub mod Readiness
pub mod Verdict
pub mod Fleet
pub mod Version
pub mod Proxy
pub mod Cycle
pub mod Client
pub mod Chain
pub mod Extract
pub mod PriceFeed
pub mod Rates
pub mod Inputs
pub mod Run
pub mod Settings
pub mod Publish
pub mod Store
pub mod Dashboard
pub mod Flags
pub mod Examples
