-- ===== src/Examples/Running.antt =====
-- The theorems on the chain, the token price and whole cycles, at concrete inputs.
use kubetee_subnet.Base.{
  ℕ, ℤ, pos, String, ◌≡◌, ◌++◌, refl, true, false, Option, none, some, [], ◌∷◌, ok, string_eq,
  nat_eq,
}
use kubetee_subnet.Dict.{Dict}
use kubetee_subnet.Float.Rational.{Fraction, frac, fraction_float, Fraction-IsExact}
use kubetee_subnet.Json.{Json, null, num, str, obj, arr, nil, cons, Fields, end, field}
use kubetee_subnet.GpuCard.{default_usd_card}
use kubetee_subnet.Cycle.{reader}
use kubetee_subnet.Epoch.{Answers}
use kubetee_subnet.Epoch.Once.{IsSpaced}
use kubetee_subnet.Scoring.{ScoreWeights, compute_weights}
use kubetee_subnet.Chain.{Graph, ChainState, emission_pool_usd, emissions, spot_price}
use kubetee_subnet.Chain.Pool.{compute_weights-funded}
use kubetee_subnet.PriceFeed.{
  Response, url_error, body, PriceFeed, new_feed, remember, tao_usd, usd_per_alpha,
}
use kubetee_subnet.PriceFeed.Positive.{IsPositive, usd_per_alpha-IsPositive}
use kubetee_subnet.PriceFeed.Memory.{IsServed, unused, asked, new_feed-remember, tao_usd-IsServed}
use kubetee_subnet.PriceFeed.Kept.{IsKept, new_feed-IsKept}
use kubetee_subnet.Rates.{Feeds, cycle_rates}
use kubetee_subnet.Rates.Above.{AreAbove, cycle_rates-AreAbove}
use kubetee_subnet.Run.{CycleConfig, Validator, World, sent_of, new_validator, run_cycle}
use kubetee_subnet.Run.Entitled.{IsJustified, run_cycle-IsJustified}
use kubetee_subnet.Run.Spaced.{launched, ran, run_cycle-IsSpaced}
use kubetee_subnet.PriceFeed.{usd_per_alpha_from_published}
use kubetee_subnet.Rates.{fallback_usd_per_alpha}
use kubetee_subnet.Publish.{payout_payload}
use kubetee_subnet.Publish.Fallback.{fallback_usd_per_alpha-payout_payload}
-- A metagraph of the owner and of the owner's own miner, at a spot price of 1/20.
use kubetee_subnet.Market.{absent}
use kubetee_subnet.TargonFeed.{Tiers}
use kubetee_subnet.PriceCard.{
  ResolvedCard, resolve_card, parse_price_card, require_card, prices_from, add_price,
  floors_from_payload, floors_of_raw, pricing_from_payload, pricing_from,
}
use kubetee_subnet.Cycle.{card_step, resolve_cycle_card, no_card}
use kubetee_subnet.Text.{upper}
use kubetee_subnet.Run.Unpriced.{with_card, run_cycle-unpriced}

abbrev graph : Graph Fraction
graph = record {
  neurons =
      record { uid = 0; hotkey = "5Owner"; validator_permit = true; emission = num (frac 0 1) }
      ∷ record { uid = 7; hotkey = "5Miner"; validator_permit = false; emission = num (frac 100 1) }
      ∷ [];
  raw_emission = [];
  raw_alpha_out = null;
  price = num (frac 1 20);
  moving_price = null;
  tempo = num (frac 360 1);
  blocks_since_last_step = null;
}

abbrev chain : ChainState Fraction
chain = record { last_metagraph = some graph }

-- 100 alpha, half of them the miners', at 300 USD a TAO and 1/20 TAO an alpha.
abbrev pool : Fraction
pool = record { num = 150_000; den = 199 }

pooled : emission_pool_usd chain (frac 300 1) ≡ some pool
unfolding emission_pool_usd emissions spot_price
pooled = refl

compute_weights-funded_example :
    (scores : ScoreWeights Fraction) × (compute_weights [] default_usd_card
        (frac 15 1)
        (frac 1 1)
        0
        pool
      ≡ ok scores)
compute_weights-funded_example =
    compute_weights-funded Fraction-IsExact chain (frac 300 1) pool [] default_usd_card (frac 15 1)
      (frac 1 1) 0 pooled

-- A reply of Taostats with a price, one level down.
abbrev taostats : Response Fraction
taostats =
    body
      (some (obj (field "data" (arr (cons (obj (field "price" (num (frac 300 1)) end)) nil)) end)))

abbrev empty : PriceFeed Fraction
empty = record { last_tao_usd = none; cache = none }

new_feed-remember_example :
    new_feed (remember true (frac 300 1) empty).cache ≡ remember true (frac 300 1) empty
new_feed-remember_example = new_feed-remember (frac 300 1) empty refl

abbrev primed : PriceFeed Fraction
primed = record { last_tao_usd = some (frac 280 1); cache = none }

-- Both services are down.
tao_usd-IsServed_example : IsServed (tao_usd url_error url_error true primed).0
tao_usd-IsServed_example =
    tao_usd-IsServed Fraction-IsExact.le_total primed primed url_error url_error true
      (frac 280 1, refl, refl) unused

new_feed-IsKept_example : IsKept (tao_usd taostats url_error true (new_feed none)).1
new_feed-IsKept_example =
    new_feed-IsKept Fraction-IsExact.le_total none
      (tao_usd taostats url_error true (new_feed none)).1 (asked taostats url_error true unused)

usd_per_alpha-IsPositive_example :
    IsPositive (usd_per_alpha taostats url_error true none url_error empty chain).0
usd_per_alpha-IsPositive_example =
    usd_per_alpha-IsPositive Fraction-IsExact taostats url_error true none url_error empty chain

-- Both services are down in this cycle, and the owner's payout has the prices.
abbrev payout : Fields Fraction
payout = field "tao_usd" (num (frac 290 1)) (field "alpha_to_tao" (num (frac 1 20)) end)

abbrev feeds : Feeds Fraction
feeds = record {
  payout = none;
  taostats = url_error;
  coingecko = url_error;
  writable = true;
  graph = none;
  pools = url_error;
  payout_again = some payout;
  taostats_again = url_error;
  coingecko_again = url_error;
  writable_again = true;
}

cycle_rates-AreAbove_example :
    AreAbove (cycle_rates feeds empty chain).0 × IsKept (cycle_rates feeds empty chain).1
cycle_rates-AreAbove_example = cycle_rates-AreAbove Fraction-IsExact feeds empty chain tt

fallback_usd_per_alpha-payout_payload_example :
    (fallback_usd_per_alpha
        (some (
          payout_payload 4
            (frac 1000 1)
            (("H200", frac 3 1) ∷ [])
            (some (frac 290 1))
            (some (frac 1 20))))
        chain
        empty
      ≡ (
        some (some (frac 290 20, frac 290 1, frac 1 20)),
        record empty { last_tao_usd = some (frac 290 1) },
      ))
    × (usd_per_alpha_from_published (
          obj (
            payout_payload 4
              (frac 1000 1)
              (("H200", frac 3 1) ∷ [])
              (some (frac 290 1))
              (some (frac 1 20))))
        ≡ some (frac 290 20))
fallback_usd_per_alpha-payout_payload_example =
    fallback_usd_per_alpha-payout_payload 4 (frac 1000 1) (("H200", frac 3 1) ∷ []) (frac 290 1)
      (frac 1 20) chain empty refl refl

abbrev ready_condition : Fields Fraction
ready_condition =
    field "type" (str "Ready")
      (field "status" (str "True") (field "lastHeartbeatTime" (str "2026-11-03T10:36:55Z") end))

abbrev gpu_labels : Fields Fraction
gpu_labels =
    field "nvidia.com/gpu.product" (str "NVIDIA-H200")
      (field "nvidia.com/gpu.workload.config" (str "vm-passthrough") end)

abbrev gpu_node : Fields Fraction
gpu_node = field "conditions" (arr (cons (obj ready_condition) nil)) (
    field "labels" (obj gpu_labels)
      (field "runtimeHandlers" (arr (cons (obj (field "name" (str "kata-qemu-tdx") end)) nil)) end))

abbrev cluster : Fields Fraction
cluster =
    field "id" (str "c-1") (field "labels" (obj (field "kubetee.ai/hotkey" (str "5Miner") end)) end)

-- A reader of numbers that reads every text as 8.
abbrev eight : String → Option ℤ
eight text = some (pos 8)

-- A chain that accepts every submission, at block 400.
abbrev answers : Answers (Dict ℕ Fraction)
answers = record {
  tempo = some 360;
  block = some 400;
  weights_rate_limit = some 100;
  accepts = λ w. true;
}

abbrev no_tiers : Tiers Fraction
no_tiers = record { live = none; disk = absent; published = none }

abbrev published_card : Json Fraction
published_card = obj (
    field "version" (num (frac 1 1))
      (field "usd_per_gpu_hour" (obj (field "H200" (num (frac 4 1)) end)) end))

abbrev world : World Fraction
world = record {
  graph = some graph;
  clusters = some (cluster ∷ []);
  list_nodes = λ id. some (gpu_node ∷ []);
  published_card = some published_card;
  tiers = no_tiers;
  tiers_again = no_tiers;
  lium_live = none;
  lium_disk = absent;
  feeds = record feeds { taostats = taostats; taostats_again = taostats };
  clock = record { fromisoformat = λ s. some (frac 100 1); strptime = λ s. none; now = frac 150 1 };
  scoring = answers;
  submission = answers;
}

abbrev config : CycleConfig Fraction
config = record { role = reader; owner_uid = 0; owner_miner_uid = 7; dry_run = false }

abbrev fresh : Validator Fraction
fresh = new_validator none []

-- The owner's own miner is given a weight, although its cluster lacks what eligibility asks for.
run_cycle-IsJustified_example :
    IsJustified eight config world (run_cycle eight config world fresh).0
run_cycle-IsJustified_example = run_cycle-IsJustified eight config world fresh

run_cycle-IsSpaced_example : IsSpaced (sent_of (run_cycle eight config world fresh).0 ++ [])
run_cycle-IsSpaced_example =
    run_cycle-IsSpaced eight config (run_cycle eight config world fresh).1
      (sent_of (run_cycle eight config world fresh).0 ++ []) (ran world (launched none []))

-- Another card, at other prices.
abbrev dearer_card : Json Fraction
dearer_card = obj (
    field "version" (num (frac 1 1))
      (field "usd_per_gpu_hour" (obj (field "H200" (num (frac 6 1)) end)) end))

abbrev adopted : Json Fraction → ResolvedCard Fraction
adopted card = resolve_card (some card) no_card

cheap_step : card_step reader (some published_card) no_card ≡ ok (adopted published_card)
unfolding card_step resolve_cycle_card require_card resolve_card parse_price_card prices_from
    add_price upper
cheap_step = refl

dear_step : card_step reader (some dearer_card) no_card ≡ ok (adopted dearer_card)
unfolding card_step resolve_cycle_card require_card resolve_card parse_price_card prices_from
    add_price upper
dear_step = refl

same_floors : (adopted published_card).1 ≡ (adopted dearer_card).1
unfolding resolve_card parse_price_card prices_from add_price upper floors_from_payload
    floors_of_raw
same_floors = refl

same_switches : (adopted published_card).2 ≡ (adopted dearer_card).2
unfolding resolve_card parse_price_card prices_from add_price upper pricing_from_payload
    pricing_from
same_switches = refl

run_cycle-unpriced_example :
    (run_cycle eight config (with_card eight config world (some published_card)) fresh).0
    ≡ (run_cycle eight config (with_card eight config world (some dearer_card)) fresh).0
unfolding new_validator
run_cycle-unpriced_example =
    run_cycle-unpriced eight config world (some published_card) (some dearer_card)
      (adopted published_card) (adopted dearer_card) same_floors same_switches fresh cheap_step
      dear_step
