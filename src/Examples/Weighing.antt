-- ===== src/Examples/Weighing.antt =====
-- The theorems on scoring, and on the market's prices, at concrete inputs.
use kubetee_subnet.Base.{
  ℕ, String, ◌≡◌, ◌≢◌, refl, true, false, none, some, List, [], ◌∷◌, string_eq, nat_eq, All, ok,
  ◌⊎◌, arith,
}
use kubetee_subnet.Text.{upper, has}
use kubetee_subnet.Dict.{Dict, lookup, values, map_values}
use kubetee_subnet.Float.{sum, of_ℕ, ◌≈◌, ◌⊘◌}
use kubetee_subnet.Float.Rational.{
  Fraction, frac, fraction_float, Fraction-IsOrdered, Fraction-IsExact,
}
use kubetee_subnet.GpuCard.{default_usd_card}
use kubetee_subnet.Scoring.{
  MinerInput, ScoreWeights, earned, is_earning, is_present, usd_from_breakdown, breakdown_from,
  collect, split_pool, compute_weights,
}
use kubetee_subnet.Scoring.Earnings.{Paid, Distinct, compute_weights-Paid}
use kubetee_subnet.Scoring.Weights.{weight_of, weight_of_miner}
use kubetee_subnet.Scoring.Conservation.{weights_to_one}
use kubetee_subnet.Market.{market_price}
use kubetee_subnet.Market.Price.{IsDark, IsMarked, market_price_lem}
use mathlib.Core.Option
use kubetee_subnet.Json.{Json, num, str, arr, obj, nil, cons, Fields, end, field, to_str}
use kubetee_subnet.Market.{class_of_type, class_in, rows_from, per_class_from_rows}
use kubetee_subnet.Market.Frames.{first_frame, parse_market_response}
use kubetee_subnet.Market.Frames.Prices.{IsQuoted, parse_market_response-IsQuoted}

abbrev owner : MinerInput Fraction
owner = record {
  uid = 0;
  hotkey = "5Owner";
  ready = false;
  gpu_class = none;
  gpu_workers = 0;
  gpu_breakdown = [];
  total_qualifying_workers = 0;
  cluster_name = none;
  tenure = frac 1 1;
}

abbrev miner : MinerInput Fraction
miner = record {
  uid = 7;
  hotkey = "5Miner";
  ready = true;
  gpu_class = none;
  gpu_workers = 0;
  gpu_breakdown = ("H200", 8) ∷ [];
  total_qualifying_workers = 8;
  cluster_name = some "oakland";
  tenure = frac 1 1;
}

abbrev miners : List (MinerInput Fraction)
miners = owner ∷ miner ∷ []

abbrev scores : ScoreWeights Fraction
scores = split_pool miners (collect default_usd_card (frac 1 1) miners []) 0 (frac 100 1)

scored : compute_weights miners default_usd_card (frac 1 1) (frac 1 1) 0 (frac 100 1) ≡ ok scores
unfolding compute_weights collect is_earning earned usd_from_breakdown breakdown_from upper
scored = refl

distinct : Distinct miners
unfolding is_present
distinct = (refl, (refl, tt))

weights_to_one_example : sum (values scores.weights) ≈ of_ℕ 1
weights_to_one_example =
    weights_to_one Fraction-IsExact owner (miner ∷ []) default_usd_card (frac 1 1) (frac 1 1) 0
      (frac 100 1) distinct scored

compute_weights-Paid_example :
    All (Paid default_usd_card (frac 1 1) scores.miner_usd) miners
    × ((u : ℕ) → is_present u miners ≡ false → lookup u scores.miner_usd ≡ none)
compute_weights-Paid_example =
    compute_weights-Paid default_usd_card (frac 1 1) miners (frac 1 1) 0 (frac 100 1) distinct
      scored

owner_here : is_present 0 miners ≡ true
unfolding is_present
owner_here = refl

seven : ◌≢◌ {A = ℕ} 7 0
seven h = ground arith

weight_of_miner_example :
    lookup 7 scores.weights
    ≡ Option.map
        (weight_of
          (frac 100 1)
          (sum (values (map_values (λ usd. usd ⊘ frac 100 1) scores.miner_usd))))
        (lookup 7 scores.miner_usd)
weight_of_miner_example =
    weight_of_miner miners default_usd_card (frac 1 1) (frac 1 1) 0 (frac 100 1) 7 owner_here seven
      scored

abbrev lium : Dict String Fraction
lium = ("H200", frac 3 1) ∷ []

abbrev targon : Dict String Fraction
targon = ("H200", frac 7 2) ∷ []

market_price_lem_example :
    ((market_price "H200" (some lium) (some targon) ≡ none)
      × IsDark (some lium) "H200"
      × IsDark (some targon) "H200")
    ⊎ ((price : Fraction) × (market_price "H200" (some lium) (some targon) ≡ some price)
        × IsMarked (some lium) (some targon) "H200" price)
market_price_lem_example = market_price_lem Fraction-IsOrdered "H200" (some lium) (some targon)

-- A reply with one frame of two columns.
abbrev reply : Fields Fraction
reply =
    field "results" (obj (field "A" (obj (field "frames" (arr (cons (obj frame) nil)) end)) end))
      end
  where
    column : String → Json Fraction
    column name = obj (field "name" (str name) end)

    frame : Fields Fraction
    frame =
        field "schema"
          (obj (field "fields" (arr (cons (column "type") (cons (column "median_all") nil))) end))
          (field "data"
            (obj (
              field "values"
                (arr (
                  cons (arr (cons (str "NVIDIA H100") nil))
                    (cons (arr (cons (num (frac 2 1)) nil)) nil)))
                end))
            end)

quoted : parse_market_response reply ≡ ok (("H100", frac 2 1) ∷ [])
unfolding parse_market_response first_frame per_class_from_rows rows_from class_of_type class_in
    to_str upper has
quoted = refl

parse_market_response-IsQuoted_example : IsQuoted (parse_market_response reply)
parse_market_response-IsQuoted_example = parse_market_response-IsQuoted Fraction-IsOrdered reply
