-- ===== src/Examples/Reading.antt =====
-- The theorems on the configuration and on what is published, at concrete inputs.
use kubetee_subnet.Base.{ℤ, pos, String, string_eq, ◌↔◌, ◌≡◌, Option, some, [], ◌∷◌}
use kubetee_subnet.Dict.{Dict, lookup}
use kubetee_subnet.Float.Rational.{Fraction, frac, fraction_float}
use kubetee_subnet.Json.{Json, Fields, num, obj, end, field}
use kubetee_subnet.Settings.{Environ, load_config}
use kubetee_subnet.Settings.Values.{Loads}
use kubetee_subnet.Settings.Loads.{IsLoadable, load_config-IsLoadable}
use Prim.Native.String.{◌++◌}
use kubetee_subnet.Base.{true, false, none, refl}
use kubetee_subnet.Text.{upper}
use kubetee_subnet.Float.{fmax, ◌⊖◌}
use kubetee_subnet.Base.{List}
use kubetee_subnet.Float.Rational.{Fraction-IsExact, Fraction-RoundsInOrder}
use kubetee_subnet.GpuCard.{default_usd_card}
use kubetee_subnet.Scoring.{MinerInput}
use kubetee_subnet.Dashboard.{Snapshot, entries_for, snapshot, build_dashboard_json}
use kubetee_subnet.Dashboard.Shown.{AreShown, build_dashboard_json-AreShown}
use kubetee_subnet.Store.{Crypto, put}
use kubetee_subnet.Store.Public.{IsPublicPut, put-IsPublicPut}
use kubetee_subnet.Text.{strip, lower}
use kubetee_subnet.Json.{bool}
use kubetee_subnet.PriceCard.{
  parse_price_card, add_price, prices_from, floors_from_payload, floors_of_raw,
  pricing_from_payload, pricing_from,
}
use kubetee_subnet.Flags.{Args, written, parse_flag, flipped, set_flags}
use kubetee_subnet.Flags.Flips.{IsFlipped, set_flags-IsFlipped}

abbrev variables : Dict String String
variables =
    ("SUBNET_NETUID", " 90 ")
    ∷ ("VALIDATOR_HOTKEY_SEED", "0x01")
    ∷ ("RANCHER_URL", "https://rancher.example/")
    ∷ ("TAOSTATS_API_KEY", "key")
    ∷ ("KUBETEE_SKIP_RANCHER", "On")
    ∷ ("KUBETEE_GPU_USD_PRICES", "{}")
    ∷ []

abbrev env : Environ
env name = lookup name variables

-- Readers that read every text as 90, and as an object of one price.
abbrev ninety : String → Option ℤ
ninety text = some (pos 90)

abbrev one_price : String → Option (Json Fraction)
one_price text = some (obj (field "h200" (num (frac 4 1)) end))

load_config-IsLoadable_example :
    Loads (load_config ninety one_price env) ↔ IsLoadable ninety one_price env
load_config-IsLoadable_example = load_config-IsLoadable ninety one_price env

-- A toy in place of SHA-256 and HMAC, on texts.
abbrev toy : Crypto String
toy = record {
  utf8 = λ s. s;
  hex = λ s. s;
  sha256 = λ s. "sha:" ++ s;
  hmac = λ key s. key ++ "|" ++ s;
}

put-IsPublicPut_example : IsPublicPut toy "access" "secret" "20261103" "103655" "payout.json" (
    put toy "access" "secret"
      ("20261103" ++ "T" ++ "103655" ++ "Z")
      "20261103"
      "payout.json"
      "{}"
      "application/json")
put-IsPublicPut_example =
    put-IsPublicPut toy "access" "secret" "20261103" "103655" "payout.json" "{}" "application/json"
      refl

abbrev miner : MinerInput Fraction
miner = record {
  uid = 7;
  hotkey = "5Miner";
  ready = true;
  gpu_class = some "H200";
  gpu_workers = 16;
  gpu_breakdown = ("H200", 16) ∷ ("B200", 8) ∷ [];
  total_qualifying_workers = 24;
  cluster_name = none;
  tenure = frac 1 1;
}

abbrev made : Snapshot Fraction
made = record {
  miner_usd = fraction_float.round (frac 0 1) 2;
  owner_usd = fraction_float.round (fmax (frac 0 1) (frac 200 1 ⊖ frac 0 1)) 2;
  total_pool_usd = fraction_float.round (frac 200 1) 2;
  usd_per_alpha = frac 2 1;
  fleet_gpus = ("H200", 16) ∷ ("B200", 8) ∷ [];
  miners = entries_for default_usd_card (frac 6 5) (frac 2 1) (frac 200 1) (miner ∷ []);
}

abbrev inputs : List (MinerInput Fraction)
inputs = miner ∷ []

snapped : snapshot default_usd_card (frac 6 5) (frac 2 1) (frac 200 1) [] inputs ≡ some made
unfolding snapshot
snapped = refl

build_dashboard_json-AreShown_example :
    AreShown Fraction-IsExact default_usd_card (frac 6 5) inputs (build_dashboard_json made).miners
unfolding upper
build_dashboard_json-AreShown_example =
    build_dashboard_json-AreShown Fraction-IsExact default_usd_card Fraction-RoundsInOrder
      (frac 6 5) refl (frac 2 1) (frac 200 1) [] inputs made ((refl, (refl, (refl, tt)), refl), tt)
      snapped

-- A published card, whose owner switches the market mode on.
abbrev card : Fields Fraction
card = field "epoch" (num (frac 7 1)) (
    field "usd_per_gpu_hour" (obj (field "H200" (num (frac 4 1)) end))
      (field "version" (num (frac 1 1)) (field "published_at" (num (frac 10 1)) end)))

abbrev card_after : Fields Fraction
card_after = field "epoch" (num (frac 7 1)) (
    field "usd_per_gpu_hour" (obj (field "H200" (num (frac 4 1)) end)) (
      field "version" (num (frac 1 1)) (
        field "published_at" (num (frac 20 1))
          (field "targon_pricing" (bool true) (field "lium_pricing" (bool true) end)))))

abbrev lium_on : Args
lium_on = record { targon = none; lium = some "on"; show = false }

wrote : set_flags lium_on "access" "secret" (some card) true (frac 20 1) ≡ written card_after
unfolding set_flags flipped parse_flag parse_price_card prices_from add_price upper strip lower
    floors_from_payload floors_of_raw pricing_from_payload pricing_from
wrote = refl

set_flags-IsFlipped_example : IsFlipped lium_on card card_after
set_flags-IsFlipped_example =
    set_flags-IsFlipped lium_on "access" "secret" card card_after true (frac 20 1) wrote
