-- ===== src/Settings/Loads.antt =====
-- With which environments validator/config.py loads a configuration.
use kubetee_subnet.Base.{
  ℤ, pos, ◌≡◌, refl, ◌↔◌, ◌⊎◌, true, false, Option, some, String, string_eq, ◌==◌, ok, >>=-ok,
}
use kubetee_subnet.Text.{lower}
use kubetee_subnet.Float.{Float, of_ℕ}
use kubetee_subnet.Json.{Json}
use kubetee_subnet.Settings.{
  Environ, Config, raw_of, require, optional, get_bool, require_int, get_int, get_float,
  parse_usd_card, load_config,
}
use kubetee_subnet.Settings.Values.{
  Loads, IsThere, IsBlankOr, is_boolean, require-IsThere, bool_of-is_boolean, require_int-Loads,
  get_int-Loads, get_float-Loads, IsUsdCard, parse_usd_card-Loads,
}

module _ {F : Type 0} ⦃f : Float F⦄ where
  module _ (parse_int : String → Option ℤ) (loads : String → Option (Json F)) (env : Environ) where
    -- What `load_config` asks of the environment.
    pub record IsLoadable : Type 0 where
      pub netuid_set : IsThere env "SUBNET_NETUID"
      pub netuid : (n : ℤ) × (parse_int (raw_of env "SUBNET_NETUID") ≡ some n)
      pub hotkey_seed : IsThere env "VALIDATOR_HOTKEY_SEED"
      pub owner_uid :
          IsBlankOr (raw_of env "KUBETEE_OWNER_UID") (parse_int (raw_of env "KUBETEE_OWNER_UID"))
      pub rancher_url : IsThere env "RANCHER_URL"
      pub cycle_seconds :
          IsBlankOr
            (raw_of env "KUBETEE_CYCLE_SECONDS")
            (parse_int (raw_of env "KUBETEE_CYCLE_SECONDS"))
      pub window_hours :
          IsBlankOr
            (raw_of env "KUBETEE_WINDOW_HOURS")
            (f.parse (raw_of env "KUBETEE_WINDOW_HOURS"))
      pub taostats_api_key : IsThere env "TAOSTATS_API_KEY"
      pub usd_prices :
          ((optional env "KUBETEE_GPU_USD_PRICES" "" == "") ≡ true)
          ⊎ IsUsdCard (loads (optional env "KUBETEE_GPU_USD_PRICES" ""))
      pub usd_floors :
          ((optional env "KUBETEE_GPU_USD_FLOOR_PRICES" "" == "") ≡ true)
          ⊎ IsUsdCard (loads (optional env "KUBETEE_GPU_USD_FLOOR_PRICES" ""))
      pub emission :
          IsBlankOr
            (raw_of env "KUBETEE_EMISSION_USD_PER_HOUR")
            (f.parse (raw_of env "KUBETEE_EMISSION_USD_PER_HOUR"))
      pub skip_rancher : is_boolean (lower (raw_of env "KUBETEE_SKIP_RANCHER")) ≡ true
      pub metrics_port :
          IsBlankOr
            (raw_of env "KUBETEE_METRICS_PORT")
            (parse_int (raw_of env "KUBETEE_METRICS_PORT"))

    loaded : (c : Config F) → load_config parse_int loads env ≡ ok c → IsLoadable
    unfolding load_config get_bool
    loaded c h =
        let (a1, e1, h1) = >>=-ok (require_int env parse_int "SUBNET_NETUID") _ c h in
        let (a2, e2, h2) = >>=-ok (require env "VALIDATOR_HOTKEY_SEED") _ c h1 in
        let (a3, e3, h3) = >>=-ok (get_int env parse_int "KUBETEE_OWNER_UID" _) _ c h2 in
        let (a4, e4, h4) = >>=-ok (require env "RANCHER_URL") _ c h3 in
        let (a5, e5, h5) = >>=-ok (get_int env parse_int "KUBETEE_CYCLE_SECONDS" _) _ c h4 in
        let (a6, e6, h6) = >>=-ok (get_float env "KUBETEE_WINDOW_HOURS" _) _ c h5 in
        let (a7, e7, h7) = >>=-ok (require env "TAOSTATS_API_KEY") _ c h6 in
        let (a8, e8, h8) = >>=-ok (parse_usd_card loads _ "KUBETEE_GPU_USD_PRICES") _ c h7 in
        let (a9, e9, h9) = >>=-ok (parse_usd_card loads _ "KUBETEE_GPU_USD_FLOOR_PRICES") _ c h8 in
        let (a10, e10, h10) = >>=-ok (get_float env "KUBETEE_EMISSION_USD_PER_HOUR" _) _ c h9 in
        let (a11, e11, h11) = >>=-ok (get_bool env "KUBETEE_SKIP_RANCHER" _) _ c h10 in
        let (a12, e12, h12) = >>=-ok (get_int env parse_int "KUBETEE_METRICS_PORT" _) _ c h11 in
        let first = (require_int-Loads env parse_int "SUBNET_NETUID").0 (a1, e1) in
        record {
          netuid_set = first.0;
          netuid = first.1;
          hotkey_seed = (require-IsThere env "VALIDATOR_HOTKEY_SEED").0 (a2, e2);
          owner_uid = (get_int-Loads env parse_int "KUBETEE_OWNER_UID" _).0 (a3, e3);
          rancher_url = (require-IsThere env "RANCHER_URL").0 (a4, e4);
          cycle_seconds = (get_int-Loads env parse_int "KUBETEE_CYCLE_SECONDS" _).0 (a5, e5);
          window_hours = (get_float-Loads env "KUBETEE_WINDOW_HOURS" _).0 (a6, e6);
          taostats_api_key = (require-IsThere env "TAOSTATS_API_KEY").0 (a7, e7);
          usd_prices = (parse_usd_card-Loads loads _ _).0 (a8, e8);
          usd_floors = (parse_usd_card-Loads loads _ _).0 (a9, e9);
          emission = (get_float-Loads env "KUBETEE_EMISSION_USD_PER_HOUR" _).0 (a10, e10);
          skip_rancher =
              (bool_of-is_boolean "KUBETEE_SKIP_RANCHER" false
                  (lower (raw_of env "KUBETEE_SKIP_RANCHER"))).0
                (a11, e11);
          metrics_port = (get_int-Loads env parse_int "KUBETEE_METRICS_PORT" _).0 (a12, e12);
        }

    load : IsLoadable → Loads (load_config parse_int loads env)
    unfolding load_config get_bool
    load x =
        let (a1, e1) =
          (require_int-Loads env parse_int "SUBNET_NETUID").1 (x.netuid_set, x.netuid) in
        let (a2, e2) = (require-IsThere env "VALIDATOR_HOTKEY_SEED").1 x.hotkey_seed in
        let (a3, e3) = (get_int-Loads env parse_int "KUBETEE_OWNER_UID" (pos 0)).1 x.owner_uid in
        let (a4, e4) = (require-IsThere env "RANCHER_URL").1 x.rancher_url in
        let (a5, e5) =
          (get_int-Loads env parse_int "KUBETEE_CYCLE_SECONDS" (pos 360)).1 x.cycle_seconds in
        let (a6, e6) = (get_float-Loads env "KUBETEE_WINDOW_HOURS" (of_ℕ 1)).1 x.window_hours in
        let (a7, e7) = (require-IsThere env "TAOSTATS_API_KEY").1 x.taostats_api_key in
        let (a8, e8) =
          (parse_usd_card-Loads loads (optional env "KUBETEE_GPU_USD_PRICES" "")
              "KUBETEE_GPU_USD_PRICES").1
            x.usd_prices in
        let (a9, e9) =
          (parse_usd_card-Loads loads (optional env "KUBETEE_GPU_USD_FLOOR_PRICES" "")
              "KUBETEE_GPU_USD_FLOOR_PRICES").1
            x.usd_floors in
        let (a10, e10) =
          (get_float-Loads env "KUBETEE_EMISSION_USD_PER_HOUR" (of_ℕ 0)).1 x.emission in
        let (a11, e11) =
          (bool_of-is_boolean "KUBETEE_SKIP_RANCHER" false
              (lower (raw_of env "KUBETEE_SKIP_RANCHER"))).1
            x.skip_rancher in
        let (a12, e12) =
          (get_int-Loads env parse_int "KUBETEE_METRICS_PORT" (pos 9100)).1 x.metrics_port in
        rw (e1, e2, e3, e4, e5, e6, e7, e8, e9, e10, e11, e12) (_, refl)

    -- The configuration loads exactly where the four required variables are set and the subnet's id is
    -- an integer, every other number is blank or readable, the switch is blank or one of the eight
    -- words, and each of the two price maps is blank or a JSON object of numbers.
    pub load_config-IsLoadable : Loads (load_config parse_int loads env) ↔ IsLoadable
    load_config-IsLoadable = ((λ h. loaded h.0 h.1), load)
