-- ===== src/Settings.antt =====
-- validator/config.py: the configuration from the environment. `int` of a text and `json.loads` are
-- parameters.
pub mod Values
pub mod Loads
use kubetee_subnet.Base.{
  ℕ, ℤ, pos, Bool, true, false, not, ◌||◌, Option, none, some, [], ◌∷◌, String, string_eq, ◌==◌,
  if◌then◌else◌, or_else, Result, ok, err, ◌>>=◌,
}
use kubetee_subnet.Text.{strip, rstrip, upper, lower, trim_slashes}
use kubetee_subnet.Dict.{Dict, insert}
use kubetee_subnet.Float.{Float, ◌⊗◌, lt, of_ℕ}
use kubetee_subnet.Json.{Json, Fields, end, field, as_obj, to_float}

-- ConfigError, by what it says and the variable's name.
pub data ConfigError : Type 0 where
  missing : String → ConfigError
  not_an_integer : String → ConfigError
  not_a_number : String → ConfigError
  not_a_boolean : String → ConfigError
  not_json : String → ConfigError
  not_an_object : String → ConfigError
  not_numeric : String → String → ConfigError

-- `os.environ`
abbrev pub Environ : Type 0
Environ = String → Option String

pub record Config (F : Type 0) : Type 0 where
  pub netuid : ℤ
  pub network : String
  pub endpoint : String
  pub hotkey_seed : String
  pub owner_uid : ℤ
  pub owner_miner_uid : ℕ
  pub rancher_url : String
  pub rancher_token : String
  pub rancher_ca_file : String
  pub cycle_seconds : ℤ
  pub window_hours : F
  pub taostats_api_key : String
  pub usd_card_override : Dict String F
  pub usd_floor_override : Dict String F
  pub emission_usd_per_hour : F
  pub skip_rancher : Bool
  pub hippius_access_key : String
  pub hippius_secret_key : String
  pub metrics_port : ℤ

abbrev pub default_owner_miner_uid : ℕ
default_owner_miner_uid = 56

-- `_optional(name, default) or default`
abbrev pub or_text : String → String → String
or_text text default = if text == "" then default else text

abbrev pub bool_of : String → Bool → String → Result ConfigError Bool
bool_of name default raw =
    if raw == ""
    then ok default
    else if raw == "1" || raw == "true" || raw == "yes" || raw == "on"
    then ok true
    else if raw == "0" || raw == "false" || raw == "no" || raw == "off"
    then ok false
    else err (not_a_boolean name)

abbrev pub int_or : String → Option ℤ → Result ConfigError ℤ
int_or name none = err (not_an_integer name)
int_or name (some n) = ok n

module _ (env : Environ) where
  -- `os.environ.get(name, "").strip()`
  abbrev pub raw_of : String → String
  raw_of name = strip (or_else (env name) "")

  unfoldable pub require : String → Result ConfigError String
  require name = if raw_of name == "" then err (missing name) else ok (raw_of name)

  unfoldable pub optional : String → String → String
  optional name default = strip (or_else (env name) default)

  unfoldable pub get_bool : String → Bool → Result ConfigError Bool
  get_bool name default = bool_of name default (lower (raw_of name))

  module _ (parse_int : String → Option ℤ) where
    unfoldable pub require_int : String → Result ConfigError ℤ
    require_int name = require name >>= λ raw. int_or name (parse_int raw)

    unfoldable pub get_int : String → ℤ → Result ConfigError ℤ
    get_int name default =
        if raw_of name == "" then ok default else int_or name (parse_int (raw_of name))

module _ {F : Type 0} ⦃f : Float F⦄ where
  abbrev pub number_or : String → Option F → Result ConfigError F
  number_or name none = err (not_a_number name)
  number_or name (some x) = ok x

  unfoldable pub get_float : Environ → String → F → Result ConfigError F
  get_float env name default =
      if raw_of env name == "" then ok default else number_or name (f.parse (raw_of env name))

  abbrev pub keep_usd :
      String → String → Option F → Dict String F → Result ConfigError (Dict String F)
  keep_usd env_name key none card = err (not_numeric env_name key)
  keep_usd env_name key (some x) card = ok (insert (upper key) x card)

  -- The loop of `_parse_usd_card`.
  unfoldable pub usd_card_from :
      String → Fields F → Dict String F → Result ConfigError (Dict String F)
  usd_card_from env_name end card = ok card
  usd_card_from env_name (field key value fs) card =
      keep_usd env_name key (to_float value) card >>= λ card'. usd_card_from env_name fs card'

  abbrev pub usd_card_of_object : String → Option (Fields F) → Result ConfigError (Dict String F)
  usd_card_of_object env_name none = err (not_an_object env_name)
  usd_card_of_object env_name (some fs) = usd_card_from env_name fs []

  abbrev pub usd_card_of_json : String → Option (Json F) → Result ConfigError (Dict String F)
  usd_card_of_json env_name none = err (not_json env_name)
  usd_card_of_json env_name (some parsed) = usd_card_of_object env_name (as_obj parsed)

  unfoldable pub parse_usd_card :
      (String → Option (Json F)) → String → String → Result ConfigError (Dict String F)
  parse_usd_card loads raw env_name =
      if raw == "" then ok [] else usd_card_of_json env_name (loads raw)

  unfoldable pub load_config :
      (String → Option ℤ) → (String → Option (Json F)) → Environ → Result ConfigError (Config F)
  load_config parse_int loads env = do
    netuid ← require_int env parse_int "SUBNET_NETUID"
    hotkey_seed ← require env "VALIDATOR_HOTKEY_SEED"
    owner_uid ← get_int env parse_int "KUBETEE_OWNER_UID" (pos 0)
    rancher_url ← require env "RANCHER_URL"
    cycle_seconds ← get_int env parse_int "KUBETEE_CYCLE_SECONDS" (pos 360)
    window_hours ← get_float env "KUBETEE_WINDOW_HOURS" (of_ℕ 1)
    taostats_api_key ← require env "TAOSTATS_API_KEY"
    usd_card_override ←
        parse_usd_card loads (optional env "KUBETEE_GPU_USD_PRICES" "") "KUBETEE_GPU_USD_PRICES"
    usd_floor_override ←
        parse_usd_card loads (optional env "KUBETEE_GPU_USD_FLOOR_PRICES" "")
          "KUBETEE_GPU_USD_FLOOR_PRICES"
    emission_usd_per_hour ← get_float env "KUBETEE_EMISSION_USD_PER_HOUR" (of_ℕ 0)
    skip_rancher ← get_bool env "KUBETEE_SKIP_RANCHER" false
    metrics_port ← get_int env parse_int "KUBETEE_METRICS_PORT" (pos 9100)
    ok (record {
      netuid = netuid;
      network = or_text (optional env "BT_NETWORK" "finney") "finney";
      endpoint = optional env "SUBTENSOR_ENDPOINT" "";
      hotkey_seed = hotkey_seed;
      owner_uid = owner_uid;
      owner_miner_uid = default_owner_miner_uid;
      rancher_url = trim_slashes rancher_url;
      rancher_token = optional env "RANCHER_BEARER_TOKEN" "";
      rancher_ca_file = optional env "RANCHER_CA_FILE" "";
      cycle_seconds = cycle_seconds;
      window_hours = window_hours;
      taostats_api_key = taostats_api_key;
      usd_card_override = usd_card_override;
      usd_floor_override = usd_floor_override;
      emission_usd_per_hour = emission_usd_per_hour;
      skip_rancher = skip_rancher;
      hippius_access_key = optional env "KUBETEE_HIPPIUS_ACCESS_KEY" "";
      hippius_secret_key = optional env "KUBETEE_HIPPIUS_SECRET_KEY" "";
      metrics_port = metrics_port;
    })

  unfoldable pub is_publisher : Config F → Bool
  is_publisher c = not (c.hippius_secret_key == "")

  unfoldable pub emission_usd_per_epoch : Config F → F → F
  emission_usd_per_epoch c hours =
      c.emission_usd_per_hour ⊗ (if lt (of_ℕ 0) hours then hours else c.window_hours)
