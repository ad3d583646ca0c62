-- ===== src/Chain.antt =====
-- validator/chain_state.py: what `ChainState` makes of the SDK's answers. A metagraph is what the code
-- reads of the SDK's object, an attribute that is missing being null; `none` is a raised exception unless
-- said otherwise. The SDK, the keypair and `int` of a float are parameters.
pub mod Pool
use kubetee_subnet.Base.{
  ℕ, suc, ◌+◌, ◌-◌, ℤ, pos, negsuc, Bool, false, ◌||◌, Option, none, some, List, [], ◌∷◌, String,
  string_eq, nat_eq, if◌then◌else◌, or_else, and_then, is_empty,
}
use kubetee_subnet.Dict.{Dict, insert, values}
use kubetee_subnet.Float.{Float, ◌⊗◌, ◌⊘◌, le, lt, of_ℕ, sum}
use kubetee_subnet.Json.{
  Json, bool, num, str, obj, Fields, end, field, get, as_num, to_float, is_truthy, or_json,
}
use kubetee_subnet.Epoch.{Miner}

pub record Neuron (F : Type 0) : Type 0 where
  pub uid : ℕ
  pub hotkey : String
  pub validator_permit : Bool
  -- The amount of the emission, or the emission itself where it has none.
  pub emission : Json F

pub record Graph (F : Type 0) : Type 0 where
  pub neurons : List (Neuron F)
  -- Of the SDK's raw storage.
  pub raw_emission : List (Json F)
  pub raw_alpha_out : Json F
  pub price : Json F
  pub moving_price : Json F
  pub tempo : Json F
  pub blocks_since_last_step : Json F

pub record ChainState (F : Type 0) : Type 0 where
  pub last_metagraph : Option (Graph F)

abbrev pub new_chain : {F : Type 0} → ChainState F
new_chain = record { last_metagraph = none }

-- `max(a - b, 0)`
abbrev pub sub_at_0 : ℤ → ℤ → ℕ
sub_at_0 (pos a) (pos b) = a - b
sub_at_0 (pos a) (negsuc b) = a + suc b
sub_at_0 (negsuc a) (pos b) = 0
sub_at_0 (negsuc a) (negsuc b) = b - a

abbrev pub miners_of : {F : Type 0} → List (Neuron F) → List Miner
miners_of [] = []
miners_of (n ∷ neurons) =
    record { uid = n.uid; hotkey = n.hotkey; is_validator = n.validator_permit } ∷ miners_of neurons

abbrev pub keep_graph :
    {F : Type 0} → Option (Graph F) → ChainState F → Option (List Miner) × ChainState F
keep_graph none chain = (none, chain)
keep_graph (some graph) chain =
    (some (miners_of graph.neurons), record { last_metagraph = some graph })

-- `metagraph`, on the SDK's answer: without a graph it raises, and the last one stays.
unfoldable pub metagraph :
    {F : Type 0} → Option (Graph F) → ChainState F → Option (List Miner) × ChainState F
metagraph answer chain = keep_graph answer chain

-- `isinstance(value, (int, float, str, bool))`
abbrev pub is_scalar : {F : Type 0} → Json F → Bool
is_scalar (bool b) = Bool.true
is_scalar (num x) = Bool.true
is_scalar (str s) = Bool.true
is_scalar _ = false

abbrev pub scalars : {F : Type 0} → Fields F → Fields F
scalars end = end
scalars (field k v fs) = let rest = scalars fs in if is_scalar v then field k v rest else rest

-- `hyperparams`, on the SDK's answer: here `none` is None.
unfoldable pub hyperparams : {F : Type 0} → Option (Json F) → Option (Fields F)
hyperparams (some (obj raw)) = some (scalars raw)
hyperparams _ = none

module _ {F : Type 0} ⦃f : Float F⦄ where
  -- `float(amount) if amount else 0.0`, and 0.0 where `float` raises
  abbrev pub emission_of : Json F → F
  emission_of amount = if is_truthy amount then or_else (to_float amount) (of_ℕ 0) else of_ℕ 0

  abbrev pub neuron_emissions : List (Neuron F) → Dict ℕ F → Dict ℕ F
  neuron_emissions [] out = out
  neuron_emissions (n ∷ neurons) out =
      neuron_emissions neurons (insert n.uid (emission_of n.emission) out)

  -- `float(raw) / 1e9 if raw else 0.0`
  abbrev pub from_rao : Json F → Option F
  from_rao raw =
      if is_truthy raw
      then and_then (to_float raw) (λ x. some (x ⊘ of_ℕ 1_000_000_000))
      else some (of_ℕ 0)

  -- `enumerate(raw_em)`, from `uid` on
  abbrev pub raw_emissions : ℕ → List (Json F) → Option (Dict ℕ F)
  raw_emissions uid [] = some []
  raw_emissions uid (raw ∷ raws) =
      let rest = raw_emissions (suc uid) raws in
      and_then (from_rao raw) (λ x. and_then rest (λ d. some ((uid, x) ∷ d)))

  abbrev pub emissions_of : Option (Graph F) → Option (Dict ℕ F)
  emissions_of none = some []
  emissions_of (some mg) =
      if is_empty mg.neurons
      then raw_emissions 0 mg.raw_emission
      else some (neuron_emissions mg.neurons [])

  unfoldable pub emissions : ChainState F → Option (Dict ℕ F)
  emissions chain = emissions_of chain.last_metagraph

  abbrev pub alpha_out_of : Option (Graph F) → Option F
  alpha_out_of none = some (of_ℕ 0)
  alpha_out_of (some mg) = from_rao mg.raw_alpha_out

  unfoldable pub alpha_out_emission : ChainState F → Option F
  alpha_out_emission chain = alpha_out_of chain.last_metagraph

  -- `float(getattr(mg, name, 0.0) or 0.0)`
  abbrev pub price_of : (Graph F → Json F) → Option (Graph F) → Option F
  price_of read none = some (of_ℕ 0)
  price_of read (some mg) = to_float (or_json (read mg) (num (of_ℕ 0)))

  unfoldable pub moving_price : ChainState F → Option F
  moving_price chain = price_of (λ mg. mg.moving_price) chain.last_metagraph

  unfoldable pub spot_price : ChainState F → Option F
  spot_price chain = price_of (λ mg. mg.price) chain.last_metagraph

  abbrev pub miner_emission_share : F
  miner_emission_share = f.lit 5 10

  -- The pool of an epoch that paid something.
  abbrev pub pool_of : F → F → F → F
  pool_of total_alpha spot tao_usd =
      if le total_alpha (of_ℕ 0) || le spot (of_ℕ 0) || le tao_usd (of_ℕ 0)
      then of_ℕ 1
      else total_alpha ⊗ miner_emission_share ⊗ tao_usd ⊗ spot

  abbrev pub pool_from : ChainState F → F → Dict ℕ F → Option F
  pool_from chain tao_usd [] = some (of_ℕ 1)
  pool_from chain tao_usd (e ∷ ems) =
      and_then (spot_price chain) (λ spot. some (pool_of (sum (values (e ∷ ems))) spot tao_usd))

  unfoldable pub emission_pool_usd : ChainState F → F → Option F
  emission_pool_usd chain tao_usd = and_then (emissions chain) (pool_from chain tao_usd)

  -- `set_weights`, where `accepts` is the SDK's: whether it returns.
  unfoldable pub set_weights : (Dict ℕ F → Bool) → Dict ℕ F → Bool
  set_weights accepts weights = if is_empty weights then false else accepts weights

module _ {F : Type 0} ⦃f : Float F⦄ (int : F → ℤ) where
  abbrev pub limit_of : Option F → Option ℤ
  limit_of none = none
  limit_of (some x) = if lt (of_ℕ 0) x then some (int x) else none

  -- The SDK's own answer, or else the entry of the flat map.
  abbrev pub limit_answer : Option (Json F) → Option (Json F) → Json F
  limit_answer (some value) flat = value
  limit_answer none flat = get "weights_rate_limit" (or_else (hyperparams flat) end)

  unfoldable pub weights_rate_limit : Option (Json F) → Option (Json F) → Option ℤ
  unfolding hyperparams
  weights_rate_limit answer flat = limit_of (as_num (limit_answer answer flat))

  -- The first of the names whose value is a number.
  abbrev pub first_number : List String → Fields F → Option ℤ
  first_number [] hyper = none
  first_number (attr ∷ attrs) hyper =
      let rest = first_number attrs hyper in number_or (as_num (get attr hyper)) rest
    where
      number_or : Option F → Option ℤ → Option ℤ
      number_or none rest = rest
      number_or (some x) rest = some (int x)

  -- The blocks until the next epoch, where the map does not say.
  abbrev pub until_of : ℤ → Option ℤ → Option ℤ → Option ℤ
  until_of tempo since (some until) = some until
  until_of tempo none none = none
  until_of tempo (some since) none = some (pos (sub_at_0 tempo since))

  abbrev pub with_tempo : Option ℤ → Option ℤ → Option ℤ → Option (ℤ × Option ℤ × Option ℤ)
  with_tempo none since until = none
  with_tempo (some tempo) since until = some (tempo, since, until_of tempo since until)

  abbrev pub flat_progress : Option (Fields F) → Option (ℤ × Option ℤ × Option ℤ)
  flat_progress none = none
  flat_progress (some end) = none
  flat_progress (some (field k v fs)) =
      let hyper = field k v fs in
      with_tempo (first_number ("tempo" ∷ "blocks_per_epoch" ∷ "epoch_length" ∷ []) hyper)
        (first_number
          ("blocks_since_last_step" ∷ "blocks_since_last_epoch" ∷ "steps_since_last_epoch" ∷ [])
          hyper)
        (first_number ("blocks_until_next_epoch" ∷ "blocks_until_epoch" ∷ []) hyper)

  -- `int(since) if isinstance(since, (int, float)) else 0`
  abbrev pub since_of : Option F → ℤ
  since_of none = pos 0
  since_of (some x) = int x

  abbrev pub graph_progress : ℤ → ℤ → ℤ × Option ℤ × Option ℤ
  graph_progress tempo since = (tempo, some since, some (pos (sub_at_0 tempo since)))

  abbrev pub progress_or :
      Option F → Json F → Option (ℤ × Option ℤ × Option ℤ) → Option (ℤ × Option ℤ × Option ℤ)
  progress_or none since flat = flat
  progress_or (some tempo) since flat =
      if lt (of_ℕ 0) tempo
      then some (graph_progress (int tempo) (since_of (as_num since)))
      else flat

  abbrev pub progress_of :
      Option (Graph F) → Option (ℤ × Option ℤ × Option ℤ) → Option (ℤ × Option ℤ × Option ℤ)
  progress_of none flat = flat
  progress_of (some mg) flat = progress_or (as_num mg.tempo) mg.blocks_since_last_step flat

  -- `epoch_progress`, where the SDK's flat map is asked only behind the metagraph; here `none` is None.
  unfoldable pub epoch_progress : ChainState F → Option (Json F) → Option (ℤ × Option ℤ × Option ℤ)
  unfolding hyperparams
  epoch_progress chain flat = progress_of chain.last_metagraph (flat_progress (hyperparams flat))
