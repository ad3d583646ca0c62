-- ===== src/PriceCard.antt =====
-- validator/price_card.py: the published price card, its validation and the card in force.
-- `epoch` and the time of publication are arguments; the fetch is its outcome, `none` where it raised.
pub mod Envelope
pub mod Parse
pub mod RoundTrip
use kubetee_subnet.Base.{
  ℕ, Bool, true, false, not, ◌&&◌, Option, none, some, List, [], ◌∷◌, ◌++◌, String, string_eq, ◌==◌,
  if◌then◌else◌, is_empty, is_some, or_else, Result, ok, err,
}
use kubetee_subnet.Text.{upper, lower, append}
use kubetee_subnet.Dict.{Dict, lookup, get_or, contains, insert}
use kubetee_subnet.Float.{Float, ◌⊗◌, le, lt, of_ℕ, fmax, fmin}
use kubetee_subnet.Json.{
  Json, null, bool, num, str, obj, Fields, end, field, get, get_default, entries, of_entries,
  as_obj, as_num, as_bool,
}
use kubetee_subnet.GpuCard.{class_names, default_usd_card, default_pricing, positive_num}

-- The CardUnavailableError of `require_card`.
pub data CardError : Type 0 where
  card_unavailable : CardError

-- `if name in switches: switches[name] = value`, for every switch that is given
pub switches_from : Dict String Bool → Dict String Bool → Dict String Bool
switches_from [] switches = switches
switches_from ((key, value) ∷ pricing) switches =
    switches_from pricing
      (if contains (lower key) switches then insert (lower key) value switches else switches)

-- What `parse_price_card` returns: the prices, the floors if there are any, and the switches.
abbrev pub ParsedCard : Type 0 → Type 0
ParsedCard F = Dict String F × Option (Dict String F) × Dict String Bool

-- The same, with where it came from.
abbrev pub ResolvedCard : Type 0 → Type 0
ResolvedCard F = Dict String F × Option (Dict String F) × Dict String Bool × String

module _ {F : Type 0} ⦃f : Float F⦄ where
  abbrev pub card_envelope_min_frac : F
  card_envelope_min_frac = f.lit 8 10

  abbrev pub card_envelope_max_frac : F
  card_envelope_max_frac = f.lit 125 100

  abbrev pub floor_envelope_min_frac : F
  floor_envelope_min_frac = f.lit 5 10

  abbrev pub floor_envelope_max_frac : F
  floor_envelope_max_frac = f.lit 125 100

  -- `{str(k).upper(): float(v) for k, v in prices.items()}`, as JSON
  pub upper_from : Dict String F → Dict String F → Dict String F
  upper_from [] acc = acc
  upper_from ((k, v) ∷ prices) acc = upper_from prices (insert (upper k) v acc)

  abbrev pub numbers : Dict String F → Fields F
  numbers [] = end
  numbers ((k, v) ∷ d) = field k (num v) (numbers d)

  -- `{f"{name}_pricing": value for name, value in switches.items()}`
  abbrev pub switch_fields : Dict String Bool → Dict String (Json F)
  switch_fields [] = []
  switch_fields ((name, value) ∷ switches) =
      (append name "_pricing", bool value) ∷ switch_fields switches

  abbrev pub floor_fields : Dict String F → Dict String (Json F)
  floor_fields [] = []
  floor_fields (e ∷ floors) = ("floors", obj (numbers (upper_from (e ∷ floors) []))) ∷ []

  -- The keys that are written are distinct, so the writes are appended.
  unfoldable pub build_price_card :
      ℕ → F → Dict String F → Dict String F → Dict String Bool → Fields F
  unfolding upper_from switches_from
  build_price_card epoch now usd_per_gpu_hour floors pricing = of_entries (
      ("epoch", num (of_ℕ epoch))
      ∷ ("published_at", num now)
      ∷ ("usd_per_gpu_hour", obj (numbers (upper_from usd_per_gpu_hour [])))
      ∷ ("version", num (of_ℕ 1))
      ∷ (floor_fields floors ++ switch_fields (switches_from pricing default_pricing)))

  -- One pass of the loop of `_floors_from_payload`.
  abbrev pub clamp_floor : F → F → F
  clamp_floor default value =
      fmin (default ⊗ floor_envelope_max_frac) (fmax (default ⊗ floor_envelope_min_frac) value)

  abbrev pub add_floor : String → Option F → Option F → Dict String F → Dict String F
  add_floor klass (some default) (some value) floors =
      if le value (of_ℕ 0) then floors else insert klass (clamp_floor default value) floors
  add_floor klass _ _ floors = floors

  unfoldable pub floors_from : Dict String (Json F) → Dict String F → Dict String F
  floors_from [] floors = floors
  floors_from ((key, value) ∷ raw) floors =
      floors_from raw
        (add_floor (upper key) (lookup (upper key) default_usd_card) (as_num value) floors)

  abbrev pub floors_or_none : Dict String F → Option (Dict String F)
  floors_or_none [] = none
  floors_or_none (e ∷ d) = some (e ∷ d)

  -- The end of `_floors_from_payload`, on the object under "floors" where there is one.
  unfoldable pub floors_of_raw : Option (Fields F) → Option (Dict String F)
  unfolding floors_from
  floors_of_raw none = none
  floors_of_raw (some raw) = floors_or_none (floors_from (entries raw) [])

  -- `_floors_from_payload`
  unfoldable pub floors_from_payload : Fields F → Option (Dict String F)
  unfolding floors_of_raw
  floors_from_payload payload = floors_of_raw (as_obj (get "floors" payload))

  unfoldable pub pricing_from : Fields F → Dict String Bool → Dict String Bool
  pricing_from payload [] = []
  pricing_from payload ((name, default) ∷ switches) =
      (name, or_else (as_bool (get (append name "_pricing") payload)) default)
      ∷ pricing_from payload switches

  -- `_pricing_from_payload`
  unfoldable pub pricing_from_payload : Fields F → Dict String Bool
  unfolding pricing_from
  pricing_from_payload payload = pricing_from payload default_pricing

  -- One pass of the loop of `parse_price_card`; `none` is its early return of None.
  unfoldable pub add_price : String → Option F → Dict String F → Option (Dict String F)
  add_price klass none out = none
  add_price klass (some value) out =
      if contains klass (default_usd_card {F = F})
      then if le value (of_ℕ 0) then none else some (insert klass value out)
      else none

  unfoldable pub prices_from : Dict String (Json F) → Dict String F → Option (Dict String F)
  prices_from [] out = some out
  prices_from ((key, value) ∷ card) out = elim (add_price (upper key) (as_num value) out) [
    | none ↦ none
    | some out' ↦ prices_from card out'
  ]

  -- `value == 1`: `True` equals 1 too.
  abbrev pub is_one : Json F → Bool
  is_one (num x) = le x (of_ℕ 1) && le (of_ℕ 1) x
  is_one (bool b) = b
  is_one _ = false

  -- The end of `parse_price_card`, on what the loop over the prices gave.
  abbrev pub with_prices : Fields F → Option (Dict String F) → Option (ParsedCard F)
  with_prices payload none = none
  with_prices payload (some []) = none
  with_prices payload (some (e ∷ out)) =
      some (e ∷ out, floors_from_payload payload, pricing_from_payload payload)

  abbrev pub with_card : Fields F → Option (Fields F) → Option (ParsedCard F)
  with_card payload none = none
  with_card payload (some card) = with_prices payload (prices_from (entries card) [])

  unfoldable pub parse_price_card : Json F → Option (ParsedCard F)
  parse_price_card (obj payload) =
      if is_one (get "version" payload)
      then with_card payload (as_obj (get "usd_per_gpu_hour" payload))
      else none
  parse_price_card payload = none

  -- One class of `clamp_to_envelope`.
  abbrev pub clamp_price : F → F → F
  clamp_price default proposed =
      fmin (default ⊗ card_envelope_max_frac) (fmax (default ⊗ card_envelope_min_frac) proposed)

  unfoldable pub clamp_from : Dict String F → Dict String F → Dict String F
  clamp_from published [] = []
  clamp_from published ((klass, default) ∷ defaults) =
      (klass, clamp_price default (get_or klass published default)) ∷ clamp_from published defaults

  unfoldable pub clamp_to_envelope : Dict String F → Dict String F
  unfolding clamp_from
  clamp_to_envelope published = clamp_from published default_usd_card

  -- The fallback of `resolve_card`: `[]` stands for a card that is None or empty.
  abbrev pub cached_or_default : ParsedCard F → ResolvedCard F
  cached_or_default ([], floors, pricing) = (default_usd_card, none, default_pricing, "default")
  cached_or_default (e ∷ card, floors, pricing) =
      (e ∷ card, floors_or_none (or_else floors []), pricing, "cache")

  -- What `resolve_card` returns, on the published card where it was fetched and parsed.
  abbrev pub card_in_force : Option (ParsedCard F) → ParsedCard F → ResolvedCard F
  card_in_force none fallback = cached_or_default fallback
  card_in_force (some (card, floors, pricing)) fallback =
      (clamp_to_envelope card, floors, pricing, "published")

  -- `fetched` is `none` where there is no fetcher or it raised.
  unfoldable pub resolve_card : Option (Json F) → ParsedCard F → ResolvedCard F
  resolve_card none fallback = card_in_force none fallback
  resolve_card (some payload) fallback = card_in_force (parse_price_card payload) fallback

unfoldable pub require_card : String → Bool → Result CardError (Unit {0})
require_card card_source is_first_cycle =
    if is_first_cycle && card_source == "default" then err card_unavailable else ok tt
