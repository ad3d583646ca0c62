-- ===== src/TargonSnapshot.antt =====
-- The snapshot of Targon's payouts, as validator/targon_payout_feed.py reads it once it is fetched.
use kubetee_subnet.Base.{
  Option, none, some, List, [], ◌∷◌, String, string_eq, ◌==◌, if◌then◌else◌, Result, ok, err,
}
use kubetee_subnet.Text.{upper}
use kubetee_subnet.Dict.{Dict, lookup, insert}
use kubetee_subnet.Float.{Float, le, lt, of_ℕ}
use kubetee_subnet.Json.{
  Json, null, str, obj, Fields, Items, get, get_default, elements, as_obj, as_arr, to_float, to_str,
  or_json,
}
use kubetee_subnet.GpuCard.{class_names}
use kubetee_subnet.Market.{class_in, first_of_two}

pub data TargonFeedError : Type 0 where
  unexpected_payload no_compute_rows no_usable_data : TargonFeedError

-- `_gpu_class_of`
unfoldable pub gpu_class_of : String → Option String
gpu_class_of compute_type = class_in class_names (upper compute_type)

module _ {F : Type 0} ⦃f : Float F⦄ where
  -- `prev is None or rate > prev`, and the write.
  abbrev pub keep_highest : String → Option F → Dict String F → Dict String F
  keep_highest klass none per_class = per_class
  keep_highest klass (some rate) per_class =
      if le rate (of_ℕ 0) then per_class else if_higher (lookup klass per_class)
    where
      if_higher : Option F → Dict String F
      if_higher none = insert klass rate per_class
      if_higher (some prev) = if lt prev rate then insert klass rate per_class else per_class

  abbrev pub add_rate : Fields F → Option String → Dict String F → Dict String F
  add_rate row none per_class = per_class
  add_rate row (some klass) per_class =
      keep_highest klass (to_float (first_of_two (get "unitRate" row) (get "maxPrice" row)))
        per_class

  abbrev pub add_compute : Option (Fields F) → Dict String F → Dict String F
  add_compute none per_class = per_class
  add_compute (some row) per_class =
      if to_str (get_default "kind" row (str "gpu")) == "gpu"
      then add_rate row (gpu_class_of (to_str (get_default "key" row (str "")))) per_class
      else per_class

  unfoldable pub snapshot_from : List (Json F) → Dict String F → Dict String F
  snapshot_from [] per_class = per_class
  snapshot_from (row ∷ compute) per_class =
      snapshot_from compute (add_compute (as_obj row) per_class)

  -- `_per_class_from_snapshot`
  unfoldable pub per_class_from_snapshot : List (Json F) → Dict String F
  unfolding snapshot_from
  per_class_from_snapshot compute = snapshot_from compute []

  -- `v.get(key) if isinstance(v, dict) else None`
  abbrev pub get_in : String → Json F → Json F
  get_in key (obj fs) = get key fs
  get_in key v = null

  abbrev pub usable : Dict String F → Result TargonFeedError (Dict String F)
  usable [] = err no_usable_data
  usable (e ∷ d) = ok (e ∷ d)

  abbrev pub of_compute : Option (Items F) → Result TargonFeedError (Dict String F)
  of_compute none = err no_compute_rows
  of_compute (some rows) = usable (per_class_from_snapshot (elements rows))

  abbrev pub of_snapshot : Option (Fields F) → Result TargonFeedError (Dict String F)
  of_snapshot none = err unexpected_payload
  of_snapshot (some fs) = of_compute (as_arr (get "compute" fs))

  -- The part of `fetch_live_per_card_usd` behind the request.
  unfoldable pub parse_snapshot : Json F → Result TargonFeedError (Dict String F)
  parse_snapshot payload =
      let data' = or_json (get_in "data" (get_in "result" payload)) payload in
      of_snapshot (as_obj (or_json (get_in "json" data') data'))
