-- ===== src/Market.antt =====
-- validator/market_pricing.py: the Lium medians per class, and the market price with its markup.
-- Fetching is outside the model.
pub mod Price
pub mod Frames
use kubetee_subnet.Base.{
  Bool, true, false, ◌||◌, Option, none, some, List, [], ◌∷◌, String, string_eq, if◌then◌else◌,
  is_empty, Result, ok, err,
}
use kubetee_subnet.Text.{upper, has}
use kubetee_subnet.Dict.{Dict, lookup, get_or, insert, map_values}
use kubetee_subnet.Float.{Float, ◌⊕◌, ◌⊗◌, le, lt, of_ℕ, fmax}
use kubetee_subnet.Json.{
  Json, null, str, num, obj, Fields, end, field, of_entries, get, get_default, entries, as_obj,
  as_num, to_float, to_str,
}
use kubetee_subnet.GpuCard.{positive_prices}

-- What reading a cache file comes to: an OSError or a JSONDecodeError, any other exception of `open` or
-- `json.load` (bytes that are no UTF-8, an integer of too many digits), or a payload. `overflowing` is a payload
-- whose prices have an integer beyond the range of floats.
pub data CacheFile (F : Type 0) : Type 0 where
  absent : CacheFile F
  undecodable : CacheFile F
  overflowing : CacheFile F
  holds : Json F → CacheFile F

-- The AttributeError of `payload.get` where the payload is no object, the exception of an undecodable
-- file, and the OverflowError of `float(v)`.
pub data CacheError : Type 0 where
  not_an_object : CacheError
  not_decoded : CacheError
  too_large : CacheError

abbrev pub lium_classes : List String
lium_classes = "H100" ∷ "H200" ∷ "B200" ∷ "B300" ∷ []

-- `for klass in classes: if klass in text: return klass`
unfoldable pub class_in : List String → String → Option String
class_in [] text = none
class_in (klass ∷ rest) text = if has text klass then some klass else class_in rest text

-- `_class_of_type`, of a text
unfoldable pub class_of_type : String → Option String
unfolding class_in
class_of_type raw_type =
    let text = upper raw_type in
    if has text "RTX PRO 6000" || has text "RTX 6000"
    then some "RTX6000"
    else class_in lium_classes text

module _ {F : Type 0} ⦃f : Float F⦄ where
  abbrev pub market_markup_frac : F
  market_markup_frac = f.lit 10 100

  -- `row.get(first)`, or `row.get(second)` where that is None
  abbrev pub first_of_two : Json F → Json F → Json F
  first_of_two null b = b
  first_of_two a b = a

  -- The write at the end of the loop of `_per_class_from_rows`.
  abbrev pub raise_to : String → Option F → Dict String F → Dict String F
  raise_to klass none per_class = per_class
  raise_to klass (some value) per_class =
      if le value (of_ℕ 0)
      then per_class
      else if lt (get_or klass per_class (of_ℕ 0)) value
      then insert klass value per_class
      else per_class

  abbrev pub add_row : Fields F → Option String → Dict String F → Dict String F
  add_row row none per_class = per_class
  add_row row (some klass) per_class =
      raise_to klass (to_float (first_of_two (get "median_rented" row) (get "median_all" row)))
        per_class

  unfoldable pub rows_from : List (Fields F) → Dict String F → Dict String F
  rows_from [] per_class = per_class
  rows_from (row ∷ rows) per_class =
      rows_from rows
        (add_row row (class_of_type (to_str (get_default "type" row (str "")))) per_class)

  -- `_per_class_from_rows`
  unfoldable pub per_class_from_rows : List (Fields F) → Dict String F
  unfolding rows_from
  per_class_from_rows rows = rows_from rows []

  -- The end of `load_lium_cache` and of `_load_cache`: `{…} or None`.
  abbrev pub or_none : Dict String F → Option (Dict String F)
  or_none [] = none
  or_none (e ∷ d) = some (e ∷ d)

  abbrev pub cached_prices : Option (Fields F) → Option (Dict String F)
  cached_prices none = none
  cached_prices (some per_card) = or_none (positive_prices (entries per_card) [])

  abbrev pub cache_of_object : Option (Fields F) → Result CacheError (Option (Dict String F))
  cache_of_object none = err not_an_object
  cache_of_object (some fs) = ok (cached_prices (as_obj (get "per_card_usd" fs)))

  -- `load_lium_cache` and `_load_cache`
  unfoldable pub load_cache : CacheFile F → Result CacheError (Option (Dict String F))
  load_cache absent = ok none
  load_cache undecodable = err not_decoded
  load_cache overflowing = err too_large
  load_cache (holds payload) = cache_of_object (as_obj payload)

  -- `save_lium_cache` and `_save_cache`: the file afterwards. A file that cannot be opened stays as it was.
  unfoldable pub save_cache : Bool → Dict String F → CacheFile F → CacheFile F
  save_cache true per_card disk =
      holds (obj (field "per_card_usd" (obj (of_entries (map_values num per_card))) end))
  save_cache false per_card disk = disk

  -- `(feed or {}).get(klass)`, where it is positive
  abbrev pub feed_value : String → Option (Dict String F) → List F → List F
  feed_value klass none rest = rest
  feed_value klass (some feed) rest = of_found (lookup klass feed)
    where
      of_found : Option F → List F
      of_found none = rest
      of_found (some value) = if lt (of_ℕ 0) value then value ∷ rest else rest

  -- `max(values)` of a list that is not empty
  abbrev pub max_of : F → List F → F
  max_of best [] = best
  max_of best (v ∷ values) = max_of (fmax best v) values

  abbrev pub marked_up : List F → Option F
  marked_up [] = none
  marked_up (v ∷ values) = some ((of_ℕ 1 ⊕ market_markup_frac) ⊗ max_of v values)

  unfoldable pub market_price : String → Option (Dict String F) → Option (Dict String F) → Option F
  market_price klass lium targon = marked_up (feed_value klass lium (feed_value klass targon []))
