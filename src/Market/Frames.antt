-- ===== src/Market/Frames.antt =====
-- `parse_market_response` of validator/market_pricing.py: the frames of a Grafana reply.
pub mod Prices
use kubetee_subnet.Base.{
  ◌&&◌, ◌||◌, not, nat_eq, Bool, true, false, Option, none, some, List, [], ◌∷◌, String, string_eq,
  ◌==◌, if◌then◌else◌, and_then, is_empty, length, map, map_option, Result, ok, err,
}
use kubetee_subnet.Dict.{Dict, insert, keys}
use kubetee_subnet.Float.{Float, le, of_ℕ}
use kubetee_subnet.Json.{
  Json, null, bool, num, str, arr, obj, Fields, get, of_entries, entries, elements, as_obj,
  is_truthy,
}
use kubetee_subnet.Rancher.{dict_or_empty, dicts_of}
use kubetee_subnet.Market.{per_class_from_rows, or_none}

-- MarketFeedError, by what it says, or another exception.
pub data MarketFeedError : Type 0 where
  no_query_result : MarketFeedError
  bad_status : MarketFeedError
  no_usable_data : MarketFeedError
  no_data_frame : MarketFeedError
  broken_reply : MarketFeedError

-- The first elements and the rest of each column, where none has run out.
abbrev pub heads : {A : Type 0} → List (List A) → Option (List A × List (List A))
heads [] = some ([], [])
heads ([] ∷ columns) = none
heads ((x ∷ xs) ∷ columns) =
    let rest = heads columns in and_then rest (λ r. some (x ∷ r.0, xs ∷ r.1))

-- `zip(first, *columns)`
abbrev pub zip_columns : {A : Type 0} → List A → List (List A) → List (List A)
zip_columns [] columns = []
zip_columns (x ∷ xs) columns = elim (heads columns) [
  | none ↦ []
  | some r ↦ (x ∷ r.0) ∷ zip_columns xs r.1
]

abbrev pub rows_of : {A : Type 0} → List (List A) → List (List A)
rows_of [] = []
rows_of (first ∷ columns) = zip_columns first columns

-- The letters of a string, as strings.
abbrev pub letters : {F : Type 0} → String → List (Json F)
letters String.[] = []
letters (String.◌∷◌ c s) = str (String.◌∷◌ c "") ∷ letters s

module _ {F : Type 0} ⦃f : Float F⦄ where
  -- What iterating over a value gives: the elements, the letters or the keys; `none` is the TypeError, of
  -- `len` too.
  abbrev pub iterated : Json F → Option (List (Json F))
  iterated (arr xs) = some (elements xs)
  iterated (str s) = some (letters s)
  iterated (obj fs) = some (map str (keys (entries fs)))
  iterated _ = none

  -- `value or []`
  abbrev pub list_or_empty : Json F → Option (List (Json F))
  list_or_empty value = if is_truthy value then iterated value else some []

  -- `status not in (None, 200)` does not hold.
  abbrev pub is_good_status : Json F → Bool
  is_good_status null = true
  is_good_status (num x) = le x (of_ℕ 200) && le (of_ℕ 200) x
  is_good_status _ = false

  -- `(f or {}).get("name")`
  abbrev pub field_name : Json F → Option (Json F)
  field_name value = and_then (dict_or_empty value) (λ fs. some (get "name" fs))

  -- `row[name] = value`, in a dict whose keys that are no texts are never read; a list or a dict cannot
  -- be a key.
  abbrev pub set_cell : Json F → Json F → Dict String (Json F) → Option (Dict String (Json F))
  set_cell (str name) value row = some (insert name value row)
  set_cell (arr xs) value row = none
  set_cell (obj fs) value row = none
  set_cell name value row = some row

  -- `dict(zip(fields, values))`
  abbrev pub row_from :
      List (Json F) → List (Json F) → Dict String (Json F) → Option (Dict String (Json F))
  row_from [] values row = some row
  row_from (name ∷ names) [] row = some row
  row_from (name ∷ names) (value ∷ values) row =
      and_then (set_cell name value row) (λ row'. row_from names values row')

  abbrev pub row_of : List (Json F) → List (Json F) → Option (Fields F)
  row_of names values = and_then (row_from names values []) (λ row. some (of_entries row))

  -- A column, which `zip` iterates over.
  abbrev pub column_of : Json F → Option (List (Json F))
  column_of value = iterated value

  -- The names of a frame's fields and its columns.
  abbrev pub names_of : Fields F → Option (List (Json F))
  names_of frame =
      and_then (dict_or_empty (get "schema" frame))
        (λ schema. and_then (list_or_empty (get "fields" schema)) (map_option field_name))

  -- The columns, whose inner `none` is a value without a length.
  abbrev pub columns_of : Fields F → Option (Option (List (Json F)))
  columns_of frame =
      and_then (dict_or_empty (get "data" frame)) (λ d. some (list_or_empty (get "values" d)))

  abbrev pub rows_in : List (Json F) → List (Json F) → Option (List (Fields F))
  rows_in names columns =
      and_then (map_option column_of columns) (λ cs. map_option (row_of names) (rows_of cs))

  abbrev pub usable_or_error : Option (Dict String F) → Result MarketFeedError (Dict String F)
  usable_or_error none = err no_usable_data
  usable_or_error (some per_class) = ok per_class

  abbrev pub prices_of_rows : Option (List (Fields F)) → Result MarketFeedError (Dict String F)
  prices_of_rows none = err broken_reply
  prices_of_rows (some rows) = usable_or_error (or_none (per_class_from_rows rows))

  -- `not fields or len(columns) != len(fields)`
  abbrev pub is_unfit : List (Json F) → List (Json F) → Bool
  is_unfit names columns = is_empty names || not (length columns == length names)

  -- One pass of the loop over the frames; `rest` is what the later ones give.
  abbrev pub after_frame :
      Option (List (Json F))
      → Option (Option (List (Json F)))
      → Result MarketFeedError (Dict String F)
      → Result MarketFeedError (Dict String F)
  after_frame none columns rest = err broken_reply
  after_frame (some names) none rest = err broken_reply
  after_frame (some names) (some none) rest = if is_empty names then rest else err broken_reply
  after_frame (some names) (some (some columns)) rest =
      if is_unfit names columns then rest else prices_of_rows (rows_in names columns)

  unfoldable pub first_frame : List (Fields F) → Result MarketFeedError (Dict String F)
  first_frame [] = err no_data_frame
  first_frame (frame ∷ frames) =
      let rest = first_frame frames in after_frame (names_of frame) (columns_of frame) rest

  abbrev pub frames_or_broken : Option (List (Fields F)) → Result MarketFeedError (Dict String F)
  frames_or_broken none = err broken_reply
  frames_or_broken (some frames) = first_frame frames

  abbrev pub of_result : Option (Fields F) → Result MarketFeedError (Dict String F)
  of_result none = err no_query_result
  of_result (some result) =
      if is_good_status (get "status" result)
      then frames_or_broken (dicts_of (get "frames" result))
      else err bad_status

  abbrev pub of_results : Option (Fields F) → Result MarketFeedError (Dict String F)
  of_results none = err broken_reply
  of_results (some results) = of_result (as_obj (get "A" results))

  unfoldable pub parse_market_response : Fields F → Result MarketFeedError (Dict String F)
  parse_market_response payload = of_results (dict_or_empty (get "results" payload))
