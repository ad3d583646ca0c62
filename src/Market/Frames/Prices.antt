-- ===== src/Market/Frames/Prices.antt =====
-- The prices that validator/market_pricing.py reads from a reply.
use kubetee_subnet.Base.{
  ◌≡◌, refl, inl, inr, true, false, Option, none, some, List, [], ◌∷◌, String, string_eq, ◌==◌, All,
  Bool-cases, Result, ok, err, arith, is_empty,
}
use kubetee_subnet.Dict.{Dict, get_or, insert}
use kubetee_subnet.Float.{Float, le, lt, ◌≺◌, of_ℕ}
use kubetee_subnet.Float.Order.{IsOrdered, lt→le}
use kubetee_subnet.Json.{Json, Fields, get, get_default, str, as_obj, to_float, to_str}
use kubetee_subnet.Rancher.{dict_or_empty, dicts_of}
use kubetee_subnet.Market.{
  class_of_type, first_of_two, raise_to, add_row, rows_from, per_class_from_rows, or_none,
}
use kubetee_subnet.Market.Frames.{
  MarketFeedError, is_good_status, usable_or_error, prices_of_rows, is_unfit, rows_in, after_frame,
  names_of, columns_of, first_frame, frames_or_broken, of_result, of_results, parse_market_response,
}

module _ {F : Type 0} ⦃f : Float F⦄ where
  -- Every price is above 0.
  abbrev pub ArePositive : Dict String F → Type 0
  ArePositive d = All (λ e. of_ℕ 0 ≺ e.1) d

  -- A reply's prices are there, and above 0.
  abbrev pub IsQuoted : Result MarketFeedError (Dict String F) → Type 0
  IsQuoted (ok per_class) = (is_empty per_class ≡ false) × ArePositive per_class
  IsQuoted (err e) = Unit

  insert-ArePositive :
      (k : String) (v : F) (d : Dict String F)
      → of_ℕ 0 ≺ v
      → ArePositive d
      → ArePositive (insert k v d)
  insert-ArePositive k v [] h a = (h, tt)
  insert-ArePositive k v ((j, w) ∷ d) h a = elim (Bool-cases (j == k)) [
    | inl e ↦ rw e (h, a.1)
    | inr e ↦ rw e (a.0, insert-ArePositive k v d h a.1)
  ]

module _ {F : Type 0} ⦃f : Float F⦄ (o : IsOrdered F) where
  above : (a v : F) → lt a v ≡ true → le v (of_ℕ 0) ≡ false → of_ℕ 0 ≺ v
  above a v h k =
      let num = o.le_right a v (lt→le a v h) in
      let zero = o.lit_mono 0 1 0 1 (omega arith) (omega arith) (omega arith) in
      ground (arith, o.le_total (of_ℕ 0) v zero num)

  raise_to-ArePositive :
      (klass : String) (value : Option F) (d : Dict String F)
      → ArePositive d
      → ArePositive (raise_to klass value d)
  raise_to-ArePositive klass none d h = h
  raise_to-ArePositive klass (some v) d h = elim (Bool-cases (le v (of_ℕ 0))) [
    | inl low ↦ rw low h
    | inr high ↦ elim (Bool-cases (lt (get_or klass d (of_ℕ 0)) v)) [
      | inl more ↦ rw (high, more) (insert-ArePositive klass v d (above _ v more high) h)
      | inr less ↦ rw (high, less) h
    ]
  ]

  add_row-ArePositive :
      (row : Fields F) (klass : Option String) (d : Dict String F)
      → ArePositive d
      → ArePositive (add_row row klass d)
  add_row-ArePositive row none d h = h
  add_row-ArePositive row (some klass) d h =
      raise_to-ArePositive klass
        (to_float (first_of_two (get "median_rented" row) (get "median_all" row))) d h

  rows_from-ArePositive :
      (rows : List (Fields F)) (d : Dict String F) → ArePositive d → ArePositive (rows_from rows d)
  unfolding rows_from
  rows_from-ArePositive [] d h = h
  rows_from-ArePositive (row ∷ rows) d h =
      rows_from-ArePositive rows _
        (add_row-ArePositive row (class_of_type (to_str (get_default "type" row (str "")))) d h)

  usable-IsQuoted : (d : Dict String F) → ArePositive d → IsQuoted (usable_or_error (or_none d))
  usable-IsQuoted [] h = tt
  usable-IsQuoted (e ∷ d) h = (refl, h)

  prices_of_rows-IsQuoted : (rows : Option (List (Fields F))) → IsQuoted (prices_of_rows rows)
  unfolding per_class_from_rows
  prices_of_rows-IsQuoted none = tt
  prices_of_rows-IsQuoted (some rows) =
      usable-IsQuoted (rows_from rows []) (rows_from-ArePositive rows [] tt)

  after_frame-IsQuoted :
      (names : Option (List (Json F))) (columns : Option (Option (List (Json F))))
      (rest : Result MarketFeedError (Dict String F))
      → IsQuoted rest
      → IsQuoted (after_frame names columns rest)
  after_frame-IsQuoted none columns rest h = tt
  after_frame-IsQuoted (some names) none rest h = tt
  after_frame-IsQuoted (some names) (some none) rest h = elim (Bool-cases (is_empty names)) [
    | inl e ↦ rw e h
    | inr e ↦ rw e tt
  ]
  after_frame-IsQuoted (some names) (some (some columns)) rest h =
      elim (Bool-cases (is_unfit names columns)) [
        | inl e ↦ rw e h
        | inr e ↦ rw e (prices_of_rows-IsQuoted (rows_in names columns))
      ]

  first_frame-IsQuoted : (frames : List (Fields F)) → IsQuoted (first_frame frames)
  unfolding first_frame
  first_frame-IsQuoted [] = tt
  first_frame-IsQuoted (frame ∷ frames) =
      after_frame-IsQuoted (names_of frame) (columns_of frame) (first_frame frames)
        (first_frame-IsQuoted frames)

  frames_or_broken-IsQuoted : (o : Option (List (Fields F))) → IsQuoted (frames_or_broken o)
  frames_or_broken-IsQuoted none = tt
  frames_or_broken-IsQuoted (some frames) = first_frame-IsQuoted frames

  of_result-IsQuoted : (result : Option (Fields F)) → IsQuoted (of_result result)
  of_result-IsQuoted none = tt
  of_result-IsQuoted (some result) = elim (Bool-cases (is_good_status (get "status" result))) [
    | inl e ↦ rw e (frames_or_broken-IsQuoted (dicts_of (get "frames" result)))
    | inr e ↦ rw e tt
  ]

  of_results-IsQuoted : (results : Option (Fields F)) → IsQuoted (of_results results)
  of_results-IsQuoted none = tt
  of_results-IsQuoted (some results) = of_result-IsQuoted (as_obj (get "A" results))

  -- Whatever the reply holds, reading it raises, or gives prices of which there is at least one and all
  -- are above 0.
  pub parse_market_response-IsQuoted :
      (payload : Fields F) → IsQuoted (parse_market_response payload)
  unfolding parse_market_response
  parse_market_response-IsQuoted payload =
      of_results-IsQuoted (dict_or_empty (get "results" payload))
