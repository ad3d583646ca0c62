-- ===== src/Extract.antt =====
-- `_extract_first` of validator/price_feed.py: the first number under one of the keys, in a dict before
-- what is nested in it.
use kubetee_subnet.Base.{true, false, Option, none, some, List, [], ◌∷◌, String, string_eq}
use kubetee_subnet.Dict.{Dict, lookup}
use kubetee_subnet.Float.{Float, of_ℕ}
use kubetee_subnet.Json.{Json, bool, num, str, arr, obj, Items, nil, cons, Fields, end, field}

-- `a if a is not None else b`
abbrev pub first_some : {A : Type 0} → Option A → Option A → Option A
first_some none b = b
first_some (some a) b = some a

abbrev pub price_keys : List String
price_keys = "price" ∷ "usd" ∷ "rate" ∷ []

-- What there is under a key that may be missing.
abbrev pub reading_of : {A : Type 0} → Option (Option A) → Option A
reading_of none = none
reading_of (some reading) = reading

-- The loop over the keys, on what each value of the dict reads as; `rest` is what comes behind it.
abbrev pub scan : {A : Type 0} → List String → Dict String (Option A) → Option A → Option A
scan [] readings rest = rest
scan (key ∷ keys) readings rest =
    let later = scan keys readings rest in first_some (reading_of (lookup key readings)) later

unfoldable mutual
  pub extract_first : {F : Type 0} ⦃f : Float F⦄ → Json F → List String → Option F
  extract_first ⦃f⦄ (obj fs) keys = scan keys (readings fs) (extract_values fs keys)
  extract_first ⦃f⦄ (arr xs) keys = extract_items xs keys
  extract_first ⦃f⦄ _ keys = none

  -- The loop over the dict's values.
  pub extract_values : {F : Type 0} ⦃f : Float F⦄ → Fields F → List String → Option F
  extract_values ⦃f⦄ end keys = none
  extract_values ⦃f⦄ (field k v fs) keys =
      first_some (extract_first v keys) (extract_values fs keys)

  pub extract_items : {F : Type 0} ⦃f : Float F⦄ → Items F → List String → Option F
  extract_items ⦃f⦄ nil keys = none
  extract_items ⦃f⦄ (cons x xs) keys = first_some (extract_first x keys) (extract_items xs keys)

  -- What the value under one of the keys reads as.
  pub reading : {F : Type 0} ⦃f : Float F⦄ → Json F → Option F
  reading ⦃f⦄ (num x) = some x
  reading ⦃f⦄ (bool true) = some (of_ℕ 1)
  reading ⦃f⦄ (bool false) = some (of_ℕ 0)
  reading ⦃f⦄ (str s) = f.parse s
  reading ⦃f⦄ (obj fs) = scan price_keys (readings fs) (extract_values fs price_keys)
  reading ⦃f⦄ _ = none

  pub readings : {F : Type 0} ⦃f : Float F⦄ → Fields F → Dict String (Option F)
  readings ⦃f⦄ end = []
  readings ⦃f⦄ (field k v fs) = (k, reading v) ∷ readings fs
