-- ===== src/GpuCard.antt =====
-- The constants of validator/targon_payout_feed.py that every pricing module reads, and the helpers
-- that those modules share: keys in upper case, prices that are positive.
use kubetee_subnet.Base.{
  Bool, true, false, Option, none, some, List, [], ◌∷◌, String, string_eq, if◌then◌else◌,
}
use kubetee_subnet.Text.{upper}
use kubetee_subnet.Dict.{Dict, insert}
use kubetee_subnet.Float.{Float, lt, of_ℕ}
use kubetee_subnet.Json.{Json, as_num}

abbrev pub default_pricing : Dict String Bool
default_pricing = ("targon", true) ∷ ("lium", false) ∷ []

-- The keys of `DEFAULT_USD_CARD`, in its order.
abbrev pub class_names : List String
class_names = "H100" ∷ "H200" ∷ "B200" ∷ "B300" ∷ "RTX6000" ∷ []

module _ {F : Type 0} ⦃f : Float F⦄ where
  abbrev pub default_usd_card : Dict String F
  default_usd_card =
      ("H100", f.lit 400 100)
      ∷ ("H200", f.lit 550 100)
      ∷ ("B200", f.lit 800 100)
      ∷ ("B300", f.lit 1000 100)
      ∷ ("RTX6000", f.lit 250 100)
      ∷ []

  abbrev pub default_floor_frac : F
  default_floor_frac = f.lit 75 100

  abbrev pub if_positive : Option F → Option F
  if_positive none = none
  if_positive (some x) = if lt (of_ℕ 0) x then some x else none

  -- `float(value)` where `isinstance(value, (int, float)) and float(value) > 0`
  abbrev pub positive_num : Json F → Option F
  positive_num v = if_positive (as_num v)

  abbrev pub keep_price : String → Option F → Dict String F → Dict String F
  keep_price klass none acc = acc
  keep_price klass (some x) acc = insert klass x acc

  -- `{str(k).upper(): float(v) for k, v in items if v is a positive number}`
  unfoldable pub positive_prices : Dict String (Json F) → Dict String F → Dict String F
  positive_prices [] acc = acc
  positive_prices ((k, v) ∷ items) acc =
      positive_prices items (keep_price (upper k) (positive_num v) acc)
