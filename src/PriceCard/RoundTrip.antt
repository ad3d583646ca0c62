-- ===== src/PriceCard/RoundTrip.antt =====
-- What the publisher builds in validator/price_card.py, a reader parses to what was meant.
use mathlib.Core.List.{append_assoc, append-nil}
use mathlib.Core.Path.{subst}
use kubetee_subnet.Base.{
  ℕ, ◌≡◌, refl, Bool, true, false, Option, none, some, [], ◌∷◌, ◌++◌, String, string_eq, ◌==◌,
  arith, inl, inr, Bool-cases, or_else, is_some, ◌∙◌, ap, sym,
}
use kubetee_subnet.Text.{upper, lower}
use kubetee_subnet.Dict.{Dict, lookup, contains, insert}
use kubetee_subnet.Dict.Laws.{insert-append}
use kubetee_subnet.Float.{Float, le, of_ℕ}
use kubetee_subnet.Float.Order.{IsOrdered}
use kubetee_subnet.Json.{num, Json, obj, get, entries, as_obj, as_num}
use kubetee_subnet.GpuCard.{default_usd_card, default_pricing}
use kubetee_subnet.PriceCard.{
  numbers, upper_from, switches_from, build_price_card, add_price, prices_from, is_one,
  parse_price_card, add_floor, clamp_floor, floors_from, floors_of_raw, floors_or_none,
  floors_from_payload, pricing_from_payload, pricing_from,
}

module _ {F : Type 0} ⦃f : Float F⦄ where
  -- Prices that a publisher may write behind those of `before`: known classes in upper case, each
  -- once, none at a price of at most 0.
  abbrev pub IsClean : Dict String F → Dict String F → Type 0
  IsClean before [] = Unit
  IsClean before ((klass, price) ∷ rest) =
      (upper klass ≡ klass)
      × (contains klass (default_usd_card {F = F}) ≡ true)
      × (le price (of_ℕ 0) ≡ false)
      × (lookup klass before ≡ none)
      × IsClean (before ++ (klass, price) ∷ []) rest

  upper_from-append :
      (d before : Dict String F) → IsClean before d → upper_from d before ≡ before ++ d
  unfolding upper_from
  upper_from-append [] before h = rw append-nil
  upper_from-append ((k, v) ∷ d) before h =
      rw (h.0, insert-append k v before h.3)
        (upper_from-append d (before ++ (k, v) ∷ []) h.4 ∙ append_assoc before ((k, v) ∷ []) d)

  add_price-insert :
      (k : String) (v : F) (out : Dict String F)
      → contains k (default_usd_card {F = F}) ≡ true
      → le v (of_ℕ 0) ≡ false
      → add_price k (some v) out ≡ some (insert k v out)
  unfolding add_price
  add_price-insert k v out known positive = rw (known, positive)

  prices_from-step :
      (key : String) (value : Json F) (card : Dict String (Json F)) (out out' : Dict String F)
      → add_price (upper key) (as_num value) out ≡ some out'
      → prices_from ((key, value) ∷ card) out ≡ prices_from card out'
  unfolding prices_from
  prices_from-step key value card out out' h = rw (h, prices_from)

  prices_from-append :
      (d before : Dict String F)
      → IsClean before d
      → prices_from (entries (numbers d)) before ≡ some (before ++ d)
  unfolding prices_from
  prices_from-append [] before h = rw append-nil
  prices_from-append ((k, v) ∷ d) before h =
      prices_from-step k (num v) (entries (numbers d)) before (before ++ (k, v) ∷ []) added
      ∙ prices_from-append d (before ++ (k, v) ∷ []) h.4
      ∙ ap some (append_assoc before ((k, v) ∷ []) d)
    where
      added : add_price (upper k) (some v) before ≡ some (before ++ (k, v) ∷ [])
      added = rw h.0 (add_price-insert k v before h.1 h.2 ∙ ap some (insert-append k v before h.3))

  -- Each floor clamped to the band round its class's default.
  pub clamped : Dict String F → Dict String F
  clamped [] = []
  clamped ((klass, floor) ∷ floors) =
      (klass, clamp_floor (or_else (lookup klass default_usd_card) floor) floor) ∷ clamped floors

  lookup-append_none :
      (k : String) (a b : Dict String F)
      → lookup k (a ++ b) ≡ none
      → (lookup k a ≡ none) × (lookup k b ≡ none)
  lookup-append_none k [] b h = (refl, h)
  lookup-append_none k ((j, v) ∷ a) b h = elim (Bool-cases (j == k)) [
    | inl same ↦ cc (rw same at h)
    | inr other ↦ rw other (lookup-append_none k a b (rw other at h))
  ]

  lookup-append :
      (k : String) (a b : Dict String F)
      → lookup k a ≡ none
      → lookup k b ≡ none
      → lookup k (a ++ b) ≡ none
  lookup-append k [] b h q = q
  lookup-append k ((j, v) ∷ a) b h q = elim (Bool-cases (j == k)) [
    | inl same ↦ cc (rw same at h)
    | inr other ↦ rw other (lookup-append k a b (rw other at h) q)
  ]

  add_floor-known :
      (k : String) (default : Option F) (v : F) (floors : Dict String F)
      → is_some default ≡ true
      → le v (of_ℕ 0) ≡ false
      → add_floor k default (some v) floors ≡ insert k (clamp_floor (or_else default v) v) floors
  add_floor-known k none v floors known positive = cc
  add_floor-known k (some default) v floors known positive = rw positive

  -- The keys that are written so far are those of `before`.
  abbrev Apart : Dict String F → Dict String F → Type 0
  Apart done before = (k : String) → lookup k before ≡ none → lookup k done ≡ none

  Apart-append :
      (k : String) (v entry : F) (before done : Dict String F)
      → Apart done before
      → Apart (done ++ (k, entry) ∷ []) (before ++ (k, v) ∷ [])
  Apart-append k v entry before done apart j h =
      let (old, new) = lookup-append_none j before ((k, v) ∷ []) h in
      lookup-append j done ((k, entry) ∷ []) (apart j old) (ground arith)

  floors_from-append :
      (d before done : Dict String F)
      → IsClean before d
      → Apart done before
      → floors_from (entries (numbers d)) done ≡ done ++ clamped d
  unfolding floors_from clamped
  floors_from-append [] before done h apart = rw append-nil
  floors_from-append ((k, v) ∷ d) before done h apart =
      ap (floors_from (entries (numbers d))) added
      ∙ floors_from-append d (before ++ (k, v) ∷ []) (done ++ (k, entry) ∷ []) h.4
          (Apart-append k v entry before done apart)
      ∙ append_assoc done ((k, entry) ∷ []) (clamped d)
    where
      entry : F
      entry = clamp_floor (or_else (lookup k default_usd_card) v) v

      added :
          add_floor (upper k) (lookup (upper k) default_usd_card) (some v) done
          ≡ done ++ (k, entry) ∷ []
      added =
          subst
            (λ u. add_floor u (lookup u default_usd_card) (some v) done ≡ done ++ (k, entry) ∷ [])
            (sym h.0)
            (add_floor-known k (lookup k default_usd_card) v done h.1 h.2
              ∙ insert-append k entry done (apart k h.3))

-- Whatever is asked for, the switches that are written are those of the two pricing modes.
switches_from_two :
    (pricing : Dict String Bool) (t l : Bool)
    → (t' l' : Bool) × (switches_from pricing (("targon", t) ∷ ("lium", l) ∷ [])
        ≡ ("targon", t') ∷ ("lium", l') ∷ [])
unfolding switches_from
switches_from_two [] t l = (t, l, refl)
switches_from_two ((key, value) ∷ pricing) t l = elim (Bool-cases ("targon" == lower key)) [
  | inl targon ↦ rw targon (switches_from_two pricing value l)
  | inr other ↦ elim (Bool-cases ("lium" == lower key)) [
    | inl lium ↦ rw (other, lium) (switches_from_two pricing t value)
    | inr neither ↦ rw (other, neither) (switches_from_two pricing t l)
  ]
]

module _ {F : Type 0} ⦃f : Float F⦄ (epoch : ℕ) (now : F) (card : Dict String F) where
  floors-build :
      (floors : Dict String F) (pricing : Dict String Bool)
      → IsClean [] floors
      → floors_from_payload (build_price_card epoch now card floors pricing)
        ≡ floors_or_none (clamped floors)
  unfolding floors_from_payload floors_of_raw build_price_card clamped
  floors-build [] pricing h = let (t, l, e) = switches_from_two pricing true false in rw e
  floors-build (x ∷ floors) pricing h =
      rw (upper_from-append (x ∷ floors) [] h)
        (ap floors_or_none (floors_from-append (x ∷ floors) [] [] h (λ k q. q)))

  pricing-build :
      (floors : Dict String F) (pricing : Dict String Bool)
      → pricing_from_payload (build_price_card epoch now card floors pricing)
        ≡ switches_from pricing default_pricing
  unfolding pricing_from_payload pricing_from build_price_card
  pricing-build [] pricing = let (t, l, e) = switches_from_two pricing true false in rw e
  pricing-build (x ∷ floors) pricing = let (t, l, e) = switches_from_two pricing true false in rw e

  prices-build :
      (floors : Dict String F) (pricing : Dict String Bool)
      → IsClean [] card
      → as_obj (get "usd_per_gpu_hour" (build_price_card epoch now card floors pricing))
        ≡ some (numbers card)
  unfolding build_price_card
  prices-build floors pricing h = rw (upper_from-append card [] h)

  version-build :
      IsOrdered F
      → (floors : Dict String F) (pricing : Dict String Bool)
      → is_one (get "version" (build_price_card epoch now card floors pricing)) ≡ true
  unfolding build_price_card
  version-build o floors pricing = rw (o.lit_mono 1 1 1 1 (omega arith) (omega arith) (omega arith))

-- A reader gets back the prices that the publisher wrote, the floors clamped to their bands (none,
-- where none were written) and every switch that was asked for, if the card is not empty and the
-- classes of the card and of the floors are known, in upper case and each listed once, at prices that
-- are not at most 0, and the order of floats is lawful.
pub parse-build :
    {F : Type 0} ⦃f : Float F⦄
    → IsOrdered F
    → (epoch : ℕ) (now : F) (klass : String) (price : F) (card floors : Dict String F)
      (pricing : Dict String Bool)
    → IsClean [] ((klass, price) ∷ card)
    → IsClean [] floors
    → parse_price_card (obj (build_price_card epoch now ((klass, price) ∷ card) floors pricing))
      ≡ some (
        (klass, price) ∷ card,
        floors_or_none (clamped floors),
        switches_from pricing default_pricing,
      )
unfolding parse_price_card
parse-build o epoch now klass price card floors pricing hc hf =
    let all : Dict _ _ = (klass, price) ∷ card in
    rw (
      version-build epoch now all o floors pricing,
      prices-build epoch now all floors pricing hc,
      prices_from-append all [] hc,
      floors-build epoch now all floors pricing hf,
      pricing-build epoch now all floors pricing,
    )
