-- ===== src/TargonFeed/Bounds.antt =====
-- The effective price of validator/targon_payout_feed.py against the floor and the card, in its modes.
use mathlib.Core.Path.{subst}
use kubetee_subnet.Base.{
  ◌≡◌, refl, ap, true, false, Option, none, some, [], ◌∷◌, String, string_eq, All, arith, inl, inr,
  Bool-cases, or_else, Result, ok, err,
}
use kubetee_subnet.Dict.{Dict, lookup, get_or}
use kubetee_subnet.Float.{Float, lt, ◌≼◌, of_ℕ}
use kubetee_subnet.Float.Order.{IsOrdered, lt→le, clamp_bounds, fmin_right, fmax_left}
use kubetee_subnet.Market.{CacheFile, CacheError, load_cache, market_price}
use kubetee_subnet.TargonFeed.{
  TargonPayoutFeed, floor_from, floor_for, clamp_classes, at_least, market_classes,
  market_effective_card, with_cached, effective_from, with_source, effective_resolved, Tiers,
  resolve_in, effective_card,
}

module _ {F : Type 0} ⦃f : Float F⦄ where
  -- Every class of the card, in its order, at no less than its floor.
  abbrev pub AtFloor : TargonPayoutFeed F → Dict String F → Dict String F → Type 0
  AtFloor feed [] [] = Unit
  AtFloor feed ((klass, card_price) ∷ card) ((k, price) ∷ prices) =
      (k ≡ klass) × (floor_for feed klass card_price ≼ price) × AtFloor feed card prices
  AtFloor feed _ _ = ⊥

  -- And at no more than its card price.
  abbrev pub AtMostCard : Dict String F → Dict String F → Type 0
  AtMostCard [] [] = Unit
  AtMostCard ((klass, card_price) ∷ card) ((k, price) ∷ prices) =
      (price ≼ card_price) × AtMostCard card prices
  AtMostCard _ _ = ⊥

  -- Card prices are numbers from 0 on.
  abbrev pub IsPriced : Dict String F → Type 0
  IsPriced card = All (λ e. of_ℕ 0 ≼ e.1) card

module _ {F : Type 0} ⦃f : Float F⦄ (o : IsOrdered F) where
  floor_from-le :
      (manual : Option F) (card_price : F)
      → of_ℕ 0 ≼ card_price
      → floor_from manual card_price ≼ card_price
  floor_from-le none card_price h =
      o.mul_le card_price 75 100 h (omega arith) (omega arith) (omega arith)
  floor_from-le (some manual) card_price h = elim (Bool-cases (lt (of_ℕ 0) manual)) [
    | inl set ↦ rw set (
        fmin_right o manual card_price (o.le_right (of_ℕ 0) manual (lt→le (of_ℕ 0) manual set))
          (o.le_right (of_ℕ 0) card_price h))
    | inr unset ↦ rw unset (o.mul_le card_price 75 100 h (omega arith) (omega arith) (omega arith))
  ]

  pub floor_for-le :
      (feed : TargonPayoutFeed F) (klass : String) (card_price : F)
      → of_ℕ 0 ≼ card_price
      → floor_for feed klass card_price ≼ card_price
  unfolding floor_for
  floor_for-le feed klass card_price h =
      floor_from-le (lookup klass (or_else feed.manual_floors [])) card_price h

  clamp_classes-lem :
      (feed : TargonPayoutFeed F) (resolved card : Dict String F)
      → IsPriced card
      → AtFloor feed card (clamp_classes feed resolved card)
        × AtMostCard card (clamp_classes feed resolved card)
  unfolding clamp_classes
  clamp_classes-lem feed resolved [] h = (tt, tt)
  clamp_classes-lem feed resolved ((klass, card_price) ∷ card) h =
      let inside =
        clamp_bounds o (floor_for feed klass card_price) card_price
          (get_or klass resolved card_price) (floor_for-le feed klass card_price h.0) in
      let rest = clamp_classes-lem feed resolved card h.1 in
      ((refl, inside.0, rest.0), (inside.1, rest.1))

  at_least_floor : (floor : F) (market : Option F) → floor ≼ floor → floor ≼ at_least floor market
  at_least_floor floor none h = h
  at_least_floor floor (some market) h = fmax_left o floor market h

  market_classes-AtFloor :
      (feed : TargonPayoutFeed F) (lium : Option (Dict String F)) (targon card : Dict String F)
      → IsPriced card
      → AtFloor feed card (market_classes feed lium targon card)
  unfolding market_classes
  market_classes-AtFloor feed lium targon [] h = tt
  market_classes-AtFloor feed lium targon ((klass, card_price) ∷ card) h = (
    refl,
    at_least_floor (floor_for feed klass card_price) (market_price klass lium (some targon))
        (o.le_left _ _ (floor_for-le feed klass card_price h.0)),
    market_classes-AtFloor feed lium targon card h.1,
  )

  card-AtFloor :
      (feed : TargonPayoutFeed F) (card : Dict String F) → IsPriced card → AtFloor feed card card
  card-AtFloor feed [] h = tt
  card-AtFloor feed ((klass, card_price) ∷ card) h =
      (refl, floor_for-le feed klass card_price h.0, card-AtFloor feed card h.1)

  card-AtMostCard : (card : Dict String F) → IsPriced card → AtMostCard card card
  card-AtMostCard [] h = tt
  card-AtMostCard ((klass, card_price) ∷ card) h = (o.le_right _ _ h.0, card-AtMostCard card h.1)

  with_cached-AtFloor :
      (feed : TargonPayoutFeed F) (targon : Dict String F)
      (cached : Result CacheError (Option (Dict String F))) {prices : Dict String F}
      {feed' : TargonPayoutFeed F}
      → IsPriced feed.card
      → with_cached feed targon cached ≡ ok (prices, feed')
      → AtFloor feed feed.card prices
  with_cached-AtFloor feed targon (err x) h e = cc
  with_cached-AtFloor feed targon (ok none) h e =
      subst (AtFloor feed feed.card) (cc) (market_classes-AtFloor feed none targon feed.card h)
  with_cached-AtFloor feed targon (ok (some lium)) h e =
      subst (AtFloor feed feed.card) (cc)
        (market_classes-AtFloor feed (some lium) targon feed.card h)

  market_effective_card-AtFloor :
      (feed : TargonPayoutFeed F) (targon : Dict String F) (live : Option (Dict String F))
      (disk : CacheFile F) {prices : Dict String F} {feed' : TargonPayoutFeed F}
      → IsPriced feed.card
      → market_effective_card feed targon live disk ≡ ok (prices, feed')
      → AtFloor feed feed.card prices
  unfolding market_effective_card
  market_effective_card-AtFloor feed targon (some live) disk h e =
      subst (AtFloor feed feed.card) (cc)
        (market_classes-AtFloor feed (some live) targon feed.card h)
  market_effective_card-AtFloor feed targon none disk h e =
      with_cached-AtFloor feed targon (load_cache disk) h e

  module _ (feed : TargonPayoutFeed F) (live : Option (Dict String F)) (disk : CacheFile F) where
    effective_from-AtFloor :
        (resolved : Dict String F) {prices : Dict String F} {feed' : TargonPayoutFeed F}
        → IsPriced feed.card
        → effective_from feed resolved live disk ≡ ok (prices, feed')
        → AtFloor feed feed.card prices
    unfolding effective_from
    effective_from-AtFloor resolved h e =
        elim (Bool-cases (or_else (lookup "lium" feed.pricing_flags) false)) [
          | inl market ↦ market_effective_card-AtFloor feed resolved live disk h (rw market at e)
          | inr clamp ↦ elim (Bool-cases (or_else (lookup "targon" feed.pricing_flags) true)) [
            | inl targon ↦
                let e' = rw (clamp, targon) at e in
                subst (AtFloor feed feed.card) (cc) (clamp_classes-lem feed resolved feed.card h).0
            | inr flat ↦
                let e' = rw (clamp, flat) at e in
                subst (AtFloor feed feed.card) (cc) (card-AtFloor feed feed.card h)
          ]
        ]

    with_source-ok :
        (source : String) (r : Result CacheError (Dict String F × TargonPayoutFeed F))
        {prices : Dict String F} {source' : String} {feed' : TargonPayoutFeed F}
        → with_source source r ≡ ok (prices, source', feed')
        → r ≡ ok (prices, feed')
    with_source-ok source (err x) e = cc
    with_source-ok source (ok (p, g)) e = cc

    effective_resolved-AtFloor :
        (r : Result CacheError (Dict String F × String)) {prices : Dict String F} {source : String}
        {feed' : TargonPayoutFeed F}
        → IsPriced feed.card
        → effective_resolved feed live disk r ≡ ok (prices, source, feed')
        → AtFloor feed feed.card prices
    effective_resolved-AtFloor (err x) h e = cc
    effective_resolved-AtFloor (ok (resolved, source)) h e =
        effective_from-AtFloor resolved h (with_source-ok source _ e)

    -- In every pricing mode the effective card has the classes of the card, in its order, each at no
    -- less than its floor, whatever the feeds gave, if the card's prices are numbers from 0 on.
    pub effective_card-AtFloor :
        (tiers : Tiers F) {prices : Dict String F} {source : String} {feed' : TargonPayoutFeed F}
        → IsPriced feed.card
        → effective_card feed tiers live disk ≡ ok (prices, source, feed')
        → AtFloor feed feed.card prices
    unfolding effective_card
    effective_card-AtFloor tiers h e = effective_resolved-AtFloor (resolve_in feed tiers) h e

    effective_from-AtMostCard :
        (resolved : Dict String F)
        → or_else (lookup "lium" feed.pricing_flags) false ≡ false
        → IsPriced feed.card
        → (prices : Dict String F) × (effective_from feed resolved live disk ≡ ok (prices, feed))
          × AtMostCard feed.card prices
    unfolding effective_from
    effective_from-AtMostCard resolved off h =
        elim (Bool-cases (or_else (lookup "targon" feed.pricing_flags) true)) [
          | inl targon ↦ (
            clamp_classes feed resolved feed.card,
            rw (off, targon),
            (clamp_classes-lem feed resolved feed.card h).1,
          )
          | inr flat ↦ (feed.card, rw (off, flat), card-AtMostCard feed.card h)
        ]

    -- What pricing comes to, by what resolving the supply-side prices came to: the same exception, or
    -- prices of the same source at no more than the card's, and the feed as it was.
    abbrev pub IsCapped :
        Result CacheError (Dict String F × String)
        → Result CacheError (Dict String F × String × TargonPayoutFeed F)
        → Type 0
    IsCapped (err e) r = r ≡ err e
    IsCapped (ok (resolved, source)) r =
        (prices : Dict String F) × (r ≡ ok (prices, source, feed)) × AtMostCard feed.card prices

    effective_resolved-IsCapped :
        (r : Result CacheError (Dict String F × String))
        → or_else (lookup "lium" feed.pricing_flags) false ≡ false
        → IsPriced feed.card
        → IsCapped r (effective_resolved feed live disk r)
    effective_resolved-IsCapped (err e) off h = refl
    effective_resolved-IsCapped (ok (resolved, source)) off h =
        let (prices, e, capped) = effective_from-AtMostCard resolved off h in
        (prices, ap (with_source source) e, capped)

    -- With the card's Lium switch off, and card prices that are numbers from 0 on, pricing raises just
    -- what resolving the supply-side prices raises; where that returns, so does pricing, from the same
    -- source, it leaves the feed as it was, and no class is priced above its card price.
    pub effective_card-AtMostCard :
        (tiers : Tiers F)
        → or_else (lookup "lium" feed.pricing_flags) false ≡ false
        → IsPriced feed.card
        → IsCapped (resolve_in feed tiers) (effective_card feed tiers live disk)
    unfolding effective_card
    effective_card-AtMostCard tiers off h =
        effective_resolved-IsCapped (resolve_in feed tiers) off h
