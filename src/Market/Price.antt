-- ===== src/Market/Price.antt =====
-- The market price of validator/market_pricing.py: the markup on the highest feed.
use mathlib.Core.Path.{subst}
use mathlib.Core.Option.{some-injective}
use kubetee_subnet.Base.{
  sym, ◌∙◌, ◌≡◌, refl, true, Option, none, some, List, ◌∷◌, String, string_eq, ◌⊎◌, inl, inr,
  Bool-cases, Option-cases,
}
use kubetee_subnet.Dict.{Dict, lookup}
use kubetee_subnet.Float.{Float, ◌⊕◌, ◌⊗◌, lt, ◌≼◌, ◌≺◌, of_ℕ, fmax}
use kubetee_subnet.Float.Order.{IsOrdered, lt→le, fmax_left, fmax_right}
use kubetee_subnet.Market.{market_markup_frac, feed_value, market_price}

module _ {F : Type 0} ⦃f : Float F⦄ where
  -- The feed has a price above 0 for the class.
  abbrev pub Offers : Option (Dict String F) → String → F → Type 0
  Offers none klass value = ⊥
  Offers (some feed) klass value = (lookup klass feed ≡ some value) × (of_ℕ 0 ≺ value)

  -- What `market_price` is for: marked up from `best`, the highest offer of the two feeds.
  pub record IsMarked (lium targon : Option (Dict String F)) (klass : String) (price : F)
      : Type 0 where
    pub best : F
    pub marked : price ≡ (of_ℕ 1 ⊕ market_markup_frac) ⊗ best
    pub offered : Offers lium klass best ⊎ Offers targon klass best
    pub highest : (value : F) → Offers lium klass value ⊎ Offers targon klass value → value ≼ best

  -- Neither feed has a price above 0 for the class.
  abbrev pub IsDark : Option (Dict String F) → String → Type 0
  IsDark feed klass = (value : F) → Offers feed klass value → ⊥

  -- What a feed adds to `values`.
  feed_value-cases :
      (klass : String) (feed : Option (Dict String F))
      → (IsDark feed klass × ((rest : List F) → feed_value klass feed rest ≡ rest))
        ⊎ ((value : F) × Offers feed klass value
            × ((v : F) → Offers feed klass v → v ≡ value)
            × ((rest : List F) → feed_value klass feed rest ≡ value ∷ rest))
  feed_value-cases klass none = inl ((λ v h. h), (λ rest. refl))
  feed_value-cases klass (some feed) = elim (Option-cases (lookup klass feed)) [
    | inl missing ↦ inl ((λ v h. cc (h.0, missing)), (λ rest. rw missing))
    | inr (value, found) ↦ elim (Bool-cases (lt (of_ℕ 0) value)) [
      | inl positive ↦ inr (
        value,
        (found, positive),
        (λ v h. some-injective v value (sym h.0 ∙ found)),
        (λ rest. rw (found, positive)),
      )
      | inr other ↦ inl (
        (λ v h. cc (
          subst (λ t. lt (of_ℕ 0) t ≡ true) (some-injective v value (sym h.0 ∙ found)) h.1,
          other,
        )),
        (λ rest. rw (found, other)),
      )
    ]
  ]

module _ {F : Type 0} ⦃f : Float F⦄ (o : IsOrdered F) where
  Offers-num :
      (feed : Option (Dict String F)) (klass : String) (v : F) → Offers feed klass v → v ≼ v
  Offers-num none klass v h = absurd h
  Offers-num (some feed) klass v h = o.le_right (of_ℕ 0) v (lt→le (of_ℕ 0) v h.1)

  -- The larger of two numbers is one of them.
  fmax-cases : (a b : F) → (fmax a b ≡ a) ⊎ (fmax a b ≡ b)
  fmax-cases a b = elim (Bool-cases (lt a b)) [ inl e ↦ inr (rw e) | inr e ↦ inl (rw e) ]

  module _ (klass : String) (lium targon : Option (Dict String F)) where
    -- The market price of a class is the markup on its highest offer, and there is none exactly where
    -- neither feed offers a price above 0.
    pub market_price_lem :
        ((market_price klass lium targon ≡ none) × IsDark lium klass × IsDark targon klass)
        ⊎ ((price : F) × (market_price klass lium targon ≡ some price)
            × IsMarked lium targon klass price)
    unfolding market_price
    market_price_lem = elim (feed_value-cases klass lium) [
      | inl (dark, skip) ↦ elim (feed_value-cases klass targon) [
        | inl (dark2, skip2) ↦ inl (rw (skip2, skip), dark, dark2)
        | inr (v2, offer2, only2, found2) ↦ inr (
          (of_ℕ 1 ⊕ market_markup_frac) ⊗ v2,
          rw (found2, skip),
          record {
            best = v2;
            marked = refl;
            offered = inr offer2;
            highest = λ v. elim [
              | inl h ↦ absurd (dark v h)
              | inr h ↦ subst (λ t. t ≼ v2) (sym (only2 v h)) (Offers-num targon klass v2 offer2)
            ];
          },
        )
      ]
      | inr (v1, offer1, only1, found1) ↦ elim (feed_value-cases klass targon) [
        | inl (dark2, skip2) ↦ inr (
          (of_ℕ 1 ⊕ market_markup_frac) ⊗ v1,
          rw (skip2, found1),
          record {
            best = v1;
            marked = refl;
            offered = inl offer1;
            highest = λ v. elim [
              | inl h ↦ subst (λ t. t ≼ v1) (sym (only1 v h)) (Offers-num lium klass v1 offer1)
              | inr h ↦ absurd (dark2 v h)
            ];
          },
        )
        | inr (v2, offer2, only2, found2) ↦ inr (
          (of_ℕ 1 ⊕ market_markup_frac) ⊗ fmax v1 v2,
          rw (found2, found1),
          record {
            best = fmax v1 v2;
            marked = refl;
            offered = elim (fmax-cases v1 v2) [
              | inl e ↦ inl (subst (λ t. Offers lium klass t) (sym e) offer1)
              | inr e ↦ inr (subst (λ t. Offers targon klass t) (sym e) offer2)
            ];
            highest = λ v. elim [
              | inl h ↦
                  subst (λ t. t ≼ fmax v1 v2) (sym (only1 v h))
                    (fmax_left o v1 v2 (Offers-num lium klass v1 offer1))
              | inr h ↦
                  subst (λ t. t ≼ fmax v1 v2) (sym (only2 v h))
                    (fmax_right o v1 v2 (Offers-num lium klass v1 offer1)
                      (Offers-num targon klass v2 offer2))
            ];
          },
        )
      ]
    ]
