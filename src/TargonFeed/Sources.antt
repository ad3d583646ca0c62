-- ===== src/TargonFeed/Sources.antt =====
-- Where the supply-side prices of validator/targon_payout_feed.py come from when a feed is down.
use mathlib.Core.Option.{some-injective}
use mathlib.Core.Path.{subst}
use kubetee_subnet.Base.{
  ◌≡◌, refl, Option, none, some, [], ◌∷◌, String, string_eq, All, ◌↔◌, inl, inr, Bool-cases,
  Option-cases, Result, ok, err,
}
use kubetee_subnet.Text.{upper}
use kubetee_subnet.Dict.{Dict}
use kubetee_subnet.Dict.Laws.{All-insert}
use kubetee_subnet.Float.{Float, lt, ◌≺◌, of_ℕ}
use kubetee_subnet.Json.{Json, Fields, entries, get, as_obj, as_num}
use kubetee_subnet.GpuCard.{if_positive, keep_price, positive_prices}
use kubetee_subnet.Market.{
  CacheFile, absent, undecodable, overflowing, holds, CacheError, not_an_object, not_decoded,
  too_large, or_none, cached_prices, load_cache,
}
use kubetee_subnet.TargonFeed.{
  TargonPayoutFeed, published_prices, published_or_card, cached_or_published, resolve_per_card_usd,
}

module _ {F : Type 0} ⦃f : Float F⦄ where
  -- The files that reading the cache raises each exception on.
  abbrev pub IsFaulty : CacheError → CacheFile F → Type 0
  IsFaulty not_an_object disk =
      (payload : Json F) × (disk ≡ holds payload) × (as_obj payload ≡ none)
  IsFaulty not_decoded disk = disk ≡ undecodable
  IsFaulty too_large disk = disk ≡ overflowing

  object-err :
      (payload : Json F) (e : CacheError)
      → (load_cache (holds payload) ≡ err e) ↔ IsFaulty e (holds payload)
  unfolding load_cache
  object-err payload not_an_object = elim (Option-cases (as_obj payload)) [
    | inl bad ↦ ((λ h. (payload, refl, bad)), (λ h. rw bad))
    | inr (fs, good) ↦ ((λ h. cc (rw good at h)), (λ h. cc (h.1, h.2)))
  ]
  object-err payload not_decoded = elim (Option-cases (as_obj payload)) [
    | inl bad ↦ ((λ h. cc (rw bad at h)), (λ h. cc h))
    | inr (fs, good) ↦ ((λ h. cc (rw good at h)), (λ h. cc h))
  ]
  object-err payload too_large = elim (Option-cases (as_obj payload)) [
    | inl bad ↦ ((λ h. cc (rw bad at h)), (λ h. cc h))
    | inr (fs, good) ↦ ((λ h. cc (rw good at h)), (λ h. cc h))
  ]

  pub load_cache-err :
      (disk : CacheFile F) (e : CacheError) → (load_cache disk ≡ err e) ↔ IsFaulty e disk
  unfolding load_cache
  load_cache-err absent not_an_object = ((λ h. cc h), (λ h. cc (h.1)))
  load_cache-err absent not_decoded = ((λ h. cc h), (λ h. cc h))
  load_cache-err absent too_large = ((λ h. cc h), (λ h. cc h))
  load_cache-err undecodable not_an_object = ((λ h. cc h), (λ h. cc (h.1)))
  load_cache-err undecodable not_decoded = ((λ h. refl), (λ h. refl))
  load_cache-err undecodable too_large = ((λ h. cc h), (λ h. cc h))
  load_cache-err overflowing not_an_object = ((λ h. cc h), (λ h. cc (h.1)))
  load_cache-err overflowing not_decoded = ((λ h. cc h), (λ h. cc h))
  load_cache-err overflowing too_large = ((λ h. refl), (λ h. refl))
  load_cache-err (holds payload) e = object-err payload e

  abbrev pub AllPositive : Dict String F → Type 0
  AllPositive d = All (λ e. of_ℕ 0 ≺ e.1) d

  keep_price-AllPositive :
      (klass : String) (o : Option F) (acc : Dict String F)
      → AllPositive acc
      → AllPositive (keep_price klass (if_positive o) acc)
  keep_price-AllPositive klass none acc h = h
  keep_price-AllPositive klass (some x) acc h = elim (Bool-cases (lt (of_ℕ 0) x)) [
    | inl positive ↦ rw positive (All-insert (λ k v. of_ℕ 0 ≺ v) klass x acc h positive)
    | inr other ↦ rw other h
  ]

  positive_prices-AllPositive :
      (items : Dict String (Json F)) (acc : Dict String F)
      → AllPositive acc
      → AllPositive (positive_prices items acc)
  unfolding positive_prices
  positive_prices-AllPositive [] acc h = h
  positive_prices-AllPositive ((k, v) ∷ items) acc h =
      positive_prices-AllPositive items _ (keep_price-AllPositive (upper k) (as_num v) acc h)

  or_none-AllPositive :
      (d : Dict String F) {prices : Dict String F}
      → AllPositive d
      → or_none d ≡ some prices
      → AllPositive prices
  or_none-AllPositive [] h e = cc
  or_none-AllPositive (x ∷ d) h e = subst AllPositive (some-injective _ _ e) h

  cached_prices-AllPositive :
      (per_card : Option (Fields F)) {prices : Dict String F}
      → cached_prices per_card ≡ some prices
      → AllPositive prices
  cached_prices-AllPositive none e = cc
  cached_prices-AllPositive (some fs) e =
      or_none-AllPositive (positive_prices (entries fs) [])
        (positive_prices-AllPositive (entries fs) [] tt) e

  published_or_card-AllPositive :
      (feed : TargonPayoutFeed F) (published : Option (Fields F))
      → AllPositive feed.card
      → AllPositive (published_or_card feed (published_prices published)).0
  published_or_card-AllPositive feed none h = h
  published_or_card-AllPositive feed (some fs) h =
      elim (Option-cases (cached_prices (as_obj (get "per_card_usd" fs)))) [
        | inl missing ↦ rw missing h
        | inr (prices, found) ↦ rw found (cached_prices-AllPositive _ found)
      ]

  load_cache-AllPositive :
      (disk : CacheFile F) {prices : Dict String F}
      → load_cache disk ≡ ok (some prices)
      → AllPositive prices
  unfolding load_cache
  load_cache-AllPositive absent e = cc
  load_cache-AllPositive undecodable e = cc
  load_cache-AllPositive overflowing e = cc
  load_cache-AllPositive (holds payload) e = elim (Option-cases (as_obj payload)) [
    | inl bad ↦ cc (rw bad at e)
    | inr (fs, good) ↦
        cached_prices-AllPositive (as_obj (get "per_card_usd" fs)) (cc (rw good at e))
  ]

  cached_or_published-AllPositive :
      (feed : TargonPayoutFeed F) (published : Option (Fields F))
      (cache : Result CacheError (Option (Dict String F))) {prices : Dict String F}
      {source : String}
      → AllPositive feed.card
      → ((d : Dict String F) → cache ≡ ok (some d) → AllPositive d)
      → cached_or_published feed published cache ≡ ok (prices, source)
      → AllPositive prices
  cached_or_published-AllPositive feed published (err x) h k e = cc
  cached_or_published-AllPositive feed published (ok (some d)) h k e =
      subst AllPositive (cc) (k d refl)
  cached_or_published-AllPositive feed published (ok none) h k e =
      subst AllPositive (cc) (published_or_card-AllPositive feed published h)

  module _ (feed : TargonPayoutFeed F) (disk : CacheFile F) (published : Option (Fields F)) where
    -- With the live feed down, whatever is on the disk or was published, the prices that are resolved
    -- are all above 0, if those of the card are.
    pub resolve_per_card_usd-AllPositive :
        {prices : Dict String F} {source : String}
        → AllPositive feed.card
        → resolve_per_card_usd feed none disk published ≡ ok (prices, source)
        → AllPositive prices
    unfolding resolve_per_card_usd
    resolve_per_card_usd-AllPositive h e =
        cached_or_published-AllPositive feed published (load_cache disk) h
          (λ d. load_cache-AllPositive disk) e

    cached_or_published-err :
        (cache : Result CacheError (Option (Dict String F))) (e : CacheError)
        → (cached_or_published feed published cache ≡ err e) ↔ (cache ≡ err e)
    cached_or_published-err (err x) e = ((λ h. cc), (λ h. cc))
    cached_or_published-err (ok none) e = ((λ h. cc), (λ h. cc))
    cached_or_published-err (ok (some d)) e = ((λ h. cc), (λ h. cc))

    -- Resolving the prices raises exactly when the live feed is down and the cache file cannot be
    -- decoded (other than as a JSONDecodeError), or holds JSON that is no object, or a price that is an
    -- integer beyond the range of floats; each raises its own exception.
    pub resolve_per_card_usd-err :
        (live : Option (Dict String F)) (e : CacheError)
        → (resolve_per_card_usd feed live disk published ≡ err e)
          ↔ ((live ≡ none) × IsFaulty e disk)
    unfolding resolve_per_card_usd
    resolve_per_card_usd-err (some d) e = ((λ h. cc), (λ h. cc (h.0)))
    resolve_per_card_usd-err none e = (
      (λ h. (refl, (load_cache-err disk e).0 ((cached_or_published-err (load_cache disk) e).0 h))),
      (λ h. (cached_or_published-err (load_cache disk) e).1 ((load_cache-err disk e).1 h.1)),
    )
