-- ===== src/TargonFeed.antt =====
-- validator/targon_payout_feed.py: the effective price of each class.
-- What the network and the disk gave is an argument: a feed that failed is `none`.
pub mod Bounds
pub mod Sources
pub mod Restart
use kubetee_subnet.Base.{
  Bool, true, false, not, Option, none, some, List, [], ◌∷◌, String, string_eq, ◌==◌, if◌then◌else◌,
  is_empty, is_some, or_else, Result, ok, err,
}
use kubetee_subnet.Text.{upper, lower}
use kubetee_subnet.Dict.{Dict, lookup, get_or, insert, keys}
use kubetee_subnet.Float.{Float, ◌⊗◌, le, lt, of_ℕ, fmax, fmin}
use kubetee_subnet.Json.{
  Json, null, str, obj, Fields, Items, get, get_default, entries, elements, as_obj, as_arr,
  to_float, to_str, is_truthy, or_json,
}
use kubetee_subnet.GpuCard.{
  default_usd_card, default_floor_frac, class_names, default_pricing, positive_prices,
}
use kubetee_subnet.Market.{
  CacheFile, CacheError, class_in, first_of_two, load_cache, save_cache, cached_prices,
  market_price,
}

pub record TargonPayoutFeed (F : Type 0) : Type 0 where
  pub card : Dict String F
  pub manual_floors : Option (Dict String F)
  pub pricing_flags : Dict String Bool
  pub last_lium_source : String
  pub lium_used : Dict String F

-- What `resolve_per_card_usd` finds: the live prices, the cache file and the published payout.
pub record Tiers (F : Type 0) : Type 0 where
  pub live : Option (Dict String F)
  pub disk : CacheFile F
  pub published : Option (Fields F)

-- `{str(k).lower(): bool(v) for k, v in pricing.items()}`
pub lower_keys : Dict String Bool → Dict String Bool → Dict String Bool
lower_keys [] acc = acc
lower_keys ((k, v) ∷ d) acc = lower_keys d (insert (lower k) v acc)

module _ {F : Type 0} ⦃f : Float F⦄ where
  -- `d.update(other)`
  unfoldable pub update : Dict String F → Dict String F → Dict String F
  update d [] = d
  update d ((k, v) ∷ other) = update (insert k v d) other

  -- `__init__`
  unfoldable pub new : Dict String F → TargonPayoutFeed F
  new usd_card_override = record {
    card = update default_usd_card usd_card_override;
    manual_floors = none;
    pricing_flags = default_pricing;
    last_lium_source = "off";
    lium_used = [];
  }

  unfoldable pub set_pricing_flags : Dict String Bool → TargonPayoutFeed F → TargonPayoutFeed F
  unfolding lower_keys
  set_pricing_flags pricing feed = record feed {
    pricing_flags = if is_empty pricing then default_pricing else lower_keys pricing [];
  }

  pub upper_positive : Dict String F → Dict String F → Dict String F
  upper_positive [] acc = acc
  upper_positive ((k, v) ∷ floors) acc =
      upper_positive floors (if lt (of_ℕ 0) v then insert (upper k) v acc else acc)

  unfoldable pub set_manual_floors :
      Option (Dict String F) → TargonPayoutFeed F → TargonPayoutFeed F
  unfolding upper_positive
  set_manual_floors none feed = record feed { manual_floors = none }
  set_manual_floors (some []) feed = record feed { manual_floors = none }
  set_manual_floors (some (e ∷ floors)) feed = record feed {
    manual_floors = some (upper_positive (e ∷ floors) []);
  }

  -- The end of `floor_for`, on what the manual floors hold for the class.
  abbrev pub floor_from : Option F → F → F
  floor_from none card_price = card_price ⊗ default_floor_frac
  floor_from (some manual) card_price =
      if lt (of_ℕ 0) manual then fmin manual card_price else card_price ⊗ default_floor_frac

  unfoldable pub floor_for : TargonPayoutFeed F → String → F → F
  floor_for feed klass card_price =
      floor_from (lookup klass (or_else feed.manual_floors [])) card_price

  -- The prices of the owner's last published payout, where there are any.
  abbrev pub published_prices : Option (Fields F) → Option (Dict String F)
  published_prices none = none
  published_prices (some published) = cached_prices (as_obj (get "per_card_usd" published))

  -- The last two tiers of `resolve_per_card_usd`.
  abbrev pub published_or_card :
      TargonPayoutFeed F → Option (Dict String F) → Dict String F × String
  published_or_card feed none = (feed.card, "card")
  published_or_card feed (some per_card) = (per_card, "published")

  -- The tiers below the live feed.
  abbrev pub cached_or_published :
      TargonPayoutFeed F
      → Option (Fields F)
      → Result CacheError (Option (Dict String F))
      → Result CacheError (Dict String F × String)
  cached_or_published feed published (err e) = err e
  cached_or_published feed published (ok (some cached)) = ok (cached, "cache")
  cached_or_published feed published (ok none) =
      ok (published_or_card feed (published_prices published))

  -- `resolve_per_card_usd`: live, else the disk cache, else the published payout, else the card.
  unfoldable pub resolve_per_card_usd :
      TargonPayoutFeed F
      → Option (Dict String F)
      → CacheFile F
      → Option (Fields F)
      → Result CacheError (Dict String F × String)
  resolve_per_card_usd feed (some per_card) disk published = ok (per_card, "live")
  resolve_per_card_usd feed none disk published =
      cached_or_published feed published (load_cache disk)

  -- The loop of `effective_card` in the Targon mode.
  unfoldable pub clamp_classes : TargonPayoutFeed F → Dict String F → Dict String F → Dict String F
  clamp_classes feed resolved [] = []
  clamp_classes feed resolved ((klass, card_price) ∷ card) =
      (
        klass,
        fmin card_price (fmax (floor_for feed klass card_price) (get_or klass resolved card_price)),
      )
      ∷ clamp_classes feed resolved card

  abbrev pub at_least : F → Option F → F
  at_least floor none = floor
  at_least floor (some market) = fmax floor market

  -- The loop of `_market_effective_card`.
  unfoldable pub market_classes :
      TargonPayoutFeed F → Option (Dict String F) → Dict String F → Dict String F → Dict String F
  market_classes feed lium targon [] = []
  market_classes feed lium targon ((klass, card_price) ∷ card) =
      (klass, at_least (floor_for feed klass card_price) (market_price klass lium (some targon)))
      ∷ market_classes feed lium targon card

  -- What `_market_effective_card` returns and leaves in the object, for the Lium prices that it got.
  abbrev pub with_lium :
      TargonPayoutFeed F
      → Dict String F
      → Option (Dict String F)
      → String
      → Dict String F × TargonPayoutFeed F
  with_lium feed targon lium lium_source = (
    market_classes feed lium targon feed.card,
    record feed { last_lium_source = lium_source; lium_used = or_else lium [] },
  )

  abbrev pub with_cached :
      TargonPayoutFeed F
      → Dict String F
      → Result CacheError (Option (Dict String F))
      → Result CacheError (Dict String F × TargonPayoutFeed F)
  with_cached feed targon (err e) = err e
  with_cached feed targon (ok none) = ok (with_lium feed targon none "off")
  with_cached feed targon (ok (some lium)) = ok (with_lium feed targon (some lium) "cache")

  -- `_market_effective_card`, on the live Lium prices or else the cache file.
  unfoldable pub market_effective_card :
      TargonPayoutFeed F
      → Dict String F
      → Option (Dict String F)
      → CacheFile F
      → Result CacheError (Dict String F × TargonPayoutFeed F)
  market_effective_card feed targon (some live) disk = ok (with_lium feed targon (some live) "live")
  market_effective_card feed targon none disk = with_cached feed targon (load_cache disk)

  -- The body of `effective_card`, on the prices that it resolved.
  unfoldable pub effective_from :
      TargonPayoutFeed F
      → Dict String F
      → Option (Dict String F)
      → CacheFile F
      → Result CacheError (Dict String F × TargonPayoutFeed F)
  effective_from feed resolved lium_live lium_disk =
      if or_else (lookup "lium" feed.pricing_flags) false
      then market_effective_card feed resolved lium_live lium_disk
      else if or_else (lookup "targon" feed.pricing_flags) true
      then ok (clamp_classes feed resolved feed.card, feed)
      else ok (feed.card, feed)

  abbrev pub with_source :
      String
      → Result CacheError (Dict String F × TargonPayoutFeed F)
      → Result CacheError (Dict String F × String × TargonPayoutFeed F)
  with_source source (err e) = err e
  with_source source (ok (prices, feed)) = ok (prices, source, feed)

  abbrev pub effective_resolved :
      TargonPayoutFeed F
      → Option (Dict String F)
      → CacheFile F
      → Result CacheError (Dict String F × String)
      → Result CacheError (Dict String F × String × TargonPayoutFeed F)
  effective_resolved feed lium_live lium_disk (err e) = err e
  effective_resolved feed lium_live lium_disk (ok (resolved, source)) =
      with_source source (effective_from feed resolved lium_live lium_disk)

  abbrev pub resolve_in : TargonPayoutFeed F → Tiers F → Result CacheError (Dict String F × String)
  resolve_in feed t = resolve_per_card_usd feed t.live t.disk t.published

  -- `effective_card`: the prices, their source and the feed afterwards.
  unfoldable pub effective_card :
      TargonPayoutFeed F
      → Tiers F
      → Option (Dict String F)
      → CacheFile F
      → Result CacheError (Dict String F × String × TargonPayoutFeed F)
  effective_card feed tiers lium_live lium_disk =
      effective_resolved feed lium_live lium_disk (resolve_in feed tiers)

  abbrev pub cached_or_empty :
      Result CacheError (Option (Dict String F)) → Result CacheError (Dict String F)
  cached_or_empty (err e) = err e
  cached_or_empty (ok cached) = ok (or_else cached [])

  -- `lium_snapshot`: the prices to show, and the cache file afterwards.
  unfoldable pub lium_snapshot :
      TargonPayoutFeed F
      → Option (Dict String F)
      → Bool
      → CacheFile F
      → Result CacheError (Dict String F) × CacheFile F
  lium_snapshot feed live writable disk =
      if or_else (lookup "lium" feed.pricing_flags) false
      then (ok feed.lium_used, disk)
      else shown live
    where
      shown : Option (Dict String F) → Result CacheError (Dict String F) × CacheFile F
      shown none = (cached_or_empty (load_cache disk), disk)
      shown (some per_card) = (ok per_card, save_cache writable per_card disk)
