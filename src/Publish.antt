-- ===== src/Publish.antt =====
-- What the owner's validator publishes for the others in validator/validator.py: `_publish_payout`, and
-- the prices that `run_cycle` hands to it. Writing to the store is an outcome.
pub mod Fallback
use kubetee_subnet.Base.{
  ℕ, Bool, true, false, Option, none, some, [], ◌∷◌, String, if◌then◌else◌, is_empty,
}
use kubetee_subnet.Dict.{Dict}
use kubetee_subnet.Float.{Float, lt, of_ℕ}
use kubetee_subnet.Json.{Json, num, str, obj, Fields, end, field}
use kubetee_subnet.PriceFeed.{only_above_0}

module _ {F : Type 0} ⦃f : Float F⦄ where
  -- `{k: float(v) for k, v in per_card.items()}`
  abbrev pub price_fields : Dict String F → Fields F
  price_fields [] = end
  price_fields ((k, v) ∷ d) = field k (num v) (price_fields d)

  -- `if value is not None and value > 0: payload[name] = float(value)`, in front of what comes later
  abbrev pub add_above_0 : String → Option F → Fields F → Fields F
  add_above_0 name none rest = rest
  add_above_0 name (some value) rest =
      if lt (of_ℕ 0) value then field name (num value) rest else rest

  unfoldable pub payout_payload : ℕ → F → Dict String F → Option F → Option F → Fields F
  payout_payload epoch published_at per_card tao_usd alpha_to_tao =
      field "epoch" (num (of_ℕ epoch)) (
        field "per_card_usd" (obj (price_fields per_card)) (
          field "published_at" (num published_at) (
            field "source" (str "https://stats.targon.com/api/miners") (
              field "version" (num (of_ℕ 1))
                (add_above_0 "tao_usd" tao_usd (add_above_0 "alpha_to_tao" alpha_to_tao end))))))

  -- `tao_usd if tao_usd > 0 else self.price_feed.last_tao_usd`
  abbrev pub usd_to_publish : F → Option F → Option F
  usd_to_publish tao_usd last = if lt (of_ℕ 0) tao_usd then some tao_usd else last

  -- What `run_cycle` publishes: nothing where there are no prices, or in a dry run.
  unfoldable pub publish_payout :
      Bool → ℕ → F → Dict String F → F → Option F → F → Option (Fields F)
  unfolding payout_payload
  publish_payout dry_run epoch published_at per_card tao_usd last spot =
      if is_empty per_card
      then none
      else if dry_run
      then none
      else some (
          payout_payload epoch published_at per_card (usd_to_publish tao_usd last)
            (only_above_0 (some spot)))
