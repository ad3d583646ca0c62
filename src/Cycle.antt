-- ===== src/Cycle.antt =====
-- The card of a cycle in validator/validator.py: `_resolve_card`, `_publisher_floors`,
-- `_publisher_pricing` and the part of `run_cycle` that checks the card and keeps it. Writing the
-- published card is left out.
pub mod Card
use kubetee_subnet.Base.{
  Bool, true, false, Option, none, some, List, [], ◌∷◌, String, string_eq, if◌then◌else◌, is_empty,
  Result, ok, err,
}
use kubetee_subnet.Dict.{Dict, lookup}
use kubetee_subnet.Float.{Float, ◌⊗◌, lt, of_ℕ}
use kubetee_subnet.Json.{Json}
use kubetee_subnet.GpuCard.{default_floor_frac, default_pricing}
use kubetee_subnet.PriceCard.{
  CardError, ParsedCard, ResolvedCard, parse_price_card, resolve_card, require_card,
}

-- Whether the validator publishes: with its committed card and its overrides of the floors.
pub data Role (F : Type 0) : Type 0 where
  reader : Role F
  publisher : Dict String F → Dict String F → Role F

module _ {F : Type 0} ⦃f : Float F⦄ where
  -- One class of `_publisher_floors`.
  abbrev pub publisher_floor : Option F → F → F
  publisher_floor none price = f.round (price ⊗ default_floor_frac) 4
  publisher_floor (some override) price =
      if lt (of_ℕ 0) override then override else f.round (price ⊗ default_floor_frac) 4

  -- The classes of the card are distinct, so each write is an entry of its own.
  unfoldable pub publisher_floors : Dict String F → Dict String F → Dict String F
  publisher_floors override [] = []
  publisher_floors override ((klass, price) ∷ card) =
      (klass, publisher_floor (lookup klass override) price) ∷ publisher_floors override card

  abbrev pub pricing_of : Option (ParsedCard F) → Dict String Bool
  pricing_of none = default_pricing
  pricing_of (some (card, floors, pricing)) = pricing

  -- `none` is a card that could not be read.
  unfoldable pub publisher_pricing : Option (Json F) → Dict String Bool
  publisher_pricing none = default_pricing
  publisher_pricing (some published) = pricing_of (parse_price_card published)

  unfoldable pub resolve_cycle_card : Role F → Option (Json F) → ParsedCard F → ResolvedCard F
  resolve_cycle_card (publisher card override) published last =
      (card, some (publisher_floors override card), publisher_pricing published, "published")
  resolve_cycle_card reader published last = resolve_card published last

  abbrev pub accept_card :
      Role F → ResolvedCard F → Result CardError (Unit {0}) → Result CardError (ResolvedCard F)
  accept_card role r (ok t) = ok r
  accept_card (publisher card override) r (err e) = ok r
  accept_card reader r (err e) = err e

  -- The card of a cycle, or the exception that ends the cycle before anything is kept. A validator
  -- that has no card yet is in its first cycle.
  unfoldable pub card_step :
      Role F → Option (Json F) → ParsedCard F → Result CardError (ResolvedCard F)
  card_step role published last =
      let r = resolve_cycle_card role published last in
      accept_card role r (require_card r.3 (is_empty last.0))

  -- `_last_card`, `_last_floors` and `_last_pricing` after a cycle
  abbrev pub kept : ResolvedCard F → ParsedCard F
  kept r = (r.0, r.1, r.2)

  -- `__init__`
  abbrev pub no_card : ParsedCard F
  no_card = ([], none, default_pricing)
