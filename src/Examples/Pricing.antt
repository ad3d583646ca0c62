-- ===== src/Examples/Pricing.antt =====
-- The theorems on the price card and on the supply-side prices, at concrete inputs.
use kubetee_subnet.Base.{
  String, ◌≡◌, ◌≢◌, ◌↔◌, refl, true, Option, none, some, [], ◌∷◌, string_eq, All, ok, err,
}
use kubetee_subnet.Text.{upper}
use kubetee_subnet.Dict.{Dict}
use kubetee_subnet.Float.Rational.{Fraction, frac, fraction_float, Fraction-IsOrdered}
use kubetee_subnet.Json.{null, num, obj, Fields, end, field}
use kubetee_subnet.GpuCard.{default_usd_card, default_pricing, positive_prices}
use kubetee_subnet.Market.{not_an_object, load_cache, absent, holds}
use kubetee_subnet.PriceCard.{
  switches_from, floors_or_none, build_price_card, floors_from_payload, floors_of_raw, floors_from,
  add_price, prices_from, pricing_from, pricing_from_payload, parse_price_card, resolve_card,
}
use kubetee_subnet.PriceCard.Envelope.{
  InEnvelope, FloorInBand, resolve_card-InEnvelope, floors_from_payload-InBand,
}
use kubetee_subnet.PriceCard.Parse.{IsListed, parse_price_card-IsListed}
use kubetee_subnet.PriceCard.RoundTrip.{IsClean, clamped, parse-build}
use kubetee_subnet.Cycle.{kept, no_card}
use kubetee_subnet.PriceCard.{ResolvedCard}
use kubetee_subnet.TargonFeed.{
  TargonPayoutFeed, Tiers, resolve_in, effective_from, clamp_classes, effective_card,
  resolve_per_card_usd,
}
use kubetee_subnet.TargonFeed.Bounds.{
  AtFloor, IsCapped, IsPriced, effective_card-AtFloor, effective_card-AtMostCard,
}
use kubetee_subnet.TargonFeed.Sources.{
  IsFaulty, AllPositive, resolve_per_card_usd-AllPositive, resolve_per_card_usd-err,
}
use kubetee_subnet.Json.{Json, arr, cons, nil, str, to_str}
use kubetee_subnet.Market.{save_cache, class_in}
use kubetee_subnet.TargonSnapshot.{
  parse_snapshot, per_class_from_snapshot, snapshot_from, gpu_class_of,
}
use kubetee_subnet.Text.{has}
use kubetee_subnet.TargonFeed.Restart.{resolve_per_card_usd-save_cache}

-- A published card: H200 far below its band.
abbrev published : Fields Fraction
published = field "version" (num (frac 1 1)) (
    field "usd_per_gpu_hour" (obj (field "h200" (num (frac 1 1)) end))
      (field "floors" (obj (field "H200" (num (frac 4 1)) end)) end))

resolve_card-InEnvelope_example :
    InEnvelope default_usd_card (resolve_card (some (obj published)) ([], none, [])).0
resolve_card-InEnvelope_example =
    resolve_card-InEnvelope Fraction-IsOrdered (some (obj published)) ([], none, []) tt

abbrev floors : Dict String Fraction
floors = ("H200", frac 4 1) ∷ []

floors_read : floors_from_payload published ≡ some (("H200", frac 4 1) ∷ [])
unfolding floors_from_payload floors_of_raw floors_from upper
floors_read = refl

floors_from_payload-InBand_example : All (λ e. FloorInBand e.0 e.1) floors
floors_from_payload-InBand_example =
    floors_from_payload-InBand Fraction-IsOrdered published floors_read

parsed :
    parse_price_card (obj published) ≡ some (("H200", frac 1 1) ∷ [], some floors, default_pricing)
unfolding parse_price_card prices_from add_price floors_from_payload floors_of_raw floors_from
    pricing_from_payload pricing_from upper
parsed = refl

parse_price_card-IsListed_example :
    (◌≢◌ {A = Dict String Fraction} (("H200", frac 1 1) ∷ []) [])
    × All (λ (e : String × Fraction). IsListed e.0 e.1) (("H200", frac 1 1) ∷ [])
parse_price_card-IsListed_example = parse_price_card-IsListed (obj published) parsed

clean : IsClean {F = Fraction} [] (("H200", frac 5 1) ∷ [])
unfolding upper
clean = (refl, refl, refl, refl, tt)

parse-build_example :
    parse_price_card (
      obj (
        build_price_card 3
          (frac 1 1)
          (("H200", frac 5 1) ∷ [])
          (("H200", frac 5 1) ∷ [])
          (("Lium", true) ∷ [])))
    ≡ some (
      ("H200", frac 5 1) ∷ [],
      floors_or_none (clamped (("H200", frac 5 1) ∷ [])),
      switches_from (("Lium", true) ∷ []) default_pricing,
    )
parse-build_example =
    parse-build Fraction-IsOrdered 3 (frac 1 1) "H200" (frac 5 1) [] (("H200", frac 5 1) ∷ [])
      (("Lium", true) ∷ []) clean clean

abbrev feed : TargonPayoutFeed Fraction
feed = record {
  card = ("H200", frac 11 2) ∷ ("B200", frac 8 1) ∷ [];
  manual_floors = some (("H200", frac 5 1) ∷ []);
  pricing_flags = default_pricing;
  last_lium_source = "off";
  lium_used = [];
}

abbrev supply : Dict String Fraction
supply = ("H200", frac 1 1) ∷ ("B200", frac 20 1) ∷ []

abbrev supplied : Tiers Fraction
supplied = record { live = some supply; disk = absent; published = none }

priced : IsPriced feed.card
priced = (refl, (refl, tt))

clamped_prices :
    effective_card feed supplied none absent
    ≡ ok (clamp_classes feed supply feed.card, "live", feed)
unfolding effective_card effective_from resolve_per_card_usd
clamped_prices = refl

effective_card-AtFloor_example : AtFloor feed feed.card (clamp_classes feed supply feed.card)
effective_card-AtFloor_example =
    effective_card-AtFloor Fraction-IsOrdered feed none absent supplied priced clamped_prices

effective_card-AtMostCard_example :
    IsCapped Fraction-IsOrdered feed none absent
      (resolve_in feed supplied)
      (effective_card feed supplied none absent)
effective_card-AtMostCard_example =
    effective_card-AtMostCard Fraction-IsOrdered feed none absent supplied refl priced

positive : AllPositive feed.card
positive = (refl, (refl, tt))

abbrev snapshot : Fields Fraction
snapshot =
    field "per_card_usd" (obj (field "h200" (num (frac 3 1)) (field "b200" (num (frac 0 1)) end)))
      end

resolved :
    resolve_per_card_usd feed none absent (some snapshot)
    ≡ ok (("H200", frac 3 1) ∷ [], "published")
unfolding resolve_per_card_usd load_cache positive_prices upper
resolved = refl

resolve_per_card_usd-AllPositive_example : AllPositive {F = Fraction} (("H200", frac 3 1) ∷ [])
resolve_per_card_usd-AllPositive_example =
    resolve_per_card_usd-AllPositive feed absent (some snapshot) positive resolved

resolve_per_card_usd-err_example :
    (resolve_per_card_usd feed none (holds null) none ≡ err not_an_object) ↔ (
      (◌≡◌ {A = Option (Dict String Fraction)} none none)
      × IsFaulty {F = Fraction} not_an_object (holds null))
resolve_per_card_usd-err_example =
    resolve_per_card_usd-err feed (holds null) none none not_an_object

-- A first cycle that reads the published card, and a second one that cannot read it.
abbrev first : ResolvedCard Fraction
first = resolve_card (some (obj published)) no_card

abbrev second : ResolvedCard Fraction
second = resolve_card none (kept first)

-- A reply of the payout service, with one class.
abbrev reply : Json Fraction
reply = obj (
    field "compute"
      (arr (cons (obj (field "key" (str "h200-x8") (field "unitRate" (num (frac 3 1)) end))) nil))
      end)

replied : parse_snapshot reply ≡ ok (("H200", frac 3 1) ∷ [])
unfolding parse_snapshot per_class_from_snapshot snapshot_from gpu_class_of class_in upper to_str
    has
replied = refl

resolve_per_card_usd-save_cache_example :
    resolve_per_card_usd feed none (save_cache true (("H200", frac 3 1) ∷ []) absent) none
    ≡ ok (("H200", frac 3 1) ∷ [], "cache")
resolve_per_card_usd-save_cache_example =
    resolve_per_card_usd-save_cache feed reply (("H200", frac 3 1) ∷ []) absent none replied
      (refl, tt)
