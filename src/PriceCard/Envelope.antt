-- ===== src/PriceCard/Envelope.antt =====
-- The trust band of validator/price_card.py: whatever is published, the card in force stays near the
-- compiled-in one, and so does every floor.
use mathlib.Core.Path.{subst}
use kubetee_subnet.Base.{
  ℕ, ◌≡◌, refl, ◌≤◌, ◌<◌, Option, none, some, [], ◌∷◌, String, string_eq, All, arith, inl, inr,
  Bool-cases,
}
use kubetee_subnet.Text.{upper}
use kubetee_subnet.Dict.{Dict, lookup, get_or}
use kubetee_subnet.Dict.Laws.{All-insert, All-lookup}
use kubetee_subnet.Float.{Float, ◌⊗◌, le, ◌≼◌, of_ℕ}
use kubetee_subnet.Float.Order.{IsOrdered, clamp_bounds}
use kubetee_subnet.Json.{Json, Fields, get, entries, as_obj, as_num}
use kubetee_subnet.GpuCard.{default_usd_card}
use kubetee_subnet.PriceCard.{
  ParsedCard, card_envelope_min_frac, card_envelope_max_frac, floor_envelope_min_frac,
  floor_envelope_max_frac, clamp_from, clamp_to_envelope, clamp_floor, add_floor, floors_from,
  floors_of_raw, floors_from_payload, parse_price_card, card_in_force, floors_or_none, resolve_card,
}

module _ {F : Type 0} ⦃f : Float F⦄ where
  -- The same classes in the same order, each price in the band round its default.
  abbrev pub InEnvelope : Dict String F → Dict String F → Type 0
  InEnvelope [] [] = Unit
  InEnvelope ((klass, default) ∷ defaults) ((k, price) ∷ prices) =
      (k ≡ klass)
      × (default ⊗ card_envelope_min_frac ≼ price)
      × (price ≼ default ⊗ card_envelope_max_frac)
      × InEnvelope defaults prices
  InEnvelope _ _ = ⊥

  -- A default that is a number of dollars, so that its band is no empty one.
  abbrev IsPrice : String × F → Type 0
  IsPrice (klass, default) = of_ℕ 0 ≼ default

  -- A card of an earlier epoch, or none yet.
  abbrev pub IsFallback : ParsedCard F → Type 0
  IsFallback ([], floors, pricing) = Unit
  IsFallback (e ∷ card, floors, pricing) = InEnvelope default_usd_card (e ∷ card)

module _ {F : Type 0} ⦃f : Float F⦄ (o : IsOrdered F) where
  pub default_prices : All IsPrice (default_usd_card {F = F})
  default_prices =
      (at_price 400, (at_price 550, (at_price 800, (at_price 1000, (at_price 250, tt)))))
    where
      at_price : (n : ℕ) → f.lit 0 1 ≼ f.lit n 100
      at_price n = o.lit_mono 0 1 n 100 (omega arith) (omega arith) (omega arith)

  -- The band round a price, from a fraction up to 1 to one from 1 on, holds the price.
  band :
      (a : F) (n d n' d' : ℕ)
      → of_ℕ 0 ≼ a
      → 0 < n
      → n ≤ d
      → d ≤ 1_000_000
      → 0 < d'
      → d' ≤ n'
      → n' ≤ 1_000_000
      → a ⊗ f.lit n d ≼ a ⊗ f.lit n' d'
  band a n d n' d' p q r s t u v =
      o.le_trans (a ⊗ f.lit n d) a (a ⊗ f.lit n' d') (o.mul_le a n d p q r s)
        (o.mul_ge a n' d' p t u v)

  clamp_from-InEnvelope :
      (published defaults : Dict String F)
      → All IsPrice defaults
      → InEnvelope defaults (clamp_from published defaults)
  unfolding clamp_from
  clamp_from-InEnvelope published [] h = tt
  clamp_from-InEnvelope published ((klass, default) ∷ defaults) h =
      let inside =
        clamp_bounds o (default ⊗ card_envelope_min_frac) (default ⊗ card_envelope_max_frac)
          (get_or klass published default)
          (band default 8 10 125 100 h.0 (omega arith) (omega arith) (omega arith) (omega arith)
            (omega arith) (omega arith)) in
      (refl, inside.0, inside.1, clamp_from-InEnvelope published defaults h.1)

  -- Whatever is published, NaN included, every class is priced in [0.8, 1.25] of its default.
  pub clamp_to_envelope-InEnvelope :
      (published : Dict String F) → InEnvelope default_usd_card (clamp_to_envelope published)
  unfolding clamp_to_envelope
  clamp_to_envelope-InEnvelope published =
      clamp_from-InEnvelope published default_usd_card default_prices

  defaults-InEnvelope :
      (defaults : Dict String F) → All IsPrice defaults → InEnvelope defaults defaults
  defaults-InEnvelope [] h = tt
  defaults-InEnvelope ((klass, default) ∷ defaults) h = (
    refl,
    o.mul_le default 8 10 h.0 (omega arith) (omega arith) (omega arith),
    o.mul_ge default 125 100 h.0 (omega arith) (omega arith) (omega arith),
    defaults-InEnvelope defaults h.1,
  )

  card_in_force-InEnvelope :
      (parsed : Option (ParsedCard F)) (fallback : ParsedCard F)
      → IsFallback fallback
      → InEnvelope default_usd_card (card_in_force parsed fallback).0
  card_in_force-InEnvelope none ([], floors, pricing) h =
      defaults-InEnvelope default_usd_card default_prices
  card_in_force-InEnvelope none (e ∷ card, floors, pricing) h = h
  card_in_force-InEnvelope (some (card, floors, pricing)) fallback h =
      clamp_to_envelope-InEnvelope card

  -- Whatever the fetch gave, or where it failed, the card in force has the compiled-in classes, each
  -- priced in [0.8, 1.25] of its default, if the fallback is empty or such a card.
  pub resolve_card-InEnvelope :
      (fetched : Option (Json F)) (fallback : ParsedCard F)
      → IsFallback fallback
      → InEnvelope default_usd_card (resolve_card fetched fallback).0
  unfolding resolve_card
  resolve_card-InEnvelope none fallback h = card_in_force-InEnvelope none fallback h
  resolve_card-InEnvelope (some payload) fallback h =
      card_in_force-InEnvelope (parse_price_card payload) fallback h

module _ {F : Type 0} ⦃f : Float F⦄ where
  -- A floor of a known class, in the floor band round its default.
  abbrev pub FloorInBand : String → F → Type 0
  FloorInBand klass floor =
      (default : F) × (lookup klass default_usd_card ≡ some default)
      × (default ⊗ floor_envelope_min_frac ≼ floor)
      × (floor ≼ default ⊗ floor_envelope_max_frac)

module _ {F : Type 0} ⦃f : Float F⦄ (o : IsOrdered F) where
  add_floor-InBand :
      (klass : String) (default value : Option F) (floors : Dict String F)
      → lookup klass default_usd_card ≡ default
      → All (λ e. FloorInBand e.0 e.1) floors
      → All (λ e. FloorInBand e.0 e.1) (add_floor klass default value floors)
  add_floor-InBand klass none value floors known h = h
  add_floor-InBand klass (some default) none floors known h = h
  add_floor-InBand klass (some default) (some value) floors known h =
      elim (Bool-cases (le value (of_ℕ 0))) [
        | inl dropped ↦ rw dropped h
        | inr kept ↦ rw kept (
            All-insert FloorInBand klass (clamp_floor default value) floors h
              (default, known, inside.0, inside.1))
      ]
    where
      inside :
          (default ⊗ floor_envelope_min_frac ≼ clamp_floor default value)
          × (clamp_floor default value ≼ default ⊗ floor_envelope_max_frac)
      inside =
          clamp_bounds o (default ⊗ floor_envelope_min_frac) (default ⊗ floor_envelope_max_frac)
            value
            (band o default 5 10 125 100
              (All-lookup (λ k v. of_ℕ 0 ≼ v) klass default default_usd_card (default_prices o)
                known)
              (omega arith) (omega arith) (omega arith) (omega arith) (omega arith) (omega arith))

  floors_from-InBand :
      (raw : Dict String (Json F)) (floors : Dict String F)
      → All (λ e. FloorInBand e.0 e.1) floors
      → All (λ e. FloorInBand e.0 e.1) (floors_from raw floors)
  unfolding floors_from
  floors_from-InBand [] floors h = h
  floors_from-InBand ((key, value) ∷ raw) floors h =
      floors_from-InBand raw _ (add_floor-InBand (upper key) _ (as_num value) floors refl h)

  some_floors :
      (d : Dict String F) {floors : Dict String F} → floors_or_none d ≡ some floors → d ≡ floors
  some_floors [] h = cc
  some_floors (e ∷ d) h = cc

  floors_of_raw-InBand :
      (raw : Option (Fields F)) {floors : Dict String F}
      → floors_of_raw raw ≡ some floors
      → All (λ e. FloorInBand e.0 e.1) floors
  unfolding floors_of_raw
  floors_of_raw-InBand none h = cc
  floors_of_raw-InBand (some raw) h =
      subst (All (λ e. FloorInBand e.0 e.1)) (some_floors (floors_from (entries raw) []) h)
        (floors_from-InBand (entries raw) [] tt)

  -- Every floor that a published card can set is one of a known class, in [0.5, 1.25] of its default.
  pub floors_from_payload-InBand :
      (payload : Fields F) {floors : Dict String F}
      → floors_from_payload payload ≡ some floors
      → All (λ e. FloorInBand e.0 e.1) floors
  unfolding floors_from_payload
  floors_from_payload-InBand payload h = floors_of_raw-InBand (as_obj (get "floors" payload)) h
