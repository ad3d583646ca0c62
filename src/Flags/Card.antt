-- ===== src/Flags/Card.antt =====
-- The card that validator/scripts/set_pricing_flags.py builds, as a reader parses it.
use mathlib.Core.Path.{subst}
use mathlib.Core.Option.{Option, some-injective}
use kubetee_subnet.Base.{
  ◌≡◌, refl, sym, ap, ◌∙◌, inl, inr, ◌||◌, Bool, true, false, none, some, [], ◌∷◌, String,
  string_eq, ◌==◌, Bool-cases, Option-cases, or_else, if◌then◌else◌, arith,
}
use kubetee_subnet.Base.Members.{and_then-some}
use kubetee_subnet.Dict.{Dict, lookup}
use kubetee_subnet.Dict.Laws.{lookup-insert}
use kubetee_subnet.Float.{Float}
use kubetee_subnet.Json.{
  Json, null, bool, num, obj, Fields, get, entries, of_entries, as_obj, as_bool,
}
use kubetee_subnet.PriceCard.{
  ParsedCard, parse_price_card, is_one, with_card, with_prices, prices_from, floors_from_payload,
  floors_of_raw, pricing_from_payload, pricing_from,
}
use kubetee_subnet.Flags.{Args, parse_flag, set_switch, desired_of, flipped}

-- What is asked for, or else what there was.
abbrev pub asked_or : Option String → Bool → Bool
asked_or none old = old
asked_or (some arg) old = or_else (parse_flag arg) old

abbrev pub two : Bool → Bool → Dict String Bool
two targon lium = ("targon", targon) ∷ ("lium", lium) ∷ []

-- The fields that a flip writes.
abbrev pub is_touched : String → Bool
is_touched k = "published_at" == k || "lium_pricing" == k || "targon_pricing" == k

set_targon :
    (o : Option String) (b c : Bool) (d : Dict String Bool)
    → set_switch "targon" o (two b c) ≡ some d
    → d ≡ two (asked_or o b) c
set_targon none b c d h = sym (some-injective _ d h)
set_targon (some arg) b c d h = elim (Option-cases (parse_flag arg)) [
  | inl e ↦ cc (rw e at h)
  | inr (value, e) ↦ rw e (sym (some-injective _ d (rw e at h)))
]

set_lium :
    (o : Option String) (b c : Bool) (d : Dict String Bool)
    → set_switch "lium" o (two b c) ≡ some d
    → d ≡ two b (asked_or o c)
set_lium none b c d h = sym (some-injective _ d h)
set_lium (some arg) b c d h = elim (Option-cases (parse_flag arg)) [
  | inl e ↦ cc (rw e at h)
  | inr (value, e) ↦ rw e (sym (some-injective _ d (rw e at h)))
]

pub desired_of-two :
    (args : Args) (b c : Bool) (d : Dict String Bool)
    → desired_of args (two b c) ≡ some d
    → d ≡ two (asked_or args.targon b) (asked_or args.lium c)
desired_of-two args b c d h =
    let (d1, e1, h1) = and_then-some (set_switch "targon" args.targon (two b c)) _ d h in
    set_lium args.lium (asked_or args.targon b) c d (rw (set_targon args.targon b c d1 e1) at h1)

module _ {F : Type 0} ⦃f : Float F⦄ where
  entries-of_entries : (d : Dict String (Json F)) → entries (of_entries d) ≡ d
  entries-of_entries [] = refl
  entries-of_entries ((k, v) ∷ d) =
      ap (λ (t : Dict String (Json F)). (k, v) ∷ t) (entries-of_entries d)

  lookup-flipped :
      (card : Fields F) (b c : Bool) (now : F) (k : String)
      → lookup k (entries (flipped card (two b c) now)) ≡ (
          if "published_at" == k
          then some (num now)
          else if "lium_pricing" == k
          then some (bool c)
          else if "targon_pricing" == k
          then some (bool b)
          else lookup k (entries card))
  unfolding flipped
  lookup-flipped card b c now k =
      rw entries-of_entries (rw lookup-insert (rw lookup-insert (rw lookup-insert refl)))

  pub untouched :
      (card : Fields F) (b c : Bool) (now : F) (k : String)
      → is_touched k ≡ false
      → lookup k (entries (flipped card (two b c) now)) ≡ lookup k (entries card)
  untouched card b c now k h = lookup-flipped card b c now k ∙ ground arith

  module _ (card card' : Fields F)
      (floors_kept : floors_from_payload card' ≡ floors_from_payload card) where
    with_prices-kept :
        (o : Option (Dict String F)) (r : ParsedCard F)
        → with_prices card o ≡ some r
        → (r.2 ≡ pricing_from_payload card)
          × (with_prices card' o ≡ some (r.0, r.1, pricing_from_payload card'))
    with_prices-kept none r h = cc h
    with_prices-kept (some []) r h = cc h
    with_prices-kept (some (e ∷ out)) r h =
        subst
          (λ t.
            (t.2 ≡ pricing_from_payload card)
            × (with_prices card' (some (e ∷ out)) ≡ some (t.0, t.1, pricing_from_payload card')))
          (some-injective _ r h) (refl, rw floors_kept refl)

    with_card-kept :
        (o : Option (Fields F)) (r : ParsedCard F)
        → with_card card o ≡ some r
        → (r.2 ≡ pricing_from_payload card)
          × (with_card card' o ≡ some (r.0, r.1, pricing_from_payload card'))
    with_card-kept none r h = cc h
    with_card-kept (some prices) r h = with_prices-kept (prices_from (entries prices) []) r h

    parse-kept :
        get "version" card' ≡ get "version" card
        → get "usd_per_gpu_hour" card' ≡ get "usd_per_gpu_hour" card
        → (r : ParsedCard F) → parse_price_card (obj card) ≡ some r
        → (r.2 ≡ pricing_from_payload card)
          × (parse_price_card (obj card') ≡ some (r.0, r.1, pricing_from_payload card'))
    unfolding parse_price_card
    parse-kept version prices r h = elim (Bool-cases (is_one (get "version" card))) [
      | inl e ↦
          rw (version, e, prices)
            (with_card-kept (as_obj (get "usd_per_gpu_hour" card)) r (rw e at h))
      | inr e ↦ cc (rw e at h)
    ]

  -- What the card's own switches say.
  abbrev pub switch_of : String → Bool → Fields F → Bool
  switch_of name default card = or_else (as_bool (get name card)) default

  pub pricing-two :
      (card : Fields F)
      → pricing_from_payload card
        ≡ two (switch_of "targon_pricing" true card) (switch_of "lium_pricing" false card)
  unfolding pricing_from_payload pricing_from
  pricing-two card = refl

  pub flipped-parse :
      (card : Fields F) (b c : Bool) (now : F) (r : ParsedCard F)
      → parse_price_card (obj card) ≡ some r
      → (r.2 ≡ pricing_from_payload card)
        × (parse_price_card (obj (flipped card (two b c) now)) ≡ some (r.0, r.1, two b c))
  unfolding floors_from_payload
  flipped-parse card b c now r h =
      let at : (k : String)
          → is_touched k ≡ false
          → get k (flipped card (two b c) now) ≡ get k card =
        λ k t. ap (λ o. or_else o null) (untouched card b c now k t) in
      let (old, new) =
        parse-kept card (flipped card (two b c) now)
          (ap (λ v. floors_of_raw (as_obj v)) (at "floors" refl)) (at "version" refl)
          (at "usd_per_gpu_hour" refl) r h in
      (
        old,
        new
            ∙ rw
                (
                  pricing-two,
                  lookup-flipped card b c now "targon_pricing",
                  lookup-flipped card b c now "lium_pricing",
                )
                refl,
      )
