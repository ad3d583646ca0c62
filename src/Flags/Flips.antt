-- ===== src/Flags/Flips.antt =====
-- What a flip of validator/scripts/set_pricing_flags.py does.
use mathlib.Core.Path.{subst}
use mathlib.Core.Option.{Option}
use kubetee_subnet.Base.{
  ◌≡◌, refl, sym, ap, ◌∙◌, inl, inr, not, ◌&&◌, ◌||◌, Bool, true, false, none, some, String,
  string_eq, ◌==◌, Bool-cases,
}
use kubetee_subnet.Dict.{Dict, lookup}
use kubetee_subnet.Float.{Float}
use kubetee_subnet.Json.{obj, Fields, entries}
use kubetee_subnet.PriceCard.{ParsedCard, parse_price_card}
use kubetee_subnet.Flags.{
  Args, written, desired_of, same_switches, flipped, write_desired, flip_parsed, set_flags,
}
use kubetee_subnet.Flags.Card.{
  asked_or, two, is_touched, desired_of-two, untouched, switch_of, pricing-two, flipped-parse,
}

module _ {F : Type 0} ⦃f : Float F⦄ where
  -- What a card that was written comes to, for a reader and as an object.
  pub record IsFlipped (args : Args) (card card' : Fields F) : Type 0 where
    pub prices : Dict String F
    pub floors : Option (Dict String F)
    pub targon : Bool
    pub lium : Bool
    pub before : parse_price_card (obj card) ≡ some (prices, floors, two targon lium)
    pub after :
        parse_price_card (obj card')
        ≡ some (prices, floors, two (asked_or args.targon targon) (asked_or args.lium lium))
    pub others :
        (k : String) → is_touched k ≡ false → lookup k (entries card') ≡ lookup k (entries card)

  written-injective : (a b : Fields F) → written a ≡ written b → a ≡ b
  written-injective a b h = cc h

  write_desired-IsFlipped :
      (args : Args) (card card' : Fields F) (writable : Bool) (now : F) (r : ParsedCard F)
      (d : Option (Dict String Bool))
      → parse_price_card (obj card) ≡ some r
      → desired_of args r.2 ≡ d
      → write_desired card r.2 writable now d ≡ written card'
      → IsFlipped args card card'
  write_desired-IsFlipped args card card' writable now r none p q h = cc h
  write_desired-IsFlipped args card card' writable now r (some d) p q h =
      elim (Bool-cases (same_switches d r.2)) [
        | inl e ↦ cc (rw e at h)
        | inr e ↦ elim (Bool-cases writable) [
          | inr g ↦ cc (rw (e, g) at h)
          | inl g ↦
              let made = written-injective _ card' (rw (e, g) at h) in
              let b = switch_of "targon_pricing" true card in
              let c = switch_of "lium_pricing" false card in
              let pricing = (flipped-parse card b c now r p).0 ∙ pricing-two card in
              let wanted = desired_of-two args b c d (ap (desired_of args) (sym pricing) ∙ q) in
              let is_made : flipped card (two (asked_or args.targon b) (asked_or args.lium c)) now
                  ≡ card' =
                ap (λ t. flipped card t now) (sym wanted) ∙ made in
              subst (IsFlipped args card) is_made (record {
                prices = r.0;
                floors = r.1;
                targon = b;
                lium = c;
                before = p ∙ ap (λ t. some (r.0, r.1, t)) pricing;
                after = (flipped-parse card _ _ now r p).1;
                others = untouched card _ _ now;
              })
        ]
      ]

  flip_parsed-IsFlipped :
      (args : Args) (card card' : Fields F) (writable : Bool) (now : F) (o : Option (ParsedCard F))
      → parse_price_card (obj card) ≡ o
      → flip_parsed args card writable now o ≡ written card'
      → IsFlipped args card card'
  flip_parsed-IsFlipped args card card' writable now none p h = cc h
  flip_parsed-IsFlipped args card card' writable now (some r) p h = elim (Bool-cases args.show) [
    | inl e ↦ cc (rw e at h)
    | inr e ↦ write_desired-IsFlipped args card card' writable now r _ p refl (rw e at h)
  ]

  -- Where the script writes a card, a reader parses from it the prices and the floors of the card that was
  -- published, each switch as it was asked for, and as it was where it was not; and all fields but the two
  -- switches and the time of publication are as they were.
  pub set_flags-IsFlipped :
      (args : Args) (access secret : String) (card card' : Fields F) (writable : Bool) (now : F)
      → set_flags args access secret (some card) writable now ≡ written card'
      → IsFlipped args card card'
  unfolding set_flags
  set_flags-IsFlipped args access secret card card' writable now h =
      elim (Bool-cases (not args.show && (access == "" || secret == ""))) [
        | inl e ↦ cc (rw e at h)
        | inr e ↦ flip_parsed-IsFlipped args card card' writable now _ refl (rw e at h)
      ]
