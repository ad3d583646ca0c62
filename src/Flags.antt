-- ===== src/Flags.antt =====
-- validator/scripts/set_pricing_flags.py: the owner's switch of the pricing mode, in the published card.
-- Command-line parsing and printing are left out; an exit is a value.
pub mod Card
pub mod Flips
use kubetee_subnet.Base.{
  ◌&&◌, ◌||◌, not, nat_eq, Bool, true, false, Option, none, some, List, [], ◌∷◌, String, string_eq,
  ◌==◌, if◌then◌else◌, and_then, length,
}
use kubetee_subnet.Text.{append, strip, lower}
use kubetee_subnet.Dict.{Dict, lookup, insert}
use kubetee_subnet.Float.{Float}
use kubetee_subnet.Json.{Json, bool, num, obj, Fields, entries, of_entries}
use kubetee_subnet.PriceCard.{ParsedCard, parse_price_card}

unfoldable pub parse_flag : String → Option Bool
parse_flag raw =
    let value = lower (strip raw) in
    if value == "on" || value == "1" || value == "true" || value == "yes"
    then some true
    else if value == "off" || value == "0" || value == "false" || value == "no"
    then some false
    else none

pub record Args : Type 0 where
  pub targon : Option String
  pub lium : Option String
  pub show : Bool

-- How the script ends: with the card that it wrote, or without a write.
pub data Exit (F : Type 0) : Type 0 where
  no_credentials : Exit F
  unreadable : Exit F
  invalid_card : Exit F
  shown : Exit F
  bad_value : Exit F
  no_change : Exit F
  not_written : Exit F
  written : Fields F → Exit F

-- One pass of the loop over the two switches; `none` is a value that is none of the words.
abbrev pub set_switch : String → Option String → Dict String Bool → Option (Dict String Bool)
set_switch name none desired = some desired
set_switch name (some arg) desired =
    and_then (parse_flag arg) (λ value. some (insert name value desired))

abbrev pub desired_of : Args → Dict String Bool → Option (Dict String Bool)
desired_of args pricing =
    and_then (set_switch "targon" args.targon pricing) (set_switch "lium" args.lium)

abbrev pub same_bool : Option Bool → Bool → Bool
same_bool none b = false
same_bool (some true) b = b
same_bool (some false) b = not b

-- `a == b`, on dicts
abbrev pub are_in : Dict String Bool → Dict String Bool → Bool
are_in [] b = true
are_in ((k, v) ∷ a) b = same_bool (lookup k b) v && are_in a b

abbrev pub same_switches : Dict String Bool → Dict String Bool → Bool
same_switches a b = length a == length b && are_in a b

module _ {F : Type 0} ⦃f : Float F⦄ where
  -- `card[f"{name}_pricing"] = value`
  abbrev pub write_switches : Dict String Bool → Dict String (Json F) → Dict String (Json F)
  write_switches [] card = card
  write_switches ((name, value) ∷ desired) card =
      write_switches desired (insert (append name "_pricing") (bool value) card)

  -- The card with the switches and the time of the write.
  unfoldable pub flipped : Fields F → Dict String Bool → F → Fields F
  flipped card desired now =
      of_entries (insert "published_at" (num now) (write_switches desired (entries card)))

  abbrev pub write_desired :
      Fields F → Dict String Bool → Bool → F → Option (Dict String Bool) → Exit F
  write_desired card pricing writable now none = bad_value
  write_desired card pricing writable now (some desired) =
      if same_switches desired pricing
      then no_change
      else if writable
      then written (flipped card desired now)
      else not_written

  abbrev pub flip_parsed : Args → Fields F → Bool → F → Option (ParsedCard F) → Exit F
  flip_parsed args card writable now none = invalid_card
  flip_parsed args card writable now (some (prices, floors, pricing)) =
      if args.show then shown else write_desired card pricing writable now (desired_of args pricing)

  abbrev pub flip_card : Args → Bool → F → Option (Fields F) → Exit F
  flip_card args writable now none = unreadable
  flip_card args writable now (some card) =
      flip_parsed args card writable now (parse_price_card (obj card))

  -- `main`, on the two credentials, the card that was read and whether it can be written back.
  unfoldable pub set_flags : Args → String → String → Option (Fields F) → Bool → F → Exit F
  set_flags args access secret card writable now =
      if not args.show && (access == "" || secret == "")
      then no_credentials
      else flip_card args writable now card
