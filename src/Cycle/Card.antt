-- ===== src/Cycle/Card.antt =====
-- The cards that a reader of validator/validator.py adopts.
use kubetee_subnet.Base.{◌≡◌, ◌⊎◌, Option, ok}
use kubetee_subnet.Dict.{Dict}
use kubetee_subnet.Float.{Float}
use kubetee_subnet.Json.{Json}
use kubetee_subnet.PriceCard.{ParsedCard, ResolvedCard}
use kubetee_subnet.Cycle.{reader, card_step, kept, no_card}

-- The cycles of a reader from its start, and what it keeps after them. A cycle that raises ends the
-- process, or leaves what is kept as it is.
pub data ReaderRun {F : Type 0} ⦃f : Float F⦄ : ParsedCard F → Type 0 where
  started : ReaderRun no_card
  cycled :
      {last : ParsedCard F} (published : Option (Json F)) (r : ResolvedCard F)
      → ReaderRun last
      → card_step reader published last ≡ ok r
      → ReaderRun (kept r)

module _ {F : Type 0} ⦃f : Float F⦄ where
  -- A card that was published, or the one that was kept.
  abbrev pub IsSourced : ResolvedCard F → ParsedCard F → Type 0
  IsSourced r last = (r.3 ≡ "published") ⊎ ((r.3 ≡ "cache") × (r.0 ≡ last.0))
