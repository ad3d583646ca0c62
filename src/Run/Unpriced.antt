-- ===== src/Run/Unpriced.antt =====
-- What of the adopted card enters a cycle of validator/validator.py: its floors and its switches.
use kubetee_subnet.Base.{
  ℤ, ◌≡◌, refl, ap, sym, ◌∙◌, inl, inr, not, ◌&&◌, Bool-cases, is_empty, Option, none, some, List,
  String, string_eq, Result, ok, err,
}
use kubetee_subnet.Dict.{Dict}
use kubetee_subnet.Float.{Float}
use kubetee_subnet.Json.{Json, Fields}
use kubetee_subnet.Market.{CacheError}
use kubetee_subnet.TargonFeed.{TargonPayoutFeed}
use kubetee_subnet.PriceCard.{CardError, ResolvedCard}
use kubetee_subnet.Cycle.{card_step}
use kubetee_subnet.Epoch.{Miner}
use kubetee_subnet.Scoring.{MinerInput, ScoreWeights, ScoringError}
use kubetee_subnet.Chain.{ChainState, metagraph}
use kubetee_subnet.PriceFeed.{is_zero}
use kubetee_subnet.Rates.{Priced, no_price, broken, priced}
use kubetee_subnet.Run.{
  CycleConfig, World, Validator, targon_card, submit, with_scores, with_inputs, with_registered,
  with_rates, with_effective, keep_card, after_card, evidence, with_evidence, with_miners,
  run_cycle,
}

module _ {F : Type 0} ⦃f : Float F⦄ (c : CycleConfig F) (w : World F) (miners : List Miner)
    (registered : List (Fields F)) (nodes : Dict String (List (Fields F))) (v v' : Validator F)
    (same : v.submitter ≡ v'.submitter) where
  submit-same :
      (scores : ScoreWeights F)
      → (submit c w miners registered nodes scores v).0
        ≡ (submit c w miners registered nodes scores v').0
  unfolding submit
  submit-same scores = elim (Bool-cases c.dry_run) [ inl e ↦ rw e refl | inr e ↦ rw (e, same) refl ]

  with_scores-same :
      (per_alpha : F) (r : Result ScoringError (ScoreWeights F))
      → (with_scores c w miners registered nodes per_alpha v r).0
        ≡ (with_scores c w miners registered nodes per_alpha v' r).0
  with_scores-same per_alpha (err e) = refl
  with_scores-same per_alpha (ok scores) =
      elim (Bool-cases (is_zero per_alpha && not (is_empty scores.miner_usd))) [
        | inl e ↦ rw e refl
        | inr e ↦ elim (Bool-cases (is_empty scores.weights)) [
          | inl g ↦ rw (e, g) refl
          | inr g ↦ rw (e, g) (submit-same scores)
        ]
      ]

  with_inputs-same :
      (effective : Dict String F) (per_alpha pool : F) (o : Option (List (MinerInput F)))
      → (with_inputs c w miners registered nodes effective per_alpha pool v o).0
        ≡ (with_inputs c w miners registered nodes effective per_alpha pool v' o).0
  with_inputs-same effective per_alpha pool none = refl
  with_inputs-same effective per_alpha pool (some inputs) = with_scores-same per_alpha _

module _ {F : Type 0} ⦃f : Float F⦄ (parse_int : String → Option ℤ) (c : CycleConfig F)
    (w : World F) (miners : List Miner) (clusters : List (Fields F))
    (nodes : Dict String (List (Fields F))) where
  with_registered-same :
      (v v' : Validator F)
      → v.submitter ≡ v'.submitter
      → (effective : Dict String F) (per_alpha pool : F) (o : Option (List (Fields F)))
      → (with_registered parse_int c w miners clusters nodes effective per_alpha pool v o).0
        ≡ (with_registered parse_int c w miners clusters nodes effective per_alpha pool v' o).0
  with_registered-same v v' same effective per_alpha pool none = refl
  with_registered-same v v' same effective per_alpha pool (some registered) =
      with_inputs-same c w miners registered nodes v v' same effective per_alpha pool _

  with_rates-same :
      (v v' : Validator F)
      → v.submitter ≡ v'.submitter
      → (effective : Dict String F) (p : Priced F)
      → (with_rates parse_int c w miners clusters nodes effective v p).0
        ≡ (with_rates parse_int c w miners clusters nodes effective v' p).0
  with_rates-same v v' same effective no_price = refl
  with_rates-same v v' same effective broken = refl
  with_rates-same v v' same effective (priced per_alpha usd pool) =
      with_registered-same v v' same effective per_alpha pool _

  with_effective-same :
      (v v' : Validator F)
      → v.submitter ≡ v'.submitter
      → v.price_feed ≡ v'.price_feed
      → v.chain ≡ v'.chain
      → (o : Result CacheError (Dict String F × TargonPayoutFeed F))
      → (with_effective parse_int c w miners clusters nodes v o).0
        ≡ (with_effective parse_int c w miners clusters nodes v' o).0
  with_effective-same v v' same feed chain (err e) = refl
  with_effective-same v v' same feed chain (ok (effective, targon)) =
      rw (feed, chain) (with_rates-same _ _ same effective _)

  after_card-same :
      (v : Validator F) (r r' : ResolvedCard F)
      → r.1 ≡ r'.1
      → r.2 ≡ r'.2
      → (after_card parse_int c w miners clusters nodes v (ok r)).0
        ≡ (after_card parse_int c w miners clusters nodes v (ok r')).0
  after_card-same v r r' floors pricing =
      with_effective-same (keep r) (keep r') refl refl refl (targon_card w (keep r).targon)
      ∙ ap (λ t. (with_effective parse_int c w miners clusters nodes (keep r') (targon_card w t)).0)
          same_feed
    where
      keep : ResolvedCard F → Validator F
      keep q = keep_card parse_int c w miners clusters nodes q v

      same_feed : (keep r).targon ≡ (keep r').targon
      same_feed = rw (floors, pricing) refl

module _ {F : Type 0} ⦃f : Float F⦄ (parse_int : String → Option ℤ) (c : CycleConfig F)
    (w : World F) where
  -- The same answers, with another published card.
  abbrev pub with_card : Option (Json F) → World F
  with_card p = record w { published_card = p }

  after_card-world :
      (p : Option (Json F)) (miners : List Miner) (clusters : List (Fields F))
      (nodes : Dict String (List (Fields F))) (v : Validator F)
      (o : Result CardError (ResolvedCard F))
      → after_card parse_int c (with_card p) miners clusters nodes v o
        ≡ after_card parse_int c w miners clusters nodes v o
  unfolding targon_card submit
  after_card-world p miners clusters nodes v o = refl

  module _ (p p' : Option (Json F)) (r r' : ResolvedCard F) (floors : r.1 ≡ r'.1)
      (pricing : r.2 ≡ r'.2) where
    with_evidence-same :
        (miners : List Miner) (v : Validator F)
        (o : Option (List (Fields F) × Dict String (List (Fields F))))
        → card_step c.role p v.last ≡ ok r
        → card_step c.role p' v.last ≡ ok r'
        → (with_evidence parse_int c (with_card p) miners v o).0
          ≡ (with_evidence parse_int c (with_card p') miners v o).0
    with_evidence-same miners v none h h' = refl
    with_evidence-same miners v (some (clusters, nodes)) h h' =
        ap (λ t. t.0) (after_card-world p miners clusters nodes v (card_step c.role p v.last))
        ∙ ap (λ t. (after_card parse_int c w miners clusters nodes v t).0) h
        ∙ after_card-same parse_int c w miners clusters nodes v r r' floors pricing
        ∙ ap (λ t. (after_card parse_int c w miners clusters nodes v t).0) (sym h')
        ∙ ap (λ t. t.0)
            (sym (after_card-world p' miners clusters nodes v (card_step c.role p' v.last)))

    with_miners-same :
        (v : Validator F) (read : Option (List Miner) × ChainState F)
        → card_step c.role p v.last ≡ ok r
        → card_step c.role p' v.last ≡ ok r'
        → (with_miners parse_int c (with_card p) v read).0
          ≡ (with_miners parse_int c (with_card p') v read).0
    with_miners-same v (none, chain) h h' = refl
    with_miners-same v (some miners, chain) h h' =
        with_evidence-same miners (record v { chain = chain }) (evidence w) h h'

    -- The prices of the published card do not enter a cycle: whichever of two cards is adopted, with the
    -- same floors and switches, the cycle comes to the same, its weights and its submission included.
    -- (A cycle is priced with the feed's own card, which is the compiled-in one with the overrides.)
    pub run_cycle-unpriced :
        (v : Validator F)
        → card_step c.role p v.last ≡ ok r
        → card_step c.role p' v.last ≡ ok r'
        → (run_cycle parse_int c (with_card p) v).0 ≡ (run_cycle parse_int c (with_card p') v).0
    unfolding run_cycle
    run_cycle-unpriced v h h' = with_miners-same v (metagraph w.graph v.chain) h h'
