-- ===== src/Run.antt =====
-- One cycle of validator/validator.py: `run_cycle`, and `run_forever` as one cycle after another. What the
-- services answer is an argument. Logs, metrics and what a publisher writes to the store are left out.
pub mod Entitled
pub mod Spaced
pub mod Unpriced
use kubetee_subnet.Base.{
  ℕ, ◌*◌, ℤ, ◌&&◌, not, nat_eq, Bool, true, false, Option, none, some, List, [], String, string_eq,
  if◌then◌else◌, and_then, is_empty, Result, ok, err,
}
use kubetee_subnet.Dict.{Dict}
use kubetee_subnet.Float.{Float, ◌⊘◌, of_ℕ}
use kubetee_subnet.Json.{Json, Fields}
use kubetee_subnet.Freshness.{Clock}
use kubetee_subnet.Market.{CacheFile, CacheError}
use kubetee_subnet.TargonFeed.{
  TargonPayoutFeed, set_manual_floors, set_pricing_flags, Tiers, resolve_in, effective_card,
}
use kubetee_subnet.TargonFeed
use kubetee_subnet.PriceCard.{CardError, ParsedCard, ResolvedCard}
use kubetee_subnet.Cycle.{Role, card_step, kept, no_card}
use kubetee_subnet.Epoch.{
  Miner, Submitter, Answers, Submission, tempo_from_chain, set_weights_once_per_epoch,
  pad_to_metagraph, new_submitter,
}
use kubetee_subnet.Scoring.{MinerInput, ScoreWeights, ScoringError, compute_weights}
use kubetee_subnet.Chain.{Graph, ChainState, new_chain, metagraph, set_weights}
use kubetee_subnet.PriceFeed.{PriceFeed, is_zero, new_feed}
use kubetee_subnet.Rates.{Feeds, Priced, no_price, broken, priced, cycle_rates}
use kubetee_subnet.Inputs.{metagraph_clusters, nodes_of, inputs_of}

pub record CycleConfig (F : Type 0) : Type 0 where
  pub role : Role F
  pub owner_uid : ℕ
  pub owner_miner_uid : ℕ
  pub dry_run : Bool

pub record Validator (F : Type 0) : Type 0 where
  pub chain : ChainState F
  pub price_feed : PriceFeed F
  pub targon : TargonPayoutFeed F
  -- `_last_card`, `_last_floors` and `_last_pricing`
  pub last : ParsedCard F
  pub submitter : Submitter

-- What is answered during one cycle.
pub record World (F : Type 0) : Type 0 where
  pub graph : Option (Graph F)
  -- `none` is a RancherEvidenceError.
  pub clusters : Option (List (Fields F))
  pub list_nodes : String → Option (List (Fields F))
  pub published_card : Option (Json F)
  pub tiers : Tiers F
  pub tiers_again : Tiers F
  pub lium_live : Option (Dict String F)
  pub lium_disk : CacheFile F
  pub feeds : Feeds F
  pub clock : Clock F
  -- The tempo that scoring reads, and the answers to the submission. `accepts` is the SDK's.
  pub scoring : Answers (Dict ℕ F)
  pub submission : Answers (Dict ℕ F)

-- A cycle that reached its submission.
pub record Cycled (F : Type 0) : Type 0 where
  pub miners : List Miner
  pub registered : List (Fields F)
  pub nodes_by_cluster : Dict String (List (Fields F))
  pub scores : ScoreWeights F
  pub weights : Dict ℕ F
  pub sent : List (Submission (Dict ℕ F))

pub data CycleOutcome (F : Type 0) : Type 0 where
  -- `metrics.record_skip(reason)`
  skipped : String → CycleOutcome F
  -- An exception, which `run_forever` counts as `unexpected`.
  raised : CycleOutcome F
  cycled : Cycled F → CycleOutcome F

-- The submissions of a cycle.
abbrev pub sent_of : {F : Type 0} → CycleOutcome F → List (Submission (Dict ℕ F))
sent_of (skipped reason) = []
sent_of raised = []
sent_of (cycled c) = c.sent

module _ {F : Type 0} ⦃f : Float F⦄ where
  -- `__init__`, with the feed's price cache and the committed card's overrides.
  unfoldable pub new_validator : Option (Json F) → Dict String F → Validator F
  new_validator cache usd_card_override = record {
    chain = new_chain;
    price_feed = new_feed cache;
    targon = TargonFeed.new usd_card_override;
    last = no_card;
    submitter = new_submitter;
  }

  -- The clusters and their nodes.
  abbrev pub evidence : World F → Option (List (Fields F) × Dict String (List (Fields F)))
  evidence w =
      and_then w.clusters (λ cs. and_then (nodes_of w.list_nodes cs []) (λ d. some (cs, d)))

  -- `effective, _ = …`
  abbrev pub without_source :
      Result CacheError (Dict String F × String × TargonPayoutFeed F)
      → Result CacheError (Dict String F × TargonPayoutFeed F)
  without_source (err e) = err e
  without_source (ok (prices, source, feed)) = ok (prices, feed)

  abbrev pub behind :
      Result CacheError (Dict String F × String)
      → Result CacheError (Dict String F × TargonPayoutFeed F)
      → Result CacheError (Dict String F × TargonPayoutFeed F)
  behind (err e) next = err e
  behind (ok r) next = next

  -- `_targon_card`, which resolves the prices twice.
  unfoldable pub targon_card :
      World F → TargonPayoutFeed F → Result CacheError (Dict String F × TargonPayoutFeed F)
  targon_card w targon =
      behind (resolve_in targon w.tiers)
        (without_source (effective_card targon w.tiers_again w.lium_live w.lium_disk))

  -- `hours_per_epoch`
  abbrev pub hours_of : World F → F
  hours_of w = of_ℕ (tempo_from_chain w.scoring * 12) ⊘ of_ℕ 3600

  -- The chain's `set_weights`, which refuses an empty dict.
  abbrev pub guarded : Answers (Dict ℕ F) → Answers (Dict ℕ F)
  guarded a = record a { accepts = set_weights a.accepts }

  abbrev pub finish :
      List Miner
      → List (Fields F)
      → Dict String (List (Fields F))
      → ScoreWeights F
      → Dict ℕ F
      → List (Submission (Dict ℕ F))
      → CycleOutcome F
  finish miners registered nodes scores weights sent = cycled (record {
    miners = miners;
    registered = registered;
    nodes_by_cluster = nodes;
    scores = scores;
    weights = weights;
    sent = sent;
  })

  module _ (c : CycleConfig F) (w : World F) where
    -- From the padding on.
    unfoldable pub submit :
        List Miner
        → List (Fields F)
        → Dict String (List (Fields F))
        → ScoreWeights F
        → Validator F
        → CycleOutcome F × Validator F
    submit miners registered nodes scores v =
        let weights = pad_to_metagraph scores.weights miners in
        let step = set_weights_once_per_epoch (guarded w.submission) weights v.submitter in
        if c.dry_run then (finish miners registered nodes scores weights [], v) else (
          finish miners registered nodes scores weights step.sent,
          record v { submitter = step.state },
        )

    -- The line that logs the payout divides by the price of an alpha, which may have been rounded to 0.
    abbrev pub with_scores :
        List Miner
        → List (Fields F)
        → Dict String (List (Fields F))
        → F
        → Validator F
        → Result ScoringError (ScoreWeights F)
        → CycleOutcome F × Validator F
    with_scores miners registered nodes per_alpha v (err e) = (skipped "scoring", v)
    with_scores miners registered nodes per_alpha v (ok scores) =
        if is_zero per_alpha && not (is_empty scores.miner_usd)
        then (raised, v)
        else if is_empty scores.weights
        then (skipped "scoring", v)
        else submit miners registered nodes scores v

    abbrev pub with_inputs :
        List Miner
        → List (Fields F)
        → Dict String (List (Fields F))
        → Dict String F
        → F
        → F
        → Validator F
        → Option (List (MinerInput F))
        → CycleOutcome F × Validator F
    with_inputs miners registered nodes effective per_alpha pool v none = (raised, v)
    with_inputs miners registered nodes effective per_alpha pool v (some inputs) =
        with_scores miners registered nodes per_alpha v
          (compute_weights inputs effective per_alpha (hours_of w) c.owner_uid pool)

module _ {F : Type 0} ⦃f : Float F⦄ (parse_int : String → Option ℤ) (c : CycleConfig F)
    (w : World F) (miners : List Miner) (clusters : List (Fields F))
    (nodes : Dict String (List (Fields F))) where
  abbrev pub with_registered :
      Dict String F → F → F → Validator F → Option (List (Fields F)) → CycleOutcome F × Validator F
  with_registered effective per_alpha pool v none = (raised, v)
  with_registered effective per_alpha pool v (some registered) =
      with_inputs c w miners registered nodes effective per_alpha pool v
        (inputs_of parse_int w.clock c.owner_miner_uid clusters registered nodes miners)

  abbrev pub with_rates : Dict String F → Validator F → Priced F → CycleOutcome F × Validator F
  with_rates effective v no_price = (skipped "price_feed", v)
  with_rates effective v broken = (raised, v)
  with_rates effective v (priced per_alpha usd pool) =
      with_registered effective per_alpha pool v (metagraph_clusters miners clusters)

  abbrev pub with_effective :
      Validator F
      → Result CacheError (Dict String F × TargonPayoutFeed F)
      → CycleOutcome F × Validator F
  with_effective v (err e) = (raised, v)
  with_effective v (ok (effective, targon)) =
      let (rates, feed, chain) = cycle_rates w.feeds v.price_feed v.chain in
      with_rates effective (record v { targon = targon; price_feed = feed; chain = chain }) rates

  -- What is kept of the card, here and in the feed.
  abbrev pub keep_card : ResolvedCard F → Validator F → Validator F
  keep_card r v = record v {
    last = kept r;
    targon = set_pricing_flags r.2 (set_manual_floors r.1 v.targon);
  }

  abbrev pub after_card :
      Validator F → Result CardError (ResolvedCard F) → CycleOutcome F × Validator F
  after_card v (err e) = (raised, v)
  after_card v (ok r) = let v' = keep_card r v in with_effective v' (targon_card w v'.targon)

module _ {F : Type 0} ⦃f : Float F⦄ (parse_int : String → Option ℤ) (c : CycleConfig F)
    (w : World F) where
  abbrev pub with_evidence :
      List Miner
      → Validator F
      → Option (List (Fields F) × Dict String (List (Fields F)))
      → CycleOutcome F × Validator F
  with_evidence miners v none = (skipped "rancher", v)
  with_evidence miners v (some (clusters, nodes)) =
      after_card parse_int c w miners clusters nodes v (card_step c.role w.published_card v.last)

  abbrev pub with_miners :
      Validator F → Option (List Miner) × ChainState F → CycleOutcome F × Validator F
  with_miners v (none, chain) = (raised, record v { chain = chain })
  with_miners v (some miners, chain) =
      with_evidence miners (record v { chain = chain }) (evidence w)

  unfoldable pub run_cycle : Validator F → CycleOutcome F × Validator F
  run_cycle v = with_miners v (metagraph w.graph v.chain)
