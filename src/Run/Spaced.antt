-- ===== src/Run/Spaced.antt =====
-- The submissions of `run_forever` in validator/validator.py, over all its cycles.
use kubetee_subnet.Base.{
  ℤ, ◌≡◌, refl, ◌⊎◌, inl, inr, ℕ, not, ◌&&◌, Option, none, some, List, [], ◌++◌, String, Bool-cases,
  Result, ok, err, is_empty,
}
use kubetee_subnet.Dict.{Dict}
use kubetee_subnet.Float.{Float}
use kubetee_subnet.Json.{Json, Fields}
use kubetee_subnet.Market.{CacheError}
use kubetee_subnet.TargonFeed.{TargonPayoutFeed}
use kubetee_subnet.PriceCard.{CardError, ResolvedCard}
use kubetee_subnet.Cycle.{card_step}
use kubetee_subnet.Epoch.{
  Miner, Submitter, Answers, Submission, set_weights_once_per_epoch, pad_to_metagraph,
}
use kubetee_subnet.Epoch.Once.{Lifetime, start, call, IsSpaced, set_weights_once_per_epoch-IsSpaced}
use kubetee_subnet.Scoring.{MinerInput, ScoreWeights, ScoringError, compute_weights}
use kubetee_subnet.Chain.{ChainState, metagraph}
use kubetee_subnet.PriceFeed.{is_zero}
use kubetee_subnet.Rates.{Priced, no_price, broken, priced, cycle_rates}
use kubetee_subnet.Inputs.{metagraph_clusters, inputs_of}
use kubetee_subnet.Run.{
  CycleConfig, Validator, World, CycleOutcome, sent_of, new_validator, evidence, targon_card,
  hours_of, guarded, submit, with_scores, with_inputs, with_registered, with_rates, with_effective,
  keep_card, after_card, with_evidence, with_miners, run_cycle,
}

module _ {F : Type 0} ⦃f : Float F⦄ where
  -- What a cycle comes to for the submissions: nothing is sent and nothing forgotten, or one call.
  abbrev IsCall : Submitter → CycleOutcome F × Validator F → Type 0
  IsCall s r =
      ((sent_of r.0 ≡ []) × (r.1.submitter ≡ s))
      ⊎ ((a : Answers (Dict ℕ F)) × (weights : Dict ℕ F) × (sent_of r.0
            ≡ (set_weights_once_per_epoch a weights s).sent)
          × (r.1.submitter ≡ (set_weights_once_per_epoch a weights s).state))

  module _ (c : CycleConfig F) (w : World F) (miners : List Miner) (registered : List (Fields F))
      (nodes : Dict String (List (Fields F))) where
    submit-IsCall :
        (scores : ScoreWeights F) (v : Validator F)
        → IsCall v.submitter (submit c w miners registered nodes scores v)
    unfolding submit
    submit-IsCall scores v = elim (Bool-cases c.dry_run) [
      | inl dry ↦ rw dry (inl (refl, refl))
      | inr wet ↦
          rw wet (inr (guarded w.submission, pad_to_metagraph scores.weights miners, refl, refl))
    ]

    with_scores-IsCall :
        (per_alpha : F) (v : Validator F) (r : Result ScoringError (ScoreWeights F))
        → IsCall v.submitter (with_scores c w miners registered nodes per_alpha v r)
    with_scores-IsCall per_alpha v (err e) = inl (refl, refl)
    with_scores-IsCall per_alpha v (ok scores) =
        elim (Bool-cases (is_zero per_alpha && not (is_empty scores.miner_usd))) [
          | inl e ↦ rw e (inl (refl, refl))
          | inr e ↦ elim (Bool-cases (is_empty scores.weights)) [
            | inl g ↦ rw (e, g) (inl (refl, refl))
            | inr g ↦ rw (e, g) (submit-IsCall scores v)
          ]
        ]

    with_inputs-IsCall :
        (effective : Dict String F) (per_alpha pool : F) (v : Validator F)
        (inputs : Option (List (MinerInput F)))
        → IsCall v.submitter
            (with_inputs c w miners registered nodes effective per_alpha pool v inputs)
    with_inputs-IsCall effective per_alpha pool v none = inl (refl, refl)
    with_inputs-IsCall effective per_alpha pool v (some inputs) =
        with_scores-IsCall per_alpha v
          (compute_weights inputs effective per_alpha (hours_of w) c.owner_uid pool)

module _ {F : Type 0} ⦃f : Float F⦄ (parse_int : String → Option ℤ) (c : CycleConfig F) where
  module _ (w : World F) (miners : List Miner) (clusters : List (Fields F))
      (nodes : Dict String (List (Fields F))) where
    with_registered-IsCall :
        (effective : Dict String F) (per_alpha pool : F) (v : Validator F)
        (registered : Option (List (Fields F)))
        → IsCall v.submitter (
            with_registered parse_int c w miners clusters nodes effective per_alpha pool v
              registered)
    with_registered-IsCall effective per_alpha pool v none = inl (refl, refl)
    with_registered-IsCall effective per_alpha pool v (some registered) =
        with_inputs-IsCall c w miners registered nodes effective per_alpha pool v
          (inputs_of parse_int w.clock c.owner_miner_uid clusters registered nodes miners)

    with_rates-IsCall :
        (effective : Dict String F) (v : Validator F) (rates : Priced F)
        → IsCall v.submitter (with_rates parse_int c w miners clusters nodes effective v rates)
    with_rates-IsCall effective v no_price = inl (refl, refl)
    with_rates-IsCall effective v broken = inl (refl, refl)
    with_rates-IsCall effective v (priced per_alpha usd pool) =
        with_registered-IsCall effective per_alpha pool v (metagraph_clusters miners clusters)

    with_effective-IsCall :
        (v : Validator F) (r : Result CacheError (Dict String F × TargonPayoutFeed F))
        → IsCall v.submitter (with_effective parse_int c w miners clusters nodes v r)
    with_effective-IsCall v (err e) = inl (refl, refl)
    with_effective-IsCall v (ok (effective, targon)) =
        let r = cycle_rates w.feeds v.price_feed v.chain in
        with_rates-IsCall effective (record v { targon = targon; price_feed = r.1; chain = r.2 })
          r.0

    after_card-IsCall :
        (v : Validator F) (r : Result CardError (ResolvedCard F))
        → IsCall v.submitter (after_card parse_int c w miners clusters nodes v r)
    after_card-IsCall v (err e) = inl (refl, refl)
    after_card-IsCall v (ok r) =
        let v' = keep_card parse_int c w miners clusters nodes r v in
        with_effective-IsCall v' (targon_card w v'.targon)

  module _ (w : World F) where
    with_evidence-IsCall :
        (miners : List Miner) (v : Validator F)
        (e : Option (List (Fields F) × Dict String (List (Fields F))))
        → IsCall v.submitter (with_evidence parse_int c w miners v e)
    with_evidence-IsCall miners v none = inl (refl, refl)
    with_evidence-IsCall miners v (some (clusters, nodes)) =
        after_card-IsCall w miners clusters nodes v (card_step c.role w.published_card v.last)

    with_miners-IsCall :
        (v : Validator F) (r : Option (List Miner) × ChainState F)
        → IsCall v.submitter (with_miners parse_int c w v r)
    with_miners-IsCall v (none, chain) = inl (refl, refl)
    with_miners-IsCall v (some miners, chain) =
        with_evidence-IsCall miners (record v { chain = chain }) (evidence w)

    run_cycle-IsCall : (v : Validator F) → IsCall v.submitter (run_cycle parse_int c w v)
    unfolding run_cycle
    run_cycle-IsCall v = with_miners-IsCall v (metagraph w.graph v.chain)

  -- The cycles of a process in a row, its submissions last first.
  pub data Cycles : Validator F → List (Submission (Dict ℕ F)) → Type 0 where
    launched :
        (cache : Option (Json F)) (usd_card_override : Dict String F)
        → Cycles (new_validator cache usd_card_override) []
    ran :
        {v : Validator F} {sent : List (Submission (Dict ℕ F))} (w : World F)
        → Cycles v sent
        → Cycles (run_cycle parse_int c w v).1 (sent_of (run_cycle parse_int c w v).0 ++ sent)

  extend :
      {s : Submitter} {sent : List (Submission (Dict ℕ F))} (r : CycleOutcome F × Validator F)
      → Lifetime s sent
      → IsCall s r
      → Lifetime r.1.submitter (sent_of r.0 ++ sent)
  extend r life (inl (quiet, same)) = rw (quiet, same) life
  extend r life (inr (a, weights, e, g)) = rw (e, g) (call a weights life)

  Cycles-Lifetime :
      {v : Validator F} {sent : List (Submission (Dict ℕ F))}
      → Cycles v sent
      → Lifetime v.submitter sent
  unfolding new_validator
  Cycles-Lifetime (launched cache usd_card_override) = start
  Cycles-Lifetime (ran {v = v} w cycles) =
      extend (run_cycle parse_int c w v) (Cycles-Lifetime cycles) (run_cycle-IsCall w v)

  -- Whatever the services answer in each cycle, and however the cycles end, the submissions of a
  -- process have strictly rising epochs and lie at least the rate limit's blocks apart.
  pub run_cycle-IsSpaced :
      (v : Validator F) (sent : List (Submission (Dict ℕ F))) → Cycles v sent → IsSpaced sent
  run_cycle-IsSpaced v sent cycles =
      set_weights_once_per_epoch-IsSpaced v.submitter sent (Cycles-Lifetime cycles)
