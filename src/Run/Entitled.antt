-- ===== src/Run/Entitled.antt =====
-- Who is given a weight by a cycle of validator/validator.py.
use mathlib.Core.Path.{subst}
use mathlib.Core.Option.{Option, some-injective}
use kubetee_subnet.Base.{
  ℕ, ℤ, ◌≡◌, ◌≢◌, refl, sym, ◌∙◌, ◌⊎◌, inl, inr, true, not, ◌&&◌, none, some, List, [], String,
  nat_eq, Bool-cases, Option-cases, Result, ok, err, is_empty, All,
}
use kubetee_subnet.Base.Members.{Some, and_then-some}
use kubetee_subnet.Dict.{Dict, lookup, get_or}
use kubetee_subnet.Float.{Float, of_ℕ}
use kubetee_subnet.Json.{Fields}
use kubetee_subnet.Market.{CacheError}
use kubetee_subnet.TargonFeed.{TargonPayoutFeed}
use kubetee_subnet.PriceCard.{CardError, ResolvedCard}
use kubetee_subnet.Cycle.{card_step}
use kubetee_subnet.Epoch.{
  Miner, Submitter, Answers, is_submitted, is_cooling, current_epoch, epoch, rate_limit,
  set_weights_once_per_epoch, pad_to_metagraph,
}
use kubetee_subnet.Epoch.Padding.{is_registered, lookup-pad_to_metagraph}
use kubetee_subnet.Scoring.{MinerInput, ScoreWeights, compute_weights}
use kubetee_subnet.Scoring.Weights.{weight_of_miner}
use kubetee_subnet.Scoring.Unready.{compute_weights-HasReady}
use kubetee_subnet.Chain.{Graph, miners_of, keep_graph, metagraph}
use kubetee_subnet.PriceFeed.{is_zero}
use kubetee_subnet.Rates.{Priced, no_price, broken, priced, cycle_rates}
use kubetee_subnet.Inputs.{metagraph_clusters, nodes_of, inputs_of}
use kubetee_subnet.Inputs.Ready.{
  IsEntitled, AreOf, inputs_of-AreOf, is_present-inputs, ready_IsEntitled,
}
use kubetee_subnet.Run.{
  CycleConfig, Validator, World, Cycled, CycleOutcome, skipped, raised, cycled, evidence,
  targon_card, hours_of, guarded, submit, with_scores, with_inputs, with_registered, with_rates,
  with_effective, keep_card, after_card, with_evidence, with_miners, run_cycle,
}

Result-cases : {E A : Type 0} (r : Result E A) → ((a : A) × (r ≡ ok a)) ⊎ ((e : E) × (r ≡ err e))
Result-cases (ok a) = inl (a, refl)
Result-cases (err e) = inr (e, refl)

module _ {F : Type 0} ⦃f : Float F⦄ (parse_int : String → Option ℤ) (c : CycleConfig F)
    (w : World F) where
  -- The uid belongs to a registered miner that is the owner's own, or that is eligible by the nodes of
  -- the registered clusters.
  abbrev pub HasEntitled :
      ℕ → List Miner → List (Fields F) → List (Fields F) → Dict String (List (Fields F)) → Type 0
  HasEntitled u miners clusters registered nodes =
      Some
        (λ m.
          (m.uid ≡ u) × IsEntitled parse_int w.clock c.owner_miner_uid clusters registered nodes m)
        miners

  -- What a cycle that reached its submission did.
  pub record IsJust (x : Cycled F) : Type 0 where
    pub graph : Graph F
    pub seen : w.graph ≡ some graph
    pub neurons : x.miners ≡ miners_of graph.neurons
    pub clusters : List (Fields F)
    pub listed : w.clusters ≡ some clusters
    pub read : nodes_of w.list_nodes clusters [] ≡ some x.nodes_by_cluster
    pub matched : metagraph_clusters x.miners clusters ≡ some x.registered
    pub sent_weights : All (λ s. s.weights ≡ x.weights) x.sent
    pub given :
        (u : ℕ) (weight : F)
        → is_registered c.owner_uid x.miners ≡ true
        → u ≢ c.owner_uid
        → lookup u x.weights ≡ some weight
        → (weight ≡ of_ℕ 0) ⊎ HasEntitled u x.miners clusters x.registered x.nodes_by_cluster

  -- An outcome that submits nothing needs no reason.
  abbrev pub IsJustified : CycleOutcome F → Type 0
  IsJustified (skipped reason) = Unit
  IsJustified raised = Unit
  IsJustified (cycled x) = IsJust x

  sent-weights :
      (a : Answers (Dict ℕ F)) (weights : Dict ℕ F) (s : Submitter)
      → All (λ x. x.weights ≡ weights) (set_weights_once_per_epoch a weights s).sent
  unfolding set_weights_once_per_epoch
  sent-weights a weights s =
      elim (Bool-cases (is_submitted s.last_submitted_epoch (current_epoch a))) [
        | inl e ↦ rw e tt
        | inr e ↦ elim (Bool-cases (is_cooling s.last_set_block (epoch a) (rate_limit a))) [
          | inl g ↦ rw (e, g) tt
          | inr g ↦ elim (Bool-cases (a.accepts weights)) [
            | inl k ↦ rw (e, g, k) (refl, tt)
            | inr k ↦ rw (e, g, k) tt
          ]
        ]
      ]

  -- The miners are those of the metagraph that was read.
  abbrev IsSeen : List Miner → Type 0
  IsSeen miners = (graph : Graph F) × (w.graph ≡ some graph) × (miners ≡ miners_of graph.neurons)

  module _ (miners : List Miner) (is_seen : IsSeen miners) (clusters : List (Fields F))
      (nodes : Dict String (List (Fields F))) (listed : w.clusters ≡ some clusters)
      (read : nodes_of w.list_nodes clusters [] ≡ some nodes) where
    module _ (registered : List (Fields F))
        (matched : metagraph_clusters miners clusters ≡ some registered)
        (inputs : List (MinerInput F))
        (of_miners : AreOf parse_int w.clock c.owner_miner_uid clusters registered nodes miners
          inputs)
        (effective : Dict String F) (per_alpha pool : F) (scores : ScoreWeights F)
        (scored : compute_weights inputs effective per_alpha (hours_of w) c.owner_uid pool
          ≡ ok scores) where
      weight_HasEntitled :
          (u : ℕ) (weight : F)
          → is_registered c.owner_uid miners ≡ true
          → u ≢ c.owner_uid
          → get_or u scores.weights (of_ℕ 0) ≡ weight
          → (weight ≡ of_ℕ 0) ⊎ HasEntitled u miners clusters registered nodes
      weight_HasEntitled u weight here other h =
          let present =
            is_present-inputs parse_int w.clock c.owner_miner_uid clusters registered nodes
              c.owner_uid miners inputs of_miners
            ∙ here in
          let found =
            weight_of_miner inputs effective per_alpha (hours_of w) c.owner_uid pool u present other
              scored in
          elim (Option-cases (lookup u scores.miner_usd)) [
            | inl unpaid ↦ inl (sym (rw (found, unpaid) at h))
            | inr (usd, paid) ↦ inr (
                ready_IsEntitled parse_int w.clock c.owner_miner_uid clusters registered nodes u
                  miners inputs of_miners
                  (compute_weights-HasReady effective (hours_of w) inputs per_alpha c.owner_uid pool
                    u usd scores scored paid))
          ]

      padded_HasEntitled :
          (u : ℕ) (weight : F)
          → is_registered c.owner_uid miners ≡ true
          → u ≢ c.owner_uid
          → lookup u (pad_to_metagraph scores.weights miners) ≡ some weight
          → (weight ≡ of_ℕ 0) ⊎ HasEntitled u miners clusters registered nodes
      padded_HasEntitled u weight here other h =
          let padded = sym (lookup-pad_to_metagraph u scores.weights miners) ∙ h in
          elim (Bool-cases (is_registered u miners)) [
            | inl e ↦
                weight_HasEntitled u weight here other (some-injective _ weight (rw e at padded))
            | inr e ↦ cc (rw e at padded)
          ]

      submit-IsJustified :
          (v : Validator F) → IsJustified (submit c w miners registered nodes scores v).0
      unfolding submit
      submit-IsJustified v = elim (Bool-cases c.dry_run) [
        | inl dry ↦ rw dry (record {
          graph = is_seen.0;
          seen = is_seen.1;
          neurons = is_seen.2;
          clusters = clusters;
          listed = listed;
          read = read;
          matched = matched;
          sent_weights = tt;
          given = padded_HasEntitled;
        })
        | inr wet ↦ rw wet (record {
          graph = is_seen.0;
          seen = is_seen.1;
          neurons = is_seen.2;
          clusters = clusters;
          listed = listed;
          read = read;
          matched = matched;
          sent_weights =
              sent-weights (guarded w.submission) (pad_to_metagraph scores.weights miners)
                v.submitter;
          given = padded_HasEntitled;
        })
      ]

      scores-IsJustified :
          (v : Validator F)
          → IsJustified (with_scores c w miners registered nodes per_alpha v (ok scores)).0
      scores-IsJustified v =
          elim (Bool-cases (is_zero per_alpha && not (is_empty scores.miner_usd))) [
            | inl e ↦ rw e tt
            | inr e ↦ elim (Bool-cases (is_empty scores.weights)) [
              | inl g ↦ rw (e, g) tt
              | inr g ↦ rw (e, g) (submit-IsJustified v)
            ]
          ]

    inputs-IsJustified :
        (registered : List (Fields F)) (effective : Dict String F) (per_alpha pool : F)
        (v : Validator F) (inputs : Option (List (MinerInput F)))
        → metagraph_clusters miners clusters ≡ some registered
        → inputs_of parse_int w.clock c.owner_miner_uid clusters registered nodes miners ≡ inputs
        → IsJustified (with_inputs c w miners registered nodes effective per_alpha pool v inputs).0
    inputs-IsJustified registered effective per_alpha pool v none m h = tt
    inputs-IsJustified registered effective per_alpha pool v (some inputs) m h =
        elim (Result-cases
          (compute_weights inputs effective per_alpha (hours_of w) c.owner_uid pool)) [
            | inr (e, g) ↦ rw g tt
            | inl (scores, g) ↦ rw g (
                scores-IsJustified registered m inputs
                  (inputs_of-AreOf parse_int w.clock c.owner_miner_uid clusters registered nodes
                    miners inputs h)
                  effective per_alpha pool scores g v)
          ]

    registered-IsJustified :
        (effective : Dict String F) (per_alpha pool : F) (v : Validator F)
        (registered : Option (List (Fields F)))
        → metagraph_clusters miners clusters ≡ registered
        → IsJustified
            (with_registered parse_int c w miners clusters nodes effective per_alpha pool v
              registered).0
    registered-IsJustified effective per_alpha pool v none h = tt
    registered-IsJustified effective per_alpha pool v (some registered) h =
        inputs-IsJustified registered effective per_alpha pool v _ h refl

    rates-IsJustified :
        (effective : Dict String F) (v : Validator F) (rates : Priced F)
        → IsJustified (with_rates parse_int c w miners clusters nodes effective v rates).0
    rates-IsJustified effective v no_price = tt
    rates-IsJustified effective v broken = tt
    rates-IsJustified effective v (priced per_alpha usd pool) =
        registered-IsJustified effective per_alpha pool v _ refl

    effective-IsJustified :
        (v : Validator F) (r : Result CacheError (Dict String F × TargonPayoutFeed F))
        → IsJustified (with_effective parse_int c w miners clusters nodes v r).0
    effective-IsJustified v (err e) = tt
    effective-IsJustified v (ok (effective, targon)) =
        let r = cycle_rates w.feeds v.price_feed v.chain in
        rates-IsJustified effective (record v { targon = targon; price_feed = r.1; chain = r.2 })
          r.0

    card-IsJustified :
        (v : Validator F) (r : Result CardError (ResolvedCard F))
        → IsJustified (after_card parse_int c w miners clusters nodes v r).0
    card-IsJustified v (err e) = tt
    card-IsJustified v (ok r) =
        let v' = keep_card parse_int c w miners clusters nodes r v in
        effective-IsJustified v' (targon_card w v'.targon)

  evidence-IsJustified :
      (miners : List Miner) (is_seen : IsSeen miners) (v : Validator F)
      (e : Option (List (Fields F) × Dict String (List (Fields F))))
      → evidence w ≡ e
      → IsJustified (with_evidence parse_int c w miners v e).0
  evidence-IsJustified miners is_seen v none h = tt
  evidence-IsJustified miners is_seen v (some (clusters, nodes)) h =
      let (cs, listed, h1) = and_then-some w.clusters _ _ h in
      let (d, read, h2) = and_then-some (nodes_of w.list_nodes cs []) _ _ h1 in
      subst (λ p. IsJustified (with_evidence parse_int c w miners v (some p)).0)
        (some-injective (cs, d) (clusters, nodes) h2)
        (card-IsJustified miners is_seen cs d listed read v
          (card_step c.role w.published_card v.last))

  graph-IsJustified :
      (v : Validator F) (graph : Option (Graph F))
      → w.graph ≡ graph
      → IsJustified (with_miners parse_int c w v (keep_graph graph v.chain)).0
  graph-IsJustified v none h = tt
  graph-IsJustified v (some graph) h =
      evidence-IsJustified (miners_of graph.neurons) (graph, h, refl)
        (record v { chain = record { last_metagraph = some graph } }) _ refl

  -- A cycle that reaches its submission has read a metagraph and its evidence, and sends only the weights
  -- that it padded to the metagraph's miners. With the owner's uid among them, any other uid has a weight
  -- of 0 or is of a miner that is the owner's own, or that is eligible by the clusters of registered
  -- hotkeys and the nodes that were listed for them.
  pub run_cycle-IsJustified : (v : Validator F) → IsJustified (run_cycle parse_int c w v).0
  unfolding run_cycle metagraph
  run_cycle-IsJustified v = graph-IsJustified v w.graph refl
