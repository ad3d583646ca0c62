-- ===== src/Inputs/Ready.antt =====
-- The inputs of scoring that are ready, in validator/validator.py: each is of an eligible miner, or of
-- the owner's own one.
use mathlib.Core.Path.{subst}
use mathlib.Core.Option.{some-injective}
use kubetee_subnet.Base.{
  ℕ, ◌≡◌, refl, sym, ap, ◌∙◌, ◌⊎◌, inl, inr, true, Option, some, List, [], ◌∷◌, String, string_eq,
  nat_eq, ℤ, Bool-cases, nat_beq_iff, map_option,
}
use kubetee_subnet.Base.Members.{Some, and_then-some}
use kubetee_subnet.Dict.{Dict, get_or}
use kubetee_subnet.Float.{Float}
use kubetee_subnet.Json.{Fields}
use kubetee_subnet.Rancher.{cluster_id, is_banned}
use kubetee_subnet.Freshness.{Clock}
use kubetee_subnet.Readiness.{node_posture}
use kubetee_subnet.Verdict.{
  cluster_healthy, cluster_state, Verdict, Reason, verdict_of, judge, judge_bound, bound_to,
  validate_miner,
}
use kubetee_subnet.Verdict.Eligible.{IsEligible, validate_miner-IsEligible}
use kubetee_subnet.Fleet.{miner_gpu_posture}
use kubetee_subnet.Epoch.{Miner}
use kubetee_subnet.Epoch.Padding.{is_registered}
use kubetee_subnet.Scoring.{MinerInput, is_present}
use kubetee_subnet.Inputs.{is_ready, miner_input, inputs_of}

module _ {F : Type 0} ⦃f : Float F⦄ where
  abbrev IsClear : Verdict F → Type 0
  IsClear v = v ≡ record { ready = true; reasons = [] }

  verdict_of-IsClear :
      (rs : List (Reason F)) → (verdict_of rs).ready ≡ true → IsClear (verdict_of rs)
  verdict_of-IsClear [] h = refl
  verdict_of-IsClear (r ∷ rs) h = cc h

  found_IsClear :
      (rs : List (Reason F)) (v : Verdict F)
      → some (verdict_of rs) ≡ some v
      → v.ready ≡ true
      → IsClear v
  found_IsClear rs v e =
      subst (λ t. t.ready ≡ true → IsClear t) (some-injective (verdict_of rs) v e)
        (verdict_of-IsClear rs)

  module _ (clock : Clock F) (hotkey : String) (clusters : List (Fields F))
      (nodes_by_cluster : Dict String (List (Fields F))) where
    judge-IsClear :
        (count : ℕ) (cluster : Fields F) (v : Verdict F)
        → judge clock nodes_by_cluster cluster_id count cluster ≡ some v
        → v.ready ≡ true
        → IsClear v
    judge-IsClear count cluster v h =
        let (ban, b, h1) = and_then-some (is_banned cluster) _ v h in
        let (postures, p, h2) =
          and_then-some
            (map_option (node_posture clock) (get_or (cluster_id cluster) nodes_by_cluster [])) _ v
            h1 in
        let (healthy, c, h3) = and_then-some (cluster_healthy cluster) _ v h2 in
        let (state, s, h4) = and_then-some (cluster_state cluster) _ v h3 in found_IsClear _ v h4

    judge_bound-IsClear :
        (bound : List (Fields F)) (v : Verdict F)
        → judge_bound clock hotkey nodes_by_cluster cluster_id bound ≡ some v
        → v.ready ≡ true
        → IsClear v
    judge_bound-IsClear [] v h r = cc (subst (λ t. t.ready ≡ true) (sym (some-injective _ v h)) r)
    judge_bound-IsClear (c ∷ cs) v h r = judge-IsClear _ c v h r

    -- A miner that is found ready is eligible: no reason is left.
    validate_miner-ready :
        (v : Verdict F)
        → validate_miner clock hotkey clusters nodes_by_cluster cluster_id ≡ some v
        → v.ready ≡ true
        → IsEligible clock hotkey clusters nodes_by_cluster cluster_id
    unfolding validate_miner
    validate_miner-ready v h r =
        let (bound, b, h1) = and_then-some (bound_to hotkey clusters) _ v h in
        let clear = judge_bound-IsClear bound v h1 r in
        (validate_miner-IsEligible clock hotkey clusters nodes_by_cluster cluster_id).0
          (h ∙ ap some clear)

  module _ (parse_int : String → Option ℤ) (clock : Clock F) (owner_miner_uid : ℕ)
      (clusters registered : List (Fields F))
      (nodes_by_cluster : Dict String (List (Fields F))) where
    -- Eligible by the evidence, or the owner's own miner.
    abbrev pub IsEntitled : Miner → Type 0
    IsEntitled m =
        (m.uid ≡ owner_miner_uid) ⊎ IsEligible clock m.hotkey registered nodes_by_cluster cluster_id

    is_ready-IsEntitled :
        (m : Miner) (v : Verdict F)
        → validate_miner clock m.hotkey registered nodes_by_cluster cluster_id ≡ some v
        → is_ready parse_int clock owner_miner_uid clusters registered nodes_by_cluster m v ≡ true
        → IsEntitled m
    is_ready-IsEntitled m v h r = elim (Bool-cases v.ready) [
      | inl e ↦ inr (validate_miner-ready clock m.hotkey registered nodes_by_cluster v h e)
      | inr e ↦ inl ((nat_beq_iff m.uid owner_miner_uid).0 (rw e at r))
    ]

    -- The miner's uid, and a miner that is entitled where the input is ready.
    abbrev IsOf : Miner → MinerInput F → Type 0
    IsOf m i = (i.uid ≡ m.uid) × (i.ready ≡ true → IsEntitled m)

    miner_input-IsOf :
        (m : Miner) (i : MinerInput F)
        → miner_input parse_int clock owner_miner_uid clusters registered nodes_by_cluster m
          ≡ some i
        → IsOf m i
    unfolding miner_input
    miner_input-IsOf m i h =
        let (v, p, h1) =
          and_then-some (validate_miner clock m.hotkey registered nodes_by_cluster cluster_id) _ i
            h in
        let (posture, q, h2) =
          and_then-some (miner_gpu_posture parse_int clock m.hotkey _ _ _ _ _) _ i h1 in
        let (bound, b, h3) = and_then-some (bound_to m.hotkey registered) _ i h2 in
        subst (IsOf m) (some-injective _ i h3) (refl, is_ready-IsEntitled m v p)

    -- The inputs stand for the miners, one by one.
    abbrev pub AreOf : List Miner → List (MinerInput F) → Type 0
    AreOf [] [] = Unit
    AreOf (m ∷ miners) (i ∷ is) = IsOf m i × AreOf miners is
    AreOf _ _ = ⊥

    pub inputs_of-AreOf :
        (miners : List Miner) (inputs : List (MinerInput F))
        → inputs_of parse_int clock owner_miner_uid clusters registered nodes_by_cluster miners
          ≡ some inputs
        → AreOf miners inputs
    unfolding inputs_of
    inputs_of-AreOf [] inputs h = subst (AreOf []) (some-injective _ inputs h) tt
    inputs_of-AreOf (m ∷ miners) inputs h =
        let (i, p, h1) =
          and_then-some
            (miner_input parse_int clock owner_miner_uid clusters registered nodes_by_cluster m) _
            inputs h in
        let (is, q, h2) =
          and_then-some
            (inputs_of parse_int clock owner_miner_uid clusters registered nodes_by_cluster miners)
            _ inputs h1 in
        subst (AreOf (m ∷ miners)) (some-injective (i ∷ is) inputs h2)
          (miner_input-IsOf m i p, inputs_of-AreOf miners is q)

    -- A uid is in the inputs exactly where it is in the metagraph.
    pub is_present-inputs :
        (u : ℕ) (miners : List Miner) (inputs : List (MinerInput F))
        → AreOf miners inputs
        → is_present u inputs ≡ is_registered u miners
    unfolding is_present
    is_present-inputs u [] [] h = refl
    is_present-inputs u (m ∷ miners) (i ∷ is) (e, h) =
        rw (e.0, is_present-inputs u miners is h) refl
    is_present-inputs u [] (i ∷ is) h = absurd h
    is_present-inputs u (m ∷ miners) [] h = absurd h

    -- A ready input of a uid is of an entitled miner with that uid.
    pub ready_IsEntitled :
        (u : ℕ) (miners : List Miner) (inputs : List (MinerInput F))
        → AreOf miners inputs
        → Some (λ i. (i.uid ≡ u) × (i.ready ≡ true)) inputs
        → Some (λ m. (m.uid ≡ u) × IsEntitled m) miners
    ready_IsEntitled u [] [] h s = s
    ready_IsEntitled u (m ∷ miners) (i ∷ is) (e, h) (inl (same, ready)) =
        inl (sym e.0 ∙ same, e.1 ready)
    ready_IsEntitled u (m ∷ miners) (i ∷ is) (e, h) (inr s) = inr (ready_IsEntitled u miners is h s)
    ready_IsEntitled u [] (i ∷ is) h s = absurd h
    ready_IsEntitled u (m ∷ miners) [] h s = absurd h
