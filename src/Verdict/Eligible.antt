-- ===== src/Verdict/Eligible.antt =====
-- What a ready verdict of validator/infrastructure_validation.py means.
use kubetee_subnet.Base.{
  ℕ, suc, ◌≡◌, refl, ap, ◌∙◌, ◌↔◌, inl, inr, Bool, true, false, not, Option, none, some, List, [],
  ◌∷◌, String, string_eq, map_option, length, ltb, Option-cases, arith,
}
use kubetee_subnet.Base.Members.{and_then-some}
use kubetee_subnet.Dict.{Dict, get_or}
use kubetee_subnet.Float.{Float}
use kubetee_subnet.Json.{Fields}
use kubetee_subnet.Rancher.{is_banned, conditions}
use kubetee_subnet.Freshness.{Clock}
use kubetee_subnet.Readiness.{NodePosture, node_posture}
use kubetee_subnet.Verdict.{
  Reason, Verdict, append_if, ambiguous, banned, not_connected, state_of, cluster_healthy,
  cluster_state, bound_to, node_reasons, verdict_of, judge, judge_bound, validate_miner,
}
use kubetee_subnet.Verdict.Nodes.{
  append_if_iff, not-false, AreNodesEligible, node_reasons-AreNodesEligible,
}

several : (n : ℕ) → ltb 1 (suc (suc n)) ≡ true
several n = ground arith

module _ {F : Type 0} ⦃f : Float F⦄ where
  -- The miner's one cluster is not banned, is connected, and its nodes are eligible.
  pub record IsEligible (clock : Clock F) (hotkey : String) (clusters : List (Fields F))
      (nodes_by_cluster : Dict String (List (Fields F))) (cluster_id_of : Fields F → String)
      : Type 0 where
    pub cluster : Fields F
    pub postures : List (NodePosture F)
    pub only : bound_to hotkey clusters ≡ some (cluster ∷ [])
    pub not_banned : is_banned cluster ≡ some false
    pub connected : cluster_healthy cluster ≡ some true
    pub read :
        map_option (node_posture clock) (get_or (cluster_id_of cluster) nodes_by_cluster [])
        ≡ some postures
    pub eligible : AreNodesEligible postures

  module _ (clock : Clock F) (hotkey : String) (clusters : List (Fields F))
      (nodes_by_cluster : Dict String (List (Fields F))) (cluster_id_of : Fields F → String) where
    reasons_of : Option (Verdict F) → List (Reason F)
    reasons_of none = []
    reasons_of (some v) = v.reasons

    -- The reasons of `judge`, all of them.
    all_reasons : ℕ → Bool → Bool → String → List (NodePosture F) → List (Reason F)
    all_reasons count ban healthy state postures = append_if (ltb 1 count) (ambiguous count) (
        append_if ban banned
          (append_if (not healthy) (not_connected state) (node_reasons postures)))

    all_reasons-AreNodesEligible :
        (count : ℕ) (ban healthy : Bool) (state : String) (postures : List (NodePosture F))
        → (all_reasons count ban healthy state postures ≡ [])
          ↔ ((ltb 1 count ≡ false) × (ban ≡ false) × (healthy ≡ true) × AreNodesEligible postures)
    unfolding all_reasons
    all_reasons-AreNodesEligible count ban healthy state postures = (
      (λ h.
          let one = (append_if_iff _ _ _).0 h in
          let free = (append_if_iff _ _ _).0 one.1 in
          let joined = (append_if_iff _ _ _).0 free.1 in
          (
            one.0,
            free.0,
            (not-false healthy).0 joined.0,
            (node_reasons-AreNodesEligible postures).0 joined.1,
          )),
      (λ h. (append_if_iff _ _ _).1 (
        h.0,
        (append_if_iff _ _ _).1 (
          h.1,
          (append_if_iff _ _ _).1
              ((not-false healthy).1 h.2, (node_reasons-AreNodesEligible postures).1 h.3),
        ),
      )),
    )

    state_known :
        (cluster : Fields F) (healthy : Bool)
        → cluster_healthy cluster ≡ some healthy
        → (state : String) × (cluster_state cluster ≡ some state)
    unfolding cluster_healthy cluster_state
    state_known cluster healthy h = elim (Option-cases (conditions cluster)) [
      | inl e ↦ cc (rw e at h)
      | inr (cs, e) ↦ (state_of cs, rw e refl)
    ]

    -- What the verdict on one cluster needs.
    record IsFit (count : ℕ) (cluster : Fields F) : Type 0 where
      postures : List (NodePosture F)
      single : ltb 1 count ≡ false
      not_banned : is_banned cluster ≡ some false
      connected : cluster_healthy cluster ≡ some true
      read :
          map_option (node_posture clock) (get_or (cluster_id_of cluster) nodes_by_cluster [])
          ≡ some postures
      eligible : AreNodesEligible postures

    abbrev ready_verdict : Option (Verdict F)
    ready_verdict = some (record { ready = true; reasons = [] })

    judge-IsFit :
        (count : ℕ) (cluster : Fields F)
        → (judge clock nodes_by_cluster cluster_id_of count cluster ≡ ready_verdict)
          ↔ IsFit count cluster
    unfolding all_reasons reasons_of
    judge-IsFit count cluster = (
      (λ h.
          let (ban, b, h1) = and_then-some (is_banned cluster) _ _ h in
          let (postures, p, h2) = and_then-some (map_option (node_posture clock) _) _ _ h1 in
          let (healthy, c, h3) = and_then-some (cluster_healthy cluster) _ _ h2 in
          let (state, s, h4) = and_then-some (cluster_state cluster) _ _ h3 in
          let r =
            (all_reasons-AreNodesEligible count ban healthy state postures).0 (ap reasons_of h4) in
          record {
            postures = postures;
            single = r.0;
            not_banned = b ∙ ap some r.1;
            connected = c ∙ ap some r.2;
            read = p;
            eligible = r.3;
          }),
      (λ fit.
          let (state, s) = state_known cluster true fit.connected in
          rw (fit.not_banned, fit.read, fit.connected, s)
            (ap (λ r. some (verdict_of r))
              ((all_reasons-AreNodesEligible count false true state fit.postures).1
                (fit.single, refl, refl, fit.eligible)))),
    )

    judge_bound-IsEligible :
        (bound : List (Fields F))
        → bound_to hotkey clusters ≡ some bound
        → judge_bound clock hotkey nodes_by_cluster cluster_id_of bound ≡ ready_verdict
        → IsEligible clock hotkey clusters nodes_by_cluster cluster_id_of
    judge_bound-IsEligible [] e h = cc h
    judge_bound-IsEligible (c ∷ []) e h =
        let fit = (judge-IsFit 1 c).0 h in
        record {
          cluster = c;
          postures = fit.postures;
          only = e;
          not_banned = fit.not_banned;
          connected = fit.connected;
          read = fit.read;
          eligible = fit.eligible;
        }
    judge_bound-IsEligible (c ∷ d ∷ cs) e h =
        let fit = (judge-IsFit _ c).0 h in cc (fit.single, several (length cs))

    -- A miner is found ready, with no reason against it, exactly where it is eligible: just one cluster
    -- carries its hotkey, which is not banned and not reported as disconnected, and among the active
    -- nodes of that cluster there are an etcd node, a control plane node, a worker that takes work and a
    -- confidential GPU node that takes work, and none has less than 72 cores or 1024 GiB.
    pub validate_miner-IsEligible :
        (validate_miner clock hotkey clusters nodes_by_cluster cluster_id_of
          ≡ some (record { ready = true; reasons = [] }))
        ↔ IsEligible clock hotkey clusters nodes_by_cluster cluster_id_of
    unfolding validate_miner
    validate_miner-IsEligible = (
      (λ h. elim (Option-cases (bound_to hotkey clusters)) [
        | inl e ↦ cc (rw e at h)
        | inr (bound, e) ↦ judge_bound-IsEligible bound e (rw e at h)
      ]),
      (λ x. rw x.only (
          (judge-IsFit 1 x.cluster).1 (record {
            postures = x.postures;
            single = refl;
            not_banned = x.not_banned;
            connected = x.connected;
            read = x.read;
            eligible = x.eligible;
          }))),
    )
