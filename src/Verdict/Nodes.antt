-- ===== src/Verdict/Nodes.antt =====
-- When no node of a cluster speaks against a miner, in validator/infrastructure_validation.py.
use kubetee_subnet.Base.{
  ◌≡◌, refl, ◌↔◌, Bool, true, false, not, List, [], ◌∷◌, string_eq, filter, is_empty, All,
}
use kubetee_subnet.Base.Members.{Some, Some-map, Some-filter, All-filter, any_iff, is_empty_iff}
use kubetee_subnet.Float.{Float, lt, of_ℕ}
use kubetee_subnet.Readiness.{NodePosture}
use kubetee_subnet.Verdict.{
  Reason, append_if, low_cpu, low_memory, has_role_of, capacity_reasons, is_gpu_node, node_reasons,
}

pub append_if_iff :
    {F : Type 0} (b : Bool) (r : Reason F) (rest : List (Reason F))
    → (append_if b r rest ≡ []) ↔ ((b ≡ false) × (rest ≡ []))
append_if_iff true r rest = ((λ h. cc h), (λ h. cc h.0))
append_if_iff false r rest = ((λ h. (refl, h)), (λ h. h.1))

pub not-false : (b : Bool) → (not b ≡ false) ↔ (b ≡ true)
not-false true = ((λ h. refl), (λ h. refl))
not-false false = ((λ h. cc h), (λ h. cc h))

module _ {F : Type 0} ⦃f : Float F⦄ where
  -- An active node has 72 cores and 1024 GiB.
  abbrev pub IsBigEnough : NodePosture F → Type 0
  IsBigEnough p = (lt p.cpu_cores (of_ℕ 72) ≡ false) × (lt p.memory_gib (of_ℕ 1024) ≡ false)

  -- Among the active nodes, one has the role of etcd, one of the control plane, one is a worker that
  -- takes work, one a confidential GPU node that takes work, and all are big enough.
  pub record AreNodesEligible (postures : List (NodePosture F)) : Type 0 where
    pub etcd : Some (λ p. (p.ready ≡ true) × (has_role_of "etcd" p ≡ true)) postures
    pub control_plane :
        Some (λ p. (p.ready ≡ true) × (has_role_of "control-plane" p ≡ true)) postures
    pub big_enough : All (λ p. p.ready ≡ true → IsBigEnough p) postures
    pub worker :
        Some
          (λ p. (p.ready ≡ true) × ((has_role_of "worker" p ≡ true) × (p.schedulable ≡ true)))
          postures
    pub gpu : Some (λ p. (p.ready ≡ true) × (is_gpu_node p ≡ true)) postures

  capacity_iff :
      (ps : List (NodePosture F)) (rest : List (Reason F))
      → (capacity_reasons ps rest ≡ []) ↔ (All IsBigEnough ps × (rest ≡ []))
  capacity_iff [] rest = ((λ h. (tt, h)), (λ h. h.1))
  capacity_iff (p ∷ ps) rest =
      let cpu = append_if_iff (lt p.cpu_cores (of_ℕ 72)) (low_cpu p.cpu_cores) _ in
      let memory =
        append_if_iff (lt p.memory_gib (of_ℕ 1024)) (low_memory p.memory_gib)
          (capacity_reasons ps rest) in
      (
        (λ h.
            let m = memory.0 (cpu.0 h).1 in
            let r = (capacity_iff ps rest).0 m.1 in ((((cpu.0 h).0, m.0), r.0), r.1)),
        (λ h. cpu.1 (h.0.0.0, memory.1 (h.0.0.1, (capacity_iff ps rest).1 (h.0.1, h.1)))),
      )

  active_role :
      (q : NodePosture F → Bool) (ps : List (NodePosture F))
      → (is_empty (filter q (filter (λ p. p.ready) ps)) ≡ false)
        ↔ Some (λ p. (p.ready ≡ true) × (q p ≡ true)) ps
  active_role q ps = (
    (λ h. (Some-filter _ _ ps).0 ((is_empty_iff q _).0 h)),
    (λ h. (is_empty_iff q _).1 ((Some-filter _ _ ps).1 h)),
  )

  active_worker :
      (ps : List (NodePosture F))
      → (is_empty
            (filter (λ p. p.schedulable) (filter (has_role_of "worker") (filter (λ p. p.ready) ps)))
          ≡ false)
        ↔ Some
            (λ p. (p.ready ≡ true) × ((has_role_of "worker" p ≡ true) × (p.schedulable ≡ true)))
            ps
  active_worker ps = (
    (λ h. (Some-filter _ _ ps).0 ((Some-filter _ _ _).0 ((is_empty_iff _ _).0 h))),
    (λ h. (is_empty_iff _ _).1 ((Some-filter _ _ _).1 ((Some-filter _ _ ps).1 h))),
  )

  Some-active :
      (P : NodePosture F → Type 0) (ps : List (NodePosture F))
      → Some (λ p. (p.ready ≡ true) × P p) ps
      → is_empty (filter (λ p. p.ready) ps) ≡ false
  Some-active P ps h = (is_empty_iff _ ps).1 (Some-map (λ p k. k.0) ps h)

  -- The nodes give no reason exactly where they are eligible.
  pub node_reasons-AreNodesEligible :
      (postures : List (NodePosture F)) → (node_reasons postures ≡ []) ↔ AreNodesEligible postures
  unfolding node_reasons
  node_reasons-AreNodesEligible ps = (
    (λ h.
        let live = (append_if_iff _ _ _).0 h in
        let roles = (append_if_iff _ _ _).0 live.1 in
        let planes = (append_if_iff _ _ _).0 roles.1 in
        let sizes = (capacity_iff (filter (λ p. p.ready) ps) _).0 planes.1 in
        let workers = (append_if_iff _ _ _).0 sizes.1 in
        let gpus = (append_if_iff _ _ _).0 workers.1 in
        record {
          etcd = (active_role (has_role_of "etcd") ps).0 roles.0;
          control_plane = (active_role (has_role_of "control-plane") ps).0 planes.0;
          big_enough = (All-filter _ _ ps).0 sizes.0;
          worker = (active_worker ps).0 workers.0;
          gpu = (Some-filter _ _ ps).0 ((any_iff _ _).0 ((not-false _).0 gpus.0));
        }),
    (λ e. (append_if_iff _ _ _).1 (
      Some-active _ ps e.etcd,
      (append_if_iff _ _ _).1 (
        (active_role (has_role_of "etcd") ps).1 e.etcd,
        (append_if_iff _ _ _).1 (
          (active_role (has_role_of "control-plane") ps).1 e.control_plane,
          (capacity_iff (filter (λ p. p.ready) ps) _).1 (
            (All-filter _ _ ps).1 e.big_enough,
            (append_if_iff _ _ _).1 (
              (active_worker ps).1 e.worker,
              (append_if_iff _ _ _).1
                  ((not-false _).1 ((any_iff _ _).1 ((Some-filter _ _ ps).1 e.gpu)), refl),
            ),
          ),
        ),
      ),
    )),
  )
