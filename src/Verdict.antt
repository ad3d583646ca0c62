-- ===== src/Verdict.antt =====
-- The verdict on a miner of validator/infrastructure_validation.py: `validate_miner`.
pub mod Nodes
pub mod Eligible
use kubetee_subnet.Base.{
  ℕ, ltb, ◌++◌, Bool, true, false, not, ◌&&◌, ◌||◌, Option, none, some, List, [], ◌∷◌, String,
  string_eq, ◌==◌, if◌then◌else◌, or_else, and_then, map_option, filter, any, is_empty, is_some,
  length,
}
use kubetee_subnet.Text.{take}
use kubetee_subnet.Dict.{Dict, get_or}
use kubetee_subnet.Float.{Float, lt, of_ℕ, fmax}
use kubetee_subnet.Json.{Json, str, Fields, get, or_json, to_str}
use kubetee_subnet.Rancher.{is_text, hotkey_of, is_banned, conditions}
use kubetee_subnet.Freshness.{Clock}
use kubetee_subnet.Readiness.{gpu_classes, is_in, NodePosture, node_posture}

-- The reasons of a verdict, by what they say.
pub data Reason (F : Type 0) : Type 0 where
  no_cluster : String → Reason F
  ambiguous : ℕ → Reason F
  banned : Reason F
  not_connected : String → Reason F
  stale_heartbeat : Option F → Reason F
  no_ready_nodes : Reason F
  no_etcd : Reason F
  no_control_plane : Reason F
  low_cpu : F → Reason F
  low_memory : F → Reason F
  no_worker : Reason F
  no_gpu_worker : Reason F

pub record Verdict (F : Type 0) : Type 0 where
  pub ready : Bool
  pub reasons : List (Reason F)

-- `reasons.append(reason)`, where the condition holds.
abbrev pub append_if : {F : Type 0} → Bool → Reason F → List (Reason F) → List (Reason F)
append_if true reason rest = reason ∷ rest
append_if false reason rest = rest

-- `p.gpu_class in _GPU_CLASSES`
abbrev pub is_gpu_class : Option String → Bool
is_gpu_class none = false
is_gpu_class (some klass) = is_in klass gpu_classes

module _ {F : Type 0} ⦃f : Float F⦄ where
  -- The loop of `_cluster_state`
  abbrev pub state_of : List (Fields F) → String
  state_of [] = "no Ready condition"
  state_of (c ∷ cs) =
      let rest = state_of cs in
      if is_text "Ready" (get "type" c) && not (to_str (get "status" c) == "True")
      then (let message = to_str (or_json (or_json (get "message" c) (get "reason" c)) (str "")) in
          if message == "" then "not ready" else message)
      else rest

  -- The loop of `_cluster_healthy`
  abbrev pub is_healthy : List (Fields F) → Bool
  is_healthy [] = true
  is_healthy (c ∷ cs) =
      let rest = is_healthy cs in
      if is_text "Ready" (get "type" c) then to_str (get "status" c) == "True" else rest

  unfoldable pub cluster_state : Fields F → Option String
  cluster_state cluster = and_then (conditions cluster) (λ cs. some (state_of cs))

  unfoldable pub cluster_healthy : Fields F → Option Bool
  cluster_healthy cluster = and_then (conditions cluster) (λ cs. some (is_healthy cs))

  -- The clusters that carry the miner's hotkey.
  unfoldable pub bound_to : String → List (Fields F) → Option (List (Fields F))
  bound_to hotkey [] = some []
  bound_to hotkey (c ∷ cs) =
      let rest = bound_to hotkey cs in
      and_then (hotkey_of c)
        (λ key. and_then rest (λ bound. some (if key == hotkey then c ∷ bound else bound)))

  -- The largest of the ages that are known.
  abbrev pub max_age_of : List (NodePosture F) → Option F
  max_age_of [] = none
  max_age_of (p ∷ ps) =
      let rest = max_age_of ps in
      elim p.ready_age_seconds [
        | none ↦ rest
        | some age ↦ elim rest [ none ↦ some age | some other ↦ some (fmax age other) ]
      ]

  abbrev pub has_role_of : String → NodePosture F → Bool
  has_role_of role p = is_in role p.roles

  -- `no Ready nodes`, with what is known of the stale ones.
  abbrev pub unready_reason : List (NodePosture F) → Reason F
  unready_reason postures =
      let stale = filter (λ p. p.stale) postures in
      if is_empty stale then no_ready_nodes else stale_heartbeat (max_age_of stale)

  -- The loop over the active nodes.
  abbrev pub capacity_reasons : List (NodePosture F) → List (Reason F) → List (Reason F)
  capacity_reasons [] rest = rest
  capacity_reasons (p ∷ ps) rest =
      let others = capacity_reasons ps rest in
      append_if (lt p.cpu_cores (of_ℕ 72)) (low_cpu p.cpu_cores)
        (append_if (lt p.memory_gib (of_ℕ 1024)) (low_memory p.memory_gib) others)

  abbrev pub is_gpu_node : NodePosture F → Bool
  is_gpu_node p =
      p.schedulable && p.vm_passthrough && p.kata_confidential_runtime && is_gpu_class p.gpu_class

  -- The reasons that the nodes give.
  unfoldable pub node_reasons : List (NodePosture F) → List (Reason F)
  node_reasons postures =
      let active = filter (λ p. p.ready) postures in
      append_if (is_empty active) (unready_reason postures) (
        append_if (is_empty (filter (has_role_of "etcd") active)) no_etcd (
          append_if (is_empty (filter (has_role_of "control-plane") active)) no_control_plane (
            capacity_reasons active (
              append_if
                (is_empty (filter (λ p. p.schedulable) (filter (has_role_of "worker") active)))
                no_worker (append_if (not (any is_gpu_node active)) no_gpu_worker [])))))

  abbrev pub verdict_of : List (Reason F) → Verdict F
  verdict_of reasons = record { ready = is_empty reasons; reasons = reasons }

  -- The verdict on the first of the `count` clusters that are bound to the hotkey.
  abbrev pub judge :
      Clock F
      → Dict String (List (Fields F))
      → (Fields F → String)
      → ℕ
      → Fields F
      → Option (Verdict F)
  judge clock nodes_by_cluster cluster_id_of count cluster = and_then (is_banned cluster) (λ ban.
      and_then
        (map_option (node_posture clock) (get_or (cluster_id_of cluster) nodes_by_cluster []))
        (λ postures. and_then (cluster_healthy cluster) (λ healthy.
          and_then (cluster_state cluster) (λ state. some (
            verdict_of (
              append_if (ltb 1 count) (ambiguous count) (
                append_if ban banned
                  (append_if (not healthy) (not_connected state) (node_reasons postures)))))))))

  abbrev pub judge_bound :
      Clock F
      → String
      → Dict String (List (Fields F))
      → (Fields F → String)
      → List (Fields F)
      → Option (Verdict F)
  judge_bound clock hotkey nodes_by_cluster cluster_id_of [] =
      some (record { ready = false; reasons = no_cluster (take 8 hotkey) ∷ [] })
  judge_bound clock hotkey nodes_by_cluster cluster_id_of (cluster ∷ others) =
      judge clock nodes_by_cluster cluster_id_of (length (cluster ∷ others)) cluster

  unfoldable pub validate_miner :
      Clock F
      → String
      → List (Fields F)
      → Dict String (List (Fields F))
      → (Fields F → String)
      → Option (Verdict F)
  validate_miner clock hotkey clusters nodes_by_cluster cluster_id_of =
      and_then (bound_to hotkey clusters) (judge_bound clock hotkey nodes_by_cluster cluster_id_of)
