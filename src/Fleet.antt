-- ===== src/Fleet.antt =====
-- The GPUs of a miner in validator/validator.py: `_miner_gpu_breakdown` and `_miner_gpu_posture`. `int` of
-- a text is a parameter; `none` is a raised exception.
pub mod Counts
use kubetee_subnet.Base.{
  ℕ, ◌+◌, ltb, nat_eq, ℤ, pos, negsuc, Bool, true, false, ◌&&◌, ◌||◌, Option, none, some, List, [],
  ◌∷◌, String, string_eq, ◌==◌, if◌then◌else◌, and_then, is_empty,
}
use kubetee_subnet.Text.{lower, has}
use kubetee_subnet.Dict.{Dict, get_or, insert}
use kubetee_subnet.Float.{Float}
use kubetee_subnet.Json.{Json, null, str, Fields, get, get_default, to_str}
use kubetee_subnet.Rancher.{is_text, labels_of}
use kubetee_subnet.Freshness.{Clock}
use kubetee_subnet.Readiness.{NodePosture, node_posture}
use kubetee_subnet.Verdict.{bound_to}

-- `breakdown[klass] = breakdown.get(klass, 0) + count`
abbrev pub add_count : String → ℕ → Dict String ℕ → Dict String ℕ
add_count klass count d = insert klass (get_or klass d 0 + count) d

-- `max(0, int(text))`, or 0 where `int` raises
abbrev pub at_least_0 : Option ℤ → ℕ
at_least_0 none = 0
at_least_0 (some (pos n)) = n
at_least_0 (some (negsuc n)) = 0

-- `order.get(klass, -1) + 1`
abbrev pub rank : String → ℕ
rank klass =
    if klass == "B300"
    then 4
    else if klass == "B200"
    then 3
    else if klass == "H200"
    then 2
    else if klass == "H100"
    then 1
    else 0

-- `key(a) < key(b)`, on the pairs of a count and a rank
abbrev pub is_less : String × ℕ → String × ℕ → Bool
is_less a b = ltb a.1 b.1 || a.1 == b.1 && ltb (rank a.0) (rank b.0)

abbrev pub larger : String × ℕ → String × ℕ → String × ℕ
larger a b = if is_less a b then b else a

-- `max(breakdown, key=…)`, with the count: the first of the greatest.
abbrev pub dominant : String × ℕ → Dict String ℕ → String × ℕ
dominant best [] = best
dominant best (e ∷ d) = dominant (larger best e) d

-- `_miner_gpu_posture`'s result on a breakdown
abbrev pub posture_of_breakdown : Dict String ℕ → Option String × ℕ × Dict String ℕ
posture_of_breakdown [] = (none, 0, [])
posture_of_breakdown (e ∷ d) = let best = dominant e d in (some best.0, best.1, e ∷ d)

module _ {F : Type 0} ⦃f : Float F⦄ (parse_int : String → Option ℤ) where
  -- The count of the label; a node without the label has 8.
  abbrev pub gpu_count : Json F → ℕ
  gpu_count null = 8
  gpu_count raw = at_least_0 (parse_int (to_str raw))

  -- `"tdx" in labels.get("nvidia.com/cc.mode", "").lower()`
  abbrev pub has_tdx_mode : Json F → Option Bool
  has_tdx_mode (str s) = some (has (lower s) "tdx")
  has_tdx_mode _ = none

  abbrev pub is_tdx : Fields F → Option Bool
  is_tdx labels =
      if is_text "true" (get "intel.feature.node.kubernetes.io/tdx" labels)
        || is_text "true" (get "feature.node.kubernetes.io/cpu-security.tdx.enabled" labels)
      then some true
      else and_then (has_tdx_mode (get_default "nvidia.com/cc.mode" labels (str "")))
          (λ mode. some (mode || is_text "true" (get "katacontainers.io/kata-runtime" labels)))

  -- Whether a node counts, behind the tests on its posture and its count.
  abbrev pub counts_in : Bool → NodePosture F → Fields F → Option Bool
  counts_in include_tdx_non_cc p labels =
      if p.vm_passthrough && p.kata_confidential_runtime
      then some true
      else if include_tdx_non_cc
      then is_tdx labels
      else some false

  -- The end of one pass of the loop, on a node with enough GPUs.
  abbrev pub add_node :
      Bool → NodePosture F → Fields F → String → ℕ → Dict String ℕ → Option (Dict String ℕ)
  add_node include_tdx_non_cc p labels klass count d =
      if ltb count 8
      then some d
      else and_then (counts_in include_tdx_non_cc p labels)
          (λ counted. some (if counted then add_count klass count d else d))

  abbrev pub add_posture :
      Bool → Fields F → NodePosture F → Option String → Dict String ℕ → Option (Dict String ℕ)
  add_posture include_tdx_non_cc node p none d = some d
  add_posture include_tdx_non_cc node p (some klass) d =
      if p.ready && p.schedulable
      then and_then (labels_of node) (λ labels.
        add_node include_tdx_non_cc p labels klass (gpu_count (get "nvidia.com/gpu.count" labels))
          d)
      else some d

  -- The loop over the nodes.
  unfoldable pub breakdown_of :
      Clock F → Bool → List (Fields F) → Dict String ℕ → Option (Dict String ℕ)
  breakdown_of clock include_tdx_non_cc [] d = some d
  breakdown_of clock include_tdx_non_cc (node ∷ nodes) d = and_then (node_posture clock node) (λ p.
      and_then (add_posture include_tdx_non_cc node p p.gpu_class d)
        (λ d'. breakdown_of clock include_tdx_non_cc nodes d'))

  abbrev pub breakdown_bound :
      Clock F
      → Dict String (List (Fields F))
      → (Fields F → String)
      → Bool
      → List (Fields F)
      → Option (Dict String ℕ)
  breakdown_bound clock nodes_by_cluster cluster_id_of include_tdx_non_cc [] = some []
  breakdown_bound clock nodes_by_cluster cluster_id_of include_tdx_non_cc (cluster ∷ others) =
      breakdown_of clock include_tdx_non_cc (get_or (cluster_id_of cluster) nodes_by_cluster []) []

  unfoldable pub miner_gpu_breakdown :
      Clock F
      → String
      → List (Fields F)
      → Dict String (List (Fields F))
      → (Fields F → String)
      → Bool
      → Option (Dict String ℕ)
  miner_gpu_breakdown clock hotkey clusters nodes_by_cluster cluster_id_of include_tdx_non_cc =
      and_then (bound_to hotkey clusters)
        (breakdown_bound clock nodes_by_cluster cluster_id_of include_tdx_non_cc)

  unfoldable pub miner_gpu_posture :
      Clock F
      → String
      → List (Fields F)
      → Dict String (List (Fields F))
      → (Fields F → String)
      → Bool
      → Bool
      → Option (Option String × ℕ × Dict String ℕ)
  miner_gpu_posture clock hotkey clusters nodes_by_cluster cluster_id_of ready include_tdx_non_cc =
      if ready
      then and_then
          (miner_gpu_breakdown clock hotkey clusters nodes_by_cluster cluster_id_of
            include_tdx_non_cc)
          (λ d. some (posture_of_breakdown d))
      else some (none, 0, [])
