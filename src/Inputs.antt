-- ===== src/Inputs.antt =====
-- The loop of `run_cycle` in validator/validator.py over the miners of the metagraph: the verdict on each,
-- with the owner's override, its GPUs, and what scoring takes of them. `none` is a raised exception.
pub mod Ready
use kubetee_subnet.Text.{is_before}
use kubetee_subnet.Base.{
  ℕ, ◌+◌, nat_eq, ℤ, Bool, true, false, ◌||◌, Option, none, some, List, [], ◌∷◌, String, string_eq,
  ◌==◌, if◌then◌else◌, any, and_then, map_option,
}
use kubetee_subnet.Dict.{Dict, get_or, insert}
use kubetee_subnet.Float.{Float, of_ℕ}
use kubetee_subnet.Json.{Json, null, str, Fields, get}
use kubetee_subnet.Rancher.{hotkey_of, cluster_id}
use kubetee_subnet.Freshness.{Clock}
use kubetee_subnet.Verdict.{Verdict, bound_to, validate_miner}
use kubetee_subnet.Fleet.{miner_gpu_posture}
use kubetee_subnet.Epoch.{Miner}
use kubetee_subnet.Scoring.{MinerInput}

abbrev pub place : String × ℕ → List (String × ℕ) → List (String × ℕ)
place e [] = e ∷ []
place e (d ∷ rest) =
    let later = place e rest in if is_before e.0 d.0 then e ∷ d ∷ rest else d ∷ later

-- `sorted(breakdown.items())`, whose keys are distinct
abbrev pub sorted_items : Dict String ℕ → List (String × ℕ)
sorted_items [] = []
sorted_items (e ∷ d) = place e (sorted_items d)

-- `sum(breakdown.values())`
abbrev pub total_of : Dict String ℕ → ℕ
total_of [] = 0
total_of ((k, n) ∷ d) = n + total_of d

-- `hotkey in registered_hotkeys`
abbrev pub is_miner : String → List Miner → Bool
is_miner hotkey miners = any (λ m. m.hotkey == hotkey) miners

module _ {F : Type 0} ⦃f : Float F⦄ where
  -- The clusters whose hotkey is in the metagraph.
  unfoldable pub metagraph_clusters : List Miner → List (Fields F) → Option (List (Fields F))
  metagraph_clusters miners [] = some []
  metagraph_clusters miners (c ∷ cs) =
      let rest = metagraph_clusters miners cs in
      and_then (hotkey_of c)
        (λ key. and_then rest (λ kept. some (if is_miner key miners then c ∷ kept else kept)))

  -- The nodes of each cluster by its id. `none` is a RancherEvidenceError.
  unfoldable pub nodes_of :
      (String → Option (List (Fields F)))
      → List (Fields F)
      → Dict String (List (Fields F))
      → Option (Dict String (List (Fields F)))
  nodes_of list_nodes [] d = some d
  nodes_of list_nodes (c ∷ cs) d =
      and_then (list_nodes (cluster_id c))
        (λ nodes. nodes_of list_nodes cs (insert (cluster_id c) nodes d))

  -- `bound[0].get("name")`; a name that is no text is not kept.
  abbrev pub name_of : Json F → Option String
  name_of (str s) = some s
  name_of _ = none

  abbrev pub bound_name : List (Fields F) → Option String
  bound_name [] = none
  bound_name (c ∷ cs) = name_of (get "name" c)

  module _ (parse_int : String → Option ℤ) (clock : Clock F) (owner_miner_uid : ℕ)
      (clusters registered : List (Fields F))
      (nodes_by_cluster : Dict String (List (Fields F))) where
    -- The verdict's `ready`, behind the owner's override.
    abbrev pub is_ready : Miner → Verdict F → Bool
    is_ready m v = v.ready || m.uid == owner_miner_uid

    abbrev pub input_of :
        Miner → Bool → Option String × ℕ × Dict String ℕ → List (Fields F) → MinerInput F
    input_of m ready posture bound = record {
      uid = m.uid;
      hotkey = m.hotkey;
      ready = ready;
      gpu_class = posture.0;
      gpu_workers = posture.1;
      gpu_breakdown = sorted_items posture.2;
      total_qualifying_workers = total_of posture.2;
      cluster_name = bound_name bound;
      tenure = of_ℕ 1;
    }

    -- One pass of the loop. The verdict is on the registered clusters, the GPUs are of all of them.
    unfoldable pub miner_input : Miner → Option (MinerInput F)
    miner_input m =
        and_then (validate_miner clock m.hotkey registered nodes_by_cluster cluster_id) (λ v.
          and_then
            (miner_gpu_posture parse_int clock m.hotkey clusters nodes_by_cluster cluster_id
              (is_ready m v) (m.uid == owner_miner_uid))
            (λ posture.
              and_then (bound_to m.hotkey registered)
                (λ bound. some (input_of m (is_ready m v) posture bound))))

    unfoldable pub inputs_of : List Miner → Option (List (MinerInput F))
    inputs_of [] = some []
    inputs_of (m ∷ miners) =
        let rest = inputs_of miners in
        and_then (miner_input m) (λ i. and_then rest (λ is. some (i ∷ is)))
