-- ===== src/Examples/Chain.antt =====
-- The theorems on readiness and on submission, at concrete inputs.
use kubetee_subnet.Base.{
  ℤ, pos, ℕ, String, ◌≡◌, ◌↔◌, ◌⊎◌, refl, true, false, Option, none, some, List, [], ◌∷◌, ◌++◌,
  string_eq, nat_eq,
}
use kubetee_subnet.Base.Members.{Some}
use kubetee_subnet.Text.{upper, lower, has}
use kubetee_subnet.Dict.{Dict, lookup}
use kubetee_subnet.Float.Rational.{Fraction, frac, fraction_float}
use kubetee_subnet.Json.{str, obj, arr, nil, cons, Fields, end, field, to_str}
use kubetee_subnet.Rancher.{conditions, cluster_id, hotkey_of}
use kubetee_subnet.Quantity.{parse_memory_gib, parse_cpu_cores}
use kubetee_subnet.Freshness.{
  Clock, parse_timestamp, condition_timestamp, ready_condition_age, is_ready_true,
}
use kubetee_subnet.Readiness.{
  NodePosture, has_role, gpu_class_from_labels, runtime_handlers, has_confidential_runtime,
  ready_stale, node_posture,
}
use kubetee_subnet.Readiness.Live.{IsFresh, node_posture-IsFresh}
use kubetee_subnet.Verdict.{validate_miner, bound_to}
use kubetee_subnet.Verdict.Eligible.{IsEligible, validate_miner-IsEligible}
use kubetee_subnet.Fleet.{miner_gpu_posture, miner_gpu_breakdown, breakdown_of}
use kubetee_subnet.Fleet.Counts.{IsDominant, miner_gpu_posture-IsDominant}
use kubetee_subnet.Epoch.{
  Miner, Answers, Step, set_weights_once_per_epoch, new_submitter, pad_to_metagraph,
}
use kubetee_subnet.Epoch.Once.{Lifetime, start, call, IsSpaced, set_weights_once_per_epoch-IsSpaced}
use kubetee_subnet.Epoch.Due.{IsDue, set_weights_once_per_epoch-IsDue}
use kubetee_subnet.Epoch.Padding.{lookup-pad_to_metagraph}

-- A clock that reads every text as second 100, at second 150.
abbrev clock : Clock Fraction
clock = record { fromisoformat = λ s. some (frac 100 1); strptime = λ s. none; now = frac 150 1 }

abbrev ready_condition : Fields Fraction
ready_condition =
    field "type" (str "Ready")
      (field "status" (str "True") (field "lastHeartbeatTime" (str "2026-11-03T10:36:55Z") end))

abbrev node : Fields Fraction
node = field "conditions" (arr (cons (obj ready_condition) nil)) end

abbrev posture : NodePosture Fraction
posture = record {
  ready = true;
  schedulable = true;
  roles = [];
  cpu_cores = frac 0 1;
  memory_gib = frac 0 1;
  gpu_class = none;
  vm_passthrough = false;
  kata_confidential_runtime = false;
  ready_age_seconds = some (frac 50 1);
  stale = false;
}

read : node_posture clock node ≡ some posture
unfolding node_posture ready_condition_age conditions condition_timestamp parse_timestamp to_str
    ready_stale has_role gpu_class_from_labels has_confidential_runtime runtime_handlers
    parse_cpu_cores parse_memory_gib lower
read = refl

node_posture-IsFresh_example :
    (cs : List (Fields Fraction)) × (conditions node ≡ some cs)
    × Some (λ c. (is_ready_true c ≡ true) × IsFresh clock c) cs
node_posture-IsFresh_example = node_posture-IsFresh clock node posture read refl

abbrev cluster : Fields Fraction
cluster =
    field "id" (str "c-1") (field "labels" (obj (field "kubetee.ai/hotkey" (str "5Miner") end)) end)

abbrev nodes_by_cluster : Dict String (List (Fields Fraction))
nodes_by_cluster = ("c-1", node ∷ []) ∷ []

validate_miner-IsEligible_example :
    (validate_miner clock "5Miner" (cluster ∷ []) nodes_by_cluster cluster_id
      ≡ some (record { ready = true; reasons = [] }))
    ↔ IsEligible clock "5Miner" (cluster ∷ []) nodes_by_cluster cluster_id
validate_miner-IsEligible_example =
    validate_miner-IsEligible clock "5Miner" (cluster ∷ []) nodes_by_cluster cluster_id

-- A call at a block, of a chain that accepts every submission.
abbrev at : ℕ → Answers ℕ
at n = record {
  tempo = some 360;
  block = some n;
  weights_rate_limit = some 100;
  accepts = λ w. true;
}

abbrev first : Step ℕ
first = set_weights_once_per_epoch (at 400) 5 new_submitter

abbrev second : Step ℕ
second = set_weights_once_per_epoch (at 800) 6 first.state

one_call : Lifetime first.state (first.sent ++ [])
one_call = call (at 400) 5 start

two_calls : Lifetime second.state (second.sent ++ (first.sent ++ []))
two_calls = call (at 800) 6 one_call

set_weights_once_per_epoch-IsSpaced_example : IsSpaced (second.sent ++ (first.sent ++ []))
set_weights_once_per_epoch-IsSpaced_example =
    set_weights_once_per_epoch-IsSpaced second.state (second.sent ++ (first.sent ++ [])) two_calls

set_weights_once_per_epoch-IsDue_example :
    ((IsDue (at 800) (first.sent ++ []) × (true ≡ true))
      × ((set_weights_once_per_epoch (at 800) 6 first.state).sent
          ≡ record { epoch = 2; block = 800; rate_limit = 100; weights = 6 } ∷ []))
    ⊎ ((IsDue (at 800) (first.sent ++ []) × (true ≡ true) → ⊥)
        × ((set_weights_once_per_epoch (at 800) 6 first.state).sent ≡ [])
        × ((set_weights_once_per_epoch (at 800) 6 first.state).state ≡ first.state))
set_weights_once_per_epoch-IsDue_example =
    set_weights_once_per_epoch-IsDue first.state (first.sent ++ []) (at 800) 6 one_call

abbrev weights : Dict ℕ Fraction
weights = (7, frac 1 2) ∷ (0, frac 1 2) ∷ []

abbrev neurons : List Miner
neurons =
    record { uid = 0; hotkey = "5Owner"; is_validator = true }
    ∷ record { uid = 7; hotkey = "5Miner"; is_validator = false }
    ∷ []

lookup-pad_to_metagraph_example : lookup 7 (pad_to_metagraph weights neurons) ≡ some (frac 1 2)
lookup-pad_to_metagraph_example = lookup-pad_to_metagraph 7 weights neurons

abbrev gpu_labels : Fields Fraction
gpu_labels =
    field "nvidia.com/gpu.product" (str "NVIDIA-H200")
      (field "nvidia.com/gpu.workload.config" (str "vm-passthrough") end)

abbrev gpu_node : Fields Fraction
gpu_node = field "conditions" (arr (cons (obj ready_condition) nil)) (
    field "labels" (obj gpu_labels)
      (field "runtimeHandlers" (arr (cons (obj (field "name" (str "kata-qemu-tdx") end)) nil)) end))

abbrev gpu_nodes : Dict String (List (Fields Fraction))
gpu_nodes = ("c-1", gpu_node ∷ []) ∷ []

-- A reader of numbers that reads every text as 8.
abbrev eight : String → Option ℤ
eight text = some (pos 8)

counted :
    miner_gpu_posture eight clock "5Miner" (cluster ∷ []) gpu_nodes cluster_id true false
    ≡ some (some "H200", 8, ("H200", 8) ∷ [])
unfolding miner_gpu_posture miner_gpu_breakdown breakdown_of bound_to hotkey_of cluster_id
    node_posture ready_condition_age conditions condition_timestamp parse_timestamp to_str
    ready_stale has_role gpu_class_from_labels has_confidential_runtime runtime_handlers lower upper
    has
counted = refl

miner_gpu_posture-IsDominant_example : IsDominant (some "H200", 8, ("H200", 8) ∷ [])
miner_gpu_posture-IsDominant_example =
    miner_gpu_posture-IsDominant eight clock "5Miner" (cluster ∷ []) gpu_nodes cluster_id true false
      (some "H200", 8, ("H200", 8) ∷ []) counted
