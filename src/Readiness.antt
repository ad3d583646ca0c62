-- ===== src/Readiness.antt =====
-- The readiness policy of validator/infrastructure_validation.py: the labels of a node and `node_posture`.
pub mod Live
use kubetee_subnet.Base.{
  ℕ, ltb, ◌++◌, Bool, true, false, not, ◌&&◌, ◌||◌, Option, none, some, List, [], ◌∷◌, String,
  string_eq, ◌==◌, if◌then◌else◌, or_else, and_then, map_option, filter, any, is_empty, is_some,
  length,
}
use kubetee_subnet.Text.{append, upper, lower, has}
use kubetee_subnet.Dict.{Dict, get_or}
use kubetee_subnet.Float.{Float, lt, of_ℕ, fmax}
use kubetee_subnet.Json.{
  Json, bool, str, Fields, entries, get, get_default, is_truthy, or_json, to_str,
}
use kubetee_subnet.Rancher.{
  is_text, dicts_of, dict_or_empty, labels_of, hotkey_of, is_banned, or_status, conditions,
}
use kubetee_subnet.Quantity.{parse_memory_gib, parse_cpu_cores}
use kubetee_subnet.Freshness.{Clock, ReadyAge, ready_condition_age}

abbrev pub gpu_classes : List String
gpu_classes = "H100" ∷ "H200" ∷ "B200" ∷ "B300" ∷ "RTX6000" ∷ []

abbrev pub role_keywords : List String
role_keywords = "etcd" ∷ "control-plane" ∷ "worker" ∷ []

-- `x in xs`
abbrev pub is_in : String → List String → Bool
is_in x xs = any (λ y. y == x) xs

-- The first class that the text names.
abbrev pub class_named : String → List String → Option String
class_named text [] =
    if has text "RTX6000" || has text "RTX-6000" || has text "RTXPRO6000"
    then some "RTX6000"
    else none
class_named text (klass ∷ classes) =
    let rest = class_named text classes in if has text klass then some klass else rest

-- What `validate_miner` reads of one node.
pub record NodePosture (F : Type 0) : Type 0 where
  pub ready : Bool
  pub schedulable : Bool
  pub roles : List String
  pub cpu_cores : F
  pub memory_gib : F
  pub gpu_class : Option String
  pub vm_passthrough : Bool
  pub kata_confidential_runtime : Bool
  pub ready_age_seconds : Option F
  pub stale : Bool

abbrev pub is_confidential : String → Bool
is_confidential low = has low "kata" && (has low "tdx" || has low "nvidia-gpu")

module _ {F : Type 0} ⦃f : Float F⦄ where
  -- `f"{key}={value}"`
  abbrev pub label_text : String → Json F → String
  label_text key value = append key (append "=" (to_str value))

  abbrev pub class_of_labels : Dict String (Json F) → Option String
  class_of_labels [] = none
  class_of_labels ((key, value) ∷ labels) =
      let rest = class_of_labels labels in
      elim (class_named (upper (label_text key value)) gpu_classes) [
        | some klass ↦ some klass
        | none ↦ rest
      ]

  unfoldable pub gpu_class_from_labels : Fields F → Option String
  gpu_class_from_labels labels = class_of_labels (entries labels)

  unfoldable pub has_role : Fields F → String → Bool
  has_role labels role =
      any
        (λ x.
          x.0 == append "node-role.kubernetes.io/" role && is_in (to_str x.1) ("" ∷ "true" ∷ []))
        (entries labels)

  -- The names of the handlers that have one.
  abbrev pub handler_names : List (Fields F) → List String
  handler_names [] = []
  handler_names (h ∷ hs) =
      let rest = handler_names hs in
      if is_truthy (get "name" h) then to_str (get "name" h) ∷ rest else rest

  -- `_runtime_handlers`
  unfoldable pub runtime_handlers : Fields F → Option (List String)
  runtime_handlers node =
      and_then (dicts_of (get "runtimeHandlers" node)) (λ hs. some (handler_names hs))

  unfoldable pub has_confidential_runtime : Fields F → Option Bool
  unfolding runtime_handlers
  has_confidential_runtime node = and_then (runtime_handlers node) (λ names.
      if any (λ name. is_confidential (lower name)) names
      then some true
      else and_then (labels_of node) (λ labels.
        some (any (λ x. is_confidential (lower (label_text x.0 x.1))) (entries labels))))

  -- `_READY_MAX_AGE_SECONDS`
  abbrev pub max_age : F
  max_age = f.lit 900 1

  -- The pair `ready, stale` of a Ready condition's age.
  abbrev pub stale_of : Bool → Option F → Bool × Bool
  stale_of false age = (false, false)
  stale_of true none = (false, true)
  stale_of true (some age) = if lt max_age age then (false, true) else (true, false)

  unfoldable pub ready_stale : ReadyAge F → Bool × Bool
  ready_stale r = stale_of r.has_ready r.age

  -- The posture of what was read of a node.
  abbrev pub posture_of : Fields F → Fields F → ReadyAge F → Fields F → Bool → NodePosture F
  posture_of node labels age capacity confidential = record {
    ready = (ready_stale age).0;
    schedulable = not (is_truthy (get_default "unschedulable" node (bool false)));
    roles = filter (has_role labels) role_keywords;
    cpu_cores = parse_cpu_cores (get "cpu" capacity);
    memory_gib = parse_memory_gib (get "memory" capacity);
    gpu_class = gpu_class_from_labels labels;
    vm_passthrough =
        lower (to_str (get_default "nvidia.com/gpu.workload.config" labels (str "")))
        == "vm-passthrough";
    kata_confidential_runtime = confidential;
    ready_age_seconds = age.age;
    stale = (ready_stale age).1;
  }

  unfoldable pub node_posture : Clock F → Fields F → Option (NodePosture F)
  node_posture clock node = and_then (labels_of node) (λ labels.
      and_then (ready_condition_age clock node) (λ age.
        and_then (and_then (or_status "capacity" node) dict_or_empty) (λ capacity.
          and_then (has_confidential_runtime node)
            (λ confidential. some (posture_of node labels age capacity confidential)))))
