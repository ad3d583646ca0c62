-- ===== src/Dashboard.antt =====
-- The figures of a cycle for the public: the snapshot at the end of `run_cycle` in validator/validator.py,
-- and `build_dashboard_json` of validator/dashboard.py. The page itself, which is text for display, is
-- left out.
pub mod Shown
use kubetee_subnet.Base.{
  ℕ, ◌+◌, nat_eq, Bool, true, false, Option, none, some, List, [], ◌∷◌, String, string_eq,
  if◌then◌else◌, and_then, filter,
}
use kubetee_subnet.Dict.{Dict, get_or, insert, values}
use kubetee_subnet.Float.{Float, ◌⊕◌, ◌⊖◌, ◌⊗◌, ◌⊘◌, lt, of_ℕ, fmax, sum}
use kubetee_subnet.Scoring.{MinerInput}
use kubetee_subnet.Inputs.{sorted_items}

-- One miner of the snapshot, and of the dashboard.
pub record MinerEntry (F : Type 0) : Type 0 where
  pub uid : ℕ
  pub cluster_name : Option String
  pub ready : Bool
  pub gpus : List (String × ℕ)
  pub usd : F
  pub alpha : F
  pub share : F

-- The figures of the snapshot that are computed, not passed on.
pub record Snapshot (F : Type 0) : Type 0 where
  pub miner_usd : F
  pub owner_usd : F
  pub total_pool_usd : F
  pub usd_per_alpha : F
  pub fleet_gpus : Dict String ℕ
  pub miners : List (MinerEntry F)

-- `fleet_gpus[klass] = fleet_gpus.get(klass, 0) + count`
abbrev pub add_gpus : List (String × ℕ) → Dict String ℕ → Dict String ℕ
add_gpus [] fleet = fleet
add_gpus ((klass, count) ∷ rest) fleet =
    add_gpus rest (insert klass (get_or klass fleet 0 + count) fleet)

-- A breakdown, or else nothing. A class without a breakdown would be unpacked as a pair, which raises.
abbrev pub add_fleet : List (String × ℕ) → Option String → Dict String ℕ → Option (Dict String ℕ)
add_fleet [] none fleet = some fleet
add_fleet [] (some klass) fleet = none
add_fleet (e ∷ breakdown) gpu_class fleet = some (add_gpus (e ∷ breakdown) fleet)

module _ {F : Type 0} ⦃f : Float F⦄ where
  -- The loop that fills `fleet_gpus`.
  abbrev pub fleet_of : List (MinerInput F) → Dict String ℕ → Option (Dict String ℕ)
  fleet_of [] fleet = some fleet
  fleet_of (i ∷ inputs) fleet =
      and_then (if i.ready then add_fleet i.gpu_breakdown i.gpu_class fleet else some fleet)
        (λ fleet'. fleet_of inputs fleet')

  -- `effective_card.get(k, 0.0) * int(c)`, for each class
  abbrev pub class_usd : Dict String F → List (String × ℕ) → List F
  class_usd card [] = []
  class_usd card ((k, c) ∷ rest) = get_or k card (of_ℕ 0) ⊗ of_ℕ c ∷ class_usd card rest

  -- What a miner earns, as the snapshot has it before rounding.
  abbrev pub shown_usd : Dict String F → F → MinerInput F → F
  shown_usd card hours i = sum (class_usd card (sorted_items i.gpu_breakdown)) ⊗ hours

  abbrev pub entry_of : Dict String F → F → F → F → MinerInput F → MinerEntry F
  entry_of card hours per_alpha total_pool i = record {
    uid = i.uid;
    cluster_name = i.cluster_name;
    ready = i.ready;
    gpus = sorted_items i.gpu_breakdown;
    usd = f.round (shown_usd card hours i) 2;
    alpha =
        f.round (if lt (of_ℕ 0) per_alpha then shown_usd card hours i ⊘ per_alpha else of_ℕ 0) 4;
    share =
        f.round
          (if lt (of_ℕ 0) total_pool
            then shown_usd card hours i ⊘ total_pool ⊗ of_ℕ 100
            else of_ℕ 0)
          1;
  }

  -- The miners of the snapshot: the ready ones.
  abbrev pub entries_for : Dict String F → F → F → F → List (MinerInput F) → List (MinerEntry F)
  entries_for card hours per_alpha total_pool [] = []
  entries_for card hours per_alpha total_pool (i ∷ inputs) =
      let rest = entries_for card hours per_alpha total_pool inputs in
      if i.ready then entry_of card hours per_alpha total_pool i ∷ rest else rest

  -- `none` is an exception.
  unfoldable pub snapshot :
      Dict String F → F → F → F → Dict ℕ F → List (MinerInput F) → Option (Snapshot F)
  snapshot card hours per_alpha pool miner_usd inputs = and_then (fleet_of inputs []) (λ fleet.
      some (record {
        miner_usd = f.round (sum (values miner_usd)) 2;
        owner_usd = f.round (fmax (of_ℕ 0) (pool ⊖ sum (values miner_usd))) 2;
        total_pool_usd = f.round pool 2;
        usd_per_alpha = per_alpha;
        fleet_gpus = fleet;
        miners = entries_for card hours per_alpha pool inputs;
      }))

  -- One miner of `build_dashboard_json`, by the total that it computes.
  abbrev pub dashboard_entry : F → F → MinerEntry F → MinerEntry F
  dashboard_entry total_pool per_alpha m = record m {
    usd = f.round m.usd 2;
    alpha = f.round (if lt (of_ℕ 0) per_alpha then m.usd ⊘ per_alpha else of_ℕ 0) 4;
    share =
        f.round
          (if lt (of_ℕ 0) total_pool
            then m.usd ⊘ total_pool ⊗ of_ℕ 100
            else if lt (of_ℕ 0) m.usd
            then of_ℕ 100
            else of_ℕ 0)
          1;
  }

  abbrev pub dashboard_entries : F → F → List (MinerEntry F) → List (MinerEntry F)
  dashboard_entries total_pool per_alpha [] = []
  dashboard_entries total_pool per_alpha (m ∷ miners) =
      dashboard_entry total_pool per_alpha m ∷ dashboard_entries total_pool per_alpha miners

  -- `build_dashboard_json`, of what it computes.
  unfoldable pub build_dashboard_json : Snapshot F → Snapshot F
  build_dashboard_json s =
      let total_pool = s.miner_usd ⊕ s.owner_usd in
      record {
        miner_usd = f.round s.miner_usd 2;
        owner_usd = f.round s.owner_usd 2;
        total_pool_usd = f.round total_pool 2;
        usd_per_alpha = f.round s.usd_per_alpha 2;
        fleet_gpus = s.fleet_gpus;
        miners = dashboard_entries total_pool s.usd_per_alpha s.miners;
      }
