-- ===== src/Epoch.antt =====
-- Submission of validator/validator.py: `_pad_to_metagraph`, `_epoch`, `_tempo_from_chain` and
-- `_set_weights_once_per_epoch`, one call after another.
pub mod Once
pub mod Due
pub mod Padding
use kubetee_subnet.Base.{
  ℕ, ◌+◌, ◌/◌, Bool, true, false, Option, none, some, List, [], ◌∷◌, ltb, leb, nat_eq, ◌==◌,
  if◌then◌else◌, or_else, String,
}
use kubetee_subnet.Dict.{Dict, get_or, insert}
use kubetee_subnet.Float.{Float, of_ℕ}

-- `Miner` of validator/chain_state.py
pub record Miner : Type 0 where
  pub uid : ℕ
  pub hotkey : String
  pub is_validator : Bool

-- What the validator keeps: `none` is the -1 of `_last_submitted_epoch`.
pub record Submitter : Type 0 where
  pub last_submitted_epoch : Option ℕ
  pub last_set_block : Option ℕ

-- What the chain answers during one call: `none` is an answer of None and an exception.
pub record Answers (W : Type 0) : Type 0 where
  -- The tempo of `epoch_progress`.
  pub tempo : Option ℕ
  pub block : Option ℕ
  pub weights_rate_limit : Option ℕ
  -- Whether `set_weights` returns, or raises.
  pub accepts : W → Bool

pub data Outcome : Type 0 where
  already_submitted : Outcome
  cooling_down : Outcome
  submitted : Outcome
  rejected : Outcome

-- A `set_weights` that the chain accepted.
pub record Submission (W : Type 0) : Type 0 where
  pub epoch : ℕ
  pub block : ℕ
  pub rate_limit : ℕ
  pub weights : W

-- What one call comes to.
pub record Step (W : Type 0) : Type 0 where
  pub state : Submitter
  pub outcome : Outcome
  pub sent : List (Submission W)

-- `__init__`
abbrev pub new_submitter : Submitter
new_submitter = record { last_submitted_epoch = none; last_set_block = none }

-- `last_submitted_epoch >= current_epoch`
abbrev pub is_submitted : Option ℕ → ℕ → Bool
is_submitted none current = false
is_submitted (some last) current = leb current last

-- `block - last_set_block < rate_limit`, on integers: the block can be the earlier one.
abbrev pub is_cooling : Option ℕ → ℕ → ℕ → Bool
is_cooling none block limit = false
is_cooling (some last) block limit = ltb block (last + limit)

module _ {W : Type 0} where
  abbrev pub epoch : Answers W → ℕ
  epoch a = or_else a.block 0

  abbrev pub tempo_from_chain : Answers W → ℕ
  tempo_from_chain a = elim a.tempo [ none ↦ 360 | some n ↦ if n == 0 then 360 else n ]

  abbrev pub current_epoch : Answers W → ℕ
  current_epoch a = epoch a / tempo_from_chain a

  abbrev pub rate_limit : Answers W → ℕ
  rate_limit a = or_else a.weights_rate_limit 100

  unfoldable pub set_weights_once_per_epoch : Answers W → W → Submitter → Step W
  set_weights_once_per_epoch a weights s =
      if is_submitted s.last_submitted_epoch (current_epoch a)
      then record { state = s; outcome = already_submitted; sent = [] }
      else if is_cooling s.last_set_block (epoch a) (rate_limit a)
      then record { state = s; outcome = cooling_down; sent = [] }
      else if a.accepts weights
      then record {
        state = record {
          last_submitted_epoch = some (current_epoch a);
          last_set_block = some (epoch a);
        };
        outcome = submitted;
        sent =
            record {
              epoch = current_epoch a;
              block = epoch a;
              rate_limit = rate_limit a;
              weights = weights;
            }
            ∷ [];
      }
      else record { state = s; outcome = rejected; sent = [] }

-- `_pad_to_metagraph`, whose comprehension writes the miners' weights one after another.
abbrev pub pad_into : {F : Type 0} ⦃f : Float F⦄ → Dict ℕ F → Dict ℕ F → List Miner → Dict ℕ F
pad_into out weights [] = out
pad_into out weights (m ∷ miners) =
    pad_into (insert m.uid (get_or m.uid weights (of_ℕ 0)) out) weights miners

unfoldable pub pad_to_metagraph : {F : Type 0} ⦃f : Float F⦄ → Dict ℕ F → List Miner → Dict ℕ F
pad_to_metagraph weights miners = pad_into [] weights miners
