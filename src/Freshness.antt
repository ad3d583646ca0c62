-- ===== src/Freshness.antt =====
-- How old the Ready condition of a node is: `_parse_timestamp`, `_condition_timestamp` and
-- `_ready_condition_age` of validator/infrastructure_validation.py. What `datetime` parses is a parameter:
-- a timestamp is a number of seconds, a naive one read as UTC, and `none` is the ValueError.
use kubetee_subnet.Base.{
  Bool, true, false, ◌&&◌, Option, none, some, List, [], ◌∷◌, String, string_eq, ◌==◌,
  if◌then◌else◌, and_then, filter,
}
use kubetee_subnet.Text.{append, strip, zulu, split}
use kubetee_subnet.Float.{Float, fmax}
use kubetee_subnet.Json.{Json, Fields, get, is_truthy, to_str}
use kubetee_subnet.Rancher.{is_text, conditions}

pub record Clock (F : Type 0) : Type 0 where
  -- `datetime.fromisoformat`
  pub fromisoformat : String → Option F
  -- `datetime.strptime(…, "%Y-%m-%d %H:%M:%S %Z")`
  pub strptime : String → Option F
  -- `datetime.now(timezone.utc)`, read once
  pub now : F

-- `text.split()[-1]`; `none` is the IndexError.
abbrev pub last_of : List String → Option String
last_of [] = none
last_of (w ∷ []) = some w
last_of (w ∷ v ∷ words) = last_of (v ∷ words)

-- `" ".join(words[:2])`
abbrev pub first_two : List String → String
first_two [] = ""
first_two (w ∷ []) = w
first_two (w ∷ v ∷ words) = append w (append " " v)

-- Whether a node has a Ready condition that is True, and the age of the newest one.
pub record ReadyAge (F : Type 0) : Type 0 where
  pub has_ready : Bool
  pub age : Option F

abbrev pub keep_some : {F : Type 0} → Option F → List F → List F
keep_some none ts = ts
keep_some (some t) ts = t ∷ ts

module _ {F : Type 0} ⦃f : Float F⦄ where
  abbrev pub is_ready_true : Fields F → Bool
  is_ready_true c = is_text "Ready" (get "type" c) && to_str (get "status" c) == "True"

  -- `max(usable)`
  abbrev pub newest : F → List F → F
  newest best [] = best
  newest best (t ∷ ts) = newest (fmax best t) ts

module _ {F : Type 0} ⦃f : Float F⦄ (clock : Clock F) where
  abbrev pub parse_go : List String → Option F
  parse_go words =
      and_then (last_of words) (λ zone. clock.strptime (append (first_two words) (append " " zone)))

  abbrev pub parse_text : String → Option F
  parse_text text = elim (clock.fromisoformat (zulu text)) [
    | some t ↦ some t
    | none ↦ parse_go (split text)
  ]

  unfoldable pub parse_timestamp : Json F → Option F
  parse_timestamp raw = if is_truthy raw then parse_text (strip (to_str raw)) else none

  -- The first of some keys whose value is a timestamp.
  abbrev pub first_timestamp : List String → Fields F → Option F
  first_timestamp [] condition = none
  first_timestamp (key ∷ keys) condition =
      let rest = first_timestamp keys condition in
      elim (parse_timestamp (get key condition)) [ some t ↦ some t | none ↦ rest ]

  unfoldable pub condition_timestamp : Fields F → Option F
  condition_timestamp condition =
      first_timestamp ("lastHeartbeatTime" ∷ "lastUpdateTime" ∷ "lastTransitionTime" ∷ []) condition

  -- `[t for t in timestamps if t is not None]`
  abbrev pub usable : List (Fields F) → List F
  usable [] = []
  usable (c ∷ cs) = keep_some (condition_timestamp c) (usable cs)

  -- `(now - max(usable)).total_seconds()`
  abbrev pub age_of : List F → Option F
  age_of [] = none
  age_of (t ∷ ts) = some (f.sub clock.now (newest t ts))

  abbrev pub ready_age_of : List (Fields F) → ReadyAge F
  ready_age_of [] = record { has_ready = false; age = none }
  ready_age_of (c ∷ cs) = record { has_ready = true; age = age_of (usable (c ∷ cs)) }

  unfoldable pub ready_condition_age : Fields F → Option (ReadyAge F)
  ready_condition_age node =
      and_then (conditions node) (λ cs. some (ready_age_of (filter is_ready_true cs)))
