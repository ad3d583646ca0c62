-- ===== src/Rancher.antt =====
-- Labels and collections of the clusters and nodes of Rancher: `hotkey_of`, `is_banned` and `cluster_id`
-- of validator/rancher_client.py, and the reading of dicts and lists that its clients share. `none` is the
-- AttributeError or the TypeError of a value that is no dict, or that cannot be iterated.
use kubetee_subnet.Base.{
  Bool, false, Option, none, some, List, [], ◌∷◌, String, string_eq, ◌==◌, if◌then◌else◌, and_then,
}
use kubetee_subnet.Float.{Float}
use kubetee_subnet.Json.{
  Json, null, bool, num, str, arr, obj, Items, nil, cons, Fields, end, get, as_obj, is_truthy,
  or_json, to_str,
}

-- `value == text`
abbrev pub is_text : {F : Type 0} → String → Json F → Bool
is_text text (str s) = s == text
is_text text _ = false

-- `[x for x in items if isinstance(x, dict)]`
abbrev pub dicts : {F : Type 0} → Items F → List (Fields F)
dicts nil = []
dicts (cons (obj fs) xs) = fs ∷ dicts xs
dicts (cons _ xs) = dicts xs

module _ {F : Type 0} ⦃f : Float F⦄ where
  -- `value or {}`, which is used as a dict.
  abbrev pub dict_or_empty : Json F → Option (Fields F)
  dict_or_empty value = if is_truthy value then as_obj value else some end

  -- `[x for x in value or [] if isinstance(x, dict)]`: the keys of a dict and the letters of a string
  -- are no dicts.
  abbrev pub dicts_of : Json F → Option (List (Fields F))
  dicts_of null = some []
  dicts_of (bool b) = if b then none else some []
  dicts_of (num x) = if is_truthy (num x) then none else some []
  dicts_of (str s) = some []
  dicts_of (arr xs) = some (dicts xs)
  dicts_of (obj fs) = some []

  -- `node.get("labels") or {}`
  abbrev pub labels_of : Fields F → Option (Fields F)
  labels_of fs = dict_or_empty (get "labels" fs)

  abbrev pub hotkey_in : Fields F → String
  hotkey_in labels = to_str (
      or_json (or_json (get "kubetee.ai/hotkey" labels) (get "kubetee.ai/miner-hotkey" labels))
        (str ""))

  unfoldable pub hotkey_of : Fields F → Option String
  hotkey_of cluster = and_then (labels_of cluster) (λ labels. some (hotkey_in labels))

  unfoldable pub is_banned : Fields F → Option Bool
  is_banned cluster =
      and_then (labels_of cluster) (λ labels. some (is_text "true" (get "kubetee.ai/ban" labels)))

  unfoldable pub cluster_id : Fields F → String
  unfolding to_str
  cluster_id cluster = to_str (or_json (or_json (get "id" cluster) (get "name" cluster)) (str ""))

  -- `node.get(key) or (node.get("status") or {}).get(key)`
  abbrev pub or_status : String → Fields F → Option (Json F)
  or_status key node =
      if is_truthy (get key node)
      then some (get key node)
      else and_then (dict_or_empty (get "status" node)) (λ status. some (get key status))

  -- `_conditions` and `_cluster_conditions` of validator/infrastructure_validation.py
  unfoldable pub conditions : Fields F → Option (List (Fields F))
  conditions node = and_then (or_status "conditions" node) dicts_of
