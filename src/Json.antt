-- ===== src/Json.antt =====
-- A parsed JSON document, as `json.loads` returns it: numbers are floats or integers, which the
-- program reads alike, and an object keeps its keys in order.
use Prim.Native.String.{◌++◌}
use kubetee_subnet.Base.{
  not, ◌&&◌, or_else, string_eq, ◌==◌, if◌then◌else◌, Bool, true, false, Option, none, some, List,
  [], ◌∷◌, String,
}
use kubetee_subnet.Dict.{Dict, lookup}
use kubetee_subnet.Float.{Float, of_ℕ}

mutual
  pub data Json (F : Type 0) : Type 0 where
    null : Json F
    bool : Bool → Json F
    num : F → Json F
    str : String → Json F
    arr : Items F → Json F
    obj : Fields F → Json F

  pub data Items (F : Type 0) : Type 0 where
    nil : Items F
    cons : Json F → Items F → Items F

  pub data Fields (F : Type 0) : Type 0 where
    end : Fields F
    field : String → Json F → Fields F → Fields F

module _ {F : Type 0} where
  abbrev pub entries : Fields F → Dict String (Json F)
  entries end = []
  entries (field k v fs) = (k, v) ∷ entries fs

  abbrev pub of_entries : Dict String (Json F) → Fields F
  of_entries [] = end
  of_entries ((k, v) ∷ d) = field k v (of_entries d)

  abbrev pub elements : Items F → List (Json F)
  elements nil = []
  elements (cons x xs) = x ∷ elements xs

  -- `payload.get(key)`: a key that is absent and one that holds null both read as None.
  abbrev pub get : String → Fields F → Json F
  get k fs = or_else (lookup k (entries fs)) null

  -- `payload.get(key, default)`
  abbrev pub get_default : String → Fields F → Json F → Json F
  get_default k fs d = or_else (lookup k (entries fs)) d

  -- `isinstance(value, dict)`
  abbrev pub as_obj : Json F → Option (Fields F)
  as_obj (obj fs) = some fs
  as_obj _ = none

  -- `isinstance(value, list)`
  abbrev pub as_arr : Json F → Option (Items F)
  as_arr (arr xs) = some xs
  as_arr _ = none

  -- `isinstance(value, bool)`
  abbrev pub as_bool : Json F → Option Bool
  as_bool (bool b) = some b
  as_bool _ = none

  -- `float(value)` where `isinstance(value, (int, float))`: a Boolean is an int.
  abbrev pub as_num : ⦃f : Float F⦄ → Json F → Option F
  as_num ⦃f⦄ (num x) = some x
  as_num ⦃f⦄ (bool true) = some (of_ℕ 1)
  as_num ⦃f⦄ (bool false) = some (of_ℕ 0)
  as_num ⦃f⦄ _ = none

  -- `float(value)` of any value; `none` is the TypeError or the ValueError.
  abbrev pub to_float : ⦃f : Float F⦄ → Json F → Option F
  to_float ⦃f⦄ (num x) = some x
  to_float ⦃f⦄ (bool true) = some (of_ℕ 1)
  to_float ⦃f⦄ (bool false) = some (of_ℕ 0)
  to_float ⦃f⦄ (str s) = f.parse s
  to_float ⦃f⦄ _ = none

  -- `bool(value)`
  abbrev pub is_truthy : ⦃f : Float F⦄ → Json F → Bool
  is_truthy ⦃f⦄ null = false
  is_truthy ⦃f⦄ (bool b) = b
  is_truthy ⦃f⦄ (num x) = not (f.le x (of_ℕ 0) && f.le (of_ℕ 0) x)
  is_truthy ⦃f⦄ (str s) = not (s == "")
  is_truthy ⦃f⦄ (arr nil) = false
  is_truthy ⦃f⦄ (arr (cons x xs)) = true
  is_truthy ⦃f⦄ (obj end) = false
  is_truthy ⦃f⦄ (obj (field k v fs)) = true

  -- `a or b`
  abbrev pub or_json : ⦃f : Float F⦄ → Json F → Json F → Json F
  or_json a b = if is_truthy a then a else b

-- `str(value)`. Quotes and backslashes inside a list or a dict are not escaped.
unfoldable mutual
  pub to_str : {F : Type 0} ⦃f : Float F⦄ → Json F → String
  to_str ⦃f⦄ null = "None"
  to_str ⦃f⦄ (bool true) = "True"
  to_str ⦃f⦄ (bool false) = "False"
  to_str ⦃f⦄ (num x) = f.show x
  to_str ⦃f⦄ (str s) = s
  to_str ⦃f⦄ (arr xs) = "[" ++ repr_items "" xs ++ "]"
  to_str ⦃f⦄ (obj fs) = "{" ++ repr_fields "" fs ++ "}"

  pub repr : {F : Type 0} ⦃f : Float F⦄ → Json F → String
  repr ⦃f⦄ null = "None"
  repr ⦃f⦄ (bool true) = "True"
  repr ⦃f⦄ (bool false) = "False"
  repr ⦃f⦄ (num x) = f.show x
  repr ⦃f⦄ (str s) = "'" ++ s ++ "'"
  repr ⦃f⦄ (arr xs) = "[" ++ repr_items "" xs ++ "]"
  repr ⦃f⦄ (obj fs) = "{" ++ repr_fields "" fs ++ "}"

  pub repr_items : {F : Type 0} ⦃f : Float F⦄ → String → Items F → String
  repr_items ⦃f⦄ sep nil = ""
  repr_items ⦃f⦄ sep (cons x xs) = sep ++ repr x ++ repr_items ", " xs

  pub repr_fields : {F : Type 0} ⦃f : Float F⦄ → String → Fields F → String
  repr_fields ⦃f⦄ sep end = ""
  repr_fields ⦃f⦄ sep (field k v fs) = sep ++ "'" ++ k ++ "': " ++ repr v ++ repr_fields ", " fs
