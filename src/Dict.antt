-- ===== src/Dict.antt =====
-- Python's `dict`, as the list of its entries in insertion order.
pub mod Laws
use kubetee_subnet.Base.{
  Bool, Option, none, some, List, [], ◌∷◌, map, Eq, ◌==◌, if◌then◌else◌, is_some, or_else,
}

abbrev pub Dict {ℓ κ} : Type ℓ → Type κ → Type (ℓ ⊔ κ)
Dict K V = List (K × V)

abbrev pub keys {ℓ κ} : {K : Type ℓ} {V : Type κ} → Dict K V → List K
keys [] = []
keys ((k, v) ∷ d) = k ∷ keys d

abbrev pub values {ℓ κ} : {K : Type ℓ} {V : Type κ} → Dict K V → List V
values [] = []
values ((k, v) ∷ d) = v ∷ values d

-- `{k: f(v) for k, v in d.items()}`
abbrev pub map_values {ℓ κ μ} :
    {K : Type ℓ} {V : Type κ} {W : Type μ} → (V → W) → Dict K V → Dict K W
map_values f [] = []
map_values f ((k, v) ∷ d) = (k, f v) ∷ map_values f d

module _ {ℓ κ} {K : Type ℓ} {V : Type κ} ⦃e : Eq K⦄ where
  -- `d.get(k)`
  abbrev pub lookup : K → Dict K V → Option V
  lookup k [] = none
  lookup k ((j, v) ∷ d) = if j == k then some v else lookup k d

  -- `d.get(k, default)`
  abbrev pub get_or : K → Dict K V → V → V
  get_or k d v = or_else (lookup k d) v

  -- `k in d`
  abbrev pub contains : K → Dict K V → Bool
  contains k d = is_some (lookup k d)

  -- `d[k] = v`: a key that is there keeps its place.
  abbrev pub insert : K → V → Dict K V → Dict K V
  insert k v [] = (k, v) ∷ []
  insert k v ((j, w) ∷ d) = if j == k then (j, v) ∷ d else (j, w) ∷ insert k v d
