-- ===== src/Dict/Laws.antt =====
-- Lookups after a write, and predicates that every entry satisfies.
use mathlib.Core.Path.{subst, subst₂}
use mathlib.Core.Option.{some-injective}
use kubetee_subnet.Base.{
  sym, ap, ◌≡◌, ◌++◌, refl, none, some, [], ◌∷◌, arith, Eq, ◌==◌, if◌then◌else◌, All, Bool-cases,
  inl, inr,
}
use mathlib.Core.Option
use kubetee_subnet.Dict.{map_values, Dict, lookup, insert}

module _ {ℓ κ} {K : Type ℓ} {V : Type κ} ⦃e : Eq K⦄ where
  pub lookup-insert :
      (k j : K) (v : V) (d : Dict K V)
      → lookup j (insert k v d) ≡ (if k == j then some v else lookup j d)
  lookup-insert k j v [] = refl
  lookup-insert k j v ((i, w) ∷ d) =
      ground (arith, e.beq_iff i k, e.beq_iff k j, e.beq_iff i j, lookup-insert k j v d)

  -- A key that is not there is written at the end.
  pub insert-append :
      (k : K) (v : V) (d : Dict K V) → lookup k d ≡ none → insert k v d ≡ d ++ (k, v) ∷ []
  insert-append k v [] h = refl
  insert-append k v ((j, w) ∷ d) h = elim (Bool-cases (j == k)) [
    | inl same ↦ cc (rw same at h)
    | inr other ↦ rw other (ap (λ (t : Dict K V). (j, w) ∷ t) (insert-append k v d (rw other at h)))
  ]

  -- A predicate on entries survives a write whose entry satisfies it.
  pub All-insert {μ} :
      (P : K → V → Type μ) (k : K) (v : V) (d : Dict K V)
      → All (λ x. P x.0 x.1) d
      → P k v
      → All (λ x. P x.0 x.1) (insert k v d)
  All-insert P k v [] h p = (p, tt)
  All-insert P k v ((i, w) ∷ d) h p = elim (Bool-cases (i == k)) [
    | inl same ↦ rw same (subst (λ x. P x v) (sym ((e.beq_iff i k).0 same)) p, h.1)
    | inr other ↦ rw other (h.0, All-insert P k v d h.1 p)
  ]

  -- What is found is an entry.
  pub All-lookup {μ} :
      (P : K → V → Type μ) (k : K) (v : V) (d : Dict K V)
      → All (λ x. P x.0 x.1) d
      → lookup k d ≡ some v
      → P k v
  All-lookup P k v [] h q = cc
  All-lookup P k v ((i, w) ∷ d) h q = elim (Bool-cases (i == k)) [
    | inl same ↦ subst₂ P ((e.beq_iff i k).0 same) (some-injective w v (rw same at q)) h.0
    | inr other ↦ All-lookup P k v d h.1 (rw other at q)
  ]

  pub lookup-map_values {μ} :
      {W : Type μ} (g : V → W) (k : K) (d : Dict K V)
      → lookup k (map_values g d) ≡ Option.map g (lookup k d)
  lookup-map_values g k [] = refl
  lookup-map_values g k ((j, v) ∷ d) = elim (Bool-cases (j == k)) [
    | inl same ↦ rw same
    | inr other ↦ rw other (lookup-map_values g k d)
  ]
