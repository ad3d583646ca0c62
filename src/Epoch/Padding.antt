-- ===== src/Epoch/Padding.antt =====
-- `_pad_to_metagraph` of validator/validator.py: the weights that are submitted.
use kubetee_subnet.Base.{
  ℕ, ◌≡◌, refl, Bool, none, some, List, [], ◌∷◌, nat_eq, ◌==◌, if◌then◌else◌, any, nat_beq_iff, ap,
  ◌∙◌, Bool-cases, inl, inr,
}
use kubetee_subnet.Dict.{Dict, lookup, get_or, insert}
use kubetee_subnet.Dict.Laws.{lookup-insert}
use kubetee_subnet.Float.{Float, of_ℕ}
use kubetee_subnet.Epoch.{Miner, pad_into, pad_to_metagraph}

abbrev pub is_registered : ℕ → List Miner → Bool
is_registered u miners = any (λ m. m.uid == u) miners

module _ {F : Type 0} ⦃f : Float F⦄ where
  lookup-pad_into :
      (u : ℕ) (out weights : Dict ℕ F) (miners : List Miner)
      → lookup u (pad_into out weights miners)
        ≡ (if is_registered u miners then some (get_or u weights (of_ℕ 0)) else lookup u out)
  lookup-pad_into u out weights [] = refl
  lookup-pad_into u out weights (m ∷ miners) =
      lookup-pad_into u (insert m.uid (get_or m.uid weights (of_ℕ 0)) out) weights miners
      ∙ elim (Bool-cases (m.uid == u)) [
        | inl same ↦ elim (Bool-cases (is_registered u miners)) [
          | inl e ↦ rw (e, same) refl
          | inr e ↦
              rw (e, same)
                (lookup-insert m.uid u _ out
                  ∙ rw same
                      (ap (λ x. some (get_or x weights (of_ℕ 0))) ((nat_beq_iff m.uid u).0 same)))
        ]
        | inr other ↦ elim (Bool-cases (is_registered u miners)) [
          | inl e ↦ rw (e, other) refl
          | inr e ↦ rw (e, other) (lookup-insert m.uid u _ out ∙ rw other refl)
        ]
      ]

  -- What is submitted has an entry for each uid of the metagraph and for no other: the weight that
  -- was computed for it, or 0.
  pub lookup-pad_to_metagraph :
      (u : ℕ) (weights : Dict ℕ F) (miners : List Miner)
      → lookup u (pad_to_metagraph weights miners)
        ≡ (if is_registered u miners then some (get_or u weights (of_ℕ 0)) else none)
  unfolding pad_to_metagraph
  lookup-pad_to_metagraph u weights miners = lookup-pad_into u [] weights miners
