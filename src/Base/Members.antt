-- ===== src/Base/Members.antt =====
-- Predicates that some member of a list satisfies, and what the Boolean tests and filters say of them.
use mathlib.Core.Path.{◌≡◌, refl}
use mathlib.Core.Logic.{◌↔◌, ◌⊎◌, inl, inr}
use mathlib.Core.Bool.{Bool, true, false}
use mathlib.Core.Option.{Option, none, some}
use mathlib.Core.List.{List, [], ◌∷◌}
use kubetee_subnet.Base.Tests.{Bool-cases}
use kubetee_subnet.Base.Lists.{is_empty, any, filter, All, and_then}

abbrev pub Some {ℓ} : {A : Type ℓ} → (A → Type 0) → List A → Type 0
Some P [] = ⊥
Some P (x ∷ xs) = P x ⊎ Some P xs

module _ {ℓ} {A : Type ℓ} where
  pub Some-map : {P Q : A → Type 0} → ((x : A) → P x → Q x) → (xs : List A) → Some P xs → Some Q xs
  Some-map g [] h = h
  Some-map g (x ∷ xs) (inl p) = inl (g x p)
  Some-map g (x ∷ xs) (inr h) = inr (Some-map g xs h)

  pub Some-filter :
      (q : A → Bool) (P : A → Type 0) (xs : List A)
      → Some P (filter q xs) ↔ Some (λ x. (q x ≡ true) × P x) xs
  Some-filter q P [] = ((λ h. h), (λ h. h))
  Some-filter q P (x ∷ xs) = elim (Bool-cases (q x)) [
    | inl e ↦ rw e (
      elim [ inl p ↦ inl (refl, p) | inr h ↦ inr ((Some-filter q P xs).0 h) ],
      elim [ inl p ↦ inl p.1 | inr h ↦ inr ((Some-filter q P xs).1 h) ],
    )
    | inr e ↦ rw e (
      (λ h. inr ((Some-filter q P xs).0 h)),
      elim [ inl p ↦ cc p.0 | inr h ↦ (Some-filter q P xs).1 h ],
    )
  ]

  pub All-filter {κ} :
      (q : A → Bool) (P : A → Type κ) (xs : List A)
      → All P (filter q xs) ↔ All (λ x. q x ≡ true → P x) xs
  All-filter q P [] = ((λ h. h), (λ h. h))
  All-filter q P (x ∷ xs) = elim (Bool-cases (q x)) [
    | inl e ↦ rw e (
      (λ h. ((λ t. h.0), (All-filter q P xs).0 h.1)),
      (λ h. (h.0 refl, (All-filter q P xs).1 h.1)),
    )
    | inr e ↦ rw e ((λ h. ((λ t. cc t), (All-filter q P xs).0 h)), (λ h. (All-filter q P xs).1 h.1))
  ]

  pub any_iff : (q : A → Bool) (xs : List A) → (any q xs ≡ true) ↔ Some (λ x. q x ≡ true) xs
  any_iff q [] = ((λ h. cc h), (λ h. absurd h))
  any_iff q (x ∷ xs) = elim (Bool-cases (q x)) [
    | inl e ↦ rw e ((λ h. inl refl), (λ h. refl))
    | inr e ↦
        rw e ((λ h. inr ((any_iff q xs).0 h)), elim [ inl p ↦ cc p | inr h ↦ (any_iff q xs).1 h ])
  ]

  pub is_empty_iff :
      (q : A → Bool) (xs : List A) → (is_empty (filter q xs) ≡ false) ↔ Some (λ x. q x ≡ true) xs
  is_empty_iff q [] = ((λ h. cc h), (λ h. absurd h))
  is_empty_iff q (x ∷ xs) = elim (Bool-cases (q x)) [
    | inl e ↦ rw e ((λ h. inl refl), (λ h. refl))
    | inr e ↦ rw e (
      (λ h. inr ((is_empty_iff q xs).0 h)),
      elim [ inl p ↦ cc p | inr h ↦ (is_empty_iff q xs).1 h ],
    )
  ]

-- What code that does not raise went through.
pub and_then-some {ℓ κ} :
    {A : Type ℓ} {B : Type κ} (o : Option A) (next : A → Option B) (b : B)
    → and_then o next ≡ some b
    → (a : A) × (o ≡ some a) × (next a ≡ some b)
and_then-some none next b h = cc
and_then-some (some a) next b h = (a, refl, h)
