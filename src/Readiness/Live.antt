-- ===== src/Readiness/Live.antt =====
-- What the readiness of a node in validator/infrastructure_validation.py rests on.
use mathlib.Core.Path.{subst}
use mathlib.Core.Option.{some-injective}
use kubetee_subnet.Base.{
  ◌≡◌, refl, sym, ap, ◌∙◌, ◌⊎◌, inl, inr, Bool, true, false, Option, none, some, List, [], ◌∷◌,
  and_then, filter, Bool-cases, Option-cases,
}
use kubetee_subnet.Base.Members.{Some, Some-map, Some-filter, and_then-some}
use kubetee_subnet.Float.{Float, lt, fmax}
use kubetee_subnet.Json.{Fields}
use kubetee_subnet.Rancher.{conditions, labels_of, or_status, dict_or_empty}
use kubetee_subnet.Freshness.{
  Clock, condition_timestamp, is_ready_true, usable, newest, age_of, ready_age_of,
  ready_condition_age,
}
use kubetee_subnet.Readiness.{
  NodePosture, max_age, stale_of, ready_stale, has_confidential_runtime, node_posture,
}

module _ {F : Type 0} ⦃f : Float F⦄ where
  fmax-cases : (a b : F) → (fmax a b ≡ a) ⊎ (fmax a b ≡ b)
  fmax-cases a b = elim (Bool-cases (lt a b)) [ inl e ↦ inr (rw e refl) | inr e ↦ inl (rw e refl) ]

  -- The newest of some timestamps is one of them.
  newest-Some :
      (best : F) (ts : List F) → (newest best ts ≡ best) ⊎ Some (λ t. newest best ts ≡ t) ts
  newest-Some best [] = inl refl
  newest-Some best (t ∷ ts) = elim (newest-Some (fmax best t) ts) [
    | inr later ↦ inr (inr later)
    | inl here ↦ elim (fmax-cases best t) [ inl e ↦ inl (here ∙ e) | inr e ↦ inr (inl (here ∙ e)) ]
  ]

  module _ (clock : Clock F) where
    -- A condition is fresh: its timestamp is no more than 900 s old.
    abbrev pub IsFresh : Fields F → Type 0
    IsFresh c =
        (t : F) × (condition_timestamp clock c ≡ some t) × (lt max_age (f.sub clock.now t) ≡ false)

    usable-none :
        (c : Fields F) (cs : List (Fields F))
        → condition_timestamp clock c ≡ none
        → usable clock (c ∷ cs) ≡ usable clock cs
    usable-none c cs e = rw e refl

    usable-some :
        (t : F) (c : Fields F) (cs : List (Fields F))
        → condition_timestamp clock c ≡ some t
        → usable clock (c ∷ cs) ≡ t ∷ usable clock cs
    usable-some t c cs e = rw e refl

    usable-Some :
        (P : F → Type 0) (cs : List (Fields F))
        → Some P (usable clock cs)
        → Some (λ c. (t : F) × (condition_timestamp clock c ≡ some t) × P t) cs
    usable-Some P [] h = h
    usable-Some P (c ∷ cs) h = elim (Option-cases (condition_timestamp clock c)) [
      | inl e ↦ inr (usable-Some P cs (subst (Some P) (usable-none c cs e) h))
      | inr (t, e) ↦ elim (subst (Some P) (usable-some t c cs e) h) [
        | inl p ↦ inl (t, e, p)
        | inr k ↦ inr (usable-Some P cs k)
      ]
    ]

    ready_age-known :
        (has_ready : Bool) (o : Option F)
        → (stale_of has_ready o).0 ≡ true
        → (age : F) × (o ≡ some age) × (lt max_age age ≡ false)
    ready_age-known false o h = cc h
    ready_age-known true none h = cc h
    ready_age-known true (some age) h = elim (Bool-cases (lt max_age age)) [
      | inl e ↦ cc (rw e at h)
      | inr e ↦ (age, refl, e)
    ]

    age_of-Some :
        (ts : List F) (age : F)
        → age_of clock ts ≡ some age
        → Some (λ t. f.sub clock.now t ≡ age) ts
    age_of-Some [] age h = cc h
    age_of-Some (t ∷ ts) age h = elim (newest-Some t ts) [
      | inl e ↦ inl (ap (f.sub clock.now) (sym e) ∙ some-injective _ _ h)
      | inr later ↦
          inr (Some-map (λ u e. ap (f.sub clock.now) (sym e) ∙ some-injective _ _ h) ts later)
    ]

    ready_age_of-Some :
        (cs : List (Fields F)) (age : F)
        → (ready_age_of clock cs).age ≡ some age
        → Some
            (λ c. (t : F) × (condition_timestamp clock c ≡ some t) × (f.sub clock.now t ≡ age))
            cs
    ready_age_of-Some [] age h = cc h
    ready_age_of-Some (c ∷ cs) age h = usable-Some _ (c ∷ cs) (age_of-Some _ age h)

    -- A node that counts as ready has a condition of type Ready with status True whose timestamp is no
    -- more than 900 seconds old.
    pub node_posture-IsFresh :
        (node : Fields F) (p : NodePosture F)
        → node_posture clock node ≡ some p
        → p.ready ≡ true
        → (cs : List (Fields F)) × (conditions node ≡ some cs)
          × Some (λ c. (is_ready_true c ≡ true) × IsFresh c) cs
    unfolding node_posture ready_condition_age ready_stale
    node_posture-IsFresh node p h live =
        let (labels, l, h1) = and_then-some (labels_of node) _ _ h in
        let (age, a, h2) = and_then-some (ready_condition_age clock node) _ _ h1 in
        let (capacity, c, h3) =
          and_then-some (and_then (or_status "capacity" node) dict_or_empty) _ _ h2 in
        let (confidential, k, h4) = and_then-some (has_confidential_runtime node) _ _ h3 in
        let (cs, e, a') = and_then-some (conditions node) _ _ a in
        let same = some-injective (ready_age_of clock (filter is_ready_true cs)) age a' in
        let known =
          ready_age-known age.has_ready age.age
            (ap (λ q. q.ready) (some-injective _ p h4) ∙ live) in
        let aged =
          ready_age_of-Some (filter is_ready_true cs) known.0 (ap (λ r. r.age) same ∙ known.1) in
        (
          cs,
          e,
          Some-map
              (λ x k. (k.0, (k.1.0, k.1.1, subst (λ y. lt max_age y ≡ false) (sym k.1.2) known.2)))
              cs ((Some-filter is_ready_true _ cs).0 aged),
        )
