-- ===== src/Fleet/Counts.antt =====
-- The counts of a miner's GPUs in validator/validator.py.
use mathlib.Core.Path.{subst}
use mathlib.Core.Option.{some-injective}
use kubetee_subnet.Base.{
  ℕ, ◌+◌, ◌≤◌, ◌≡◌, refl, ◌∙◌, ◌&&◌, nat_eq, ◌⊎◌, inl, inr, ℤ, Bool, true, false, Option, none,
  some, List, [], ◌∷◌, String, string_eq, All, Bool-cases, arith, ltb, ◌==◌, length, if◌then◌else◌,
}
use kubetee_subnet.Base.Members.{Some, and_then-some}
use kubetee_subnet.Dict.{Dict, get_or}
use kubetee_subnet.Dict.Laws.{All-insert}
use kubetee_subnet.Float.{Float}
use kubetee_subnet.Json.{Fields}
use kubetee_subnet.Freshness.{Clock}
use kubetee_subnet.Readiness.{NodePosture, node_posture}
use kubetee_subnet.Fleet.{
  rank, add_count, is_less, larger, dominant, posture_of_breakdown, counts_in, add_node,
  add_posture, breakdown_of, breakdown_bound, miner_gpu_breakdown, miner_gpu_posture,
}
use kubetee_subnet.Rancher.{labels_of}
use kubetee_subnet.Verdict.{bound_to}

-- Every class has at least the 8 GPUs of one node.
abbrev pub AtLeastEight : Dict String ℕ → Type 0
AtLeastEight d = All (λ (e : String × ℕ). 8 ≤ e.1) d

-- The classes by value, the highest first.
abbrev pub by_value : List String
by_value = "B300" ∷ "B200" ∷ "H200" ∷ "H100" ∷ []

-- The place of a class from the end of the list, and 0 for any other class.
abbrev pub worth_in : List String → String → ℕ
worth_in [] klass = 0
worth_in (k ∷ ks) klass = if klass == k then length (k ∷ ks) else worth_in ks klass

abbrev pub worth : String → ℕ
worth klass = worth_in by_value klass

-- Nothing has more GPUs than `best`, and nothing of as many is worth more.
abbrev pub IsBelow : String × ℕ → String × ℕ → Type 0
IsBelow best e = (e.1 ≤ best.1) × (e.1 ≡ best.1 → worth e.0 ≤ worth best.0)

abbrev pub IsMost : String × ℕ → Dict String ℕ → Type 0
IsMost best d = All (λ (e : String × ℕ). IsBelow best e) d

add_count-AtLeastEight :
    (klass : String) (count : ℕ) (d : Dict String ℕ)
    → 8 ≤ count
    → AtLeastEight d
    → AtLeastEight (add_count klass count d)
add_count-AtLeastEight klass count d h k =
    All-insert (λ c n. 8 ≤ n) klass (get_or klass d 0 + count) d k (omega arith)

not_few : (n : ℕ) → ltb n 8 ≡ false → 8 ≤ n
not_few n h = ground arith

rank-worth : (klass : String) → rank klass ≡ worth klass
rank-worth klass = refl

IsBelow-self : (a : String × ℕ) → IsBelow a a
IsBelow-self a = (omega arith, (λ e. omega arith))

IsBelow-trans : (a b c : String × ℕ) → IsBelow b a → IsBelow c b → IsBelow c a
IsBelow-trans a b c h k = (
  omega (arith, h.0, k.0),
  (λ e. omega (arith, h.0, k.0, h.1 (omega (arith, h.0, k.0)), k.1 (omega (arith, h.0, k.0)))),
)

less-IsBelow : (a b : String × ℕ) → is_less a b ≡ true → IsBelow b a
less-IsBelow a b h = (ground arith, (λ e. ground arith))

not_less-IsBelow : (a b : String × ℕ) → is_less a b ≡ false → IsBelow a b
not_less-IsBelow a b h = (ground arith, (λ e. ground arith))

larger-IsBelow : (a b : String × ℕ) → IsBelow (larger a b) a × IsBelow (larger a b) b
larger-IsBelow a b = elim (Bool-cases (is_less a b)) [
  | inl less ↦ rw less (less-IsBelow a b less, IsBelow-self b)
  | inr more ↦ rw more (IsBelow-self a, not_less-IsBelow a b more)
]

larger-cases : (a b : String × ℕ) → (larger a b ≡ a) ⊎ (larger a b ≡ b)
larger-cases a b = elim (Bool-cases (is_less a b)) [
  | inl e ↦ inr (rw e refl)
  | inr e ↦ inl (rw e refl)
]

dominant-IsBelow : (best : String × ℕ) (d : Dict String ℕ) → IsBelow (dominant best d) best
dominant-IsBelow best [] = IsBelow-self best
dominant-IsBelow best (e ∷ d) =
    IsBelow-trans best (larger best e) (dominant (larger best e) d) (larger-IsBelow best e).0
      (dominant-IsBelow (larger best e) d)

dominant-IsMost : (best : String × ℕ) (d : Dict String ℕ) → IsMost (dominant best d) (best ∷ d)
dominant-IsMost best d = (dominant-IsBelow best d, rest best d)
  where
    rest : (b : String × ℕ) (xs : Dict String ℕ) → IsMost (dominant b xs) xs
    rest b [] = tt
    rest b (e ∷ xs) = (
      IsBelow-trans e (larger b e) (dominant (larger b e) xs) (larger-IsBelow b e).1
          (dominant-IsBelow (larger b e) xs),
      rest (larger b e) xs,
    )

dominant-Some : (best : String × ℕ) (d : Dict String ℕ) → Some (λ e. dominant best d ≡ e) (best ∷ d)
dominant-Some best [] = inl refl
dominant-Some best (e ∷ d) = elim (dominant-Some (larger best e) d) [
  | inr later ↦ inr (inr later)
  | inl here ↦ elim (larger-cases best e) [
    | inl same ↦ inl (here ∙ same)
    | inr other ↦ inr (inl (here ∙ other))
  ]
]

-- What a posture's class and count say of its breakdown.
abbrev pub IsDominant : Option String × ℕ × Dict String ℕ → Type 0
IsDominant (none, count, d) = (count ≡ 0) × (d ≡ [])
IsDominant (some klass, count, d) =
    AtLeastEight d × IsMost (klass, count) d × Some (λ (e : String × ℕ). (klass, count) ≡ e) d

posture_of_breakdown-IsDominant :
    (d : Dict String ℕ) → AtLeastEight d → IsDominant (posture_of_breakdown d)
posture_of_breakdown-IsDominant [] h = (refl, refl)
posture_of_breakdown-IsDominant (e ∷ d) h = (h, dominant-IsMost e d, dominant-Some e d)

module _ {F : Type 0} ⦃f : Float F⦄ (parse_int : String → Option ℤ) where
  add_node-AtLeastEight :
      (tdx : Bool) (p : NodePosture F) (labels : Fields F) (klass : String) (count : ℕ)
      (d d' : Dict String ℕ)
      → AtLeastEight d
      → add_node parse_int tdx p labels klass count d ≡ some d'
      → AtLeastEight d'
  add_node-AtLeastEight tdx p labels klass count d d' h e = elim (Bool-cases (ltb count 8)) [
    | inl few ↦ subst AtLeastEight (some-injective d d' (rw few at e)) h
    | inr enough ↦
        let (counted, c, e') =
          and_then-some (counts_in parse_int tdx p labels) _ d' (rw enough at e) in
        elim (Bool-cases counted) [
          | inl on ↦
              subst AtLeastEight (some-injective (add_count klass count d) d' (rw on at e'))
                (add_count-AtLeastEight klass count d (not_few count enough) h)
          | inr off ↦ subst AtLeastEight (some-injective d d' (rw off at e')) h
        ]
  ]

  add_posture-AtLeastEight :
      (tdx : Bool) (node : Fields F) (p : NodePosture F) (o : Option String) (d d' : Dict String ℕ)
      → AtLeastEight d
      → add_posture parse_int tdx node p o d ≡ some d'
      → AtLeastEight d'
  add_posture-AtLeastEight tdx node p none d d' h e = subst AtLeastEight (some-injective d d' e) h
  add_posture-AtLeastEight tdx node p (some klass) d d' h e =
      elim (Bool-cases (p.ready && p.schedulable)) [
        | inr off ↦ subst AtLeastEight (some-injective d d' (rw off at e)) h
        | inl on ↦
            let (labels, l, e') = and_then-some (labels_of node) _ d' (rw on at e) in
            add_node-AtLeastEight tdx p labels klass _ d d' h e'
      ]

  breakdown_of-AtLeastEight :
      (clock : Clock F) (tdx : Bool) (nodes : List (Fields F)) (d d' : Dict String ℕ)
      → AtLeastEight d
      → breakdown_of parse_int clock tdx nodes d ≡ some d'
      → AtLeastEight d'
  unfolding breakdown_of
  breakdown_of-AtLeastEight clock tdx [] d d' h e = subst AtLeastEight (some-injective d d' e) h
  breakdown_of-AtLeastEight clock tdx (node ∷ nodes) d d' h e =
      let (p, q, e1) = and_then-some (node_posture clock node) _ d' e in
      let (d1, q1, e2) = and_then-some (add_posture parse_int tdx node p p.gpu_class d) _ d' e1 in
      breakdown_of-AtLeastEight clock tdx nodes d1 d'
        (add_posture-AtLeastEight tdx node p p.gpu_class d d1 h q1) e2

  breakdown_bound-AtLeastEight :
      (clock : Clock F) (nodes_by_cluster : Dict String (List (Fields F)))
      (cluster_id_of : Fields F → String) (tdx : Bool) (bound : List (Fields F)) (d : Dict String ℕ)
      → breakdown_bound parse_int clock nodes_by_cluster cluster_id_of tdx bound ≡ some d
      → AtLeastEight d
  breakdown_bound-AtLeastEight clock nodes_by_cluster cluster_id_of tdx [] d e =
      subst AtLeastEight (some-injective [] d e) tt
  breakdown_bound-AtLeastEight clock nodes_by_cluster cluster_id_of tdx (c ∷ cs) d e =
      breakdown_of-AtLeastEight clock tdx _ [] d tt e

  module _ (clock : Clock F) (hotkey : String) (clusters : List (Fields F))
      (nodes_by_cluster : Dict String (List (Fields F))) (cluster_id_of : Fields F → String) where
    -- Where the posture is computed and names no class, no GPU is counted. Where it names one, each
    -- class of the breakdown has at least 8 GPUs, and the class and the count that are named are an
    -- entry of the breakdown whose count none exceeds; of the classes with as many GPUs it is one of the
    -- highest value, in the order B300, B200, H200, H100 and then the rest.
    pub miner_gpu_posture-IsDominant :
        (ready tdx : Bool) (r : Option String × ℕ × Dict String ℕ)
        → miner_gpu_posture parse_int clock hotkey clusters nodes_by_cluster cluster_id_of ready tdx
          ≡ some r
        → IsDominant r
    unfolding miner_gpu_posture miner_gpu_breakdown
    miner_gpu_posture-IsDominant false tdx r e =
        subst IsDominant (some-injective _ r e) (refl, refl)
    miner_gpu_posture-IsDominant true tdx r e =
        let (d, b, e1) =
          and_then-some
            (miner_gpu_breakdown parse_int clock hotkey clusters nodes_by_cluster cluster_id_of tdx)
            _ r e in
        let (bound, q, b1) = and_then-some (bound_to hotkey clusters) _ d b in
        subst IsDominant (some-injective (posture_of_breakdown d) r e1) (
          posture_of_breakdown-IsDominant d
            (breakdown_bound-AtLeastEight clock nodes_by_cluster cluster_id_of tdx bound d b1))
