-- ===== src/Dashboard/Shown.antt =====
-- What the dashboard shows of a miner in validator/validator.py, and what validator/miner_scoring.py pays it.
use mathlib.Core.Option.{some-injective}
use kubetee_subnet.Base.Members.{and_then-some}
use kubetee_subnet.Base.{
  sym, ap, some, filter, nat_eq, ℕ, ◌≡◌, refl, inl, inr, false, List, [], ◌∷◌, String, string_eq,
  Bool-cases, All, is_empty,
}
use kubetee_subnet.Text.{upper, is_before}
use kubetee_subnet.Dict.{Dict, get_or}
use kubetee_subnet.Float.{Float, ◌⊕◌, ◌⊗◌, lt, ◌≼◌, ◌≈◌, of_ℕ, fmin, sum}
use kubetee_subnet.Float.Exact.{IsExact}
use kubetee_subnet.Float.Order.{RoundsInOrder}
use kubetee_subnet.Float.Sums.{
  total, add_zero, refl_lem, trans, symm, add_left, add_right, mul_left, sum-eq-total,
}
use kubetee_subnet.Scoring.{MinerInput, breakdown_from, usd_from_breakdown, earned}
use kubetee_subnet.Inputs.{place, sorted_items}
use kubetee_subnet.Dashboard.{
  class_usd, shown_usd, MinerEntry, Snapshot, entries_for, dashboard_entries, fleet_of, snapshot,
  build_dashboard_json,
}

-- The classes are written in capitals, as the readiness policy names them.
abbrev pub IsCapital : List (String × ℕ) → Type 0
IsCapital breakdown = All (λ e. upper e.0 ≡ e.0) breakdown

module _ {F : Type 0} ⦃f : Float F⦄ (x : IsExact F) (card : Dict String F) where
  abbrev total_usd : List (String × ℕ) → F
  total_usd l = total (class_usd card l)

  -- a + (b + c) == b + (a + c)
  add_swap : (a b c : F) → a ⊕ (b ⊕ c) ≈ b ⊕ (a ⊕ c)
  add_swap a b c =
      trans x (symm x (x.add_assoc a b c))
        (trans x (add_left x c (x.add_comm a b)) (x.add_assoc b a c))

  total-place : (e : String × ℕ) (l : List (String × ℕ)) → total_usd (place e l) ≈ total_usd (e ∷ l)
  total-place e [] = refl_lem x _
  total-place (k, c) ((j, n) ∷ l) = elim (Bool-cases (is_before k j)) [
    | inl first ↦ rw first (refl_lem x _)
    | inr later ↦
        rw later (trans x (add_right x _ (total-place (k, c) l)) (add_swap _ _ (total_usd l)))
  ]

  total-sorted : (l : List (String × ℕ)) → total_usd (sorted_items l) ≈ total_usd l
  total-sorted [] = refl_lem x _
  total-sorted ((k, c) ∷ l) =
      trans x (total-place (k, c) (sorted_items l)) (add_right x _ (total-sorted l))

  breakdown_from-total :
      (acc : F) (l : List (String × ℕ))
      → IsCapital l
      → breakdown_from acc l card ≈ acc ⊕ total_usd l
  unfolding breakdown_from
  breakdown_from-total acc [] h = symm x (add_zero x acc)
  breakdown_from-total acc ((k, c) ∷ l) h = rw (h.0) (
      trans x (breakdown_from-total (acc ⊕ get_or k card (of_ℕ 0) ⊗ of_ℕ c) l h.1)
        (x.add_assoc acc _ (total_usd l)))

  fmin_self : (a : F) → fmin a a ≡ a
  fmin_self a = elim (Bool-cases (lt a a)) [ inl e ↦ rw e refl | inr e ↦ rw e refl ]

  usd-total :
      (l : List (String × ℕ))
      → IsCapital l
      → sum (class_usd card (sorted_items l)) ≈ usd_from_breakdown l card
  unfolding usd_from_breakdown
  usd-total l h = trans x (sum-eq-total x (class_usd card (sorted_items l))) (
      trans x (total-sorted l)
        (trans x (symm x (x.zero_add (total_usd l))) (symm x (breakdown_from-total (of_ℕ 0) l h))))

  shown_usd-earned :
      (hours : F) (m : MinerInput F)
      → of_ℕ 0 ≼ hours
      → is_empty m.gpu_breakdown ≡ false
      → IsCapital m.gpu_breakdown
      → m.tenure ≡ of_ℕ 1
      → shown_usd card hours m ≈ earned card hours m
  unfolding earned
  shown_usd-earned hours m p broken_down capital full =
      rw (broken_down, full, x.zero_lt_one, fmin_self (of_ℕ 1))
        (mul_left x hours p (trans x (usd-total m.gpu_breakdown capital) (symm x (x.mul_one _))))

  -- A miner whose figure is what it is paid: a breakdown in capitals, and the full tenure.
  abbrev pub IsRegular : MinerInput F → Type 0
  IsRegular m = (is_empty m.gpu_breakdown ≡ false) × IsCapital m.gpu_breakdown × (m.tenure ≡ of_ℕ 1)

  -- The entries are of the miners, in order, each with what scoring pays it, rounded to cents once for
  -- the snapshot and again for the dashboard.
  abbrev pub AreShown : F → List (MinerInput F) → List (MinerEntry F) → Type 0
  AreShown hours [] [] = Unit
  AreShown hours (i ∷ inputs) (m ∷ miners) =
      (m.uid ≡ i.uid)
      × (m.usd ≈ f.round (f.round (earned card hours i) 2) 2)
      × AreShown hours inputs miners
  AreShown hours _ _ = ⊥

  module _ (r : RoundsInOrder F) (hours : F) (p : of_ℕ 0 ≼ hours) where
    round-eq : (a b : F) → a ≈ b → f.round a 2 ≈ f.round b 2
    round-eq a b h = (r a b 2 h.0, r b a 2 h.1)

    entries-AreShown :
        (per_alpha pool total_pool shown_alpha : F) (inputs : List (MinerInput F))
        → All IsRegular (filter (λ (i : MinerInput F). i.ready) inputs)
        → AreShown hours (filter (λ (i : MinerInput F). i.ready) inputs) (
            dashboard_entries total_pool shown_alpha (entries_for card hours per_alpha pool inputs))
    unfolding earned
    entries-AreShown per_alpha pool total_pool shown_alpha [] h = tt
    entries-AreShown per_alpha pool total_pool shown_alpha (i ∷ inputs) h =
        elim (Bool-cases i.ready) [
          | inr off ↦
              rw off (entries-AreShown per_alpha pool total_pool shown_alpha inputs (rw off at h))
          | inl on ↦
              let h' : IsRegular i × All IsRegular (filter (λ (i : MinerInput F). i.ready) inputs) =
                rw on at h in
              let (broken_down, capital, full) = h'.0 in
              rw on (
                refl,
                round-eq _ _ (round-eq _ _ (shown_usd-earned hours i p broken_down capital full)),
                entries-AreShown per_alpha pool total_pool shown_alpha inputs h'.1,
              )
        ]

    snapshot-AreShown :
        (per_alpha pool : F) (miner_usd : Dict ℕ F) (inputs : List (MinerInput F)) (s : Snapshot F)
        → All IsRegular (filter (λ (i : MinerInput F). i.ready) inputs)
        → s.miners ≡ entries_for card hours per_alpha pool inputs
        → AreShown hours
            (filter (λ (i : MinerInput F). i.ready) inputs)
            (build_dashboard_json s).miners
    unfolding build_dashboard_json
    snapshot-AreShown per_alpha pool miner_usd inputs s h e =
        rw e (entries-AreShown per_alpha pool _ _ inputs h)

    -- In exact arithmetic, with a rounding that keeps the order and a window that is not negative: the
    -- dashboard of a cycle lists exactly the ready miners, in order, each with the figure that scoring
    -- pays it, rounded to cents (twice), if each of them has a breakdown, with classes in capitals, and
    -- the full tenure.
    pub build_dashboard_json-AreShown :
        (per_alpha pool : F) (miner_usd : Dict ℕ F) (inputs : List (MinerInput F)) (s : Snapshot F)
        → All IsRegular (filter (λ (i : MinerInput F). i.ready) inputs)
        → snapshot card hours per_alpha pool miner_usd inputs ≡ some s
        → AreShown hours
            (filter (λ (i : MinerInput F). i.ready) inputs)
            (build_dashboard_json s).miners
    unfolding snapshot
    build_dashboard_json-AreShown per_alpha pool miner_usd inputs s h e =
        let (fleet, q, made) = and_then-some (fleet_of inputs []) _ s e in
        snapshot-AreShown per_alpha pool miner_usd inputs s h
          (ap (λ (t : Snapshot F). t.miners) (sym (some-injective _ s made)))
