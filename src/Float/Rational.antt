-- ===== src/Float/Rational.antt =====
-- An instance in which the laws hold: fractions n / (d + 1) of natural numbers, with subtraction
-- stopping at 0. Two fractions of one value are `==` and may differ as data.
use kubetee_subnet.Base.{
  ℕ, zero, suc, ◌+◌, ◌-◌, ◌*◌, ◌/◌, ◌≤◌, ◌<◌, ◌≡◌, refl, ap, Bool, none, arith, leb, leb→le, le→leb,
  ◌⊎◌,
}
use native.Mathlib.Nat.{
  mul-le-mul_right, le_of_mul-le-mul_right, div-mul-le_self, le-div_iff_mul-le,
}
use kubetee_subnet.Float.{Float, ◌⊕◌, ◌⊖◌, ◌⊗◌, ◌⊘◌, ◌≼◌, ◌≺◌, ◌≈◌, of_ℕ}
use kubetee_subnet.Float.Order.{IsOrdered, RoundsInOrder}
use kubetee_subnet.Float.Exact.{IsExact}

pub record Fraction : Type 0 where
  pub num : ℕ
  -- one less than the denominator
  pub den : ℕ

abbrev pub frac : ℕ → ℕ → Fraction
frac n d = record { num = n; den = d - 1 }

abbrev below : Fraction → Fraction → Bool
below a b = leb (a.num * suc b.den) (b.num * suc a.den)

abbrev plus : Fraction → Fraction → Fraction
plus a b = record {
  num = a.num * suc b.den + b.num * suc a.den;
  den = a.den * b.den + a.den + b.den;
}

abbrev minus : Fraction → Fraction → Fraction
minus a b = record {
  num = a.num * suc b.den - b.num * suc a.den;
  den = a.den * b.den + a.den + b.den;
}

abbrev times : Fraction → Fraction → Fraction
times a b = record { num = a.num * b.num; den = a.den * b.den + a.den + b.den }

-- A division by 0, which raises, does not arise where the program divides.
abbrev over : Fraction → Fraction → Fraction
over a b = frac (a.num * suc b.den) (suc a.den * b.num)

abbrev pub ten_to : ℕ → ℕ
ten_to zero = 1
ten_to (suc k) = 10 * ten_to k

-- `round(a, k)`, to the nearest multiple of 10^-k
abbrev rounded : Fraction → ℕ → Fraction
rounded a k = frac ((2 * a.num * ten_to k + suc a.den) / (2 * suc a.den)) (ten_to k)

instance abbrev pub fraction_float : Float Fraction
fraction_float = record {
  lit = frac;
  le = below;
  add = plus;
  sub = minus;
  mul = times;
  div = over;
  round = rounded;
  parse = λ s. none;
  show = λ a. "?";
}

product : (A B : ℕ) → suc (A * B + A + B) ≡ suc A * suc B
product A B = omega arith

module _ (a b c A B C : ℕ) where
  le_trans_lem : 0 < B → a * B ≤ b * A → b * C ≤ c * B → a * C ≤ c * A
  le_trans_lem p h k =
      le_of_mul-le-mul_right {m = a * C} {n = c * A} {k = B}
        (omega (arith, mul-le-mul_right C h, mul-le-mul_right A k)) p

  assoc_lem :
      ((a * B + b * A) * C + c * (A * B)) * (A * (B * C))
      ≡ (a * (B * C) + (b * C + c * B) * A) * (A * B * C)
  assoc_lem = omega arith

  add_mul_lem :
      (a * B + b * A) * c * (A * C * (B * C)) ≡ (a * c * (B * C) + b * c * (A * C)) * (A * B * C)
  add_mul_lem = omega arith

  add_mono_lem : a * B ≤ b * A → (a * C + c * A) * (B * C) ≤ (b * C + c * B) * (A * C)
  add_mono_lem h = omega (arith, mul-le-mul_right (C * C) h)

  mul_mono_lem : a * B ≤ b * A → a * c * (B * C) ≤ b * c * (A * C)
  mul_mono_lem h = omega (arith, mul-le-mul_right (c * C) h)

  add_sub_lem : (k : ℕ) → a * B ≡ b * A + k → (b * (A * B) + k * B) * A ≡ a * (B * (A * B))
  add_sub_lem k e = omega (arith, ap (λ (t : ℕ). t * (A * B)) e)

below_trans : (a b c : Fraction) → a ≼ b → b ≼ c → a ≼ c
below_trans a b c h k = le→leb _ _ (
    le_trans_lem a.num b.num c.num (suc a.den) (suc b.den) (suc c.den) (omega arith) (leb→le _ _ h)
      (leb→le _ _ k))

eq_lem : (a b : Fraction) → a.num * suc b.den ≡ b.num * suc a.den → a ≈ b
eq_lem a b h = (le→leb _ _ (omega arith), le→leb _ _ (omega arith))

add_comm : (a b : Fraction) → a ⊕ b ≈ b ⊕ a
add_comm a b = eq_lem (a ⊕ b) (b ⊕ a) (omega arith)

add_assoc : (a b c : Fraction) → a ⊕ b ⊕ c ≈ a ⊕ (b ⊕ c)
add_assoc a b c =
    eq_lem (a ⊕ b ⊕ c) (a ⊕ (b ⊕ c))
      (simp product (assoc_lem a.num b.num c.num (suc a.den) (suc b.den) (suc c.den)))

add_mul : (a b c : Fraction) → (a ⊕ b) ⊗ c ≈ a ⊗ c ⊕ b ⊗ c
add_mul a b c =
    eq_lem ((a ⊕ b) ⊗ c) (a ⊗ c ⊕ b ⊗ c)
      (simp product (add_mul_lem a.num b.num c.num (suc a.den) (suc b.den) (suc c.den)))

add_mono : (a b c : Fraction) → a ≼ b → a ⊕ c ≼ b ⊕ c
add_mono a b c h = le→leb _ _ (
    simp product
      (add_mono_lem a.num b.num c.num (suc a.den) (suc b.den) (suc c.den) (leb→le _ _ h)))

mul_mono : (a b c : Fraction) → a ≼ b → a ⊗ c ≼ b ⊗ c
mul_mono a b c h = le→leb _ _ (
    simp product
      (mul_mono_lem a.num b.num c.num (suc a.den) (suc b.den) (suc c.den) (leb→le _ _ h)))

add_sub : (a b : Fraction) → b ≼ a → b ⊕ (a ⊖ b) ≈ a
add_sub a b h = eq_lem (b ⊕ (a ⊖ b)) a (
    simp product (
      add_sub_lem a.num b.num 0 (suc a.den) (suc b.den) 0 (a.num * suc b.den - b.num * suc a.den)
        (let k = leb→le _ _ h in omega arith)))

pos_lem : (a : Fraction) → of_ℕ 0 ≺ a → 0 < a.num
pos_lem a h = ground arith

inv_lem : (n d : ℕ) → 0 < n → n * (1 * suc d) * 1 ≡ 1 * (suc d * suc (1 * n - 1))
inv_lem n d h = let e : suc (1 * n - 1) ≡ n = omega arith in rw e (omega arith)

mul_inv : (a : Fraction) → of_ℕ 0 ≺ a → a ⊗ (of_ℕ 1 ⊘ a) ≈ of_ℕ 1
mul_inv a h = eq_lem (a ⊗ (of_ℕ 1 ⊘ a)) (of_ℕ 1) (simp product (inv_lem a.num a.den (pos_lem a h)))

div_lem :
    (a : Fraction) (n d : ℕ)
    → 0 < n
    → a.num * suc d * (suc a.den * suc (1 * n - 1)) ≡ a.num * (1 * suc d) * suc (suc a.den * n - 1)
div_lem a n d h =
    let e : suc (1 * n - 1) ≡ n = omega arith in
    let e' : suc (suc a.den * n - 1) ≡ suc a.den * n = grind arith in rw (e, e') (omega arith)

div_eq_mul : (a b : Fraction) → of_ℕ 0 ≺ b → a ⊘ b ≈ a ⊗ (of_ℕ 1 ⊘ b)
div_eq_mul a b h =
    eq_lem (a ⊘ b) (a ⊗ (of_ℕ 1 ⊘ b)) (simp product (div_lem a b.num b.den (pos_lem b h)))

lit_mono : (n d n' d' : ℕ) → 0 < d → 0 < d' → n * d' ≤ n' * d → frac n d ≼ frac n' d'
lit_mono n (suc d) n' (suc d') p q h =
    let e : suc d - 1 ≡ d = omega arith in
    let e' : suc d' - 1 ≡ d' = omega arith in rw (e, e') (le→leb _ _ h)
lit_mono n zero n' _ p q h = elim p [ ]
lit_mono n (suc d) n' zero p q h = elim q [ ]

total_lem : (a b : Fraction) → (a ≼ b) ⊎ (b ≼ a)
total_lem a b = ground arith

refl_lem : (a : Fraction) → a ≼ a
refl_lem a = ground arith

mul_comm_lem : (a b : Fraction) → a ⊗ b ≈ b ⊗ a
mul_comm_lem a b = eq_lem (a ⊗ b) (b ⊗ a) (simp product (omega arith))

module _ (a A n d : ℕ) where
  mul_le_lem : n ≤ d → a * n * suc A ≤ a * (suc A * d)
  mul_le_lem h = omega (arith, mul-le-mul_right (a * suc A) h)

  mul_ge_lem : d ≤ n → a * (suc A * d) ≤ a * n * suc A
  mul_ge_lem h = omega (arith, mul-le-mul_right (a * suc A) h)

mul_le : (a : Fraction) (n d : ℕ) → 0 < n → n ≤ d → a ⊗ frac n d ≼ a
mul_le a n zero p h = absurd (omega arith)
mul_le a n (suc d) p h =
    let e : suc d - 1 ≡ d = omega arith in
    rw e (le→leb _ _ (simp product (mul_le_lem a.num a.den n (suc d) h)))

mul_ge : (a : Fraction) (n d : ℕ) → 0 < d → d ≤ n → a ≼ a ⊗ frac n d
mul_ge a n zero p h = absurd (omega arith)
mul_ge a n (suc d) p h =
    let e : suc d - 1 ≡ d = omega arith in
    rw e (le→leb _ _ (simp product (mul_ge_lem a.num a.den n (suc d) h)))

lt_lem : (a : Fraction) → 0 < a.num → of_ℕ 0 ≺ a
lt_lem a h = ground arith

mul_pos : (a b : Fraction) → 0 < a.num → 0 < b.num → of_ℕ 0 ≺ a ⊗ b
mul_pos a b h k = lt_lem (a ⊗ b) (grind arith)

pub Fraction-IsOrdered : IsOrdered Fraction
Fraction-IsOrdered = record {
  le_left = λ a b h. refl_lem a;
  le_right = λ a b h. refl_lem b;
  le_trans = below_trans;
  le_total = λ a b p q. total_lem a b;
  lit_mono = lit_mono;
  mul_le = λ a n d _ p h _. mul_le a n d p h;
  mul_ge = λ a n d _ p h _. mul_ge a n d p h;
}

pub Fraction-IsExact : IsExact Fraction
Fraction-IsExact = record {
  le_trans = below_trans;
  le_total = total_lem;
  zero_add = λ a. eq_lem (of_ℕ 0 ⊕ a) a (omega arith);
  add_comm = add_comm;
  add_assoc = add_assoc;
  add_mono = add_mono;
  mul_mono = λ a b c h _. mul_mono a b c h;
  zero_mul = λ a. eq_lem (of_ℕ 0 ⊗ a) (of_ℕ 0) (omega arith);
  one_mul = λ a. eq_lem (of_ℕ 1 ⊗ a) a (omega arith);
  mul_one = λ a. eq_lem (a ⊗ of_ℕ 1) a (omega arith);
  add_mul = add_mul;
  div_eq_mul = div_eq_mul;
  mul_inv = mul_inv;
  inv_pos = λ a h. ground arith;
  mul_pos = λ a b h k. mul_pos a b (pos_lem a h) (pos_lem b k);
  lit_suc = λ n. eq_lem (of_ℕ (suc n)) (of_ℕ n ⊕ of_ℕ 1) (omega arith);
  add_sub = add_sub;
  zero_lt_one = refl;
  lit_pos = λ n d h k. lt_lem (frac n d) h;
}

module _ (an bn x y t : ℕ) (h : an * suc y ≤ bn * suc x) where
  abbrev nearest : ℕ → ℕ → ℕ
  nearest n d = (2 * n * t + suc d) / (2 * suc d)

  scaled : (2 * an * t + suc x) * suc y ≤ (2 * bn * t + suc y) * suc x
  scaled = omega (arith, mul-le-mul_right (2 * t) h)

  nearest_mono : nearest an x ≤ nearest bn y
  nearest_mono =
      let q = nearest an x in
      let low : q * (2 * suc x) ≤ 2 * an * t + suc x = div-mul-le_self _ (2 * suc x) in
      let high : q * (2 * suc y) * suc x ≤ (2 * bn * t + suc y) * suc x =
        omega (arith, scaled, mul-le-mul_right (suc y) low) in
      (le-div_iff_mul-le (omega arith)).1 (le_of_mul-le-mul_right high (omega arith))

pub Fraction-RoundsInOrder : RoundsInOrder Fraction
Fraction-RoundsInOrder a b k h =
    le→leb _ _ (mul-le-mul_right _ (nearest_mono a.num b.num a.den b.den (ten_to k) (leb→le _ _ h)))
