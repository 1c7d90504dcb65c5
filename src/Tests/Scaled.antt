-- ===== src/Tests/Scaled.antt =====
-- An arithmetic that has the laws of Guardrails/Arithmetic: natural numbers of ten-thousandths.
use native.Mathlib.Nat.{
  le-div_iff_mul-le, div-mul-le_self, mul-le-mul_right, zero-div, mul-div_cancel,
}
use llm_guardrail_gateway.Base.{
  ℕ, ◌+◌, ◌-◌, ◌*◌, ◌/◌, ◌≤◌, ◌<◌, true, false, leb, ◌≡◌, refl, ap, ◌∙◌, arith, if◌then◌else◌,
}
use llm_guardrail_gateway.Guardrails.Arithmetic.{Arithmetic, IsIeee, round2}

unfoldable pub times : ℕ → ℕ → ℕ
times x y = x * y / 10000

unfoldable pub over : ℕ → ℕ → ℕ
over x y = x * 10000 / y

unfoldable pub nearest : ℕ → ℕ
nearest x = (x + 5000) / 10000 * 10000

abbrev pub scaled : Arithmetic ℕ
scaled = record {
  hundredths = λ n. 100 * n;
  of_nat = λ n. 10000 * n;
  add = λ x y. x + y;
  sub = λ x y. x - y;
  mul = times;
  div = over;
  min = λ x y. if leb x y then x else y;
  round = nearest;
  log2 = λ x. 0;
  ge = λ x y. leb y x;
}

div_mono : (x y k : ℕ) → x ≤ y → 0 < k → x / k ≤ y / k
div_mono x y k h pos = (le-div_iff_mul-le pos).1 (omega (arith, div-mul-le_self x k))

leb_of : (x y : ℕ) → x ≤ y → leb x y ≡ true
leb_of x y h = ground arith

times_mono : (x y n : ℕ) → leb x y ≡ true → leb (times x (100 * n)) (times y (100 * n)) ≡ true
unfolding times
times_mono x y n h =
    let le : x ≤ y = ground arith in
    leb_of _ _ (div_mono _ _ 10000 (mul-le-mul_right (100 * n) le) (omega arith))

over_mono : (x y n : ℕ) → leb x y ≡ true → 0 < n → leb (over x (100 * n)) (over y (100 * n)) ≡ true
unfolding over
over_mono x y n h pos =
    let le : x ≤ y = ground arith in leb_of _ _ (div_mono _ _ (100 * n) (omega arith) (omega arith))

times_product : (m n : ℕ) → times (100 * m) (100 * n) ≡ m * n
unfolding times
times_product m n =
    let e : 100 * m * (100 * n) ≡ m * n * 10000 = grind arith in
    ap (λ t. t / 10000) e ∙ mul-div_cancel (m * n) (omega arith)

round2-scaled : (x : ℕ) → round2 scaled x ≡ (x + 50) / 100 * 100
unfolding times over nearest
round2-scaled x = omega arith

literal_lt : (m n : ℕ) → m < n → n ≤ 1000 → leb (100 * n) (100 * m) ≡ false
literal_lt m n h small = ground arith

round2_le : (x y : ℕ) → x * 100 ≤ y → leb (x * 100) ((y + 50) / 100 * 100) ≡ true
round2_le x y h = leb_of _ _ (omega arith)

nearest_mono : (x y : ℕ) → leb x y ≡ true → leb (nearest x) (nearest y) ≡ true
unfolding nearest
nearest_mono x y h = let le : x ≤ y = ground arith in leb_of _ _ (omega arith)

min_le : (x y : ℕ) → leb (if leb x y then x else y) y ≡ true
min_le x y = ground arith

min_le_left : (x y : ℕ) → leb (if leb x y then x else y) x ≡ true
min_le_left x y = ground arith

le_min : (x y z : ℕ) → leb z x ≡ true → leb z y ≡ true → leb z (if leb x y then x else y) ≡ true
le_min x y z h k = ground arith

le_trans : (x y z : ℕ) → leb x y ≡ true → leb y z ≡ true → leb x z ≡ true
le_trans x y z h k = ground arith

over_zero : (n : ℕ) → over 0 n ≡ 0
unfolding over
over_zero n = zero-div n

over_one : (x : ℕ) → over x 10000 ≡ x
unfolding over
over_one x = omega arith

product :
    (m n k : ℕ) → 100 * k ≤ m * n → leb (100 * k) (round2 scaled (times (100 * m) (100 * n))) ≡ true
product m n k h =
    leb_of _ _ (omega (arith, round2-scaled (times (100 * m) (100 * n)), times_product m n, h))

pub scaled-IsIeee : IsIeee scaled
scaled-IsIeee = record {
  le_trans = le_trans;
  le_total = λ x y h. ground arith;
  literal_le = λ m n h. leb_of _ _ (omega arith);
  literal_lt = literal_lt;
  of_nat_le = λ m n h. leb_of _ _ (omega arith);
  of_nat_one = refl;
  of_nat_two = refl;
  of_nat_pos = λ n. leb_of _ _ (omega arith);
  mul_mono = λ x y n h pos. times_mono x y n h;
  mul_pos = λ x n h pos. leb_of _ _ (omega arith);
  mul_zero = λ n. times_product 0 n ∙ omega arith;
  mul_one = λ n. times_product 100 n;
  mul_two = λ n h. times_product 200 n ∙ omega arith;
  add_mono = λ x x' y y' hx h hy k. ground arith;
  zero_add = λ x h. (leb_of _ _ (omega arith), leb_of _ _ (omega arith));
  add_zero = λ x h. (leb_of _ _ (omega arith), leb_of _ _ (omega arith));
  add_same = λ n h. omega arith;
  add_error = λ m n h k. leb_of _ _ (omega arith);
  weights_sum = refl;
  div_mono = over_mono;
  div_pos = λ x n h pos. leb_of _ _ (omega arith);
  ratio_pos = λ m n pos. leb_of _ _ (omega arith);
  ratio_zero = λ n pos. over_zero (10000 * n);
  div_zero = λ n pos. over_zero (100 * n);
  div_one = over_one;
  sub_pos = λ x y h. leb_of _ _ (omega arith);
  min_le = min_le;
  min_le_left = min_le_left;
  le_min = le_min;
  round_mono = nearest_mono;
  round2_literal = λ n h. round2-scaled (100 * n) ∙ omega arith;
  round2_product = λ m n k hm hn h. product m n k h;
}
