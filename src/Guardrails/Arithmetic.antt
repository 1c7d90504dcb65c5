-- ===== src/Guardrails/Arithmetic.antt =====
-- What internal/guardrails/input/scanner.go uses of float64 and of Go's math. The values are the
-- float64s other than NaN, which no operation of the scanner gives.
use llm_guardrail_gateway.Base.{ℕ, ◌+◌, ◌*◌, ◌≤◌, ◌<◌, Bool, true, false, ◌≡◌}

pub record Arithmetic (Float : Type 0) : Type 0 where
  -- the float64 of a literal of so many hundredths
  pub hundredths : ℕ → Float
  -- `float64(n)`
  pub of_nat : ℕ → Float
  pub add : Float → Float → Float
  pub sub : Float → Float → Float
  pub mul : Float → Float → Float
  pub div : Float → Float → Float
  pub min : Float → Float → Float
  pub round : Float → Float
  pub log2 : Float → Float
  -- `>=`
  pub ge : Float → Float → Bool

module _ {Float : Type 0} (a : Arithmetic Float) where
  open a use {hundredths, of_nat, add, sub, mul, div, min, round, ge}

  abbrev pub Le : Float → Float → Type 0
  Le x y = ge y x ≡ true

  -- `round2`
  abbrev pub round2 : Float → Float
  round2 f = div (round (mul f (hundredths 10000))) (hundredths 10000)

  -- What IEEE 754 says of the numbers that the scanner computes with. Literals of up to ten are
  -- exact enough: their products and sums round to the right hundredth.
  pub record IsIeee : Type 0 where
    pub le_trans : (x y z : Float) → Le x y → Le y z → Le x z
    pub le_total : (x y : Float) → ge x y ≡ false → Le x y
    pub literal_le : (m n : ℕ) → m ≤ n → Le (hundredths m) (hundredths n)
    pub literal_lt : (m n : ℕ) → m < n → n ≤ 1000 → ge (hundredths m) (hundredths n) ≡ false
    pub of_nat_le : (m n : ℕ) → m ≤ n → Le (of_nat m) (of_nat n)
    pub of_nat_one : of_nat 1 ≡ hundredths 100
    pub of_nat_two : of_nat 2 ≡ hundredths 200
    pub of_nat_pos : (n : ℕ) → Le (hundredths 0) (of_nat n)
    pub mul_mono :
        (x y : Float) (n : ℕ) → Le x y → 0 < n → Le (mul x (hundredths n)) (mul y (hundredths n))
    pub mul_pos :
        (x : Float) (n : ℕ) → Le (hundredths 0) x → 0 < n → Le (hundredths 0) (mul x (hundredths n))
    pub mul_zero : (n : ℕ) → mul (hundredths 0) (hundredths n) ≡ hundredths 0
    pub mul_one : (n : ℕ) → mul (hundredths 100) (hundredths n) ≡ hundredths n
    pub mul_two : (n : ℕ) → n ≤ 500 → mul (hundredths 200) (hundredths n) ≡ hundredths (2 * n)
    pub add_mono :
        (x x' y y' : Float)
        → Le (hundredths 0) x
        → Le x x'
        → Le (hundredths 0) y
        → Le y y'
        → Le (add x y) (add x' y')
    pub zero_add :
        (x : Float)
        → Le (hundredths 0) x
        → Le x (add (hundredths 0) x) × Le (add (hundredths 0) x) x
    pub add_zero :
        (x : Float)
        → Le (hundredths 0) x
        → Le x (add x (hundredths 0)) × Le (add x (hundredths 0)) x
    pub add_same : (n : ℕ) → n ≤ 500 → add (hundredths n) (hundredths n) ≡ hundredths (n + n)
    pub add_error :
        (m n : ℕ)
        → m ≤ 100
        → n ≤ 100
        → Le (add (hundredths m) (hundredths n)) (hundredths (m + n + 1))
    -- 0.30 + 0.30 + 0.20 + 0.15 + 0.05
    pub weights_sum :
        add
          (add
            (add (add (add (hundredths 0) (hundredths 30)) (hundredths 30)) (hundredths 20))
            (hundredths 15))
          (hundredths 5)
        ≡ hundredths 100
    pub div_mono :
        (x y : Float) (n : ℕ) → Le x y → 0 < n → Le (div x (hundredths n)) (div y (hundredths n))
    pub div_pos :
        (x : Float) (n : ℕ) → Le (hundredths 0) x → 0 < n → Le (hundredths 0) (div x (hundredths n))
    pub ratio_pos : (m n : ℕ) → 0 < n → Le (hundredths 0) (div (of_nat m) (of_nat n))
    pub ratio_zero : (n : ℕ) → 0 < n → div (of_nat 0) (of_nat n) ≡ hundredths 0
    pub div_zero : (n : ℕ) → 0 < n → div (hundredths 0) (hundredths n) ≡ hundredths 0
    pub div_one : (x : Float) → div x (hundredths 100) ≡ x
    pub sub_pos : (x y : Float) → ge y x ≡ false → Le (hundredths 0) (sub x y)
    pub min_le : (x y : Float) → Le (min x y) y
    pub min_le_left : (x y : Float) → Le (min x y) x
    pub le_min : (x y z : Float) → Le z x → Le z y → Le z (min x y)
    pub round_mono : (x y : Float) → Le x y → Le (round x) (round y)
    pub round2_literal : (n : ℕ) → n ≤ 1000 → round2 (hundredths n) ≡ hundredths n
    pub round2_product :
        (m n k : ℕ)
        → m ≤ 100
        → n ≤ 100
        → 100 * k ≤ m * n
        → Le (hundredths k) (round2 (mul (hundredths m) (hundredths n)))
