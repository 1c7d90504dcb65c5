-- ===== src/Guardrails/Combine.antt =====
-- internal/guardrails/input/scanner.go: the weighted average of the signals.
use llm_guardrail_gateway.Base.{ℕ, ◌≤◌, ◌<◌, Bytes, equal, lookup, false, List, ◌≡◌, refl, arith}
use llm_guardrail_gateway.Dsl.Runtime.{Runtime}
use llm_guardrail_gateway.Guardrails.Arithmetic.{Arithmetic, Le, round2, IsIeee}
use llm_guardrail_gateway.Guardrails.Scanner.{results, weight_of, weigh, verdict_of, scan}
use llm_guardrail_gateway.Guardrails.Signals.{
  keyword_signal, structural_signal, repetition_signal, boundary_signal, entropy_signal,
}

module _ (rt : Runtime) (a : Arithmetic rt.Float) (shuffle : List (ℕ × ℕ) → List (ℕ × ℕ))
    (ieee : IsIeee a) where
  open rt use {Float}
  open a use {hundredths, of_nat, add, mul, div, min, round, ge}

  -- the scores of the five signals
  pub record Scores : Type 0 where
    pub k : Float
    pub s : Float
    pub r : Float
    pub b : Float
    pub e : Float

  abbrev pub combine : Scores → Float
  combine x =
      add
        (add
          (add (add (add (hundredths 0) (mul x.k (hundredths 30))) (mul x.s (hundredths 30)))
            (mul x.r (hundredths 20)))
          (mul x.b (hundredths 15)))
        (mul x.e (hundredths 5))

  abbrev pub scores : Bytes → Scores
  scores prompt = record {
    k = keyword_signal a shuffle prompt;
    s = structural_signal a shuffle prompt;
    r = repetition_signal a shuffle prompt;
    b = boundary_signal a shuffle prompt;
    e = entropy_signal a shuffle prompt;
  }

  pub scan_lem :
      (prompt : Bytes)
      → scan rt a shuffle prompt ≡ record {
        score = round2 a (combine (scores prompt));
        verdict = verdict_of rt a shuffle (round2 a (combine (scores prompt)));
      }
  unfolding scan weigh weight_of results lookup equal
  scan_lem prompt =
      let some_weight : ge (hundredths 0) (hundredths 100) ≡ false =
        ieee.literal_lt 0 100 (omega arith) (omega arith) in
      rw (scan, ieee.weights_sum, some_weight, ieee.div_one) refl

  zero_le : Le a (hundredths 0) (hundredths 0)
  zero_le = ieee.literal_le 0 0 (omega arith)

  sum_pos :
      (x y : Float) → Le a (hundredths 0) x → Le a (hundredths 0) y → Le a (hundredths 0) (add x y)
  sum_pos x y hx hy = ieee.le_trans _ _ _ hy (
      ieee.le_trans _ _ _ (ieee.zero_add y hy).0
        (ieee.add_mono (hundredths 0) x y y zero_le hx hy (self y hy)))
    where
      self : (y : Float) → Le a (hundredths 0) y → Le a y y
      self y hy = ieee.le_trans _ _ _ (ieee.zero_add y hy).0 (ieee.zero_add y hy).1

  -- `c` and `c'` with the terms of two scores of one weight
  term_mono :
      (c c' x y : Float) (n : ℕ)
      → Le a (hundredths 0) c × Le a c c'
      → Le a (hundredths 0) x × Le a x y
      → 0 < n
      → Le a (hundredths 0) (add c (mul x (hundredths n)))
        × Le a (add c (mul x (hundredths n))) (add c' (mul y (hundredths n)))
  term_mono c c' x y n (hc, le) (hx, le') some_weight =
      let pos = ieee.mul_pos x n hx some_weight in
      (
        sum_pos c (mul x (hundredths n)) hc pos,
        ieee.add_mono c c' _ _ hc le pos (ieee.mul_mono x y n le' some_weight),
      )

  -- Scores that are not negative, and others that are not below them.
  pub record IsBelow (x y : Scores) : Type 0 where
    pub k : Le a (hundredths 0) x.k × Le a x.k y.k
    pub s : Le a (hundredths 0) x.s × Le a x.s y.s
    pub r : Le a (hundredths 0) x.r × Le a x.r y.r
    pub b : Le a (hundredths 0) x.b × Le a x.b y.b
    pub e : Le a (hundredths 0) x.e × Le a x.e y.e

  pub combine_mono : (x y : Scores) → IsBelow x y → Le a (combine x) (combine y)
  combine_mono x y h =
      let k =
        term_mono (hundredths 0) (hundredths 0) x.k y.k 30 (zero_le, zero_le) h.k (omega arith) in
      let s = term_mono _ _ x.s y.s 30 k h.s (omega arith) in
      let r = term_mono _ _ x.r y.r 20 s h.r (omega arith) in
      let b = term_mono _ _ x.b y.b 15 r h.b (omega arith) in
      (term_mono _ _ x.e y.e 5 b h.e (omega arith)).1

  pub round2_mono : (x y : Float) → Le a x y → Le a (round2 a x) (round2 a y)
  round2_mono x y h =
      ieee.div_mono _ _ 10000 (ieee.round_mono _ _ (ieee.mul_mono x y 10000 h (omega arith)))
        (omega arith)

  -- the scores of a prompt lie between those of `x` and `y`
  pub score_below :
      (x y : Scores) (n : ℕ)
      → n ≤ 1000
      → IsBelow x y
      → Le a (combine y) (hundredths n)
      → Le a (round2 a (combine x)) (hundredths n)
  score_below x y n small h le =
      let top : Le a (round2 a (combine x)) (round2 a (hundredths n)) =
        round2_mono _ _ (ieee.le_trans _ _ _ (combine_mono x y h) le) in
      rw (← ieee.round2_literal n small) top

  abbrev pub literals : ℕ → ℕ → ℕ → ℕ → ℕ → Scores
  literals k s r b e = record {
    k = hundredths k;
    s = hundredths s;
    r = hundredths r;
    b = hundredths b;
    e = hundredths e;
  }

  pub combine_ones : combine (literals 100 100 100 100 100) ≡ hundredths 100
  combine_ones =
      rw
        (
          combine,
          literals,
          ieee.mul_one 30,
          ieee.mul_one 20,
          ieee.mul_one 15,
          ieee.mul_one 5,
          ieee.weights_sum,
        )
        refl

  zeros : add (hundredths 0) (hundredths 0) ≡ hundredths 0
  zeros = ieee.add_same 0 (omega arith)

  pub combine_zeros : combine (literals 0 0 0 0 0) ≡ hundredths 0
  combine_zeros =
      rw
        (
          combine,
          literals,
          ieee.mul_zero 30,
          ieee.mul_zero 20,
          ieee.mul_zero 15,
          ieee.mul_zero 5,
          zeros,
          zeros,
          zeros,
          zeros,
          zeros,
        )
        refl

  pub combine_entropy : Le a (combine (literals 0 0 0 0 100)) (hundredths 5)
  combine_entropy =
      rw
        (
          combine,
          literals,
          ieee.mul_zero 30,
          ieee.mul_zero 20,
          ieee.mul_zero 15,
          ieee.mul_one 5,
          zeros,
          zeros,
          zeros,
          zeros,
        )
        (ieee.zero_add (hundredths 5) (ieee.literal_le 0 5 (omega arith))).1

  pub self_le : (n : ℕ) → Le a (hundredths n) (hundredths n)
  self_le n = ieee.literal_le n n (omega arith)

  pub zero_le_literal : (n : ℕ) → Le a (hundredths 0) (hundredths n)
  zero_le_literal n = ieee.literal_le 0 n (omega arith)

  pub combine_others : Le a (combine (literals 0 0 100 100 100)) (hundredths 42)
  combine_others =
      let two_terms : Le a (add (add (hundredths 0) (hundredths 20)) (hundredths 15))
          (hundredths 36) =
        ieee.le_trans _ _ _
          (ieee.add_mono _ _ _ _ (sum_pos _ _ zero_le (zero_le_literal 20))
            (ieee.zero_add (hundredths 20) (zero_le_literal 20)).1 (zero_le_literal 15)
            (self_le 15))
          (ieee.add_error 20 15 (omega arith) (omega arith)) in
      rw
        (
          combine,
          literals,
          ieee.mul_zero 30,
          ieee.mul_one 20,
          ieee.mul_one 15,
          ieee.mul_one 5,
          zeros,
          zeros,
        )
        (ieee.le_trans _ _ _
          (ieee.add_mono _ _ _ _
            (sum_pos _ _ (sum_pos _ _ zero_le (zero_le_literal 20)) (zero_le_literal 15)) two_terms
            (zero_le_literal 5) (self_le 5))
          (ieee.add_error 36 5 (omega arith) (omega arith)))

  -- A further term of 0 takes nothing away.
  add_zero_keeps : (z c : Float) → Le a (hundredths 0) z → Le a z c → Le a z (add c (hundredths 0))
  add_zero_keeps z c pos le =
      ieee.le_trans _ _ _ le (ieee.add_zero c (ieee.le_trans _ _ _ pos le)).0

  pub combine_two : Le a (hundredths 60) (combine (literals 100 100 0 0 0))
  combine_two =
      let same : add (hundredths 30) (hundredths 30) ≡ hundredths 60 =
        ieee.add_same 30 (omega arith) in
      let sum : Le a (add (hundredths 30) (hundredths 30))
          (add (add (hundredths 0) (hundredths 30)) (hundredths 30)) =
        ieee.add_mono _ _ _ _ (zero_le_literal 30)
          (ieee.zero_add (hundredths 30) (zero_le_literal 30)).0 (zero_le_literal 30)
          (self_le 30) in
      let keep = add_zero_keeps (hundredths 60) in
      let pos = zero_le_literal 60 in
      rw (combine, literals, ieee.mul_zero 20, ieee.mul_zero 15, ieee.mul_zero 5, ieee.mul_one 30)
        (keep _ pos (keep _ pos (keep _ pos (rw (← same) sum))))

  module _ (n : ℕ) where
    abbrev pub term : Float
    term = mul (hundredths n) (hundredths 30)

    term_pos : Le a (hundredths 0) term
    term_pos = ieee.mul_pos (hundredths n) 30 (zero_le_literal n) (omega arith)

    -- one term among zeros
    pub combine_keyword : Le a term (combine (literals n 0 0 0 0))
    combine_keyword =
        let keep = add_zero_keeps term in
        rw
          (combine, literals, ieee.mul_zero 30, ieee.mul_zero 20, ieee.mul_zero 15, ieee.mul_zero 5)
          (keep _ term_pos
            (keep _ term_pos (keep _ term_pos (keep _ term_pos (ieee.zero_add term term_pos).0))))

    pub combine_structural : Le a term (combine (literals 0 n 0 0 0))
    combine_structural =
        let keep = add_zero_keeps term in
        rw
          (
            combine,
            literals,
            ieee.mul_zero 30,
            ieee.mul_zero 20,
            ieee.mul_zero 15,
            ieee.mul_zero 5,
            zeros,
          )
          (keep _ term_pos (keep _ term_pos (keep _ term_pos (ieee.zero_add term term_pos).0)))
