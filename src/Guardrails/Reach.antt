-- ===== src/Guardrails/Reach.antt =====
-- internal/guardrails/input/scanner.go: what the signals of a prompt add up to.
use llm_guardrail_gateway.Base.{
  ℕ, zero, suc, ◌*◌, ◌≤◌, ◌<◌, Bytes, false, List, ◌≡◌, ◌≢◌, inl, inr, refl, ap, Bool-cases, leb,
  arith,
}
use llm_guardrail_gateway.Dsl.Runtime.{Runtime}
use llm_guardrail_gateway.Gateway.Server.{pass, blocked, ScanResult}
use llm_guardrail_gateway.Guardrails.Arithmetic.{Arithmetic, Le, round2, IsIeee}
use llm_guardrail_gateway.Guardrails.Combine.{
  Scores, combine, scores, scan_lem, score_below, round2_mono, combine_mono, literals, self_le,
  zero_le_literal,
}
use llm_guardrail_gateway.Guardrails.Patterns.{
  keyword_patterns, structural_patterns, override_verbs, boundary_patterns,
}
use llm_guardrail_gateway.Guardrails.Scanner.{verdict_of, scan}
use llm_guardrail_gateway.Guardrails.Score.{
  IsScore, keyword_signal-IsScore, structural_signal-IsScore, boundary_signal-IsScore,
  repetition_signal-IsScore, entropy_signal-IsScore,
}
use llm_guardrail_gateway.Guardrails.Signals.{
  field_count, capped, density_score, keyword_signal, structural_signal, repetition_signal,
  boundary_signal, entropy_signal,
}
use llm_guardrail_gateway.Regexp.{count_matches}

module _ (rt : Runtime) (a : Arithmetic rt.Float) (shuffle : List (ℕ × ℕ) → List (ℕ × ℕ))
    (ieee : IsIeee a) where
  open rt use {Float}
  open a use {hundredths, of_nat, mul, min, ge}

  -- Below a literal under the threshold a score is under it.
  under :
      (x : Float) (n m : ℕ) → Le a x (hundredths n) → n < m → m ≤ 1000 → ge x (hundredths m) ≡ false
  under x n m le lt small = elim (Bool-cases (ge x (hundredths m))) [
    | inl reached ↦ cc (ieee.literal_lt n m lt small, ieee.le_trans _ _ _ reached le)
    | inr e ↦ e
  ]

  pub verdict_of_pass : (x : Float) → Le a x (hundredths 5) → verdict_of rt a shuffle x ≡ pass
  unfolding verdict_of
  verdict_of_pass x le =
      rw
        (
          verdict_of,
          under x 5 60 le (omega arith) (omega arith),
          under x 5 18 le (omega arith) (omega arith),
        )
        refl

  pub verdict_of_unblocked :
      (x : Float) → Le a x (hundredths 42) → verdict_of rt a shuffle x ≢ blocked
  unfolding verdict_of
  verdict_of_unblocked x le e =
      let not_reached = under x 42 60 le (omega arith) (omega arith) in
      elim (Bool-cases (ge x (hundredths 18))) [
        | inl f ↦ cc (rw (verdict_of, not_reached, f) at e)
        | inr f ↦ cc (rw (verdict_of, not_reached, f) at e)
      ]

  pub verdict_of_flagged : (x : Float) → Le a (hundredths 18) x → verdict_of rt a shuffle x ≢ pass
  unfolding verdict_of
  verdict_of_flagged x le e = elim (Bool-cases (ge x (hundredths 60))) [
    | inl f ↦ cc (rw (verdict_of, f) at e)
    | inr f ↦ cc (rw (verdict_of, f, le) at e)
  ]

  pub verdict_of_blocked :
      (x : Float) → Le a (hundredths 60) x → verdict_of rt a shuffle x ≡ blocked
  unfolding verdict_of
  verdict_of_blocked x le = rw (verdict_of, le) refl

  pub capped_one :
      (n weight : ℕ)
      → 0 < n
      → 0 < weight
      → weight ≤ 100
      → Le a (hundredths weight) (capped a shuffle n weight)
  unfolding capped
  capped_one zero weight h pos small = absurd (omega (arith, h))
  capped_one (suc n) weight h pos small =
      ieee.le_min _ (hundredths 100) (hundredths weight)
        (ieee.le_trans _ _ _ (rw (ieee.mul_one weight) (self_le rt a shuffle ieee weight)) (
          ieee.mul_mono (hundredths 100) (of_nat (suc n)) weight
            (rw (← ieee.of_nat_one) (ieee.of_nat_le 1 (suc n) (omega arith))) pos))
        (ieee.literal_le weight 100 small)

  pub capped_two :
      (n weight : ℕ)
      → 2 ≤ n
      → 50 ≤ weight
      → weight ≤ 100
      → Le a (hundredths 100) (capped a shuffle n weight)
  unfolding capped
  capped_two zero weight h large small = absurd (omega (arith, h))
  capped_two (suc n) weight h large small =
      ieee.le_min _ (hundredths 100) (hundredths 100)
        (ieee.le_trans _ _ _ (ieee.literal_le 100 (2 * weight) (omega arith)) (
          rw (← ieee.mul_two weight (omega arith)) (
            ieee.mul_mono (hundredths 200) (of_nat (suc n)) weight
              (rw (← ieee.of_nat_two) (ieee.of_nat_le 2 (suc n) h)) (omega arith))))
        (self_le rt a shuffle ieee 100)

  density_score_zero : Le a (density_score a shuffle (hundredths 0)) (hundredths 0)
  unfolding density_score
  density_score_zero =
      rw (ieee.literal_lt 0 50 (omega arith) (omega arith), ieee.div_zero 5 (omega arith))
        (ieee.min_le_left (hundredths 0) (hundredths 100))

  module _ (prompt : Bytes) where
    abbrev pub keyword_count : ℕ
    keyword_count = count_matches keyword_patterns prompt

    abbrev pub override_count : ℕ
    override_count = count_matches structural_patterns prompt

    abbrev pub ours : Scores rt a shuffle ieee
    ours = scores rt a shuffle ieee prompt

    abbrev pub composite : Float
    composite = combine rt a shuffle ieee ours

    abbrev pub some_scores : ℕ → ℕ → ℕ → ℕ → ℕ → Scores rt a shuffle ieee
    some_scores = literals rt a shuffle ieee

    pub keyword_zero : keyword_count ≡ 0 → Le a (keyword_signal a shuffle prompt) (hundredths 0)
    unfolding keyword_signal capped
    keyword_zero e = rw (keyword_signal, e) (self_le rt a shuffle ieee 0)

    pub structural_zero :
        override_count ≡ 0 → Le a (structural_signal a shuffle prompt) (hundredths 0)
    unfolding structural_signal capped
    structural_zero e = rw (structural_signal, e) (self_le rt a shuffle ieee 0)

    pub boundary_zero :
        count_matches boundary_patterns prompt ≡ 0
        → Le a (boundary_signal a shuffle prompt) (hundredths 0)
    unfolding boundary_signal capped
    boundary_zero e = rw (boundary_signal, e) (self_le rt a shuffle ieee 0)

    pub repetition_zero :
        count_matches override_verbs prompt ≡ 0
        → Le a (repetition_signal a shuffle prompt) (hundredths 0)
    unfolding repetition_signal
    repetition_zero e = elim (Bool-cases (leb (field_count prompt) 0)) [
      | inl f ↦ rw (repetition_signal, f) (self_le rt a shuffle ieee 0)
      | inr f ↦
          let some_words : 0 < field_count prompt = ground arith in
          rw (repetition_signal, f, e, ieee.ratio_zero (field_count prompt) some_words)
            density_score_zero
    ]

    k : IsScore a (keyword_signal a shuffle prompt)
    k = keyword_signal-IsScore a shuffle ieee prompt

    s : IsScore a (structural_signal a shuffle prompt)
    s = structural_signal-IsScore a shuffle ieee prompt

    r : IsScore a (repetition_signal a shuffle prompt)
    r = repetition_signal-IsScore a shuffle ieee prompt

    b : IsScore a (boundary_signal a shuffle prompt)
    b = boundary_signal-IsScore a shuffle ieee prompt

    e : IsScore a (entropy_signal a shuffle prompt)
    e = entropy_signal-IsScore a shuffle ieee prompt

    zero_low : Le a (hundredths 0) (hundredths 0)
    zero_low = self_le rt a shuffle ieee 0

    pub verdict_eq :
        (scan rt a shuffle prompt).verdict ≡ verdict_of rt a shuffle (round2 a composite)
    verdict_eq = ap (λ (o : ScanResult rt). o.verdict) (scan_lem rt a shuffle ieee prompt)

    pub at_least :
        (k' s' : ℕ)
        → Le a (hundredths k') (keyword_signal a shuffle prompt)
        → Le a (hundredths s') (structural_signal a shuffle prompt)
        → Le a (round2 a (combine rt a shuffle ieee (some_scores k' s' 0 0 0))) (round2 a composite)
    at_least k' s' hk hs = round2_mono rt a shuffle ieee _ _ (
        combine_mono rt a shuffle ieee (some_scores k' s' 0 0 0) ours (record {
          k = (zero_le_literal rt a shuffle ieee k', hk);
          s = (zero_le_literal rt a shuffle ieee s', hs);
          r = (zero_low, r.0);
          b = (zero_low, b.0);
          e = (zero_low, e.0);
        }))

    pub at_most :
        (k' s' r' b' e' n : ℕ)
        → n ≤ 1000
        → Le a (keyword_signal a shuffle prompt) (hundredths k')
        → Le a (structural_signal a shuffle prompt) (hundredths s')
        → Le a (repetition_signal a shuffle prompt) (hundredths r')
        → Le a (boundary_signal a shuffle prompt) (hundredths b')
        → Le a (entropy_signal a shuffle prompt) (hundredths e')
        → Le a (combine rt a shuffle ieee (some_scores k' s' r' b' e')) (hundredths n)
        → Le a (round2 a composite) (hundredths n)
    at_most k' s' r' b' e' n small hk hs hr hb he =
        score_below rt a shuffle ieee ours (some_scores k' s' r' b' e') n small
          (record { k = (k.0, hk); s = (s.0, hs); r = (r.0, hr); b = (b.0, hb); e = (e.0, he) })
