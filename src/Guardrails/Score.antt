-- ===== src/Guardrails/Score.antt =====
-- internal/guardrails/input/scanner.go: every signal is between 0 and 1.
use llm_guardrail_gateway.Base.{
  ℕ, zero, suc, ◌<◌, Bytes, ltb, leb, List, [], length, inl, inr, Bool-cases, arith,
}
use llm_guardrail_gateway.Guardrails.Arithmetic.{Arithmetic, Le, IsIeee}
use llm_guardrail_gateway.Guardrails.Patterns.{
  keyword_patterns, structural_patterns, override_verbs, boundary_patterns,
}
use llm_guardrail_gateway.Guardrails.Signals.{
  field_count, frequencies, total_of, capped, keyword_signal, structural_signal, boundary_signal,
  density_score, repetition_signal, anomaly, entropy_signal,
}
use llm_guardrail_gateway.Regexp.{count_matches}
use llm_guardrail_gateway.Regexp.Runes.{decode}

module _ {Float : Type 0} (a : Arithmetic Float) where
  open a use {hundredths, of_nat, sub, mul, div, min, ge}

  -- between 0 and 1
  abbrev pub IsScore : Float → Type 0
  IsScore x = Le a (hundredths 0) x × Le a x (hundredths 100)

  module _ (shuffle : List (ℕ × ℕ) → List (ℕ × ℕ)) (ieee : IsIeee a) where
    zero-IsScore : IsScore (hundredths 0)
    zero-IsScore = (ieee.literal_le 0 0 (omega arith), ieee.literal_le 0 100 (omega arith))

    one-IsScore : IsScore (hundredths 100)
    one-IsScore = (ieee.literal_le 0 100 (omega arith), ieee.literal_le 100 100 (omega arith))

    min-IsScore : (x : Float) → Le a (hundredths 0) x → IsScore (min x (hundredths 100))
    min-IsScore x h = (
      ieee.le_min x (hundredths 100) (hundredths 0) h one-IsScore.0,
      ieee.min_le x (hundredths 100),
    )

    capped-IsScore : (n weight : ℕ) → 0 < weight → IsScore (capped a shuffle n weight)
    unfolding capped
    capped-IsScore zero weight h = zero-IsScore
    capped-IsScore (suc n) weight h =
        min-IsScore _ (ieee.mul_pos (of_nat (suc n)) weight (ieee.of_nat_pos (suc n)) h)

    density_score-IsScore :
        (d : Float) → Le a (hundredths 0) d → IsScore (density_score a shuffle d)
    unfolding density_score
    density_score-IsScore d h = elim (Bool-cases (ge d (hundredths 50))) [
      | inl e ↦ rw e one-IsScore
      | inr e ↦ rw e (min-IsScore _ (ieee.div_pos d 5 h (omega arith)))
    ]

    anomaly-IsScore : (e : Float) → IsScore (anomaly a shuffle e)
    unfolding anomaly
    anomaly-IsScore e = elim (Bool-cases (ge (hundredths 500) e)) [
      | inl h ↦ rw h zero-IsScore
      | inr h ↦ rw h (
          min-IsScore _ (
            ieee.div_pos (sub e (hundredths 500)) 150 (ieee.sub_pos e (hundredths 500) h)
              (omega arith)))
    ]

    pub keyword_signal-IsScore : (prompt : Bytes) → IsScore (keyword_signal a shuffle prompt)
    unfolding keyword_signal
    keyword_signal-IsScore prompt =
        capped-IsScore (count_matches keyword_patterns prompt) 60 (omega arith)

    pub structural_signal-IsScore : (prompt : Bytes) → IsScore (structural_signal a shuffle prompt)
    unfolding structural_signal
    structural_signal-IsScore prompt =
        capped-IsScore (count_matches structural_patterns prompt) 65 (omega arith)

    pub boundary_signal-IsScore : (prompt : Bytes) → IsScore (boundary_signal a shuffle prompt)
    unfolding boundary_signal
    boundary_signal-IsScore prompt =
        capped-IsScore (count_matches boundary_patterns prompt) 50 (omega arith)

    pub repetition_signal-IsScore : (prompt : Bytes) → IsScore (repetition_signal a shuffle prompt)
    unfolding repetition_signal
    repetition_signal-IsScore prompt = elim (Bool-cases (leb (field_count prompt) 0)) [
      | inl e ↦ rw e zero-IsScore
      | inr e ↦ rw e (
          density_score-IsScore _ (
            ieee.ratio_pos (count_matches override_verbs prompt) (field_count prompt)
              (ground arith)))
    ]

    pub entropy_signal-IsScore : (prompt : Bytes) → IsScore (entropy_signal a shuffle prompt)
    unfolding entropy_signal
    entropy_signal-IsScore prompt = elim (Bool-cases (ltb (length prompt) 20)) [
      | inl e ↦ rw e zero-IsScore
      | inr e ↦ elim (Bool-cases (leb (total_of (frequencies (decode prompt) [])) 0)) [
        | inl f ↦ rw (e, f) zero-IsScore
        | inr f ↦ rw (e, f) (anomaly-IsScore _)
      ]
    ]
