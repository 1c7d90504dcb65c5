-- ===== src/Guardrails/Verdicts.antt =====
-- internal/guardrails/input/scanner.go: which prompts are passed, flagged and blocked.
use llm_guardrail_gateway.Base.{
  ℕ, ◌≤◌, ◌<◌, Bytes, List, ◌≡◌, ◌≢◌, ◌⊎◌, inl, inr, ap, sym, ◌∙◌, arith,
}
use llm_guardrail_gateway.Dsl.Runtime.{Runtime}
use llm_guardrail_gateway.Gateway.Server.{pass, blocked, ScanResult}
use llm_guardrail_gateway.Guardrails.Arithmetic.{Arithmetic, Le, round2, IsIeee}
use llm_guardrail_gateway.Guardrails.Combine.{
  Scores, combine, scores, scan_lem, round2_mono, literals, combine_ones, combine_zeros,
  combine_entropy, combine_others, combine_two, combine_keyword, combine_structural, self_le,
}
use llm_guardrail_gateway.Guardrails.Patterns.{
  keyword_patterns, structural_patterns, override_verbs, boundary_patterns,
}
use llm_guardrail_gateway.Guardrails.Scanner.{scan}
use llm_guardrail_gateway.Guardrails.Score.{
  IsScore, keyword_signal-IsScore, structural_signal-IsScore, boundary_signal-IsScore,
  repetition_signal-IsScore, entropy_signal-IsScore,
}
use llm_guardrail_gateway.Guardrails.Signals.{keyword_signal, structural_signal}
use llm_guardrail_gateway.Guardrails.Reach.{
  verdict_of_pass, verdict_of_unblocked, verdict_of_flagged, verdict_of_blocked, capped_one,
  capped_two, keyword_zero, structural_zero, boundary_zero, repetition_zero, verdict_eq, at_least,
  at_most,
}
use llm_guardrail_gateway.Regexp.{count_matches}

module _ (rt : Runtime) (a : Arithmetic rt.Float) (shuffle : List (ℕ × ℕ) → List (ℕ × ℕ))
    (ieee : IsIeee a) where
  open rt use {Float}
  open a use {hundredths, of_nat, mul, min, ge}

  module _ (prompt : Bytes) where
    abbrev composite : Float
    composite = combine rt a shuffle ieee (scores rt a shuffle ieee prompt)

    abbrev keyword_count : ℕ
    keyword_count = count_matches keyword_patterns prompt

    abbrev override_count : ℕ
    override_count = count_matches structural_patterns prompt

    score_eq : (scan rt a shuffle prompt).score ≡ round2 a composite
    score_eq = ap (λ (o : ScanResult rt). o.score) (scan_lem rt a shuffle ieee prompt)

    -- The score of a prompt is between 0 and 1.
    pub scan-IsScore : IsScore a (scan rt a shuffle prompt).score
    scan-IsScore =
        let low =
          at_least rt a shuffle ieee prompt 0 0 (keyword_signal-IsScore a shuffle ieee prompt).0
            (structural_signal-IsScore a shuffle ieee prompt).0 in
        let low' : Le a (hundredths 0) (round2 a composite) =
          rw (← ieee.round2_literal 0 (omega arith))
            (rw (combine_zeros rt a shuffle ieee) at low) in
        let high : Le a (round2 a composite) (hundredths 100) =
          at_most rt a shuffle ieee prompt 100 100 100 100 100 100 (omega arith)
            (keyword_signal-IsScore a shuffle ieee prompt).1
            (structural_signal-IsScore a shuffle ieee prompt).1
            (repetition_signal-IsScore a shuffle ieee prompt).1
            (boundary_signal-IsScore a shuffle ieee prompt).1
            (entropy_signal-IsScore a shuffle ieee prompt).1
            (rw (combine_ones rt a shuffle ieee) (self_le rt a shuffle ieee 100)) in
        rw score_eq (low', high)

    -- A prompt in which no keyword, structural pattern, override verb and boundary marker is found
    -- passes, whatever its entropy.
    pub scan_passes :
        keyword_count ≡ 0
        → override_count ≡ 0
        → count_matches override_verbs prompt ≡ 0
        → count_matches boundary_patterns prompt ≡ 0
        → (scan rt a shuffle prompt).verdict ≡ pass
    scan_passes no_k no_s no_r no_b =
        verdict_eq rt a shuffle ieee prompt
        ∙ verdict_of_pass rt a shuffle ieee (round2 a composite) (
            at_most rt a shuffle ieee prompt 0 0 0 0 100 5 (omega arith)
              (keyword_zero rt a shuffle ieee prompt no_k)
              (structural_zero rt a shuffle ieee prompt no_s)
              (repetition_zero rt a shuffle ieee prompt no_r)
              (boundary_zero rt a shuffle ieee prompt no_b)
              (entropy_signal-IsScore a shuffle ieee prompt).1 (combine_entropy rt a shuffle ieee))

    -- A prompt without a keyword and a structural match is not blocked.
    pub scan_unblocked :
        keyword_count ≡ 0 → override_count ≡ 0 → (scan rt a shuffle prompt).verdict ≢ blocked
    scan_unblocked no_k no_s h =
        verdict_of_unblocked rt a shuffle ieee (round2 a composite)
          (at_most rt a shuffle ieee prompt 0 0 100 100 100 42 (omega arith)
            (keyword_zero rt a shuffle ieee prompt no_k)
            (structural_zero rt a shuffle ieee prompt no_s)
            (repetition_signal-IsScore a shuffle ieee prompt).1
            (boundary_signal-IsScore a shuffle ieee prompt).1
            (entropy_signal-IsScore a shuffle ieee prompt).1 (combine_others rt a shuffle ieee))
          (sym (verdict_eq rt a shuffle ieee prompt) ∙ h)

    -- from a term of so many hundredths of a weight of 0.30
    flagged :
        (n : ℕ) (x : Scores rt a shuffle ieee)
        → n ≤ 100
        → 60 ≤ n
        → Le a (mul (hundredths n) (hundredths 30)) (combine rt a shuffle ieee x)
        → Le a (round2 a (combine rt a shuffle ieee x)) (round2 a composite)
        → (scan rt a shuffle prompt).verdict ≢ pass
    flagged n x small large le le' h =
        verdict_of_flagged rt a shuffle ieee (round2 a composite)
          (ieee.le_trans _ _ _ (ieee.round2_product n 30 18 small (omega arith) (omega arith))
            (ieee.le_trans _ _ _ (round2_mono rt a shuffle ieee _ _ le) le'))
          (sym (verdict_eq rt a shuffle ieee prompt) ∙ h)

    -- A prompt with a keyword or a structural match is tagged or blocked.
    pub scan_flags :
        (0 < keyword_count) ⊎ (0 < override_count) → (scan rt a shuffle prompt).verdict ≢ pass
    unfolding keyword_signal structural_signal
    scan_flags (inl some_keyword) =
        flagged 60 (literals rt a shuffle ieee 60 0 0 0 0) (omega arith) (omega arith)
          (combine_keyword rt a shuffle ieee 60)
          (at_least rt a shuffle ieee prompt 60 0
            (capped_one rt a shuffle ieee keyword_count 60 some_keyword (omega arith) (omega arith))
            (structural_signal-IsScore a shuffle ieee prompt).0)
    scan_flags (inr some_override) =
        flagged 65 (literals rt a shuffle ieee 0 65 0 0 0) (omega arith) (omega arith)
          (combine_structural rt a shuffle ieee 65)
          (at_least rt a shuffle ieee prompt 0 65 (keyword_signal-IsScore a shuffle ieee prompt).0 (
            capped_one rt a shuffle ieee override_count 65 some_override (omega arith)
              (omega arith)))

    -- A prompt with two keyword and two structural matches is blocked.
    pub scan_blocks :
        2 ≤ keyword_count → 2 ≤ override_count → (scan rt a shuffle prompt).verdict ≡ blocked
    unfolding keyword_signal structural_signal
    scan_blocks two_k two_s =
        let le =
          at_least rt a shuffle ieee prompt 100 100
            (capped_two rt a shuffle ieee keyword_count 60 two_k (omega arith) (omega arith))
            (capped_two rt a shuffle ieee override_count 65 two_s (omega arith) (omega arith)) in
        let top : Le a (hundredths 60)
            (round2 a (combine rt a shuffle ieee (literals rt a shuffle ieee 100 100 0 0 0))) =
          rw (← ieee.round2_literal 60 (omega arith))
            (round2_mono rt a shuffle ieee _ _ (combine_two rt a shuffle ieee)) in
        verdict_eq rt a shuffle ieee prompt
        ∙ verdict_of_blocked rt a shuffle ieee (round2 a composite) (ieee.le_trans _ _ _ top le)
