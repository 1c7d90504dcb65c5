-- ===== src/Guardrails/Scanner.antt =====
-- internal/guardrails/input/scanner.go: `Scan`. The goroutines write to places of their own, and are
-- waited for; the map of the signals, which is only logged, is left out.
use llm_guardrail_gateway.Base.{
  ℕ, Bytes, codes, not, none, some, List, [], ◌∷◌, lookup, if◌then◌else◌,
}
use llm_guardrail_gateway.Dsl.Runtime.{Runtime}
use llm_guardrail_gateway.Gateway.Server.{InputVerdict, pass, tagged, blocked, ScanResult}
use llm_guardrail_gateway.Guardrails.Arithmetic.{Arithmetic, round2}
use llm_guardrail_gateway.Guardrails.Signals.{
  keyword_signal, structural_signal, repetition_signal, boundary_signal, entropy_signal,
}

module _ (rt : Runtime) (a : Arithmetic rt.Float) (shuffle : List (ℕ × ℕ) → List (ℕ × ℕ)) where
  open rt use {Float}
  open a use {hundredths, add, mul, div, ge}

  abbrev block_threshold : Float
  block_threshold = hundredths 60

  abbrev tag_threshold : Float
  tag_threshold = hundredths 18

  -- what the goroutines leave in `results`
  unfoldable pub results : Bytes → List (Bytes × Float)
  results prompt =
      (codes "keyword", keyword_signal a shuffle prompt)
      ∷ (codes "structural", structural_signal a shuffle prompt)
      ∷ (codes "repetition", repetition_signal a shuffle prompt)
      ∷ (codes "boundary", boundary_signal a shuffle prompt)
      ∷ (codes "entropy", entropy_signal a shuffle prompt)
      ∷ []

  abbrev pub weights : List (Bytes × Float)
  weights =
      (codes "keyword", hundredths 30)
      ∷ (codes "structural", hundredths 30)
      ∷ (codes "repetition", hundredths 20)
      ∷ (codes "boundary", hundredths 15)
      ∷ (codes "entropy", hundredths 5)
      ∷ []

  -- `weights[name]`, 0 for a name that is not there
  unfoldable pub weight_of : Bytes → Float
  weight_of name = elim (lookup name weights) [ some w ↦ w | none ↦ hundredths 0 ]

  -- the loop over the results, with `composite` and `totalWeight`
  unfoldable pub weigh : List (Bytes × Float) → Float → Float → Float × Float
  unfolding weight_of
  weigh [] composite total = (composite, total)
  weigh ((name, score) ∷ rest) composite total =
      weigh rest (add composite (mul score (weight_of name))) (add total (weight_of name))

  unfoldable pub verdict_of : Float → InputVerdict
  verdict_of composite =
      if ge composite block_threshold
      then blocked
      else if ge composite tag_threshold
      then tagged
      else pass

  unfoldable pub scan : Bytes → ScanResult rt
  unfolding weigh verdict_of results
  scan prompt =
      let (composite, total) = weigh (results prompt) (hundredths 0) (hundredths 0) in
      let average = if not (ge (hundredths 0) total) then div composite total else composite in
      record { score = round2 a average; verdict = verdict_of (round2 a average) }
