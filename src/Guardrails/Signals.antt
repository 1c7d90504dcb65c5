-- ===== src/Guardrails/Signals.antt =====
-- internal/guardrails/input/scanner.go: the five signals.
use llm_guardrail_gateway.Base.{
  ℕ, zero, suc, ◌+◌, Bytes, Bool, true, ◌||◌, ◌==◌, ltb, leb, List, [], ◌∷◌, length, if◌then◌else◌,
}
use llm_guardrail_gateway.Guardrails.Arithmetic.{Arithmetic}
use llm_guardrail_gateway.Guardrails.Patterns.{
  keyword_patterns, structural_patterns, override_verbs, boundary_patterns,
}
use llm_guardrail_gateway.Regexp.{within, any_of, count_matches}
use llm_guardrail_gateway.Regexp.Runes.{decode}

-- `unicode.IsSpace`
unfoldable pub is_space : ℕ → Bool
is_space c =
    within 9 13 c
    || within 8192 8202 c
    || any_of (32 ∷ 133 ∷ 160 ∷ 5760 ∷ 8232 ∷ 8233 ∷ 8239 ∷ 8287 ∷ 12288 ∷ []) c

-- how many fields start in the runes, when the rune before them is a space or not
unfoldable pub count_fields : Bool → List ℕ → ℕ
unfolding is_space
count_fields after_space [] = 0
count_fields after_space (c ∷ cs) =
    let rest = count_fields (is_space c) cs in
    if is_space c then rest else if after_space then suc rest else rest

-- `len(strings.Fields(prompt))`
unfoldable pub field_count : Bytes → ℕ
unfolding count_fields
field_count prompt = count_fields true (decode prompt)

-- `freq[ch]++`
unfoldable pub increment : ℕ → List (ℕ × ℕ) → List (ℕ × ℕ)
increment c [] = (c, 1) ∷ []
increment c ((d, n) ∷ freq) = if c == d then (d, suc n) ∷ freq else (d, n) ∷ increment c freq

-- the runes that are no spaces, counted
unfoldable pub frequencies : List ℕ → List (ℕ × ℕ) → List (ℕ × ℕ)
unfolding is_space increment
frequencies [] freq = freq
frequencies (c ∷ cs) freq = frequencies cs (if is_space c then freq else increment c freq)

unfoldable pub total_of : List (ℕ × ℕ) → ℕ
total_of [] = 0
total_of ((c, n) ∷ freq) = n + total_of freq

-- `shuffle` is the order in which Go ranges over a map.
module _ {Float : Type 0} (a : Arithmetic Float) (shuffle : List (ℕ × ℕ) → List (ℕ × ℕ)) where
  open a use {hundredths, of_nat, add, sub, mul, div, min, log2, ge}

  -- `math.Min(float64(n)*weight, 1.0)`, and 0 without a match
  unfoldable pub capped : ℕ → ℕ → Float
  capped zero weight = hundredths 0
  capped (suc n) weight = min (mul (of_nat (suc n)) (hundredths weight)) (hundredths 100)

  unfoldable pub keyword_signal : Bytes → Float
  unfolding capped
  keyword_signal prompt = capped (count_matches keyword_patterns prompt) 60

  unfoldable pub structural_signal : Bytes → Float
  unfolding capped
  structural_signal prompt = capped (count_matches structural_patterns prompt) 65

  unfoldable pub boundary_signal : Bytes → Float
  unfolding capped
  boundary_signal prompt = capped (count_matches boundary_patterns prompt) 50

  -- behind the count of the words
  unfoldable pub density_score : Float → Float
  density_score density =
      if ge density (hundredths 50)
      then hundredths 100
      else min (div density (hundredths 5)) (hundredths 100)

  unfoldable pub repetition_signal : Bytes → Float
  unfolding density_score
  repetition_signal prompt =
      let words = field_count prompt in
      let hits = of_nat (count_matches override_verbs prompt) in
      if leb words 0 then hundredths 0 else density_score (div hits (of_nat words))

  unfoldable pub entropy_of : ℕ → List (ℕ × ℕ) → Float → Float
  entropy_of total [] entropy = entropy
  entropy_of total ((c, n) ∷ freq) entropy =
      let p = div (of_nat n) (of_nat total) in entropy_of total freq (sub entropy (mul p (log2 p)))

  -- behind the entropy
  unfoldable pub anomaly : Float → Float
  anomaly entropy =
      if ge (hundredths 500) entropy
      then hundredths 0
      else min (div (sub entropy (hundredths 500)) (hundredths 150)) (hundredths 100)

  unfoldable pub entropy_signal : Bytes → Float
  unfolding anomaly
  entropy_signal prompt =
      let freq = frequencies (decode prompt) [] in
      let total = total_of freq in
      if ltb (length prompt) 20
      then hundredths 0
      else if leb total 0
      then hundredths 0
      else anomaly (entropy_of total (shuffle freq) (hundredths 0))
