-- ===== src/Dsl/Runtime.antt =====
-- What internal/policy/dsl uses of Go's runtime and standard library and the model cannot compute:
-- float64 with its tests, `strconv.ParseFloat`, and the case mappings of `strings`.
use llm_guardrail_gateway.Base.{Bool, true, false, Bytes, Option, none, some}

pub record Runtime : Type 1 where
  pub Float : Type 0
  pub parse_float : Bytes → Option Float
  pub gt : Float → Float → Bool
  pub lt : Float → Float → Bool
  pub eq : Float → Float → Bool
  pub to_lower : Bytes → Bytes
  pub to_upper : Bytes → Bytes

-- `_, err := strconv.ParseFloat(s, 64); err == nil`
abbrev pub is_float : Runtime → Bytes → Bool
is_float rt s = elim (rt.parse_float s) [ none ↦ false | some x ↦ true ]
