-- ===== src/Dsl/Compiler/Meaning.antt =====
-- What a condition of the language means, as an independent description, and that compiled
-- conditions of internal/policy/dsl/compiler.go mean that.
use llm_guardrail_gateway.Base.{true, ◌≡◌, ◌≢◌, ◌⊎◌, ◌↔◌, Bytes, codes, some, List, All}
use llm_guardrail_gateway.Dsl.Compiler.{EvalContext, Condition}
use llm_guardrail_gateway.Dsl.Parser.{Node, binary_expr_node, compare_node, not_in_node}
use llm_guardrail_gateway.Dsl.Runtime.{Runtime}

module _ (rt : Runtime) where
  open rt use {Float, parse_float, gt, lt, eq, to_lower}

  -- the numbers that a condition can name, with their values
  abbrev pub IsNumberField : EvalContext rt → Bytes → Float → Type 0
  IsNumberField ctx field x =
      ((field ≡ codes "input.risk_score") × (x ≡ ctx.input_risk_score))
      ⊎ ((field ≡ codes "tenant.daily_tokens") × (x ≡ ctx.tenant_daily_tokens))

  pub data Holds (ctx : EvalContext rt) : Node → Type 0 where
    both :
        {op : Bytes} {l r : Node}
        → op ≡ codes "AND"
        → Holds ctx l
        → Holds ctx r
        → Holds ctx (binary_expr_node op l r)
    left :
        {op : Bytes} {l r : Node}
        → op ≡ codes "OR"
        → Holds ctx l
        → Holds ctx (binary_expr_node op l r)
    right :
        {op : Bytes} {l r : Node}
        → op ≡ codes "OR"
        → Holds ctx r
        → Holds ctx (binary_expr_node op l r)
    above :
        {field op value : Bytes} {x y : Float}
        → op ≡ codes ">"
        → IsNumberField ctx field x
        → parse_float value ≡ some y
        → gt x y ≡ true
        → Holds ctx (compare_node field op value)
    below :
        {field op value : Bytes} {x y : Float}
        → op ≡ codes "<"
        → IsNumberField ctx field x
        → parse_float value ≡ some y
        → lt x y ≡ true
        → Holds ctx (compare_node field op value)
    equals :
        {field op value : Bytes} {x y : Float}
        → op ≡ codes "=="
        → IsNumberField ctx field x
        → parse_float value ≡ some y
        → eq x y ≡ true
        → Holds ctx (compare_node field op value)
    same_text :
        {field op value : Bytes}
        → field ≡ codes "request.model"
        → op ≡ codes "=="
        → to_lower ctx.request_model ≡ to_lower value
        → Holds ctx (compare_node field op value)
    outside :
        {field : Bytes} {values : List Bytes}
        → field ≡ codes "request.model"
        → All (λ v. to_lower ctx.request_model ≢ to_lower v) values
        → Holds ctx (not_in_node field values)

  -- the closure `c` is true exactly where the condition `n` holds
  abbrev pub Means : Node → Condition rt → Type 0
  Means n c = (ctx : EvalContext rt) → (c ctx ≡ true) ↔ Holds ctx n
