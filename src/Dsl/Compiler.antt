-- ===== src/Dsl/Compiler.antt =====
-- internal/policy/dsl/compiler.go. A compiled condition is a function, as it is a closure there.
pub mod Meaning
pub mod Numbers
pub mod Correct
pub mod FirstMatch
pub mod Operands
pub mod Typing
use llm_guardrail_gateway.Base.{
  Bool, true, false, not, ◌&&◌, ◌||◌, Bytes, codes, equal, Option, none, some, List, [], ◌∷◌, map,
  if◌then◌else◌,
}
use llm_guardrail_gateway.Base.Result.{Result, ok, err, ◌>>=◌}
use llm_guardrail_gateway.Dsl.Parser.{
  Node, binary_expr_node, compare_node, not_in_node, RuleNode, PolicyNode,
}
use llm_guardrail_gateway.Dsl.Runtime.{Runtime}

pub data Action : Type 0 where
  block tag log redact : Action

pub data CompileError : Type 0 where
  unknown_binary_op : Bytes → CompileError
  unknown_field : Bytes → CompileError
  not_a_string_field : Bytes → CompileError
  expects_a_number : Bytes → Bytes → CompileError
  only_equality : Bytes → Bytes → CompileError
  unsupported_op : Bytes → Bytes → CompileError
  unknown_action : Bytes → CompileError
  -- `fmt.Errorf("rule %q: %w", …)`
  in_rule : Bytes → CompileError → CompileError

-- `m` with its error wrapped
abbrev pub within_rule : {A : Type 0} → Bytes → Result CompileError A → Result CompileError A
within_rule name (ok a) = ok a
within_rule name (err e) = err (in_rule name e)

-- `Verdict`; the action is none where the source has the empty string
pub record Verdict : Type 0 where
  pub matched : Bool
  pub rule_name : Bytes
  pub action : Option Action
  pub reason : Bytes

-- `Verdict{}`
abbrev pub no_verdict : Verdict
no_verdict = record { matched = false; rule_name = []; action = none; reason = [] }

-- the result of `fieldGetter`: the accessor of a number, or the kind "string"
pub data Getter (F : Type 0) (Context : Type 0) : Type 0 where
  float : (Context → F) → Getter F Context
  string : Getter F Context

module _ (rt : Runtime) where
  open rt use {Float, parse_float, gt, lt, eq, to_lower, to_upper}

  pub record EvalContext : Type 0 where
    pub input_risk_score : Float
    pub request_model : Bytes
    pub tenant_daily_tokens : Float

  abbrev pub Condition : Type 0
  Condition = EvalContext → Bool

  pub record CompiledRule : Type 0 where
    pub name : Bytes
    pub condition : Condition
    pub action : Action
    pub reason : Bytes

  unfoldable pub evaluate : List CompiledRule → EvalContext → Verdict
  evaluate [] ctx = no_verdict
  evaluate (r ∷ rest) ctx =
      if r.condition ctx
      then record { matched = true; rule_name = r.name; action = some r.action; reason = r.reason }
      else evaluate rest ctx

  unfoldable pub field_getter : Bytes → Result CompileError (Getter Float EvalContext)
  field_getter field =
      if equal field (codes "input.risk_score")
      then ok (float (λ ctx. ctx.input_risk_score))
      else if equal field (codes "tenant.daily_tokens")
      then ok (float (λ ctx. ctx.tenant_daily_tokens))
      else if equal field (codes "request.model")
      then ok string
      else err (unknown_field field)

  unfoldable pub string_field_getter : Bytes → Result CompileError (EvalContext → Bytes)
  string_field_getter field =
      if equal field (codes "request.model")
      then ok (λ ctx. ctx.request_model)
      else err (not_a_string_field field)

  unfoldable pub parse_action : Bytes → Result CompileError Action
  parse_action s =
      let u = to_upper s in
      if equal u (codes "BLOCK")
      then ok block
      else if equal u (codes "TAG")
      then ok tag
      else if equal u (codes "LOG")
      then ok log
      else if equal u (codes "REDACT")
      then ok redact
      else err (unknown_action s)

  -- `case "float"` of `compileCompare`, once the value is parsed
  unfoldable pub compile_float :
      Bytes → Bytes → (EvalContext → Float) → Float → Result CompileError Condition
  compile_float field op getter num_val =
      if equal op (codes ">")
      then ok (λ ctx. gt (getter ctx) num_val)
      else if equal op (codes "<")
      then ok (λ ctx. lt (getter ctx) num_val)
      else if equal op (codes "==")
      then ok (λ ctx. eq (getter ctx) num_val)
      else err (unsupported_op op field)

  -- `case "string"` of `compileCompare`
  unfoldable pub compile_string : Bytes → Bytes → Bytes → Result CompileError Condition
  compile_string field op value = do
    str_getter ← string_field_getter field
    if not (equal op (codes "=="))
        then err (only_equality field op)
        else ok (λ ctx. equal (to_lower (str_getter ctx)) (to_lower value))

  unfoldable pub parse_number : Bytes → Bytes → Result CompileError Float
  parse_number field value = elim (parse_float value) [
    | none ↦ err (expects_a_number field value)
    | some x ↦ ok x
  ]

  unfoldable pub compile_kind :
      Bytes → Bytes → Bytes → Getter Float EvalContext → Result CompileError Condition
  compile_kind field op value (float getter) = do
    num_val ← parse_number field value
    compile_float field op getter num_val
  compile_kind field op value string = compile_string field op value

  unfoldable pub compile_compare : Bytes → Bytes → Bytes → Result CompileError Condition
  unfolding compile_kind parse_number
  compile_compare field op value = do kind ← field_getter field; compile_kind field op value kind

  -- the lookup in the set of the lower-case values
  unfoldable pub contains : Bytes → List Bytes → Bool
  contains val [] = false
  contains val (v ∷ vs) = equal val (to_lower v) || contains val vs

  unfoldable pub compile_not_in : Bytes → List Bytes → Result CompileError Condition
  compile_not_in field values = do
    str_getter ← string_field_getter field
    ok (λ ctx. not (contains (to_lower (str_getter ctx)) values))

  -- the `switch` over the operator, on two compiled sides
  unfoldable pub compile_binary : Bytes → Condition → Condition → Result CompileError Condition
  compile_binary op left right =
      if equal op (codes "AND")
      then ok (λ ctx. left ctx && right ctx)
      else if equal op (codes "OR")
      then ok (λ ctx. left ctx || right ctx)
      else err (unknown_binary_op op)

  unfoldable pub compile_node : Node → Result CompileError Condition
  compile_node (binary_expr_node op l r) = do
    left ← compile_node l
    right ← compile_node r
    compile_binary op left right
  compile_node (compare_node field op value) = compile_compare field op value
  compile_node (not_in_node field values) = compile_not_in field values

  unfoldable pub compile_rule : RuleNode → Result CompileError CompiledRule
  compile_rule rn = do
    cond ← within_rule rn.name (compile_node rn.condition)
    action ← within_rule rn.name (parse_action rn.action)
    ok (record { name = rn.name; condition = cond; action = action; reason = rn.reason })

  unfoldable pub compile_rules : List RuleNode → Result CompileError (List CompiledRule)
  compile_rules [] = ok []
  compile_rules (rn ∷ rest) = do r ← compile_rule rn; rs ← compile_rules rest; ok (r ∷ rs)

  unfoldable pub compile : PolicyNode → Result CompileError (List CompiledRule)
  unfolding compile_rules
  compile policy = compile_rules policy.rules
