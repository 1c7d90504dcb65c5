-- ===== src/Dsl/Compiler/Typing.antt =====
-- Which policies internal/policy/dsl/compiler.go accepts: those whose conditions are well typed and
-- whose actions are known.
use llm_guardrail_gateway.Base.{
  not, ◌&&◌, ◌||◌, ◌≡◌, ◌↔◌, inl, inr, refl, Bytes, codes, equal, some, List, [], ◌∷◌, All,
}
use llm_guardrail_gateway.Base.Result.{Result, ok, bind-eq-ok}
use llm_guardrail_gateway.Dsl.Compiler.{
  Action, CompileError, within_rule, float, EvalContext, Condition, field_getter,
  string_field_getter, compile_string, compile_kind, parse_number, compile_compare, contains,
  compile_not_in, compile_binary, compile_node, parse_action, compile_rule, compile_rules, compile,
}
use llm_guardrail_gateway.Dsl.Compiler.FirstMatch.{action_name, parse_action-name, within_rule-ok}
use llm_guardrail_gateway.Dsl.Compiler.Numbers.{field_getter-cases}
use llm_guardrail_gateway.Dsl.Compiler.Correct.{string_field_getter-ok, parse_number-ok}
use llm_guardrail_gateway.Dsl.Compiler.Operands.{
  IsNumeric, Succeeds, action_name-parse_action, string_field_getter-model, field_getter-number,
  field_getter-model, compile_float-Succeeds, compile_float-IsComparison, compile_string-Equality,
  compile_binary-IsConnective,
}
use llm_guardrail_gateway.Dsl.Parser.Printable.{IsComparison, IsConnective}
use llm_guardrail_gateway.Dsl.Parser.{
  Node, binary_expr_node, compare_node, not_in_node, RuleNode, PolicyNode,
}
use llm_guardrail_gateway.Dsl.Runtime.{Runtime}

module _ (rt : Runtime) where
  open rt use {Float, parse_float, to_upper}

  pub data IsTyped : Node → Type 0 where
    connected :
        {op : Bytes} {l r : Node}
        → IsConnective op
        → IsTyped l
        → IsTyped r
        → IsTyped (binary_expr_node op l r)
    numeric :
        {field op value : Bytes} {y : Float}
        → IsNumeric field
        → IsComparison op
        → parse_float value ≡ some y
        → IsTyped (compare_node field op value)
    textual :
        {field op value : Bytes}
        → field ≡ codes "request.model"
        → op ≡ codes "=="
        → IsTyped (compare_node field op value)
    listed :
        {field : Bytes} {values : List Bytes}
        → field ≡ codes "request.model"
        → IsTyped (not_in_node field values)

  pub record IsTypedRule (r : RuleNode) : Type 0 where
    pub condition : IsTyped r.condition
    pub action : (a : Action) × (to_upper r.action ≡ action_name a)

  compile_kind-number :
      (field op value : Bytes) (g : EvalContext rt → Float) (c : Condition rt)
      → IsNumeric field
      → compile_kind rt field op value (float g) ≡ ok c
      → IsTyped (compare_node field op value)
  unfolding compile_kind
  compile_kind-number field op value g c f h =
      let (y, got, h') = bind-eq-ok (parse_number rt field value) _ h in
      numeric f (compile_float-IsComparison rt field op g y c h')
        (parse_number-ok rt field value y got)

  compile_compare-IsTyped :
      (field op value : Bytes) (c : Condition rt)
      → compile_compare rt field op value ≡ ok c
      → IsTyped (compare_node field op value)
  unfolding compile_compare compile_kind
  compile_compare-IsTyped field op value c h =
      let (g, got, h') = bind-eq-ok (field_getter rt field) _ h in
      elim (field_getter-cases rt field g got) [
        | inl (f, e) ↦ compile_kind-number field op value _ c (inl f) (rw (← e) at h')
        | inr (inl (f, e)) ↦ compile_kind-number field op value _ c (inr f) (rw (← e) at h')
        | inr (inr (f, e)) ↦
            textual f (compile_string-Equality rt field op value c (rw (← e) at h'))
      ]

  compile_node-IsTyped : (n : Node) (c : Condition rt) → compile_node rt n ≡ ok c → IsTyped n
  unfolding compile_node compile_not_in
  compile_node-IsTyped (binary_expr_node op l r) c h =
      let (cl, el, h₁) = bind-eq-ok (compile_node rt l) _ h in
      let (cr, er, h₂) = bind-eq-ok (compile_node rt r) _ h₁ in
      connected (compile_binary-IsConnective rt op cl cr c h₂) (compile_node-IsTyped l cl el)
        (compile_node-IsTyped r cr er)
  compile_node-IsTyped (compare_node field op value) c h =
      compile_compare-IsTyped field op value c h
  compile_node-IsTyped (not_in_node field values) c h =
      let (g, got, h') = bind-eq-ok (string_field_getter rt field) _ h in
      listed (string_field_getter-ok rt field g got).0

  IsTyped-compile_node : (n : Node) → IsTyped n → Succeeds (compile_node rt n)
  unfolding compile_node compile_compare compile_kind compile_string compile_not_in compile_binary
      parse_number equal
  IsTyped-compile_node n (connected {op} {l} {r} (inl e) kl kr) =
      let (cl, el) = IsTyped-compile_node l kl in
      let (cr, er) = IsTyped-compile_node r kr in
      ((λ ctx. cl ctx && cr ctx), rw (el, er, compile_binary, e) refl)
  IsTyped-compile_node n (connected {op} {l} {r} (inr e) kl kr) =
      let (cl, el) = IsTyped-compile_node l kl in
      let (cr, er) = IsTyped-compile_node r kr in
      ((λ ctx. cl ctx || cr ctx), rw (el, er, compile_binary, e) refl)
  IsTyped-compile_node n (numeric {field} {op} {value} {y} f o p) =
      let (g, e) = field_getter-number rt field f in
      let (c, e') = compile_float-Succeeds rt field op g y o in
      (c, rw (compile_compare, e, compile_kind, parse_number, p) e')
  IsTyped-compile_node n (textual {field} {op} {value} f o) = (
    (λ ctx. equal (rt.to_lower ctx.request_model) (rt.to_lower value)),
    rw (compile_compare, field_getter-model rt field f, string_field_getter-model rt field f, o)
        refl,
  )
  IsTyped-compile_node n (listed {field} {values} f) = (
    (λ ctx. not (contains rt (rt.to_lower ctx.request_model) values)),
    rw (compile_not_in, string_field_getter-model rt field f) refl,
  )

  within_rule-Succeeds :
      {A : Type 0} (name : Bytes) (m : Result CompileError A)
      → Succeeds m
      → Succeeds (within_rule name m)
  within_rule-Succeeds name m (a, e) = (a, rw e refl)

  compile_rule-IsTypedRule : (rn : RuleNode) → Succeeds (compile_rule rt rn) ↔ IsTypedRule rn
  unfolding compile_rule
  compile_rule-IsTypedRule rn = (to, from)
    where
      to : Succeeds (compile_rule rt rn) → IsTypedRule rn
      to (r, h) =
          let (c, got, h₁) = bind-eq-ok (within_rule rn.name (compile_node rt rn.condition)) _ h in
          let (a, named, h₂) = bind-eq-ok (within_rule rn.name (parse_action rt rn.action)) _ h₁ in
          record {
            condition = compile_node-IsTyped rn.condition c (within_rule-ok rt rn.name _ c got);
            action = (a, parse_action-name rt rn.action a (within_rule-ok rt rn.name _ a named));
          }

      from : IsTypedRule rn → Succeeds (compile_rule rt rn)
      from k =
          let (c, e) = IsTyped-compile_node rn.condition k.condition in
          let (a, word) = k.action in
          (
            record { name = rn.name; condition = c; action = a; reason = rn.reason },
            rw (compile_rule, e, action_name-parse_action rt rn.action a word) refl,
          )

  compile_rules-IsTypedRule :
      (rns : List RuleNode) → Succeeds (compile_rules rt rns) ↔ All IsTypedRule rns
  unfolding compile_rules
  compile_rules-IsTypedRule [] = (λ h. tt, λ h. ([], refl))
  compile_rules-IsTypedRule (rn ∷ rns) =
      let (rest_to, rest_from) = compile_rules-IsTypedRule rns in (to rest_to, from rest_from)
    where
      to :
          (Succeeds (compile_rules rt rns) → All IsTypedRule rns)
          → Succeeds (compile_rules rt (rn ∷ rns))
          → All IsTypedRule (rn ∷ rns)
      to rest_to (rules, h) =
          let (r, got, h₁) = bind-eq-ok (compile_rule rt rn) _ h in
          let (rs, gots, h₂) = bind-eq-ok (compile_rules rt rns) _ h₁ in
          ((compile_rule-IsTypedRule rn).0 (r, got), rest_to (rs, gots))

      from :
          (All IsTypedRule rns → Succeeds (compile_rules rt rns))
          → All IsTypedRule (rn ∷ rns)
          → Succeeds (compile_rules rt (rn ∷ rns))
      from rest_from (k, ks) =
          let (r, e) = (compile_rule-IsTypedRule rn).1 k in
          let (rs, es) = rest_from ks in (r ∷ rs, rw (compile_rules, e, es) refl)

  -- `Compile` succeeds on a policy exactly when each rule's condition is well typed, with known
  -- fields, operators that fit them and numbers where numbers are compared, and its action is known.
  pub compile-IsTypedRule : (p : PolicyNode) → Succeeds (compile rt p) ↔ All IsTypedRule p.rules
  unfolding compile
  compile-IsTypedRule p = compile_rules-IsTypedRule p.rules
