-- ===== src/Dsl/Compiler/Operands.antt =====
-- internal/policy/dsl/compiler.go: the fields, operators and actions that are accepted.
use llm_guardrail_gateway.Base.{
  ◌≡◌, ◌⊎◌, inl, inr, refl, Bytes, codes, equal, equal_iff, Bool-cases,
}
use llm_guardrail_gateway.Base.Result.{Result, ok, bind-eq-ok}
use llm_guardrail_gateway.Dsl.Compiler.{
  Action, block, tag, log, redact, CompileError, float, string, EvalContext, Condition,
  field_getter, string_field_getter, compile_float, compile_string, compile_binary, parse_action,
}
use llm_guardrail_gateway.Dsl.Compiler.FirstMatch.{action_name}
use llm_guardrail_gateway.Dsl.Parser.Printable.{IsComparison, IsConnective}
use llm_guardrail_gateway.Dsl.Runtime.{Runtime}

abbrev pub IsNumeric : Bytes → Type 0
IsNumeric field = (field ≡ codes "input.risk_score") ⊎ (field ≡ codes "tenant.daily_tokens")

abbrev pub Succeeds : {A : Type 0} → Result CompileError A → Type 0
Succeeds {A} m = (a : A) × (m ≡ ok a)

module _ (rt : Runtime) where
  open rt use {Float, to_upper}

  pub action_name-parse_action :
      (s : Bytes) (a : Action) → to_upper s ≡ action_name a → parse_action rt s ≡ ok a
  unfolding parse_action equal
  action_name-parse_action s block e = rw (parse_action, e) refl
  action_name-parse_action s tag e = rw (parse_action, e) refl
  action_name-parse_action s log e = rw (parse_action, e) refl
  action_name-parse_action s redact e = rw (parse_action, e) refl

  pub string_field_getter-model :
      (field : Bytes)
      → field ≡ codes "request.model"
      → string_field_getter rt field ≡ ok (λ ctx. ctx.request_model)
  unfolding string_field_getter equal
  string_field_getter-model field e = rw (string_field_getter, e) refl

  pub field_getter-number :
      (field : Bytes)
      → IsNumeric field
      → (g : EvalContext rt → Float) × (field_getter rt field ≡ ok (float g))
  unfolding field_getter equal
  field_getter-number field (inl e) = ((λ ctx. ctx.input_risk_score), rw (field_getter, e) refl)
  field_getter-number field (inr e) = ((λ ctx. ctx.tenant_daily_tokens), rw (field_getter, e) refl)

  pub field_getter-model :
      (field : Bytes) → field ≡ codes "request.model" → field_getter rt field ≡ ok string
  unfolding field_getter equal
  field_getter-model field e = rw (field_getter, e) refl

  pub compile_float-Succeeds :
      (field op : Bytes) (g : EvalContext rt → Float) (y : Float)
      → IsComparison op
      → Succeeds (compile_float rt field op g y)
  unfolding compile_float equal
  compile_float-Succeeds field op g y (inl e) =
      ((λ ctx. rt.gt (g ctx) y), rw (compile_float, e) refl)
  compile_float-Succeeds field op g y (inr (inl e)) =
      ((λ ctx. rt.lt (g ctx) y), rw (compile_float, e) refl)
  compile_float-Succeeds field op g y (inr (inr e)) =
      ((λ ctx. rt.eq (g ctx) y), rw (compile_float, e) refl)

  pub compile_float-IsComparison :
      (field op : Bytes) (g : EvalContext rt → Float) (y : Float) (c : Condition rt)
      → compile_float rt field op g y ≡ ok c
      → IsComparison op
  unfolding compile_float
  compile_float-IsComparison field op g y c h = elim (Bool-cases (equal op (codes ">"))) [
    | inl e ↦ inl ((equal_iff _ _).0 e)
    | inr n₁ ↦ elim (Bool-cases (equal op (codes "<"))) [
      | inl e ↦ inr (inl ((equal_iff _ _).0 e))
      | inr n₂ ↦ elim (Bool-cases (equal op (codes "=="))) [
        | inl e ↦ inr (inr ((equal_iff _ _).0 e))
        | inr n₃ ↦ cc (rw (compile_float, n₁, n₂, n₃) at h)
      ]
    ]
  ]

  pub compile_string-Equality :
      (field op value : Bytes) (c : Condition rt)
      → compile_string rt field op value ≡ ok c
      → op ≡ codes "=="
  unfolding compile_string
  compile_string-Equality field op value c h =
      let (g, got, h') = bind-eq-ok (string_field_getter rt field) _ h in
      elim (Bool-cases (equal op (codes "=="))) [
        | inl e ↦ (equal_iff _ _).0 e
        | inr n ↦ cc (rw n at h')
      ]

  pub compile_binary-IsConnective :
      (op : Bytes) (cl cr c : Condition rt) → compile_binary rt op cl cr ≡ ok c → IsConnective op
  unfolding compile_binary
  compile_binary-IsConnective op cl cr c h = elim (Bool-cases (equal op (codes "AND"))) [
    | inl e ↦ inl ((equal_iff _ _).0 e)
    | inr n ↦ elim (Bool-cases (equal op (codes "OR"))) [
      | inl e ↦ inr ((equal_iff _ _).0 e)
      | inr n' ↦ cc (rw (compile_binary, n, n') at h)
    ]
  ]
