-- ===== src/Dsl/Compiler/Numbers.antt =====
-- Comparisons of numbers: the fields and the compiled test of internal/policy/dsl/compiler.go.
use llm_guardrail_gateway.Base.{
  Bool, true, ◌≡◌, ◌⊎◌, ◌↔◌, inl, inr, refl, sym, subst, ◌∙◌, Bytes, codes, equal, equal_iff, apart,
  some, Bool-cases,
}
use llm_guardrail_gateway.Base.Result.{Result, ok}
use llm_guardrail_gateway.Dsl.Compiler.{
  CompileError, Getter, float, string, EvalContext, Condition, field_getter, compile_float,
}
use llm_guardrail_gateway.Dsl.Compiler.Meaning.{
  IsNumberField, Holds, above, below, equals, same_text,
}
use llm_guardrail_gateway.Dsl.Parser.{compare_node}
use llm_guardrail_gateway.Dsl.Runtime.{Runtime}

module _ (rt : Runtime) where
  open rt use {Float, parse_float, gt, lt, eq, to_lower}

  abbrev pub FieldCases : Bytes → Getter Float (EvalContext rt) → Type 0
  FieldCases field g =
      ((field ≡ codes "input.risk_score") × (float (λ ctx. ctx.input_risk_score) ≡ g))
      ⊎ ((field ≡ codes "tenant.daily_tokens") × (float (λ ctx. ctx.tenant_daily_tokens) ≡ g))
      ⊎ ((field ≡ codes "request.model") × (string ≡ g))

  pub field_getter-cases :
      (field : Bytes) (g : Getter Float (EvalContext rt))
      → field_getter rt field ≡ ok g
      → FieldCases field g
  unfolding field_getter
  field_getter-cases field g h = elim (Bool-cases (equal field (codes "input.risk_score"))) [
    | inl e ↦ inl ((equal_iff _ _).0 e, cc (rw e at h))
    | inr n₁ ↦ elim (Bool-cases (equal field (codes "tenant.daily_tokens"))) [
      | inl e ↦ inr (inl ((equal_iff _ _).0 e, cc (rw (n₁, e) at h)))
      | inr n₂ ↦ elim (Bool-cases (equal field (codes "request.model"))) [
        | inl e ↦ inr (inr ((equal_iff _ _).0 e, cc (rw (n₁, n₂, e) at h)))
        | inr n₃ ↦ cc (rw (n₁, n₂, n₃) at h)
      ]
    ]
  ]

  number_unique :
      (ctx : EvalContext rt) (field : Bytes) {x y : Float}
      → IsNumberField rt ctx field x
      → IsNumberField rt ctx field y
      → x ≡ y
  unfolding equal
  number_unique ctx field (inl (f, e)) (inl (g, d)) = e ∙ sym d
  number_unique ctx field (inl (f, e)) (inr (g, d)) = apart field _ _ refl f g
  number_unique ctx field (inr (f, e)) (inl (g, d)) = apart field _ _ refl f g
  number_unique ctx field (inr (f, e)) (inr (g, d)) = e ∙ sym d

  pub number_not_model :
      (ctx : EvalContext rt) (field : Bytes) {x : Float}
      → IsNumberField rt ctx field x
      → field ≡ codes "request.model"
      → ⊥
  unfolding equal
  number_not_model ctx field (inl (f, e)) m = apart field _ _ refl f m
  number_not_model ctx field (inr (f, e)) m = apart field _ _ refl f m

  -- what a comparison of a number comes to, by its operator
  abbrev pub Compares : Bytes → Float → Float → Type 0
  Compares op x y =
      ((op ≡ codes ">") × (gt x y ≡ true))
      ⊎ ((op ≡ codes "<") × (lt x y ≡ true))
      ⊎ ((op ≡ codes "==") × (eq x y ≡ true))

  module _ (ctx : EvalContext rt) (field op value : Bytes) (x y : Float)
      (number : IsNumberField rt ctx field x) (parsed : parse_float value ≡ some y) where
    same_floats :
        (test : Float → Float → Bool) {a b : Float}
        → IsNumberField rt ctx field a
        → parse_float value ≡ some b
        → test a b ≡ true
        → test x y ≡ true
    same_floats test {b = b} n p h =
        let same : b ≡ y = cc (p, parsed) in rw (← same, number_unique ctx field number n) h

    pub Holds-Compares : Holds rt ctx (compare_node field op value) → Compares op x y
    Holds-Compares (above o n p h) = inl (o, same_floats gt n p h)
    Holds-Compares (below o n p h) = inr (inl (o, same_floats lt n p h))
    Holds-Compares (equals o n p h) = inr (inr (o, same_floats eq n p h))
    Holds-Compares (same_text m o e) = absurd (number_not_model ctx field number m)

    pub Compares-Holds : Compares op x y → Holds rt ctx (compare_node field op value)
    Compares-Holds (inl (o, h)) = above o number parsed h
    Compares-Holds (inr (inl (o, h))) = below o number parsed h
    Compares-Holds (inr (inr (o, h))) = equals o number parsed h

  module _ (op : Bytes) (x y : Float) where
    Compares-gt : op ≡ codes ">" → (gt x y ≡ true) ↔ Compares op x y
    unfolding equal
    Compares-gt o = (λ h. inl (o, h), only)
      where
        only : Compares op x y → gt x y ≡ true
        only (inl (_, h)) = h
        only (inr (inl (p, h))) = apart op _ _ refl o p
        only (inr (inr (p, h))) = apart op _ _ refl o p

    Compares-lt : op ≡ codes "<" → (lt x y ≡ true) ↔ Compares op x y
    unfolding equal
    Compares-lt o = (λ h. inr (inl (o, h)), only)
      where
        only : Compares op x y → lt x y ≡ true
        only (inl (p, h)) = apart op _ _ refl o p
        only (inr (inl (p, h))) = h
        only (inr (inr (p, h))) = apart op _ _ refl o p

    Compares-eq : op ≡ codes "==" → (eq x y ≡ true) ↔ Compares op x y
    unfolding equal
    Compares-eq o = (λ h. inr (inr (o, h)), only)
      where
        only : Compares op x y → eq x y ≡ true
        only (inl (p, h)) = apart op _ _ refl o p
        only (inr (inl (p, h))) = apart op _ _ refl o p
        only (inr (inr (p, h))) = h

  -- a closure that was returned, known at each context
  pub returned :
      {P : EvalContext rt → Type 0} (c d : Condition rt)
      → ◌≡◌ {A = Result CompileError (Condition rt)} (ok d) (ok c)
      → ((ctx : EvalContext rt) → (d ctx ≡ true) ↔ P ctx)
      → (ctx : EvalContext rt) → (c ctx ≡ true) ↔ P ctx
  returned {P} c d e h =
      subst {A = Condition rt} (λ f. (ctx : EvalContext rt) → (f ctx ≡ true) ↔ P ctx) (cc) h

  pub compile_float-Compares :
      (field op : Bytes) (getter : EvalContext rt → Float) (y : Float) (c : Condition rt)
      → compile_float rt field op getter y ≡ ok c
      → (ctx : EvalContext rt) → (c ctx ≡ true) ↔ Compares op (getter ctx) y
  unfolding compile_float
  compile_float-Compares field op getter y c h = elim (Bool-cases (equal op (codes ">"))) [
    | inl e ↦ returned c _ (rw e at h) (λ ctx. Compares-gt op _ y ((equal_iff _ _).0 e))
    | inr n₁ ↦ elim (Bool-cases (equal op (codes "<"))) [
      | inl e ↦ returned c _ (rw (n₁, e) at h) (λ ctx. Compares-lt op _ y ((equal_iff _ _).0 e))
      | inr n₂ ↦ elim (Bool-cases (equal op (codes "=="))) [
        | inl e ↦
            returned c _ (rw (n₁, n₂, e) at h) (λ ctx. Compares-eq op _ y ((equal_iff _ _).0 e))
        | inr n₃ ↦ cc (rw (n₁, n₂, n₃) at h)
      ]
    ]
  ]
