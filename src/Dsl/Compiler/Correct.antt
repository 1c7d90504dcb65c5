-- ===== src/Dsl/Compiler/Correct.antt =====
-- Compiled conditions of internal/policy/dsl/compiler.go mean what the language says.
use llm_guardrail_gateway.Base.{
  true, not, ◌&&◌, ◌||◌, ◌≡◌, ◌≢◌, ◌↔◌, inl, inr, refl, Bytes, codes, equal, equal_iff, apart,
  and_iff, or_iff, some, List, [], ◌∷◌, All, Bool-cases, arith,
}
use llm_guardrail_gateway.Base.Result.{ok, bind-eq-ok}
use llm_guardrail_gateway.Dsl.Compiler.{
  float, EvalContext, Condition, field_getter, string_field_getter, compile_string, compile_kind,
  parse_number, compile_compare, contains, compile_not_in, compile_binary, compile_node,
}
use llm_guardrail_gateway.Dsl.Compiler.Meaning.{
  IsNumberField, Holds, both, left, right, above, below, equals, same_text, outside, Means,
}
use llm_guardrail_gateway.Dsl.Compiler.Numbers.{
  field_getter-cases, number_not_model, Holds-Compares, Compares-Holds, returned,
  compile_float-Compares,
}
use llm_guardrail_gateway.Dsl.Parser.{Node, binary_expr_node, compare_node, not_in_node}
use llm_guardrail_gateway.Dsl.Runtime.{Runtime}

module _ (rt : Runtime) where
  open rt use {Float, parse_float, to_lower}

  pub string_field_getter-ok :
      (field : Bytes) (g : EvalContext rt → Bytes)
      → string_field_getter rt field ≡ ok g
      → (field ≡ codes "request.model")
        × (◌≡◌ {A = EvalContext rt → Bytes} (λ ctx. ctx.request_model) g)
  unfolding string_field_getter
  string_field_getter-ok field g h = elim (Bool-cases (equal field (codes "request.model"))) [
    | inl e ↦ ((equal_iff _ _).0 e, cc (rw e at h))
    | inr n ↦ cc (rw n at h)
  ]

  -- `x == y` after `strings.ToLower` on both sides
  Holds-same_text :
      (ctx : EvalContext rt) (field op value : Bytes)
      → field ≡ codes "request.model"
      → op ≡ codes "=="
      → (equal (to_lower ctx.request_model) (to_lower value) ≡ true)
        ↔ Holds rt ctx (compare_node field op value)
  Holds-same_text ctx field op value m o = (λ h. same_text m o ((equal_iff _ _).0 h), only)
    where
      only :
          Holds rt ctx (compare_node field op value)
          → equal (to_lower ctx.request_model) (to_lower value) ≡ true
      only (above _ n p h) = absurd (number_not_model rt ctx field n m)
      only (below _ n p h) = absurd (number_not_model rt ctx field n m)
      only (equals _ n p h) = absurd (number_not_model rt ctx field n m)
      only (same_text _ _ e) = (equal_iff _ _).1 e

  compile_string-Means :
      (field op value : Bytes) (c : Condition rt)
      → compile_string rt field op value ≡ ok c
      → Means rt (compare_node field op value) c
  unfolding compile_string
  compile_string-Means field op value c h =
      let (g, got, h') = bind-eq-ok (string_field_getter rt field) _ h in
      let (m, e) = string_field_getter-ok field g got in
      elim (Bool-cases (equal op (codes "=="))) [
        | inl is_eq ↦
            returned rt c (λ ctx. equal (to_lower ctx.request_model) (to_lower value))
              (rw (is_eq, ← e) at h')
              (λ ctx. Holds-same_text ctx field op value m ((equal_iff _ _).0 is_eq))
        | inr other ↦ cc (rw other at h')
      ]

  pub parse_number-ok :
      (field value : Bytes) (y : Float)
      → parse_number rt field value ≡ ok y
      → parse_float value ≡ some y
  unfolding parse_number
  parse_number-ok field value y h = ground arith

  compile_number-Means :
      (field op value : Bytes) (getter : EvalContext rt → Float) (c : Condition rt)
      → ((ctx : EvalContext rt) → IsNumberField rt ctx field (getter ctx))
      → compile_kind rt field op value (float getter) ≡ ok c
      → Means rt (compare_node field op value) c
  unfolding compile_kind
  compile_number-Means field op value getter c number h ctx =
      let (y, got, h') = bind-eq-ok (parse_number rt field value) _ h in
      let parsed = parse_number-ok field value y got in
      let (to, from) = compile_float-Compares rt field op getter y c h' ctx in
      (
        (λ t. Compares-Holds rt ctx field op value (getter ctx) y (number ctx) parsed (to t)),
        (λ t. from (Holds-Compares rt ctx field op value (getter ctx) y (number ctx) parsed t)),
      )

  compile_compare-Means :
      (field op value : Bytes) (c : Condition rt)
      → compile_compare rt field op value ≡ ok c
      → Means rt (compare_node field op value) c
  unfolding compile_compare
  compile_compare-Means field op value c h =
      let (g, got, h') = bind-eq-ok (field_getter rt field) _ h in
      elim (field_getter-cases rt field g got) [
        | inl (f, e) ↦
            compile_number-Means field op value _ c (λ ctx. inl (f, refl)) (rw (← e) at h')
        | inr (inl (f, e)) ↦
            compile_number-Means field op value _ c (λ ctx. inr (f, refl)) (rw (← e) at h')
        | inr (inr (f, e)) ↦ compile_string-Means field op value c (rw (← e) at h')
      ]

  contains-All :
      (val : Bytes) (values : List Bytes)
      → (not (contains rt val values) ≡ true) ↔ All (λ v. val ≢ to_lower v) values
  unfolding contains
  contains-All val [] = (λ _. tt, λ _. refl)
  contains-All val (v ∷ vs) =
      let (to, from) = contains-All val vs in
      elim (Bool-cases (equal val (to_lower v))) [
        | inl e ↦ rw e (λ h. cc, λ (ne, _). absurd (ne ((equal_iff _ _).0 e)))
        | inr n ↦ rw n (λ h. (λ e. cc ((equal_iff _ _).1 e, n), to h), λ (_, all). from all)
      ]

  compile_not_in-Means :
      (field : Bytes) (values : List Bytes) (c : Condition rt)
      → compile_not_in rt field values ≡ ok c
      → Means rt (not_in_node field values) c
  unfolding compile_not_in
  compile_not_in-Means field values c h =
      let (g, got, h') = bind-eq-ok (string_field_getter rt field) _ h in
      let (m, e) = string_field_getter-ok field g got in
      returned rt c (λ ctx. not (contains rt (to_lower ctx.request_model) values)) (rw (← e) at h')
        λ ctx.
          let (to, from) = contains-All (to_lower ctx.request_model) values in
          (λ t. outside m (to t), λ t. from (excluded ctx t))
    where
      excluded :
          (ctx : EvalContext rt)
          → Holds rt ctx (not_in_node field values)
          → All (λ v. to_lower ctx.request_model ≢ to_lower v) values
      excluded ctx (outside _ all) = all

  module _ (ctx : EvalContext rt) (op : Bytes) (l r : Node) (cl cr : Condition rt)
      (ml : Means rt l cl) (mr : Means rt r cr) where
    Holds-both :
        op ≡ codes "AND" → (cl ctx && cr ctx ≡ true) ↔ Holds rt ctx (binary_expr_node op l r)
    unfolding equal
    Holds-both o =
        (λ h. let (hl, hr) = (and_iff _ _).0 h in both o ((ml ctx).0 hl) ((mr ctx).0 hr), only)
      where
        only : Holds rt ctx (binary_expr_node op l r) → cl ctx && cr ctx ≡ true
        only (both _ hl hr) = (and_iff _ _).1 ((ml ctx).1 hl, (mr ctx).1 hr)
        only (left p h) = apart op _ _ refl o p
        only (right p h) = apart op _ _ refl o p

    Holds-either :
        op ≡ codes "OR" → (cl ctx || cr ctx ≡ true) ↔ Holds rt ctx (binary_expr_node op l r)
    unfolding equal
    Holds-either o = (
      (λ h. elim ((or_iff _ _).0 h) [
        | inl hl ↦ left o ((ml ctx).0 hl)
        | inr hr ↦ right o ((mr ctx).0 hr)
      ]),
      only,
    )
      where
        only : Holds rt ctx (binary_expr_node op l r) → cl ctx || cr ctx ≡ true
        only (both p hl hr) = apart op _ _ refl o p
        only (left _ h) = (or_iff _ _).1 (inl ((ml ctx).1 h))
        only (right _ h) = (or_iff _ _).1 (inr ((mr ctx).1 h))

  compile_binary-Means :
      (op : Bytes) (l r : Node) (cl cr c : Condition rt)
      → Means rt l cl
      → Means rt r cr
      → compile_binary rt op cl cr ≡ ok c
      → Means rt (binary_expr_node op l r) c
  unfolding compile_binary
  compile_binary-Means op l r cl cr c ml mr h = elim (Bool-cases (equal op (codes "AND"))) [
    | inl e ↦
        returned rt c (λ ctx. cl ctx && cr ctx) (rw e at h)
          (λ ctx. Holds-both ctx op l r cl cr ml mr ((equal_iff _ _).0 e))
    | inr n ↦ elim (Bool-cases (equal op (codes "OR"))) [
      | inl e ↦
          returned rt c (λ ctx. cl ctx || cr ctx) (rw (n, e) at h)
            (λ ctx. Holds-either ctx op l r cl cr ml mr ((equal_iff _ _).0 e))
      | inr n' ↦ cc (rw (n, n') at h)
    ]
  ]

  -- A condition that compiles is, at each request, true exactly where it holds.
  pub compile_node-Means : (n : Node) (c : Condition rt) → compile_node rt n ≡ ok c → Means rt n c
  unfolding compile_node
  compile_node-Means (binary_expr_node op l r) c h =
      let (cl, el, h₁) = bind-eq-ok (compile_node rt l) _ h in
      let (cr, er, h₂) = bind-eq-ok (compile_node rt r) _ h₁ in
      compile_binary-Means op l r cl cr c (compile_node-Means l cl el) (compile_node-Means r cr er)
        h₂
  compile_node-Means (compare_node field op value) c h = compile_compare-Means field op value c h
  compile_node-Means (not_in_node field values) c h = compile_not_in-Means field values c h
