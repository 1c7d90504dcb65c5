-- ===== src/Dsl/Compiler/FirstMatch.antt =====
-- `Evaluate` on the output of `Compile` in internal/policy/dsl/compiler.go: the first rule wins.
use llm_guardrail_gateway.Base.{
  true, ◌≡◌, inl, inr, refl, ap, subst, ◌∙◌, Bytes, codes, equal, equal_iff, some, List, [], ◌∷◌,
  Bool-cases,
}
use llm_guardrail_gateway.Base.Result.{Result, ok, err, bind-eq-ok}
use llm_guardrail_gateway.Dsl.Compiler.{
  Action, block, tag, log, redact, CompileError, within_rule, Verdict, no_verdict, EvalContext,
  CompiledRule, evaluate, compile_node, parse_action, compile_rule, compile_rules, compile,
}
use llm_guardrail_gateway.Dsl.Compiler.Correct.{compile_node-Means}
use llm_guardrail_gateway.Dsl.Compiler.Meaning.{Holds, Means}
use llm_guardrail_gateway.Dsl.Parser.{RuleNode, PolicyNode}
use llm_guardrail_gateway.Dsl.Runtime.{Runtime}

-- the word for an action
abbrev pub action_name : Action → Bytes
action_name block = codes "BLOCK"
action_name tag = codes "TAG"
action_name log = codes "LOG"
action_name redact = codes "REDACT"

module _ (rt : Runtime) where
  open rt use {to_upper}

  -- the verdict of a policy at a request, by the rules as they are written
  pub data FirstMatch (ctx : EvalContext rt) : List RuleNode → Verdict → Type 0 where
    unmatched : FirstMatch ctx [] no_verdict
    hit :
        {r : RuleNode} {rest : List RuleNode} {a : Action}
        → Holds rt ctx r.condition
        → to_upper r.action ≡ action_name a
        → FirstMatch ctx
            (r ∷ rest)
            (record { matched = true; rule_name = r.name; action = some a; reason = r.reason })
    miss :
        {r : RuleNode} {rest : List RuleNode} {v : Verdict}
        → (Holds rt ctx r.condition → ⊥)
        → FirstMatch ctx rest v
        → FirstMatch ctx (r ∷ rest) v

  pub parse_action-name :
      (s : Bytes) (a : Action) → parse_action rt s ≡ ok a → to_upper s ≡ action_name a
  unfolding parse_action
  parse_action-name s a h = elim (Bool-cases (equal (to_upper s) (codes "BLOCK"))) [
    | inl e ↦ named e block (rw e at h) refl
    | inr n₁ ↦ elim (Bool-cases (equal (to_upper s) (codes "TAG"))) [
      | inl e ↦ named e tag (rw (n₁, e) at h) refl
      | inr n₂ ↦ elim (Bool-cases (equal (to_upper s) (codes "LOG"))) [
        | inl e ↦ named e log (rw (n₁, n₂, e) at h) refl
        | inr n₃ ↦ elim (Bool-cases (equal (to_upper s) (codes "REDACT"))) [
          | inl e ↦ named e redact (rw (n₁, n₂, n₃, e) at h) refl
          | inr n₄ ↦ cc (rw (n₁, n₂, n₃, n₄) at h)
        ]
      ]
    ]
  ]
    where
      named :
          {w : Bytes}
          → equal (to_upper s) w ≡ true
          → (b : Action) → ◌≡◌ {A = Result CompileError Action} (ok b) (ok a)
          → w ≡ action_name b
          → to_upper s ≡ action_name a
      named e b same word = (equal_iff _ _).0 e ∙ word ∙ ap action_name (cc)

  pub within_rule-ok :
      {A : Type 0} (name : Bytes) (m : Result CompileError A) (a : A)
      → within_rule name m ≡ ok a
      → m ≡ ok a
  within_rule-ok name (ok b) a h = h
  within_rule-ok name (err e) a h = cc

  -- what a compiled rule keeps of the rule it comes from
  record IsCompiled (rn : RuleNode) (r : CompiledRule rt) : Type 0 where
    name : r.name ≡ rn.name
    condition : Means rt rn.condition r.condition
    action : to_upper rn.action ≡ action_name r.action
    reason : r.reason ≡ rn.reason

  compile_rule-IsCompiled :
      (rn : RuleNode) (r : CompiledRule rt) → compile_rule rt rn ≡ ok r → IsCompiled rn r
  unfolding compile_rule
  compile_rule-IsCompiled rn r h =
      let (c, got, h₁) = bind-eq-ok (within_rule rn.name (compile_node rt rn.condition)) _ h in
      let (a, named, h₂) = bind-eq-ok (within_rule rn.name (parse_action rt rn.action)) _ h₁ in
      let means = compile_node-Means rt rn.condition c (within_rule-ok rn.name _ c got) in
      let word = parse_action-name rn.action a (within_rule-ok rn.name _ a named) in
      let same : ◌≡◌ {A = CompiledRule rt}
          (record { name = rn.name; condition = c; action = a; reason = rn.reason }) r =
        cc h₂ in
      subst (IsCompiled rn) same
        (record { name = refl; condition = means; action = word; reason = refl })

  evaluate-hit :
      (rn : RuleNode) (r : CompiledRule rt) (rest : List (CompiledRule rt)) (ctx : EvalContext rt)
      → IsCompiled rn r
      → r.condition ctx ≡ true
      → (rns : List RuleNode) → FirstMatch ctx (rn ∷ rns) (evaluate rt (r ∷ rest) ctx)
  unfolding evaluate
  evaluate-hit rn r rest ctx k h rns =
      rw (h, k.name, k.reason) (hit ((k.condition ctx).0 h) k.action)

  -- The verdict of compiled rules, at each request, is that of the first rule whose condition
  -- holds, with its name, its reason and the action its word names, and the empty verdict if none does.
  pub compile_rules-FirstMatch :
      (rns : List RuleNode) (rules : List (CompiledRule rt)) (ctx : EvalContext rt)
      → compile_rules rt rns ≡ ok rules
      → FirstMatch ctx rns (evaluate rt rules ctx)
  unfolding compile_rules evaluate
  compile_rules-FirstMatch [] rules ctx h =
      let none_left : ◌≡◌ {A = List (CompiledRule rt)} [] rules = cc h in
      subst (λ rs. FirstMatch ctx [] (evaluate rt rs ctx)) none_left unmatched
  compile_rules-FirstMatch (rn ∷ rns) rules ctx h =
      let (r, got, h₁) = bind-eq-ok (compile_rule rt rn) _ h in
      let (rs, gots, h₂) = bind-eq-ok (compile_rules rt rns) _ h₁ in
      let same : ◌≡◌ {A = List (CompiledRule rt)} (r ∷ rs) rules = cc h₂ in
      let k = compile_rule-IsCompiled rn r got in
      subst (λ all. FirstMatch ctx (rn ∷ rns) (evaluate rt all ctx)) same
        elim (Bool-cases (r.condition ctx)) [
          | inl t ↦ evaluate-hit rn r rs ctx k t rns
          | inr f ↦ rw f (
              miss (λ holds. cc ((k.condition ctx).1 holds, f))
                (compile_rules-FirstMatch rns rs ctx gots))
        ]

  -- The rules that `Compile` returns decide each request as the policy's text says: the first rule
  -- whose condition holds gives the verdict, and without one nothing is matched.
  pub compile-evaluate :
      (p : PolicyNode) (rules : List (CompiledRule rt)) (ctx : EvalContext rt)
      → compile rt p ≡ ok rules
      → FirstMatch ctx p.rules (evaluate rt rules ctx)
  unfolding compile
  compile-evaluate p rules ctx h = compile_rules-FirstMatch p.rules rules ctx h
