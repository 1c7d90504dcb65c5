-- ===== src/Dsl/Parser/Total.antt =====
-- The parser ends, and what it returns can be written in the language.
use llm_guardrail_gateway.Base.{
  ℕ, zero, suc, ◌+◌, ◌<◌, ◌≡◌, ◌≢◌, inl, inr, refl, Bool, true, false, not, Bytes, codes, List, All,
  length, arith, Bool-cases, equal, if◌then◌else◌,
}
use llm_guardrail_gateway.Base.Result.{Result, ok, err}
use llm_guardrail_gateway.Dsl.Lexer.Total.{lex-Finishes}
use llm_guardrail_gateway.Dsl.Outcome.{
  Finishes, returns, fails, Finishes-if, Finishes-bind, Finishes-ne-out_of_fuel, Finishes-ok,
}
use llm_guardrail_gateway.Dsl.Parser.Conditions.{stay, parse_condition-Finishes}
use llm_guardrail_gateway.Dsl.Parser.Consume.{
  Good, IsTokens-Good, Left, Left-back, Takes, at_token, expect-Finishes,
}
use llm_guardrail_gateway.Dsl.Parser.Printable.{IsName, IsRule, IsPolicy}
use llm_guardrail_gateway.Dsl.Parser.{
  PolicyNode, cur, parse_action, parse_rule, parse_rules, parse_tenant, parse_policy, parse,
}
use llm_guardrail_gateway.Dsl.Token.{
  t_policy, t_rule, t_when, t_action, t_reason, t_ident, t_string, t_lbrace, t_rbrace, t_colon, is,
  Token, SyntaxError, out_of_fuel,
}

-- A loop may take nothing.
abbrev Keeps : {A : Type 0} → (A → Type 0) → List Token → A × List Token → Type 0
Keeps P ts (a, rest) = P a × Left (length ts + 1) rest

if_not-Finishes :
    {A : Type 0} {P : A → Type 0} (b : Bool) {x y : Result SyntaxError A}
    → Finishes P x
    → (b ≡ true → Finishes P y)
    → Finishes P (if not b then x else y)
if_not-Finishes true hx hy = hy refl
if_not-Finishes false hx hy = hx

parse_action-Finishes : (ts : List Token) → Good ts → Finishes (Takes IsName ts) (parse_action ts)
unfolding parse_action
parse_action-Finishes ts good =
    if_not-Finishes (is (cur ts).type t_ident) (fails (cc))
      λ h. returns (at_token ts t_ident good (unfold is in refl) h)

parse_tenant-Finishes :
    (ts : List Token) → Good ts → Finishes (Takes (λ _. Unit {0}) ts) (parse_tenant ts)
unfolding parse_tenant
parse_tenant-Finishes ts good = elim (Bool-cases (is (cur ts).type t_ident)) [
  | inl ident ↦
      let (_, l) = at_token ts t_ident good (unfold is in refl) ident in
      rw ident (
        if_not-Finishes (equal (cur ts).literal (codes "tenant")) (fails (cc)) λ _. returns (tt, l))
  | inr other ↦ rw other (fails (cc))
]

module _ (is_float : Bytes → Bool) where
  parse_rule-Finishes :
      (ts : List Token) → Good ts → Finishes (Takes IsRule ts) (parse_rule is_float ts)
  unfolding parse_rule
  parse_rule-Finishes ts good =
      Finishes-bind (expect-Finishes t_rule ts good (unfold is in refl)) λ (_, ts₁) (_, l₁).
        Finishes-bind (expect-Finishes t_ident ts₁ l₁.good (unfold is in refl))
          λ (name, ts₂) (n, l₂).
            Finishes-bind (expect-Finishes t_lbrace ts₂ l₂.good (unfold is in refl))
              λ (_, ts₃) (_, l₃).
                Finishes-bind (expect-Finishes t_when ts₃ l₃.good (unfold is in refl))
                  λ (_, ts₄) (_, l₄).
                    Finishes-bind (parse_condition-Finishes is_float ts₄ l₄.good)
                      λ (cond, ts₅) (c, l₅).
                        Finishes-bind (expect-Finishes t_action ts₅ l₅.good (unfold is in refl))
                          λ (_, ts₆) (_, l₆).
                            Finishes-bind (parse_action-Finishes ts₆ l₆.good)
                              λ (action, ts₇) (a, l₇).
                                Finishes-bind
                                  (expect-Finishes t_reason ts₇ l₇.good (unfold is in refl))
                                  λ (_, ts₈) (_, l₈).
                                    Finishes-bind
                                      (expect-Finishes t_string ts₈ l₈.good (unfold is in refl))
                                      λ (reason, ts₉) (r, l₉).
                                        Finishes-bind
                                          (expect-Finishes t_rbrace ts₉ l₉.good (unfold is in refl))
                                          λ (_, rest) (_, l). returns (
                                            record {
                                              name = n;
                                              condition = c;
                                              action = a;
                                              reason = r;
                                            },
                                            Left-back l (
                                                omega (
                                                  arith, l₁.shorter, l₂.shorter, l₃.shorter,
                                                  l₄.shorter, l₅.shorter, l₆.shorter, l₇.shorter,
                                                  l₈.shorter, l₉.shorter,
                                                )),
                                          )

  parse_rules-Finishes :
      (fuel : ℕ) (ts : List Token)
      → Good ts
      → length ts < fuel
      → Finishes (Keeps (All IsRule) ts) (parse_rules is_float fuel ts)
  unfolding parse_rules
  parse_rules-Finishes zero ts good lt = absurd (omega arith)
  parse_rules-Finishes (suc fuel) ts good lt =
      Finishes-if (is (cur ts).type t_rule)
        (λ _. Finishes-bind (parse_rule-Finishes ts good) λ (rule, rest) (r, l).
          Finishes-bind (parse_rules-Finishes fuel rest l.good (omega (arith, l.shorter)))
            λ (rules, rest') (rs, l'). returns ((r, rs), Left-back l' (omega (arith, l.shorter))))
        (λ _. returns (tt, stay ts good))

  parse_policy-Finishes : (ts : List Token) → Good ts → Finishes IsPolicy (parse_policy is_float ts)
  unfolding parse_policy
  parse_policy-Finishes ts good =
      Finishes-bind (expect-Finishes t_policy ts good (unfold is in refl)) λ (_, ts₁) (_, l₁).
        Finishes-bind (parse_tenant-Finishes ts₁ l₁.good) λ (_, ts₂) (_, l₂).
          Finishes-bind (expect-Finishes t_colon ts₂ l₂.good (unfold is in refl))
            λ (_, ts₃) (_, l₃).
              Finishes-bind (expect-Finishes t_ident ts₃ l₃.good (unfold is in refl))
                λ (tenant, ts₄) (n, l₄).
                  Finishes-bind (expect-Finishes t_lbrace ts₄ l₄.good (unfold is in refl))
                    λ (_, ts₅) (_, l₅).
                      Finishes-bind
                        (parse_rules-Finishes (length ts₅ + 1) ts₅ l₅.good (omega arith))
                        λ (rules, ts₆) (rs, l₆).
                          Finishes-bind (expect-Finishes t_rbrace ts₆ l₆.good (unfold is in refl))
                            λ _ _. returns (record { tenant_id = n; rules = rs })

  parse-Finishes : (src : Bytes) → Finishes IsPolicy (parse is_float src)
  unfolding parse
  parse-Finishes src =
      Finishes-bind (lex-Finishes src) λ tokens v. parse_policy-Finishes tokens (IsTokens-Good v)

  -- The lexer's and the parser's fuel is enough for every source: `Parse` returns a policy or an
  -- error of the program.
  pub parse-ne-out_of_fuel : (src : Bytes) → parse is_float src ≢ err out_of_fuel
  parse-ne-out_of_fuel src = Finishes-ne-out_of_fuel (parse-Finishes src)

  -- What `Parse` returns can be written in the language: names are identifiers and no keywords,
  -- operators and connectives are those of the language, and AND and OR group to the left.
  pub parse-IsPolicy : (src : Bytes) {p : PolicyNode} → parse is_float src ≡ ok p → IsPolicy p
  parse-IsPolicy src e = Finishes-ok (parse-Finishes src) e
