-- ===== src/Dsl/Parser/Lexemes.antt =====
-- A printed condition, rule or policy is parsed back, at the level of tokens.
use llm_guardrail_gateway.Base.{
  ℕ, zero, suc, ◌+◌, ◌-◌, ◌≤◌, ◌<◌, ◌≡◌, inl, inr, refl, ◌∙◌, Bool, Bytes, codes, equal, List, [],
  ◌∷◌, ◌++◌, All, length, arith, append_assoc, length-append, true,
}
use llm_guardrail_gateway.Base.Result.{ok}
use llm_guardrail_gateway.Dsl.Lexer.RoundTrip.{Lexeme, on_line}
use llm_guardrail_gateway.Dsl.Parser.Printable.{
  IsConnective, IsComparison, IsAtom, compare, not_in, IsCondition, atom, binary, IsRule, IsPolicy,
  comparison, connective, values_lexemes, node_lexemes, rule_end, rule_lexemes, rules_lexemes,
  policy_lexemes,
}
use llm_guardrail_gateway.Dsl.Parser.{
  Node, binary_expr_node, compare_node, not_in_node, RuleNode, PolicyNode, cur, expect, skip_comma,
  parse_values, parse_not_in, parse_value, parse_operation, parse_atom, condition_loop,
  condition_from, parse_condition, parse_action, parse_rule, parse_rules, parse_tenant,
  parse_policy,
}
use llm_guardrail_gateway.Dsl.Token.{t_rule, t_rbracket, t_action, t_rbrace, is, Token}

module _ (line : ℕ) where
  abbrev toks : List Lexeme → List Token
  toks = on_line line

  length-le-toks : (xs ys : List Lexeme) → length xs ≤ length (toks (xs ++ ys))
  length-le-toks [] ys = omega arith
  length-le-toks ((ty, s) ∷ xs) ys = omega (arith, length-le-toks xs ys)

  length-le-values : (vs : List Bytes) → length vs ≤ length (values_lexemes vs)
  unfolding values_lexemes
  length-le-values [] = omega arith
  length-le-values (v ∷ []) = omega arith
  length-le-values (v ∷ w ∷ vs) = omega (arith, length-le-values (w ∷ vs))

  parse_values-lexemes :
      (vs : List Bytes) (fuel : ℕ) (rest : List Lexeme)
      → length vs < fuel
      → parse_values fuel (toks (values_lexemes vs ++ ((t_rbracket, codes "]") ∷ rest)))
        ≡ ok (vs, toks ((t_rbracket, codes "]") ∷ rest))
  unfolding parse_values values_lexemes expect skip_comma cur is
  parse_values-lexemes vs zero rest lt = absurd (omega arith)
  parse_values-lexemes [] (suc fuel) rest lt = refl
  parse_values-lexemes (v ∷ []) (suc fuel) rest lt =
      rw (parse_values-lexemes [] fuel rest (omega arith))
  parse_values-lexemes (v ∷ w ∷ vs) (suc fuel) rest lt =
      rw (parse_values-lexemes (w ∷ vs) fuel rest (omega arith))

  module _ (is_float : Bytes → Bool) where
    comparison-lexemes :
        (field op value : Bytes) (rest : List Lexeme)
        → IsComparison op
        → parse_atom is_float (toks (node_lexemes (compare_node field op value) ++ rest))
          ≡ ok (compare_node field op value, toks rest)
    unfolding parse_atom parse_operation parse_value node_lexemes comparison equal expect cur is
    comparison-lexemes field op value rest (inl e) = rw e
    comparison-lexemes field op value rest (inr (inl e)) = rw e
    comparison-lexemes field op value rest (inr (inr e)) = rw e

    not_in-lexemes :
        (field : Bytes) (vs : List Bytes) (rest : List Lexeme)
        → parse_atom is_float (toks (node_lexemes (not_in_node field vs) ++ rest))
          ≡ ok (not_in_node field vs, toks rest)
    unfolding parse_atom parse_operation parse_not_in node_lexemes expect cur is
    not_in-lexemes field vs rest =
        let close : Lexeme = (t_rbracket, codes "]") in
        rw (
          append_assoc (values_lexemes vs) (close ∷ []) rest,
          parse_values-lexemes vs (length (toks (values_lexemes vs ++ (close ∷ rest))) + 1) rest (
              omega
                (arith, length-le-values vs, length-le-toks (values_lexemes vs) (close ∷ rest))),
        )

    parse_atom-lexemes :
        (n : Node) (rest : List Lexeme)
        → IsAtom n
        → parse_atom is_float (toks (node_lexemes n ++ rest)) ≡ ok (n, toks rest)
    parse_atom-lexemes n rest (compare {field} {op} {value} f c v) =
        comparison-lexemes field op value rest c
    parse_atom-lexemes n rest (not_in {field} {values} f vs) = not_in-lexemes field values rest

    -- the connectives of a condition
    abbrev connectives : Node → ℕ
    connectives (binary_expr_node op left right) = suc (connectives left)
    connectives _ = 0

    connective_step :
        (fuel : ℕ) (op : Bytes) (left right : Node) (rest : List Lexeme)
        → IsConnective op
        → IsAtom right
        → condition_loop is_float
            (suc fuel)
            left
            (toks ((connective op, op) ∷ (node_lexemes right ++ rest)))
          ≡ condition_loop is_float fuel (binary_expr_node op left right) (toks rest)
    unfolding condition_loop connective equal cur is
    connective_step fuel op left right rest (inl e) a = rw (e, parse_atom-lexemes right rest a)
    connective_step fuel op left right rest (inr e) a = rw (e, parse_atom-lexemes right rest a)

    connectives-atom : {n : Node} → IsAtom n → connectives n ≡ 0
    connectives-atom (compare f c v) = refl
    connectives-atom (not_in f vs) = refl

    condition_from-lexemes :
        (n : Node) (fuel spent : ℕ) (rest : List Lexeme)
        → IsCondition n
        → spent ≡ connectives n + fuel
        → condition_from is_float spent (toks (node_lexemes n ++ rest))
          ≡ condition_loop is_float fuel n (toks rest)
    unfolding condition_from node_lexemes
    condition_from-lexemes n fuel spent rest (atom a) e =
        let same : spent ≡ fuel = omega (arith, e, connectives-atom a) in
        rw (same, parse_atom-lexemes n rest a)
    condition_from-lexemes n fuel spent rest (binary {op} {left} {right} c l a) e =
        rw (append_assoc (node_lexemes left) ((connective op, op) ∷ node_lexemes right) rest) (
          condition_from-lexemes left (suc fuel) spent
            ((connective op, op) ∷ (node_lexemes right ++ rest)) l (omega (arith, e))
          ∙ connective_step fuel op left right rest c a)

    connectives-le : (n : Node) → connectives n ≤ length (node_lexemes n)
    unfolding node_lexemes
    connectives-le (binary_expr_node op left right) = omega (
      arith,
      connectives-le left,
      length-append (node_lexemes left) ((connective op, op) ∷ node_lexemes right),
    )
    connectives-le (compare_node field op value) = omega arith
    connectives-le (not_in_node field vs) = omega arith

    parse_condition-lexemes :
        (n : Node) (rest : List Lexeme)
        → IsCondition n
        → parse_condition is_float (toks (node_lexemes n ++ ((t_action, codes "action") ∷ rest)))
          ≡ ok (n, toks ((t_action, codes "action") ∷ rest))
    unfolding parse_condition
    parse_condition-lexemes n rest c =
        let after : List Lexeme = (t_action, codes "action") ∷ rest in
        let spare = length (toks (node_lexemes n ++ after)) - connectives n in
        condition_from-lexemes n (suc spare) _ after c
          (omega (arith, connectives-le n, length-le-toks (node_lexemes n) after))
        ∙ (unfold condition_loop cur is in refl)

    parse_rule-lexemes :
        (r : RuleNode) (rest : List Lexeme)
        → IsRule r
        → parse_rule is_float (toks (rule_lexemes r ++ rest)) ≡ ok (r, toks rest)
    unfolding parse_rule rule_lexemes expect cur is parse_action
    parse_rule-lexemes r rest v = rw (
      append_assoc (node_lexemes r.condition) (rule_end r) rest,
      parse_condition-lexemes r.condition _ v.condition,
    )

    at_rule :
        (r : RuleNode) (rest : List Lexeme)
        → is (cur (toks (rule_lexemes r ++ rest))).type t_rule ≡ true
    unfolding rule_lexemes cur is
    at_rule r rest = refl

    parse_rules-lexemes :
        (rs : List RuleNode) (fuel : ℕ) (rest : List Lexeme)
        → All IsRule rs
        → length rs < fuel
        → parse_rules is_float fuel (toks (rules_lexemes rs ++ ((t_rbrace, codes "}") ∷ rest)))
          ≡ ok (rs, toks ((t_rbrace, codes "}") ∷ rest))
    unfolding parse_rules rules_lexemes
    parse_rules-lexemes rs zero rest v lt = absurd (omega arith)
    parse_rules-lexemes [] (suc fuel) rest v lt = unfold cur is in refl
    parse_rules-lexemes (r ∷ rs) (suc fuel) rest (v, vs) lt =
        let after = rules_lexemes rs ++ ((t_rbrace, codes "}") ∷ rest) in
        rw (
          append_assoc (rule_lexemes r) (rules_lexemes rs) ((t_rbrace, codes "}") ∷ rest),
          at_rule r after,
          parse_rule-lexemes r after v,
          parse_rules-lexemes rs fuel rest vs (omega arith),
        )

    length-le-rules : (rs : List RuleNode) → length rs ≤ length (rules_lexemes rs)
    unfolding rules_lexemes rule_lexemes
    length-le-rules [] = omega arith
    length-le-rules (r ∷ rs) =
        omega (arith, length-le-rules rs, length-append (rule_lexemes r) (rules_lexemes rs))

    pub parse_policy-lexemes :
        (p : PolicyNode) (rest : List Lexeme)
        → IsPolicy p
        → parse_policy is_float (toks (policy_lexemes p ++ rest)) ≡ ok p
    unfolding parse_policy policy_lexemes expect cur is parse_tenant equal
    parse_policy-lexemes p rest v =
        let close : List Lexeme = (t_rbrace, codes "}") ∷ [] in
        rw (
          append_assoc (rules_lexemes p.rules) close rest,
          parse_rules-lexemes p.rules (length (toks (rules_lexemes p.rules ++ (close ++ rest))) + 1)
              rest v.rules
              (omega (
                arith,
                length-le-rules p.rules,
                length-le-toks (rules_lexemes p.rules) (close ++ rest),
              )),
        )
