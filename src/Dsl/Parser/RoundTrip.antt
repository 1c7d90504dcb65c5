-- ===== src/Dsl/Parser/RoundTrip.antt =====
-- Sources: a printed policy is lexed and parsed back.
use llm_guardrail_gateway.Base.{
  ◌≡◌, inl, inr, refl, Bool, Bytes, codes, equal, lookup, List, [], ◌∷◌, ◌++◌, All, append-nil,
}
use llm_guardrail_gateway.Base.Result.{ok}
use llm_guardrail_gateway.Dsl.Lexer.RoundTrip.{Lexeme, AllSpelled, spell_all, lex-spell_all}
use llm_guardrail_gateway.Dsl.Lexer.Spelling.{IsSpelled, word, sign}
use llm_guardrail_gateway.Dsl.Lexer.{is_ident_start, is_ident_continue, is_digit, keyword_type}
use llm_guardrail_gateway.Dsl.Parser.Lexemes.{parse_policy-lexemes}
use llm_guardrail_gateway.Dsl.Parser.Printable.{
  IsText, IsConnective, IsComparison, IsAtom, compare, not_in, IsCondition, atom, binary, IsRule,
  IsPolicy, comparison, connective, values_lexemes, node_lexemes, rule_end, rule_lexemes,
  rules_lexemes, policy_lexemes,
}
use llm_guardrail_gateway.Dsl.Parser.{Node, RuleNode, PolicyNode, parse}
use llm_guardrail_gateway.Dsl.Token.{
  t_policy, t_rule, t_when, t_action, t_reason, t_and, t_or, t_not_in, t_ident,
}

unfoldable pub print : PolicyNode → Bytes
print p = spell_all (policy_lexemes p)

AllSpelled-append : (xs ys : List Lexeme) → AllSpelled xs → AllSpelled ys → AllSpelled (xs ++ ys)
AllSpelled-append [] ys h k = k
AllSpelled-append ((ty, s) ∷ xs) ys (h, hs) k = (h, AllSpelled-append xs ys hs k)

values-AllSpelled : (vs : List Bytes) → All IsText vs → AllSpelled (values_lexemes vs)
unfolding values_lexemes
values-AllSpelled [] h = tt
values-AllSpelled (v ∷ []) (h, _) = (h, tt)
values-AllSpelled (v ∷ w ∷ vs) (h, hs) = (h, (sign refl, values-AllSpelled (w ∷ vs) hs))

-- the words of the language
record Words : Type 0 where
  policy : IsSpelled t_policy (codes "policy")
  tenant : IsSpelled t_ident (codes "tenant")
  rule : IsSpelled t_rule (codes "rule")
  when : IsSpelled t_when (codes "when")
  action : IsSpelled t_action (codes "action")
  reason : IsSpelled t_reason (codes "reason")
  not_in : IsSpelled t_not_in (codes "NOT_IN")
  and : IsSpelled t_and (codes "AND")
  or : IsSpelled t_or (codes "OR")

words : Words
unfolding is_ident_start is_ident_continue is_digit keyword_type lookup equal
words = record {
  policy = word refl (refl, (refl, (refl, (refl, (refl, tt))))) refl;
  tenant = word refl (refl, (refl, (refl, (refl, (refl, tt))))) refl;
  rule = word refl (refl, (refl, (refl, tt))) refl;
  when = word refl (refl, (refl, (refl, tt))) refl;
  action = word refl (refl, (refl, (refl, (refl, (refl, tt))))) refl;
  reason = word refl (refl, (refl, (refl, (refl, (refl, tt))))) refl;
  not_in = word refl (refl, (refl, (refl, (refl, (refl, tt))))) refl;
  and = word refl (refl, (refl, tt)) refl;
  or = word refl (refl, tt) refl;
}

connective-IsSpelled : (op : Bytes) → IsConnective op → IsSpelled (connective op) op
unfolding connective equal
connective-IsSpelled op (inl e) = rw e words.and
connective-IsSpelled op (inr e) = rw e words.or

comparison-IsSpelled : (op : Bytes) → IsComparison op → IsSpelled (comparison op) op
unfolding comparison equal
comparison-IsSpelled op (inl e) = rw e (sign refl)
comparison-IsSpelled op (inr (inl e)) = rw e (sign refl)
comparison-IsSpelled op (inr (inr e)) = rw e (sign refl)

atom-AllSpelled : (n : Node) → IsAtom n → AllSpelled (node_lexemes n)
unfolding node_lexemes
atom-AllSpelled n (compare {op = op} f c v) = (f, (comparison-IsSpelled op c, (v, tt)))
atom-AllSpelled n (not_in {values = vs} f h) = (
  f,
  (
    words.not_in,
    (sign refl, AllSpelled-append (values_lexemes vs) _ (values-AllSpelled vs h) (sign refl, tt)),
  ),
)

condition-AllSpelled : (n : Node) → IsCondition n → AllSpelled (node_lexemes n)
unfolding node_lexemes
condition-AllSpelled n (atom a) = atom-AllSpelled n a
condition-AllSpelled n (binary {op} {left} {right} c l a) =
    AllSpelled-append (node_lexemes left) _ (condition-AllSpelled left l)
      (connective-IsSpelled op c, atom-AllSpelled right a)

rule-AllSpelled : (r : RuleNode) → IsRule r → AllSpelled (rule_lexemes r)
unfolding rule_lexemes
rule-AllSpelled r v = (
  words.rule,
  (
    v.name,
    (
      sign refl,
      (
        words.when,
        AllSpelled-append (node_lexemes r.condition) (rule_end r)
            (condition-AllSpelled r.condition v.condition)
            (words.action, (v.action, (words.reason, (v.reason, (sign refl, tt))))),
      ),
    ),
  ),
)

rules-AllSpelled : (rs : List RuleNode) → All IsRule rs → AllSpelled (rules_lexemes rs)
unfolding rules_lexemes
rules-AllSpelled [] h = tt
rules-AllSpelled (r ∷ rs) (h, hs) =
    AllSpelled-append (rule_lexemes r) _ (rule-AllSpelled r h) (rules-AllSpelled rs hs)

policy-AllSpelled : (p : PolicyNode) → IsPolicy p → AllSpelled (policy_lexemes p)
unfolding policy_lexemes
policy-AllSpelled p v = (
  words.policy,
  (
    words.tenant,
    (
      sign refl,
      (
        v.tenant_id,
        (
          sign refl,
          AllSpelled-append (rules_lexemes p.rules) _ (rules-AllSpelled p.rules v.rules)
              (sign refl, tt),
        ),
      ),
    ),
  ),
)

-- Whatever tokens stand behind the closing brace of a printed policy, `Parse` returns the policy.
pub parse_trailing :
    (is_float : Bytes → Bool) (p : PolicyNode) (rest : List Lexeme)
    → IsPolicy p
    → AllSpelled rest
    → parse is_float (spell_all (policy_lexemes p ++ rest)) ≡ ok p
unfolding parse
parse_trailing is_float p rest v h =
    rw
      (lex-spell_all (policy_lexemes p ++ rest)
        (AllSpelled-append (policy_lexemes p) rest (policy-AllSpelled p v) h))
      (parse_policy-lexemes 1 is_float p rest v)

-- A policy that the language can express, printed, is read back by `Parse` as it was.
pub parse-print :
    (is_float : Bytes → Bool) (p : PolicyNode) → IsPolicy p → parse is_float (print p) ≡ ok p
unfolding print
parse-print is_float p v = rw append-nil at (parse_trailing is_float p [] v tt)
