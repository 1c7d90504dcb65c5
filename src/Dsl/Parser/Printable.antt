-- ===== src/Dsl/Parser/Printable.antt =====
-- The policies that the language can express, and how they are written: an independent description
-- of what `Parse` of internal/policy/dsl/parser.go reads.
use llm_guardrail_gateway.Base.{
  ◌≡◌, ◌⊎◌, Bytes, codes, equal, List, [], ◌∷◌, ◌++◌, All, if◌then◌else◌,
}
use llm_guardrail_gateway.Dsl.Lexer.RoundTrip.{Lexeme}
use llm_guardrail_gateway.Dsl.Lexer.Spelling.{IsSpelled}
use llm_guardrail_gateway.Dsl.Parser.{
  Node, binary_expr_node, compare_node, not_in_node, RuleNode, PolicyNode,
}
use llm_guardrail_gateway.Dsl.Token.{
  TokenType, t_policy, t_rule, t_when, t_action, t_reason, t_and, t_or, t_not_in, t_ident, t_string,
  t_gt, t_lt, t_eq, t_lbrace, t_rbrace, t_lbracket, t_rbracket, t_comma, t_colon,
}

abbrev pub IsName : Bytes → Type 0
IsName = IsSpelled t_ident

-- no quote and no newline
abbrev pub IsText : Bytes → Type 0
IsText = IsSpelled t_string

abbrev pub IsComparison : Bytes → Type 0
IsComparison op = (op ≡ codes ">") ⊎ (op ≡ codes "<") ⊎ (op ≡ codes "==")

abbrev pub IsConnective : Bytes → Type 0
IsConnective op = (op ≡ codes "AND") ⊎ (op ≡ codes "OR")

pub data IsAtom : Node → Type 0 where
  compare :
      {field op value : Bytes}
      → IsName field
      → IsComparison op
      → IsText value
      → IsAtom (compare_node field op value)
  not_in :
      {field : Bytes} {values : List Bytes}
      → IsName field
      → All IsText values
      → IsAtom (not_in_node field values)

-- AND and OR have one precedence and group to the left.
pub data IsCondition : Node → Type 0 where
  atom : {n : Node} → IsAtom n → IsCondition n
  binary :
      {op : Bytes} {left right : Node}
      → IsConnective op
      → IsCondition left
      → IsAtom right
      → IsCondition (binary_expr_node op left right)

pub record IsRule (r : RuleNode) : Type 0 where
  pub name : IsName r.name
  pub condition : IsCondition r.condition
  pub action : IsName r.action
  pub reason : IsText r.reason

pub record IsPolicy (p : PolicyNode) : Type 0 where
  pub tenant_id : IsName p.tenant_id
  pub rules : All IsRule p.rules

unfoldable pub comparison : Bytes → TokenType
comparison op = if equal op (codes ">") then t_gt else if equal op (codes "<") then t_lt else t_eq

unfoldable pub connective : Bytes → TokenType
connective op = if equal op (codes "AND") then t_and else t_or

abbrev pub text_lexeme : Bytes → Lexeme
text_lexeme s = (t_string, s)

unfoldable pub values_lexemes : List Bytes → List Lexeme
values_lexemes [] = []
values_lexemes (v ∷ []) = text_lexeme v ∷ []
values_lexemes (v ∷ w ∷ vs) = text_lexeme v ∷ (t_comma, codes ",") ∷ values_lexemes (w ∷ vs)

unfoldable pub node_lexemes : Node → List Lexeme
node_lexemes (binary_expr_node op left right) =
    node_lexemes left ++ ((connective op, op) ∷ node_lexemes right)
node_lexemes (compare_node field op value) =
    (t_ident, field) ∷ (comparison op, op) ∷ text_lexeme value ∷ []
node_lexemes (not_in_node field values) =
    (t_ident, field)
    ∷ (t_not_in, codes "NOT_IN")
    ∷ (t_lbracket, codes "[")
    ∷ (values_lexemes values ++ ((t_rbracket, codes "]") ∷ []))

abbrev pub rule_end : RuleNode → List Lexeme
rule_end r =
    (t_action, codes "action")
    ∷ (t_ident, r.action)
    ∷ (t_reason, codes "reason")
    ∷ text_lexeme r.reason
    ∷ (t_rbrace, codes "}")
    ∷ []

unfoldable pub rule_lexemes : RuleNode → List Lexeme
rule_lexemes r =
    (t_rule, codes "rule")
    ∷ (t_ident, r.name)
    ∷ (t_lbrace, codes "{")
    ∷ (t_when, codes "when")
    ∷ (node_lexemes r.condition ++ rule_end r)

unfoldable pub rules_lexemes : List RuleNode → List Lexeme
rules_lexemes [] = []
rules_lexemes (r ∷ rs) = rule_lexemes r ++ rules_lexemes rs

unfoldable pub policy_lexemes : PolicyNode → List Lexeme
policy_lexemes p =
    (t_policy, codes "policy")
    ∷ (t_ident, codes "tenant")
    ∷ (t_colon, codes ":")
    ∷ (t_ident, p.tenant_id)
    ∷ (t_lbrace, codes "{")
    ∷ (rules_lexemes p.rules ++ ((t_rbrace, codes "}") ∷ []))
