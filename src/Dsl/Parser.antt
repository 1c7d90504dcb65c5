-- ===== src/Dsl/Parser.antt =====
-- internal/policy/dsl/parser.go. The parser's `tokens` and `pos` are one list here, the tokens from
-- `pos` on. `strconv.ParseFloat` is a parameter, which says whether it accepts a literal.
pub mod Printable
pub mod Consume
pub mod Conditions
pub mod Total
pub mod Lexemes
pub mod RoundTrip
use llm_guardrail_gateway.Base.{
  ℕ, zero, suc, ◌+◌, Bool, true, false, ◌&&◌, ◌||◌, not, Bytes, codes, equal, List, [], ◌∷◌, length,
  drop, if◌then◌else◌,
}
use llm_guardrail_gateway.Base.Result.{Result, ok, err, ◌>>=◌}
use llm_guardrail_gateway.Dsl.Lexer.{lex}
use llm_guardrail_gateway.Dsl.Token.{
  TokenType, t_policy, t_rule, t_when, t_action, t_reason, t_and, t_or, t_not_in, t_ident, t_string,
  t_number, t_gt, t_lt, t_eq, t_lbrace, t_rbrace, t_lbracket, t_rbracket, t_comma, t_colon, t_eof,
  is, Token, SyntaxError, expected, expected_tenant, expected_action, expected_operator,
  expected_value, invalid_number, out_of_fuel,
}

-- `Node`, with a constructor for each condition type
pub data Node : Type 0 where
  -- op, left, right
  binary_expr_node : Bytes → Node → Node → Node
  -- field, op, value
  compare_node : Bytes → Bytes → Bytes → Node
  -- field, values
  not_in_node : Bytes → List Bytes → Node

pub record RuleNode : Type 0 where
  pub name : Bytes
  pub condition : Node
  pub action : Bytes
  pub reason : Bytes

pub record PolicyNode : Type 0 where
  pub tenant_id : Bytes
  pub rules : List RuleNode

abbrev pub Parser : Type 0 → Type 0
Parser A = List Token → Result SyntaxError (A × List Token)

unfoldable pub cur : List Token → Token
cur [] = record { type = t_eof; literal = []; line = 0 }
cur (t ∷ ts) = t

-- `consume` is `cur`, and this for what is left
abbrev pub advance : List Token → List Token
advance ts = drop 1 ts

unfoldable pub expect : TokenType → Parser Token
expect type ts =
    let t = cur ts in if is t.type type then ok (t, advance ts) else err (expected t.line type t)

-- `if p.cur().Type == TCOMMA { p.consume() }`
unfoldable pub skip_comma : List Token → List Token
skip_comma ts = if is (cur ts).type t_comma then advance ts else ts

-- the loop over the values of NOT_IN
unfoldable pub parse_values : ℕ → Parser (List Bytes)
parse_values zero ts = err out_of_fuel
parse_values (suc fuel) ts =
    let more = (do
      (v, rest) ← expect t_string ts
      (vs, rest') ← parse_values fuel (skip_comma rest)
      ok (v.literal ∷ vs, rest')) in
    if is (cur ts).type t_rbracket || is (cur ts).type t_eof then ok ([], ts) else more

-- the branch of `parseAtom` behind NOT_IN
unfoldable pub parse_not_in : Bytes → Parser Node
parse_not_in field ts = do
  (_, behind) ← expect t_lbracket ts
  (vs, rest) ← parse_values (length behind + 1) behind
  (_, rest') ← expect t_rbracket rest
  ok (not_in_node field vs, rest')

-- `actionTok := p.consume()` and its check
unfoldable pub parse_action : Parser Bytes
parse_action ts =
    let t = cur ts in
    if not (is t.type t_ident) then err (expected_action t.line t) else ok (t.literal, advance ts)

-- the check for the word `tenant`, which is no keyword
unfoldable pub parse_tenant : Parser (Unit {0})
parse_tenant ts =
    let t = cur ts in
    if not (is t.type t_ident) || not (equal t.literal (codes "tenant"))
    then err (expected_tenant t.line t)
    else ok (tt, advance ts)

module _ (is_float : Bytes → Bool) where
  unfoldable pub parse_value : Parser Bytes
  parse_value ts =
      let t = cur ts in
      if is t.type t_string
      then ok (t.literal, advance ts)
      else if is t.type t_number
      then (if is_float t.literal
          then ok (t.literal, advance ts)
          else err (invalid_number t.line t.literal))
      else err (expected_value t.line t)

  -- the `switch` of `parseAtom`
  unfoldable pub parse_operation : Bytes → Parser Node
  parse_operation field ts =
      let op = cur ts in
      if is op.type t_gt || is op.type t_lt || is op.type t_eq
      then (do
        (value, rest) ← parse_value (advance ts)
        ok (compare_node field op.literal value, rest))
      else if is op.type t_not_in
      then parse_not_in field (advance ts)
      else err (expected_operator op.line field op)

  unfoldable pub parse_atom : Parser Node
  parse_atom ts = do (field, rest) ← expect t_ident ts; parse_operation field.literal rest

  -- the loop of `parseCondition`
  unfoldable pub condition_loop : ℕ → Node → Parser Node
  condition_loop zero left ts = err out_of_fuel
  condition_loop (suc fuel) left ts =
      let more = (do
        (right, rest) ← parse_atom (advance ts)
        condition_loop fuel (binary_expr_node (cur ts).literal left right) rest) in
      if is (cur ts).type t_and || is (cur ts).type t_or then more else ok (left, ts)

  unfoldable pub condition_from : ℕ → Parser Node
  condition_from fuel ts = do (left, rest) ← parse_atom ts; condition_loop fuel left rest

  unfoldable pub parse_condition : Parser Node
  parse_condition ts = condition_from (length ts + 1) ts

  unfoldable pub parse_rule : Parser RuleNode
  parse_rule ts₀ = do
    (_, ts₁) ← expect t_rule ts₀
    (name, ts₂) ← expect t_ident ts₁
    (_, ts₃) ← expect t_lbrace ts₂
    (_, ts₄) ← expect t_when ts₃
    (cond, ts₅) ← parse_condition ts₄
    (_, ts₆) ← expect t_action ts₅
    (action, ts₇) ← parse_action ts₆
    (_, ts₈) ← expect t_reason ts₇
    (reason, ts₉) ← expect t_string ts₈
    (_, rest) ← expect t_rbrace ts₉
    ok (
      record { name = name.literal; condition = cond; action = action; reason = reason.literal },
      rest,
    )

  -- the loop of `parsePolicy`
  unfoldable pub parse_rules : ℕ → Parser (List RuleNode)
  parse_rules zero ts = err out_of_fuel
  parse_rules (suc fuel) ts =
      let more = (do
        (rule, rest) ← parse_rule ts
        (rules, rest') ← parse_rules fuel rest
        ok (rule ∷ rules, rest')) in
      if is (cur ts).type t_rule then more else ok ([], ts)

  unfoldable pub parse_policy : List Token → Result SyntaxError PolicyNode
  parse_policy ts₀ = do
    (_, ts₁) ← expect t_policy ts₀
    (_, ts₂) ← parse_tenant ts₁
    (_, ts₃) ← expect t_colon ts₂
    (tenant, ts₄) ← expect t_ident ts₃
    (_, ts₅) ← expect t_lbrace ts₄
    (rules, ts₆) ← parse_rules (length ts₅ + 1) ts₅
    (_, _) ← expect t_rbrace ts₆
    ok (record { tenant_id = tenant.literal; rules = rules })

  -- `Parse`. What stands behind the closing brace is not read.
  unfoldable pub parse : Bytes → Result SyntaxError PolicyNode
  parse src = do tokens ← lex src; parse_policy tokens
