-- ===== src/Tests/Policy.antt =====
-- Runs of internal/policy on a small policy.
use llm_guardrail_gateway.Base.{
  ℕ, ◌+◌, ◌-◌, ◌*◌, Bytes, codes, equal, lookup, take_while, drop_while, ◌&&◌, ◌==◌, ltb, leb,
  Option, none, some, List, [], ◌∷◌, ◌++◌, map, ◌≡◌, ◌≢◌, ◌↔◌, All, refl, if◌then◌else◌,
}
use llm_guardrail_gateway.Base.Result.{ok, err}
use llm_guardrail_gateway.Dsl.Compiler.Correct.{compile_node-Means}
use llm_guardrail_gateway.Dsl.Compiler.FirstMatch.{FirstMatch, compile-evaluate}
use llm_guardrail_gateway.Dsl.Compiler.Meaning.{Means}
use llm_guardrail_gateway.Dsl.Compiler.Operands.{Succeeds}
use llm_guardrail_gateway.Dsl.Compiler.Typing.{IsTypedRule, compile-IsTypedRule}
use llm_guardrail_gateway.Dsl.Compiler.{
  block, EvalContext, CompiledRule, evaluate, compile, compile_node, compile_compare, field_getter,
  compile_float, compile_rule, parse_action as to_action,
}
use llm_guardrail_gateway.Dsl.Lexer.RoundTrip.{
  Lexeme, AllSpelled, spell_all, on_line, lex-spell_all,
}
use llm_guardrail_gateway.Dsl.Lexer.Spelling.{word, sign}
use llm_guardrail_gateway.Dsl.Lexer.{
  is_digit, is_ident_start, is_ident_continue, is_space, skip, skip_whitespace_and_comments, peek,
  digit_follows, read_string, is_number_byte, read_number, read_ident, keyword_type, lex_token,
  lex_at, lex_round, proceed, run, lex,
}
use llm_guardrail_gateway.Dsl.Parser.Printable.{IsPolicy, policy_lexemes}
use llm_guardrail_gateway.Dsl.Parser.RoundTrip.{print, parse_trailing, parse-print}
use llm_guardrail_gateway.Dsl.Parser.Total.{parse-IsPolicy, parse-ne-out_of_fuel}
use llm_guardrail_gateway.Dsl.Parser.{
  Node, compare_node, PolicyNode, cur, expect, skip_comma, parse_values, parse_not_in, parse_action,
  parse_tenant, parse_value, parse_operation, parse_atom, condition_loop, condition_from,
  parse_condition, parse_rule, parse_rules, parse_policy, parse,
}
use llm_guardrail_gateway.Dsl.Runtime.{Runtime, is_float}
use llm_guardrail_gateway.Dsl.Token.{is, t_rule, t_ident, t_lbrace, out_of_fuel}

-- numbers in hundredths, written as `0.` and two digits or with no point
abbrev hundredths : Bytes → Option ℕ
hundredths (a ∷ b ∷ c ∷ d ∷ []) = some ((c - 48) * 10 + (d - 48))
hundredths (a ∷ []) = some ((a - 48) * 100)
hundredths _ = none

abbrev lower : ℕ → ℕ
lower c = if leb 65 c && leb c 90 then c + 32 else c

abbrev upper : ℕ → ℕ
upper c = if leb 97 c && leb c 122 then c - 32 else c

abbrev pub toy : Runtime
toy = record {
  Float = ℕ;
  parse_float = hundredths;
  gt = λ x y. ltb y x;
  lt = ltb;
  eq = λ x y. x == y;
  to_lower = map lower;
  to_upper = map upper;
}

abbrev pub source : Bytes
source =
    codes
      "policy tenant: dev { rule high { when input.risk_score > 0.60 action block reason \"risk\" } }"

abbrev pub high : Node
high = compare_node (codes "input.risk_score") (codes ">") (codes "0.60")

abbrev pub policy : PolicyNode
policy = record {
  tenant_id = codes "dev";
  rules =
      record {
        name = codes "high";
        condition = high;
        action = codes "block";
        reason = codes "risk";
      }
      ∷ [];
}

pub source-parse : parse (is_float toy) source ≡ ok policy
unfolding is_digit is_ident_start is_ident_continue is_space skip skip_whitespace_and_comments peek
    digit_follows read_string is_number_byte read_number read_ident keyword_type lex_token lex_at
    lex_round proceed run lex cur expect skip_comma parse_values parse_not_in parse_action
    parse_tenant parse_value parse_operation parse_atom condition_loop condition_from
    parse_condition parse_rule parse_rules parse_policy parse is equal lookup take_while drop_while
source-parse = refl

abbrev pub rules : List (CompiledRule toy)
rules =
    record {
      name = codes "high";
      condition = λ ctx. ltb 60 ctx.input_risk_score;
      action = block;
      reason = codes "risk";
    }
    ∷ []

high-compile : compile_node toy high ≡ ok (λ ctx. ltb 60 ctx.input_risk_score)
unfolding compile_node compile_compare field_getter compile_float equal
high-compile = refl

pub policy-compile : compile toy policy ≡ ok rules
unfolding compile compile_rule to_action equal
policy-compile = rw high-compile refl

-- a request of some risk
abbrev pub context : EvalContext toy
context = record {
  input_risk_score = 75;
  request_model = codes "mock-llm-v1";
  tenant_daily_tokens = 0;
}

compile_node-Means_example : Means toy high (λ ctx. ltb 60 ctx.input_risk_score)
compile_node-Means_example = compile_node-Means toy high _ high-compile

compile-evaluate_example : FirstMatch toy context policy.rules (evaluate toy rules context)
compile-evaluate_example = compile-evaluate toy policy rules context policy-compile

compile-IsTypedRule_example : Succeeds (compile toy policy) ↔ All (IsTypedRule toy) policy.rules
compile-IsTypedRule_example = compile-IsTypedRule toy policy

policy-IsPolicy : IsPolicy policy
policy-IsPolicy = parse-IsPolicy (is_float toy) source source-parse

parse-IsPolicy_example : IsPolicy policy
parse-IsPolicy_example = parse-IsPolicy (is_float toy) source source-parse

parse-print_example : parse (is_float toy) (print policy) ≡ ok policy
parse-print_example = parse-print (is_float toy) policy policy-IsPolicy

parse-ne-out_of_fuel_example : parse (is_float toy) source ≢ err out_of_fuel
parse-ne-out_of_fuel_example = parse-ne-out_of_fuel (is_float toy) source

-- the head of a second policy
abbrev more : List Lexeme
more = (t_rule, codes "rule") ∷ (t_ident, codes "low") ∷ (t_lbrace, codes "{") ∷ []

more-AllSpelled : AllSpelled more
unfolding is_ident_start is_ident_continue is_digit keyword_type lookup equal
more-AllSpelled = (
  word refl (refl, (refl, (refl, tt))) refl,
  (word refl (refl, (refl, tt)) refl, (sign refl, tt)),
)

parse_trailing_example :
    parse (is_float toy) (spell_all (policy_lexemes policy ++ more)) ≡ ok policy
parse_trailing_example = parse_trailing (is_float toy) policy more policy-IsPolicy more-AllSpelled

lex-spell_all_example : lex (spell_all more) ≡ ok (on_line 1 more)
lex-spell_all_example = lex-spell_all more more-AllSpelled
