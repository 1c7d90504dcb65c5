-- ===== src/Dsl/Token.antt =====
-- internal/policy/dsl/lexer.go: tokens, keywords, and the errors of the lexer and the parser.
use llm_guardrail_gateway.Base.{true, refl, ◌≡◌, arith, ℕ, Bool, Bytes, codes, List, [], ◌∷◌, ◌==◌}

pub data TokenType : Type 0 where
  t_policy t_rule t_when t_action t_reason t_and t_or t_not_in : TokenType
  t_ident t_string t_number : TokenType
  t_gt t_lt t_eq : TokenType
  t_lbrace t_rbrace t_lbracket t_rbracket t_comma t_colon : TokenType
  t_eof : TokenType

-- the value that `iota` gives the constant
abbrev pub number : TokenType → ℕ
number t_policy = 0
number t_rule = 1
number t_when = 2
number t_action = 3
number t_reason = 4
number t_and = 5
number t_or = 6
number t_not_in = 7
number t_ident = 8
number t_string = 9
number t_number = 10
number t_gt = 11
number t_lt = 12
number t_eq = 13
number t_lbrace = 14
number t_rbrace = 15
number t_lbracket = 16
number t_rbracket = 17
number t_comma = 18
number t_colon = 19
number t_eof = 20

-- `==` on token types
unfoldable pub is : TokenType → TokenType → Bool
is t u = number t == number u

pub record Token : Type 0 where
  pub type : TokenType
  pub literal : Bytes
  pub line : ℕ

abbrev pub keywords : List (Bytes × TokenType)
keywords =
    (codes "policy", t_policy)
    ∷ (codes "rule", t_rule)
    ∷ (codes "when", t_when)
    ∷ (codes "action", t_action)
    ∷ (codes "reason", t_reason)
    ∷ (codes "AND", t_and)
    ∷ (codes "OR", t_or)
    ∷ (codes "NOT_IN", t_not_in)
    ∷ (codes "BLOCK", t_ident)
    ∷ (codes "TAG", t_ident)
    ∷ (codes "LOG", t_ident)
    ∷ (codes "REDACT", t_ident)
    ∷ []

-- The errors, each with its line; `out_of_fuel` is the model's own, and is never met.
pub data SyntaxError : Type 0 where
  unexpected_character : ℕ → ℕ → SyntaxError
  unterminated_string : ℕ → SyntaxError
  unterminated_string_at_eof : ℕ → SyntaxError
  expected : ℕ → TokenType → Token → SyntaxError
  expected_tenant : ℕ → Token → SyntaxError
  expected_action : ℕ → Token → SyntaxError
  expected_operator : ℕ → Bytes → Token → SyntaxError
  expected_value : ℕ → Token → SyntaxError
  invalid_number : ℕ → Bytes → SyntaxError
  out_of_fuel : SyntaxError

pub is→eq : (t u : TokenType) → is t u ≡ true → t ≡ u
unfolding is
is→eq t_policy u h = ground arith
is→eq _ u h = ground arith

pub is_refl : (t : TokenType) → is t t ≡ true
unfolding is
is_refl t_policy = refl
is_refl _ = refl
