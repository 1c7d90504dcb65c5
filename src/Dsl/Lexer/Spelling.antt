-- ===== src/Dsl/Lexer/Spelling.antt =====
-- How a token is spelled in the source, as an independent description of the lexer's tokens.
use llm_guardrail_gateway.Base.{
  ℕ, Bool, true, false, ◌≡◌, Bytes, codes, Option, none, some, [], ◌∷◌, ◌++◌, not, ◌||◌, ◌==◌,
  if◌then◌else◌, take_while, drop_while, arith,
}
use llm_guardrail_gateway.Dsl.Lexer.{
  is_digit, is_ident_start, is_ident_continue, is_number_byte, keyword_type,
}
use llm_guardrail_gateway.Dsl.Token.{
  TokenType, is, t_string, t_number, t_gt, t_lt, t_eq, t_lbrace, t_rbrace, t_lbracket, t_rbracket,
  t_comma, t_colon,
}

abbrev pub AllBytes : (ℕ → Bool) → Bytes → Type 0
AllBytes p [] = Unit
AllBytes p (c ∷ cs) = (p c ≡ true) × AllBytes p cs

abbrev pub is_string_byte : ℕ → Bool
is_string_byte c = not (c == b'"' || c == b'\n')

-- the operators and the punctuation
abbrev pub symbol : TokenType → Option Bytes
symbol t_gt = some (codes ">")
symbol t_lt = some (codes "<")
symbol t_eq = some (codes "==")
symbol t_lbrace = some (codes "{")
symbol t_rbrace = some (codes "}")
symbol t_lbracket = some (codes "[")
symbol t_rbracket = some (codes "]")
symbol t_comma = some (codes ",")
symbol t_colon = some (codes ":")
symbol _ = none

-- A literal that a token of a type can have.
pub data IsSpelled : TokenType → Bytes → Type 0 where
  word :
      {c : ℕ} {cs : Bytes} {ty : TokenType}
      → is_ident_start c ≡ true
      → AllBytes is_ident_continue cs
      → keyword_type (c ∷ cs) ≡ ty
      → IsSpelled ty (c ∷ cs)
  quoted : {s : Bytes} {ty : TokenType} → ty ≡ t_string → AllBytes is_string_byte s → IsSpelled ty s
  digits :
      {c : ℕ} {cs : Bytes} {ty : TokenType}
      → ty ≡ t_number
      → is_digit c ≡ true
      → AllBytes is_number_byte cs
      → IsSpelled ty (c ∷ cs)
  negative :
      {m c : ℕ} {cs : Bytes} {ty : TokenType}
      → ty ≡ t_number
      → m ≡ b'-'
      → is_digit c ≡ true
      → AllBytes is_number_byte cs
      → IsSpelled ty (m ∷ c ∷ cs)
  sign : {s : Bytes} {ty : TokenType} → symbol ty ≡ some s → IsSpelled ty s

-- A token's source text: a string stands in quotes.
abbrev pub spell : TokenType → Bytes → Bytes
spell ty s = if is ty t_string then b'"' ∷ (s ++ b'"' ∷ []) else s

pub take_while-AllBytes : (p : ℕ → Bool) (s : Bytes) → AllBytes p (take_while p s)
unfolding take_while
take_while-AllBytes p [] = tt
take_while-AllBytes p (c ∷ cs) = ground (arith, take_while-AllBytes p cs)

-- A run of bytes that pass, before one that does not, is read whole.
module _ (p : ℕ → Bool) (c : ℕ) (rest : Bytes) (stop : p c ≡ false) where
  pub take_while-AllBytes_append : (s : Bytes) → AllBytes p s → take_while p (s ++ c ∷ rest) ≡ s
  unfolding take_while
  take_while-AllBytes_append [] h = rw stop
  take_while-AllBytes_append (x ∷ xs) (h, t) = rw (h, take_while-AllBytes_append xs t)

  pub drop_while-AllBytes_append :
      (s : Bytes) → AllBytes p s → drop_while p (s ++ c ∷ rest) ≡ c ∷ rest
  unfolding drop_while
  drop_while-AllBytes_append [] h = rw stop
  drop_while-AllBytes_append (x ∷ xs) (h, t) = rw h (drop_while-AllBytes_append xs t)
