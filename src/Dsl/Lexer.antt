-- ===== src/Dsl/Lexer.antt =====
-- internal/policy/dsl/lexer.go: `Lex`. The lexer's `src` and `pos` are one field here, the bytes
-- from `pos` on.
pub mod Spelling
pub mod Total
pub mod Reads
pub mod RoundTrip
use llm_guardrail_gateway.Base.{
  ℕ, zero, suc, ◌+◌, Bool, true, false, ◌&&◌, ◌||◌, Bytes, codes, lookup, take_while, drop_while,
  Option, none, some, List, [], ◌∷◌, length, drop, leb, ◌==◌, if◌then◌else◌,
}
use llm_guardrail_gateway.Base.Result.{Result, ok, err, ◌>>=◌}
use llm_guardrail_gateway.Dsl.Token.{
  TokenType, t_ident, t_string, t_number, t_gt, t_lt, t_eq, t_lbrace, t_rbrace, t_lbracket,
  t_rbracket, t_comma, t_colon, t_eof, Token, keywords, SyntaxError, unexpected_character,
  unterminated_string, unterminated_string_at_eof, out_of_fuel,
}

pub record Lexer : Type 0 where
  pub rest : Bytes
  pub line : ℕ

unfoldable pub is_digit : ℕ → Bool
is_digit ch = leb b'0' ch && leb ch b'9'

unfoldable pub is_ident_start : ℕ → Bool
is_ident_start ch = ch == b'_' || (leb b'a' ch && leb ch b'z') || (leb b'A' ch && leb ch b'Z')

unfoldable pub is_ident_continue : ℕ → Bool
is_ident_continue ch = is_ident_start ch || is_digit ch || ch == b'.' || ch == b'-'

-- `unicode.IsSpace(rune(ch))` at a byte: the Latin-1 spaces
unfoldable pub is_space : ℕ → Bool
is_space ch = (leb 9 ch && leb ch 13) || ch == 32 || ch == 0x85 || ch == 0xa0

-- `skipWhitespaceAndComments`; the flag says that the inner loop, over a comment, is running, which
-- stops in front of the newline and leaves that to the outer loop.
unfoldable pub skip : Bool → Bytes → ℕ → Lexer
skip comment [] line = record { rest = []; line = line }
skip true (ch ∷ cs) line = elim (ch == b'\n') [
  | true ↦ skip false cs (line + 1)
  | false ↦ skip true cs line
]
skip false (ch ∷ cs) line = elim (ch == b'\n') [
  | true ↦ skip false cs (line + 1)
  | false ↦ elim (is_space ch) [
    | true ↦ skip false cs line
    | false ↦ elim (ch == b'#') [
      | true ↦ skip true cs line
      | false ↦ record { rest = ch ∷ cs; line = line }
    ]
  ]
]

unfoldable pub skip_whitespace_and_comments : Lexer → Lexer
skip_whitespace_and_comments l = skip false l.rest l.line

-- `peek(1)`, from the bytes behind the current one
unfoldable pub peek : Bytes → ℕ
peek [] = 0
peek (ch ∷ cs) = ch

-- `l.pos+1 < len(l.src) && isDigit(l.src[l.pos+1])`
unfoldable pub digit_follows : Bytes → Bool
digit_follows [] = false
digit_follows (ch ∷ cs) = is_digit ch

-- `readString` behind the opening quote: the content and what follows the closing quote
unfoldable pub read_string : Bytes → ℕ → Result SyntaxError (Bytes × Bytes)
read_string [] line = err (unterminated_string_at_eof line)
read_string (ch ∷ cs) line =
    if ch == b'"'
    then ok ([], cs)
    else if ch == b'\n'
    then err (unterminated_string line)
    else (do (s, rest) ← read_string cs line; ok (ch ∷ s, rest))

unfoldable pub is_number_byte : ℕ → Bool
is_number_byte ch = is_digit ch || ch == b'.'

unfoldable pub read_number : ℕ → Bytes → Bytes × Bytes
read_number ch cs =
    if ch == b'-'
    then (ch ∷ take_while is_number_byte cs, drop_while is_number_byte cs)
    else (take_while is_number_byte (ch ∷ cs), drop_while is_number_byte (ch ∷ cs))

unfoldable pub read_ident : ℕ → Bytes → Bytes × Bytes
read_ident ch cs = (take_while is_ident_continue (ch ∷ cs), drop_while is_ident_continue (ch ∷ cs))

-- `tt, ok := keywords[word]; if !ok { tt = TIDENT }`
unfoldable pub keyword_type : Bytes → TokenType
keyword_type word = elim (lookup word keywords) [ none ↦ t_ident | some tok ↦ tok ]

abbrev token : TokenType → Bytes → ℕ → Bytes → Result SyntaxError (Token × Lexer)
token type literal line rest =
    ok (record { type = type; literal = literal; line = line }, record { rest = rest; line = line })

-- the `switch` of `run`, at the byte `ch` with `cs` behind it
unfoldable pub lex_token : ℕ → Bytes → ℕ → Result SyntaxError (Token × Lexer)
lex_token ch cs line =
    if ch == b'"'
    then (do (s, rest) ← read_string cs line; token t_string s line rest)
    else if ch == b'>'
    then token t_gt (codes ">") line cs
    else if ch == b'<'
    then token t_lt (codes "<") line cs
    else if ch == b'=' && peek cs == b'='
    then token t_eq (codes "==") line (drop 1 cs)
    else if ch == b'{'
    then token t_lbrace (codes "{") line cs
    else if ch == b'}'
    then token t_rbrace (codes "}") line cs
    else if ch == b'['
    then token t_lbracket (codes "[") line cs
    else if ch == b']'
    then token t_rbracket (codes "]") line cs
    else if ch == b','
    then token t_comma (codes ",") line cs
    else if ch == b':'
    then token t_colon (codes ":") line cs
    else if is_digit ch || (ch == b'-' && digit_follows cs)
    then (let (num, rest) = read_number ch cs in token t_number num line rest)
    else if is_ident_start ch
    then (let (word, rest) = read_ident ch cs in token (keyword_type word) word line rest)
    else err (unexpected_character line ch)

-- A round of the loop in `run` behind the skip: at the end of the source the last token, else a token
-- and the lexer behind it.
unfoldable pub lex_at : Bytes → ℕ → Result SyntaxError (Token × Option Lexer)
lex_at [] line = ok (record { type = t_eof; literal = []; line = line }, none)
lex_at (ch ∷ cs) line = do (t, l) ← lex_token ch cs line; ok (t, some l)

unfoldable pub lex_round : Lexer → Result SyntaxError (Token × Option Lexer)
lex_round l = let start = skip_whitespace_and_comments l in lex_at start.rest start.line

-- the end of a round: the loop stops or goes on
unfoldable pub proceed :
    (Lexer → Result SyntaxError (List Token))
    → Token
    → Option Lexer
    → Result SyntaxError (List Token)
proceed again t none = ok (t ∷ [])
proceed again t (some l) = do ts ← again l; ok (t ∷ ts)

-- `run`, with fuel for its rounds
unfoldable pub run : ℕ → Lexer → Result SyntaxError (List Token)
run zero l = err out_of_fuel
run (suc fuel) l = do (t, next) ← lex_round l; proceed (run fuel) t next

-- Each round but the last consumes a byte, so the fuel is enough (`Lexer.Total`).
unfoldable pub lex : Bytes → Result SyntaxError (List Token)
lex src = run (length src + 1) (record { rest = src; line = 1 })
