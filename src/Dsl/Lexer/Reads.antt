-- ===== src/Dsl/Lexer/Reads.antt =====
-- What one token is spelled as is read back.
use llm_guardrail_gateway.Base.{
  ℕ, ◌≡◌, refl, true, false, Bytes, some, [], ◌∷◌, ◌++◌, ◌==◌, arith, append_assoc, ◌&&◌, ◌||◌,
  lookup,
}
use llm_guardrail_gateway.Base.Result.{ok}
use llm_guardrail_gateway.Dsl.Lexer.Spelling.{
  AllBytes, IsSpelled, word, quoted, digits, negative, sign, is_string_byte, symbol, spell,
  take_while-AllBytes_append, drop_while-AllBytes_append,
}
use llm_guardrail_gateway.Dsl.Lexer.{
  is_digit, is_ident_start, is_ident_continue, is_number_byte, keyword_type, read_string,
  read_number, read_ident, digit_follows, lex_token, lex_at, token, peek,
}
use llm_guardrail_gateway.Dsl.Token.{TokenType, is, t_string, t_number}

abbrev pub Reads : Bytes → TokenType → Bytes → Bytes → ℕ → Type 0
Reads text ty s rest line =
    lex_at (text ++ b' ' ∷ rest) line
    ≡ ok (
      record { type = ty; literal = s; line = line },
      some (record { rest = b' ' ∷ rest; line = line }),
    )

pub keyword_type-is_string : (w : Bytes) → is (keyword_type w) t_string ≡ false
unfolding keyword_type lookup is
keyword_type-is_string w = ground arith

read_string-spell :
    (s rest : Bytes) (line : ℕ)
    → AllBytes is_string_byte s
    → read_string (s ++ b'"' ∷ rest) line ≡ ok (s, rest)
unfolding read_string
read_string-spell [] rest line h = refl
read_string-spell (c ∷ cs) rest line (h, t) = ground (arith, read_string-spell cs rest line t)

lex_token_word :
    (c : ℕ) (cs : Bytes) (line : ℕ)
    → is_ident_start c ≡ true
    → lex_token c cs line ≡ (let (w, rest) = read_ident c cs in token (keyword_type w) w line rest)
unfolding lex_token is_ident_start is_digit
lex_token_word c cs line h = ground arith

lex_token_number :
    (c : ℕ) (cs : Bytes) (line : ℕ)
    → is_digit c || (c == b'-' && digit_follows cs) ≡ true
    → lex_token c cs line ≡ (let (n, rest) = read_number c cs in token t_number n line rest)
unfolding lex_token is_digit
lex_token_number c cs line h = ground arith

digit_not_minus : (c : ℕ) → is_digit c ≡ true → (c == b'-' ≡ false) × (is_number_byte c ≡ true)
unfolding is_digit is_number_byte
digit_not_minus c h = ground arith

number_stops : is_number_byte b' ' ≡ false
unfolding is_number_byte is_digit
number_stops = refl

module _ (rest : Bytes) (line : ℕ) where
  word-Reads :
      (c : ℕ) (cs : Bytes)
      → is_ident_start c ≡ true
      → AllBytes is_ident_continue cs
      → Reads (c ∷ cs) (keyword_type (c ∷ cs)) (c ∷ cs) rest line
  unfolding lex_at read_ident
  word-Reads c cs h all = rw (
    lex_token_word c (cs ++ b' ' ∷ rest) line h,
    take_while-AllBytes_append is_ident_continue b' ' rest space_stops (c ∷ cs) (start, all),
    drop_while-AllBytes_append is_ident_continue b' ' rest space_stops (c ∷ cs) (start, all),
  )
    where
      space_stops : is_ident_continue b' ' ≡ false
      space_stops = unfold is_ident_continue is_ident_start is_digit in refl

      start : is_ident_continue c ≡ true
      start = unfold is_ident_continue in rw h

  symbol-Reads :
      (ty : TokenType) (s : Bytes) → symbol ty ≡ some s → Reads (spell ty s) ty s rest line
  unfolding lex_at lex_token is peek
  symbol-Reads t_string s e = cc
  symbol-Reads _ s e = ground arith

  number-Reads :
      (c : ℕ) (cs : Bytes)
      → is_digit c ≡ true
      → AllBytes is_number_byte cs
      → Reads (c ∷ cs) t_number (c ∷ cs) rest line
  unfolding lex_at read_number
  number-Reads c cs h all =
      let (no_minus, byte) = digit_not_minus c h in
      rw (
        lex_token_number c (cs ++ b' ' ∷ rest) line (rw h),
        no_minus,
        take_while-AllBytes_append is_number_byte b' ' rest number_stops (c ∷ cs) (byte, all),
        drop_while-AllBytes_append is_number_byte b' ' rest number_stops (c ∷ cs) (byte, all),
      )

  negative-Reads :
      (c : ℕ) (cs : Bytes)
      → is_digit c ≡ true
      → AllBytes is_number_byte cs
      → Reads (b'-' ∷ c ∷ cs) t_number (b'-' ∷ c ∷ cs) rest line
  unfolding lex_at read_number
  negative-Reads c cs h all =
      let (_, byte) = digit_not_minus c h in
      rw (
        lex_token_number b'-' (c ∷ (cs ++ b' ' ∷ rest)) line (unfold digit_follows is_digit in h),
        take_while-AllBytes_append is_number_byte b' ' rest number_stops (c ∷ cs) (byte, all),
        drop_while-AllBytes_append is_number_byte b' ' rest number_stops (c ∷ cs) (byte, all),
      )

pub spell-Reads :
    (rest : Bytes) (line : ℕ) {ty : TokenType} {s : Bytes}
    → IsSpelled ty s
    → Reads (spell ty s) ty s rest line
spell-Reads rest line (word {c} {cs} h all e) =
    rw (← e, keyword_type-is_string (c ∷ cs)) (word-Reads rest line c cs h all)
spell-Reads rest line (quoted {s} e all) = rw e (
    unfold is lex_at lex_token in
    rw (append_assoc s (b'"' ∷ []) (b' ' ∷ rest), read_string-spell s (b' ' ∷ rest) line all))
spell-Reads rest line (digits {c} {cs} e h all) =
    rw e (unfold is in number-Reads rest line c cs h all)
spell-Reads rest line (negative {c = c} {cs = cs} e m h all) =
    rw (e, m) (unfold is in negative-Reads rest line c cs h all)
spell-Reads rest line (sign {s} {ty} e) = symbol-Reads rest line ty s e
