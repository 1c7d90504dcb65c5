-- ===== src/Dsl/Lexer/RoundTrip.antt =====
-- A source of spelled tokens, a blank between them, is read back.
use llm_guardrail_gateway.Base.{
  ℕ, zero, suc, ◌≤◌, ◌<◌, ◌≡◌, refl, ap, true, false, Bytes, none, some, List, [], ◌∷◌, ◌++◌, ◌==◌,
  length, length-append, arith,
}
use llm_guardrail_gateway.Base.Result.{Result, ok}
use llm_guardrail_gateway.Dsl.Lexer.Spelling.{
  IsSpelled, word, quoted, digits, negative, sign, symbol, spell,
}
use llm_guardrail_gateway.Dsl.Lexer.Reads.{spell-Reads, keyword_type-is_string}
use llm_guardrail_gateway.Dsl.Lexer.{
  Lexer, is_space, is_digit, is_ident_start, skip, skip_whitespace_and_comments, lex_at, lex_round,
  run, lex, proceed,
}
use llm_guardrail_gateway.Dsl.Token.{Token, TokenType, is, t_string, t_eof, SyntaxError}

-- A token without its line.
abbrev pub Lexeme : Type 0
Lexeme = TokenType × Bytes

abbrev pub AllSpelled : List Lexeme → Type 0
AllSpelled [] = Unit
AllSpelled ((ty, s) ∷ ts) = IsSpelled ty s × AllSpelled ts

-- The tokens with a blank before each, and one at the end.
unfoldable pub spell_all : List Lexeme → Bytes
spell_all [] = b' ' ∷ []
spell_all ((ty, s) ∷ ts) = b' ' ∷ (spell ty s ++ spell_all ts)

-- the tokens on one line, and the end-of-file token
abbrev pub on_line : ℕ → List Lexeme → List Token
on_line line [] = record { type = t_eof; literal = []; line = line } ∷ []
on_line line ((ty, s) ∷ ts) = record { type = ty; literal = s; line = line } ∷ on_line line ts

-- The skip stops at the first byte of a token.
abbrev Stops : ℕ → Type 0
Stops c = (c == b'\n' ≡ false) × (is_space c ≡ false) × (c == b'#' ≡ false)

abbrev StopsAt : Bytes → Type 0
StopsAt [] = ⊥
StopsAt (c ∷ cs) = Stops c

ident_start-Stops : (c : ℕ) → is_ident_start c ≡ true → Stops c
unfolding is_ident_start is_space
ident_start-Stops c h = ground arith

digit-Stops : (c : ℕ) → is_digit c ≡ true → Stops c
unfolding is_digit is_space
digit-Stops c h = ground arith

symbol-StopsAt : (ty : TokenType) (s : Bytes) → symbol ty ≡ some s → StopsAt (spell ty s)
unfolding is is_space
symbol-StopsAt t_string s e = cc
symbol-StopsAt _ s e = ground arith

spell-StopsAt : {ty : TokenType} {s : Bytes} → IsSpelled ty s → StopsAt (spell ty s)
unfolding is is_space
spell-StopsAt (word {c} {cs} h all e) =
    rw (← e, keyword_type-is_string (c ∷ cs)) (ident_start-Stops c h)
spell-StopsAt (quoted e all) = rw e (refl, refl, refl)
spell-StopsAt (digits {c} e h all) = rw e (digit-Stops c h)
spell-StopsAt (negative e m h all) = rw (e, m) (refl, refl, refl)
spell-StopsAt (sign {s} {ty} e) = symbol-StopsAt ty s e

skip_stop :
    (c : ℕ) (cs : Bytes) (line : ℕ)
    → Stops c
    → skip false (c ∷ cs) line ≡ record { rest = c ∷ cs; line = line }
unfolding skip
skip_stop c cs line h = ground arith

skip-StopsAt :
    (text rest : Bytes) (line : ℕ)
    → StopsAt text
    → skip false (b' ' ∷ (text ++ rest)) line ≡ record { rest = text ++ rest; line = line }
unfolding skip is_space
skip-StopsAt [] rest line h = absurd h
skip-StopsAt (c ∷ cs) rest line h = skip_stop c (cs ++ rest) line h

lex_round-spell :
    (rest : Bytes) (line : ℕ) {ty : TokenType} {s : Bytes}
    → IsSpelled ty s
    → lex_round (record { rest = b' ' ∷ (spell ty s ++ b' ' ∷ rest); line = line })
      ≡ ok (
        record { type = ty; literal = s; line = line },
        some (record { rest = b' ' ∷ rest; line = line }),
      )
unfolding lex_round skip_whitespace_and_comments
lex_round-spell rest line {ty = ty} {s = s} h =
    rw (skip-StopsAt (spell ty s) (b' ' ∷ rest) line (spell-StopsAt h)) (spell-Reads rest line h)

-- a spelled source begins with a blank
abbrev behind_blank : List Lexeme → Bytes
behind_blank [] = []
behind_blank ((ty, s) ∷ ts) = spell ty s ++ spell_all ts

spell_all-blank : (ts : List Lexeme) → spell_all ts ≡ b' ' ∷ behind_blank ts
unfolding spell_all
spell_all-blank [] = refl
spell_all-blank (t ∷ ts) = refl

spell_all-cons :
    (ty : TokenType) (s : Bytes) (ts : List Lexeme)
    → spell_all ((ty, s) ∷ ts) ≡ b' ' ∷ (spell ty s ++ b' ' ∷ behind_blank ts)
unfolding spell_all
spell_all-cons ty s ts = ap (λ t. b' ' ∷ (spell ty s ++ t)) (spell_all-blank ts)

lex_round_blank :
    (line : ℕ)
    → lex_round (record { rest = spell_all []; line = line })
      ≡ ok (record { type = t_eof; literal = []; line = line }, none)
unfolding lex_round skip_whitespace_and_comments skip lex_at is_space spell_all
lex_round_blank line = refl

proceed-ok :
    (again : Lexer → Result SyntaxError (List Token)) (t : Token) (l : Lexer) {ts : List Token}
    → again l ≡ ok ts
    → proceed again t (some l) ≡ ok (t ∷ ts)
unfolding proceed
proceed-ok again t l e = rw e

run-spell_all :
    (ts : List Lexeme) (fuel line : ℕ)
    → AllSpelled ts
    → length ts < fuel
    → run fuel (record { rest = spell_all ts; line = line }) ≡ ok (on_line line ts)
unfolding run
run-spell_all ts zero line h lt = absurd (omega arith)
run-spell_all [] (suc fuel) line h lt = rw (lex_round_blank line) (unfold proceed in refl)
run-spell_all ((ty, s) ∷ ts) (suc fuel) line (h, hs) lt =
    rw (spell_all-cons ty s ts, lex_round-spell (behind_blank ts) line h)
      (proceed-ok (run fuel) _ _
        (rw (← spell_all-blank ts) (run-spell_all ts fuel line hs (omega arith))))

length-le-spell_all : (ts : List Lexeme) → length ts ≤ length (spell_all ts)
unfolding spell_all
length-le-spell_all [] = omega arith
length-le-spell_all ((ty, s) ∷ ts) =
    omega (arith, length-le-spell_all ts, length-append (spell ty s) (spell_all ts))

-- A source that spells tokens with blanks between them is lexed to these tokens, all on its one
-- line, and the end-of-file token.
pub lex-spell_all : (ts : List Lexeme) → AllSpelled ts → lex (spell_all ts) ≡ ok (on_line 1 ts)
unfolding lex
lex-spell_all ts h = run-spell_all ts _ 1 h (omega (arith, length-le-spell_all ts))
